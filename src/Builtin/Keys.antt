-- ===== src/Builtin/Keys.antt =====
-- The resource keys of the built-in tools: when two calls have one in common.
use g.Base.{
  ◌≡◌, refl, Bool, true, false, List, [], ◌∷◌, ◌++◌, Str, txt, arith, Bool-cases, inl, inr, str_eq,
  str_eq_iff, is_empty,
}
use g.Json.{JsonLib}
use g.Types.{ToolCall}
use g.Graph.{shares, holds}
use g.Builtin.{read_resources, write_resources, arg_string}

-- The keys of a call to a built-in tool, other than a write to a file that is called `*`.
pub data Keys : List Str → Type 0 where
  unknown : Keys []
  reads : (p : Str) → Keys ((txt "file:read:" ++ p) ∷ [])
  writes :
      (p : Str)
      → str_eq (txt "*") p ≡ false
      → Keys ((txt "file:read:" ++ p) ∷ (txt "file:write:" ++ p) ∷ [])
  writes_nowhere : Keys (txt "file:write:*" ∷ [])
  shell : Keys (txt "shell" ∷ [])

-- Are there two first keys, and are they the same?
unfoldable pub same_head : List Str → List Str → Bool
same_head [] bs = false
same_head (a ∷ rest) [] = false
same_head (a ∷ rest) (b ∷ bs) = str_eq a b

pub shares-same_head : {a b : List Str} → Keys a → Keys b → shares a b ≡ same_head a b
unfolding shares holds same_head str_eq
shares-same_head unknown kb = refl
shares-same_head (reads p) unknown = refl
shares-same_head (reads p) (reads q) = ground arith
shares-same_head (reads p) (writes q n) = ground arith
shares-same_head (reads p) writes_nowhere = refl
shares-same_head (reads p) shell = refl
shares-same_head (writes p m) unknown = refl
shares-same_head (writes p m) (reads q) = ground arith
shares-same_head (writes p m) (writes q n) = ground arith
shares-same_head (writes p m) writes_nowhere =
    ground (arith, str_eq_iff p (txt "*"), str_eq_iff (txt "*") p, m)
shares-same_head (writes p m) shell = refl
shares-same_head writes_nowhere unknown = refl
shares-same_head writes_nowhere (reads q) = refl
shares-same_head writes_nowhere (writes q n) = ground (arith, n)
shares-same_head writes_nowhere writes_nowhere = refl
shares-same_head writes_nowhere shell = refl
shares-same_head shell unknown = refl
shares-same_head shell (reads q) = refl
shares-same_head shell (writes q n) = refl
shares-same_head shell writes_nowhere = refl
shares-same_head shell shell = refl

pub same_head_trans :
    (a b c : List Str) → same_head a b ≡ true → same_head b c ≡ true → same_head a c ≡ true
unfolding same_head
same_head_trans [] b c h k = cc h
same_head_trans (x ∷ a) [] c h k = cc h
same_head_trans (x ∷ a) (y ∷ b) [] h k = cc k
same_head_trans (x ∷ a) (y ∷ b) (z ∷ c) h k =
    ground (arith, h, k, str_eq_iff x y, str_eq_iff y z, str_eq_iff x z)

module _ (j : JsonLib) where
  pub read_resources-Keys : (c : ToolCall) → Keys (read_resources j c)
  unfolding read_resources
  read_resources-Keys c = elim (Bool-cases (is_empty (arg_string j c.arguments (txt "path")))) [
    | inl e ↦ rw (read_resources, e) (reads (txt "*"))
    | inr e ↦ rw (read_resources, e) (reads (arg_string j c.arguments (txt "path")))
  ]

  pub write_resources-Keys :
      (c : ToolCall)
      → str_eq (txt "*") (arg_string j c.arguments (txt "path")) ≡ false
      → Keys (write_resources j c)
  unfolding write_resources
  write_resources-Keys c named =
      elim (Bool-cases (is_empty (arg_string j c.arguments (txt "path")))) [
        | inl e ↦ rw (write_resources, e) writes_nowhere
        | inr e ↦ rw (write_resources, e) (writes (arg_string j c.arguments (txt "path")) named)
      ]
