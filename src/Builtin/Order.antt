-- ===== src/Builtin/Order.antt =====
-- The calls of a turn to the built-in tools: those that conflict keep their order.
use g.Base.{
  ℕ, zero, suc, ◌≡◌, ◌≢◌, refl, true, false, ◌||◌, List, [], ◌∷◌, Option, Str, txt, ◌==◌,
  if◌then◌else◌, arith, str_eq, All, get_or, is_empty, ◌⊎◌, leb, length,
}
use g.Json.{JsonLib}
use g.Types.{ToolCall}
use g.Graph.{DependencyGraph, has_conflict}
use g.Builtin.{arg_string}
use g.Builtin.Keys.{Keys, unknown, same_head, same_head_trans, shares-same_head}

get_or-Keys : (rs : List (List Str)) (i : ℕ) → All Keys rs → Keys (get_or rs i [])
get_or-Keys [] i h = unknown
get_or-Keys (r ∷ rs) zero h = h.0
get_or-Keys (r ∷ rs) (suc i) h = get_or-Keys rs i h.1

has_conflict-same_head :
    (d : DependencyGraph) (a b : ℕ)
    → All Keys d.resources
    → has_conflict d a b ≡ (
        if a == b || (leb (length d.calls) a || leb (length d.calls) b)
        then false
        else same_head (get_or d.resources a []) (get_or d.resources b []))
unfolding has_conflict
has_conflict-same_head d a b k =
    rw (shares-same_head (get_or-Keys d.resources a k) (get_or-Keys d.resources b k)) refl

-- Conflicts between such calls are transitive.
pub has_conflict_trans :
    (d : DependencyGraph) (x y z : ℕ)
    → All Keys d.resources
    → x ≢ z
    → has_conflict d x y ≡ true
    → has_conflict d y z ≡ true
    → has_conflict d x z ≡ true
has_conflict_trans d x y z k ne h g =
    let keys = λ (i : ℕ). get_or d.resources i [] in
    let trans = same_head_trans (keys x) (keys y) (keys z) in
    ground (
      arith,
      trans,
      h,
      g,
      ne,
      has_conflict-same_head d x y k,
      has_conflict-same_head d y z k,
      has_conflict-same_head d x z k,
    )

-- The call does not write to a file that is called `*`.
abbrev pub Named : JsonLib → ToolCall → Type 0
Named j c = str_eq (txt "*") (arg_string j c.arguments (txt "path")) ≡ false

-- the path that the arguments of a call name
abbrev pub path_of : JsonLib → ToolCall → Str
path_of j c = arg_string j c.arguments (txt "path")

abbrev pub IsFileCall : ToolCall → Type 0
IsFileCall c = (str_eq (txt "read_file") c.name ≡ true) ⊎ (str_eq (txt "write_file") c.name ≡ true)

-- Two calls that read or write one file, or that both run a program.
pub data IsCoupled (j : JsonLib) (c e : ToolCall) : Type 0 where
  same_file :
      (p : Str)
      → IsFileCall c
      → IsFileCall e
      → path_of j c ≡ p
      → path_of j e ≡ p
      → is_empty p ≡ false
      → IsCoupled j c e
  programs : c.name ≡ txt "shell" → e.name ≡ txt "shell" → IsCoupled j c e
