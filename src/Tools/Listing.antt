-- ===== src/Tools/Listing.antt =====
-- The two listings of the registry name the same tools.
use g.Base.{
  ◌≡◌, refl, sym, ap, ◌∙◌, List, [], ◌∷◌, map, All, Str, str_lt, Bool-cases, inl, inr, insert,
  str_eq, Option, none, some,
}
use g.Tools.{
  Tool, Registry, register_tool, list, names, insert_tool, sort_tools, insert_name, sort_names,
}

module _ {Json Ctx World : Type 0} where
  -- Each tool is filed under its name.
  abbrev pub IsKeyed : Registry Json Ctx World → Type 0
  IsKeyed r = All (λ e. e.0 ≡ e.1.name) r

  abbrev name : Tool Json Ctx World → Str
  name t = t.name

  map-insert_tool :
      (t : Tool Json Ctx World) (ts : List (Tool Json Ctx World))
      → map name (insert_tool t ts) ≡ insert_name t.name (map name ts)
  unfolding insert_tool insert_name
  map-insert_tool t [] = refl
  map-insert_tool t (u ∷ us) = elim (Bool-cases (str_lt u.name t.name)) [
    | inl e ↦ rw e (ap (◌∷◌ u.name) (map-insert_tool t us))
    | inr e ↦ rw e refl
  ]

  -- In a registry whose tools are filed under their names, the listing of the tools names, in its order, the
  -- tools of the listing of the names.
  pub map-list : (r : Registry Json Ctx World) → IsKeyed r → map name (list r) ≡ names r
  unfolding list names sort_tools sort_names
  map-list [] h = refl
  map-list ((k, t) ∷ r) (h, hs) =
      map-insert_tool t (list r)
      ∙ ap (insert_name t.name) (map-list r hs)
      ∙ ap (λ n. insert_name n (names r)) (sym h)

  -- Registering keeps each tool filed under its name.
  pub register_tool-IsKeyed :
      (t : Option (Tool Json Ctx World)) (r : Registry Json Ctx World)
      → IsKeyed r
      → IsKeyed (register_tool t r)
  unfolding register_tool insert
  register_tool-IsKeyed none r h = h
  register_tool-IsKeyed (some t) [] h = (refl, tt)
  register_tool-IsKeyed (some t) ((k, u) ∷ r) (h, hs) = elim (Bool-cases (str_eq k t.name)) [
    | inl e ↦ rw e (refl, hs)
    | inr e ↦ rw e (h, register_tool-IsKeyed (some t) r hs)
  ]
