-- ===== src/Mcp/Naming.antt =====
-- The names of remote tools, on both sides, and in the host's list and the registry.
use g.Base.{
  ℕ, ◌≡◌, ◌≢◌, refl, sym, subst, List, [], ◌∷◌, ◌++◌, Option, none, some, Str, txt, All, All-map,
  All-append, lookup, insert, lookup-insert, str_eq, length, drop, is_empty, Bool-cases,
  Option-cases, inl, inr, starts_with-append, lookup-insert_self, map-append,
}
use g.Json.{JsonLib}
use g.Tools.{Tool, find, register_tool, Registry}
use g.Mcp.Rpc.{Transport, Outcome-cases, new_client}
use g.Mcp.Host.{
  Store, McpToolSpec, full_name, remote_name, mcp_tool, call_peer, perform_mcp_handshake,
}
use g.Mcp.Attach.{
  McpHost, register_remote_tool, register_entries, register_tools_from_payload, list_tools, attach,
  tool_names, read_spec,
}

drop-append : (s t : Str) → drop (length s) (s ++ t) ≡ t
drop-append [] t = refl
drop-append (c ∷ s) t = drop-append s t

-- The host strips exactly what it put before the name: whatever the prefix, the server gets the name that it
-- announced.
pub remote_name-full_name : (prefix name : Str) → remote_name prefix (full_name prefix name) ≡ name
unfolding remote_name full_name
remote_name-full_name [] name = refl
remote_name-full_name (c ∷ p) name =
    rw (starts_with-append ((c ∷ p) ++ txt "__") name) (drop-append ((c ∷ p) ++ txt "__") name)

-- A lookup that gives something still does when a tool is registered.
find-register_tool :
    {Json Ctx World : Type 0} (name : Str) (t : Tool Json Ctx World) (r : Registry Json Ctx World)
    → find name r ≢ none
    → find name (register_tool (some t) r) ≢ none
unfolding find register_tool
find-register_tool name t r there =
    rw (lookup-insert name t.name t r)
      (elim (Bool-cases (str_eq t.name name)) [ inl e ↦ rw e (λ x. cc x) | inr e ↦ rw e there ])

find-register_tool_self :
    {Json Ctx World : Type 0} (name : Str) (t : Tool Json Ctx World) (r : Registry Json Ctx World)
    → name ≡ t.name
    → find name (register_tool (some t) r) ≡ some t
unfolding find register_tool
find-register_tool_self name t r same =
    subst (λ n. lookup n (insert t.name t r) ≡ some t) (sym same) (lookup-insert_self t.name t r)

module _ (j : JsonLib) (library_text : Str) {Ctx World : Type 0} where
  open j use {Json, parse, members, elements, of_members}

  abbrev pub IsKnown : Registry Json Ctx (Store Json World) → Str → Type 0
  IsKnown r name = find name r ≢ none

  -- Every name that the host lists is that of a tool in the registry.
  abbrev pub IsListed : McpHost j library_text Ctx World → Type 0
  IsListed h = All (IsKnown h.registry) (tool_names j library_text h)

  IsListed-add :
      (spec : McpToolSpec Json) (t : Tool Json Ctx (Store Json World))
      (h : McpHost j library_text Ctx World)
      → spec.name ≡ t.name
      → IsListed h
      → IsListed
          (record { tools = h.tools ++ spec ∷ []; registry = register_tool (some t) h.registry })
  unfolding tool_names
  IsListed-add spec t h same listed =
      let new : Registry Json Ctx (Store Json World) = register_tool (some t) h.registry in
      let found : find spec.name new ≡ some t =
        find-register_tool_self spec.name t h.registry same in
      subst (All (IsKnown new))
        (sym (map-append (λ (s : McpToolSpec Json). s.name) h.tools (spec ∷ [])))
        (All-append (IsKnown new) (tool_names j library_text h) (spec.name ∷ [])
          (All-map (IsKnown h.registry) (IsKnown new) (tool_names j library_text h)
            (λ name there. find-register_tool name t h.registry there) listed)
          (λ x. cc (found, x), tt))

  register_remote_tool-IsListed :
      (spec : McpToolSpec Json) (prefix : Str) (i : ℕ) (h : McpHost j library_text Ctx World)
      → IsListed h
      → IsListed (register_remote_tool j library_text spec prefix i h)
  unfolding register_remote_tool mcp_tool
  register_remote_tool-IsListed spec prefix i h listed = elim (Bool-cases (is_empty spec.name)) [
    | inl e ↦ rw (register_remote_tool, e) listed
    | inr e ↦
        rw (register_remote_tool, e)
          (IsListed-add (record spec { name = full_name prefix spec.name })
            (mcp_tool j library_text (full_name prefix spec.name) (some i) prefix) h refl listed)
  ]

  register_entries-IsListed :
      (ts : List Json) (prefix : Str) (i : ℕ) (h : McpHost j library_text Ctx World)
      → IsListed h
      → IsListed ((register_entries j library_text ts prefix i h).1)
  unfolding register_entries
  register_entries-IsListed [] prefix i h listed = listed
  register_entries-IsListed (t ∷ ts) prefix i h listed =
      elim (Option-cases (read_spec j library_text t)) [
        | inl e ↦ rw (register_entries, e) listed
        | inr (spec, e) ↦
            rw (register_entries, e)
              (register_entries-IsListed ts prefix i _
                (register_remote_tool-IsListed spec prefix i h listed))
      ]

  register_tools_from_payload-IsListed :
      (payload : Json) (prefix : Str) (i : ℕ) (h : McpHost j library_text Ctx World)
      → IsListed h
      → IsListed ((register_tools_from_payload j library_text payload prefix i h).1)
  unfolding register_tools_from_payload
  register_tools_from_payload-IsListed payload prefix i h listed =
      elim (Option-cases (members payload)) [
        | inl a ↦ rw (register_tools_from_payload, a) listed
        | inr (ms, a) ↦ elim (Option-cases (lookup (txt "tools") ms)) [
          | inl b ↦ rw (register_tools_from_payload, a, b) listed
          | inr (v, b) ↦ elim (Option-cases (elements v)) [
            | inl c ↦ rw (register_tools_from_payload, a, b, c) listed
            | inr (ts, c) ↦
                rw (register_tools_from_payload, a, b, c)
                  (register_entries-IsListed ts prefix i h listed)
          ]
        ]
      ]

  list_tools-IsListed :
      (prefix : Str) (i : ℕ) (h : McpHost j library_text Ctx World) (s : Store Json World)
      → IsListed h
      → IsListed ((list_tools j library_text prefix i h s).1)
  unfolding list_tools
  list_tools-IsListed prefix i h s listed =
      let shaken = perform_mcp_handshake j library_text i s in
      elim (Option-cases (shaken.0)) [
        | inr (message, a) ↦ rw (list_tools, a) listed
        | inl a ↦
            elim (Outcome-cases
              ((call_peer j library_text i (txt "tools/list") (of_members []) shaken.1).0)) [
                | inl (message, b) ↦ rw (list_tools, a, b) listed
                | inr (payload, b) ↦
                    rw (list_tools, a, b)
                      (register_tools_from_payload-IsListed payload prefix i h listed)
              ]
      ]

  -- Whatever the server answers, and where attaching it fails half-way too, every name that the host lists is
  -- afterwards that of a tool in the registry.
  pub attach-IsListed :
      (t : Option (Transport World)) (prefix : Str) (h : McpHost j library_text Ctx World)
      (s : Store Json World)
      → IsListed h
      → IsListed ((attach j library_text t prefix h s).1)
  unfolding attach
  attach-IsListed none prefix h s listed = listed
  attach-IsListed (some t) prefix h s listed =
      list_tools-IsListed prefix (length s.clients) h
        (record {
          clients = s.clients ++ record { transport = t; client = new_client } ∷ [];
          outside = s.outside;
        })
        listed
