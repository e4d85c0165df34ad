-- ===== src/Checks/ContextChecks.antt =====
-- Texts in three scripts, a tree before and after a write, and a manager with two results.
use g.Base.{
  ℕ, ◌≡◌, refl, ◌≤◌, false, List, [], ◌∷◌, none, some, Str, txt, arith, fnv1a, hex, lookup,
  contains, insert, str_eq,
}
use g.Json.{JsonLib}
use g.Digest.{decode_codepoints, decode_from, estimate_tokens, count_tokens, is_blank, extra, lead}
use g.Digest.Utf8.{encode_all, decode-encode_all}
use g.Facts.{digest_hex, open_memory, append, add_fact}
use g.SideEffects.{
  File, snapshot, snapshot_files, snapshot_file, diff, hash_file, is_changed, changed_files,
  removed_files, is_seen,
}
use g.SideEffects.Stamps.{is_listed, find_file}
use g.SideEffects.Honest.{IsHonest, has_changed, is_listed-diff-snapshot}
use g.Context.{
  ContextManager, TurnContext, context_manager, append_fact, record_tool_result, rebuild_digest,
  render_working_set, render_head, render_digest, size_tokens,
}
use g.Context.Rebuilt.{start, filed, recorded, Files, digest-Reached}
use g.Context.Rendering.{known_ids, render_working_set-within}

-- a Latin letter, an accented one, a Chinese character and an emoji
abbrev scripts : List ℕ
scripts = 97 ∷ 233 ∷ 20013 ∷ 128512 ∷ []

decode_codepoints-emoji : decode_codepoints (240 ∷ 159 ∷ 152 ∷ 128 ∷ []) ≡ 128512 ∷ []
unfolding decode_codepoints decode_from extra lead
decode_codepoints-emoji = refl

decode-encode_all_example : decode_codepoints (encode_all scripts) ≡ scripts
decode-encode_all_example = decode-encode_all scripts (ground arith)

estimate_tokens-words : estimate_tokens (txt "two words") ≡ 2
unfolding estimate_tokens count_tokens decode_codepoints decode_from extra lead is_blank
estimate_tokens-words = refl

abbrev before_write : List File
before_write =
    record { path = txt "a"; stamp = some (1, 3); content = some (txt "old") }
    ∷ record { path = txt "b"; stamp = some (1, 1); content = some (txt "b") }
    ∷ []

abbrev after_write : List File
after_write =
    record { path = txt "a"; stamp = some (2, 3); content = some (txt "new") }
    ∷ record { path = txt "c"; stamp = some (2, 1); content = some (txt "c") }
    ∷ []

-- A write that keeps the time and the size.
abbrev hidden_write : List File
hidden_write =
    record { path = txt "a"; stamp = some (1, 3); content = some (txt "new") }
    ∷ record { path = txt "b"; stamp = some (1, 1); content = some (txt "b") }
    ∷ []

diff-write : diff (snapshot before_write []) after_write ≡ txt "a" ∷ txt "c" ∷ txt "b" ∷ []
unfolding diff snapshot snapshot_files snapshot_file hash_file fnv1a hex is_changed changed_files
    removed_files is_seen lookup contains insert str_eq
diff-write = refl

written-IsHonest : IsHonest (find_file (txt "a") before_write) (find_file (txt "a") after_write)
unfolding find_file str_eq
written-IsHonest = record {
  stamped_old = ((1, 3), refl);
  stamped_new = ((2, 3), refl);
  honest = λ f g a b e. cc (a, b, e);
}

is_listed-diff-snapshot_example :
    is_listed (txt "a") (diff (snapshot before_write []) after_write)
    ≡ has_changed (find_file (txt "a") before_write) (find_file (txt "a") after_write)
unfolding find_file str_eq
is_listed-diff-snapshot_example =
    is_listed-diff-snapshot (txt "a") before_write after_write [] (refl, (refl, tt))
      (refl, (refl, tt)) written-IsHonest

-- Every text is an object with one member, itself.
abbrev pub json : JsonLib
json = record {
  Json = Str;
  null = [];
  is_null = λ s. false;
  parse = λ s. some s;
  dump = λ s. s;
  members = λ s. some ((txt "k", s) ∷ []);
  elements = λ s. none;
  as_string = λ s. some s;
  as_boolean = λ s. none;
  as_unsigned = λ s. none;
  integer_text = λ s. none;
  float_text = λ s. none;
  of_string = λ s. s;
  of_number = λ n. [];
  of_boolean = λ b. [];
  of_members = λ ms. [];
  of_elements = λ es. [];
}

abbrev manager : ContextManager
manager = append_fact (txt "t") (txt "v") (context_manager 100)

manager-Files : Files manager.store (digest_hex (txt "t") (txt "v"))
unfolding contains str_eq append digest_hex add_fact fnv1a hex Files append_fact context_manager
    open_memory insert
manager-Files = refl

digest-Reached_example :
    let m = record_tool_result json (digest_hex (txt "t") (txt "v")) manager in
    (rebuild_digest json m).digest ≡ m.digest
digest-Reached_example =
    digest-Reached json (record_tool_result json (digest_hex (txt "t") (txt "v")) manager) (
      recorded (digest_hex (txt "t") (txt "v")) manager
        (filed (txt "t") (txt "v") (context_manager 100) start) manager-Files)

abbrev no_results : TurnContext
no_results = record { goal = txt "g"; recent_tool_results = txt "absent" ∷ [] }

render_working_set-within_example :
    let ws = render_working_set no_results (context_manager 100) in
    (ws.token_count ≡ size_tokens ws.render)
    × (ws.fact_blocks ≡ known_ids (context_manager 100).store (txt "absent" ∷ []))
    × (ws.token_count ≤ (context_manager 100).max_working_tokens)
unfolding context_manager render_head render_digest
render_working_set-within_example =
    render_working_set-within no_results (context_manager 100) (omega arith)
