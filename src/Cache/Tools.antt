-- ===== src/Cache/Tools.antt =====
-- internal/cache/key.go, `ToolCache`: the digests of tools, each computed once. The search along PATH
-- and the digest of a file are parameters.
use buildforge.Prelude.{
  ◌≡◌, refl, sym, ap, ◌∙◌, subst, Str, Str-cases, update, update_self, update_ne, Option, none,
  some, Result, ok, err, Option-cases, inl, inr,
}

pub data ToolError : Type 0 where
  not_found : Str → ToolError
  unreadable : Str → ToolError

-- `ToolCache`, the digests by the paths of the tools
pub record ToolCache : Type 0 where
  pub digests : Str → Option Str

-- `NewToolCache`
abbrev pub new_tool_cache : ToolCache
new_tool_cache = record { digests = λ _. none }

module _ (look_path : Str → Option Str) (digest_file : Str → Option Str) where
  -- `Digest`, which holds the mutex from the look at the map on
  unfoldable pub tool_digest : Str → ToolCache → ToolCache × Result ToolError Str
  tool_digest name t = elim (look_path name) [
    | none ↦ (t, err (not_found name))
    | some path ↦ elim (t.digests path) [
      | some d ↦ (t, ok d)
      | none ↦ elim (digest_file path) [
        | none ↦ (t, err (unreadable path))
        | some d ↦ (record { digests = update t.digests path (some d) }, ok d)
      ]
    ]
  ]

  -- What is remembered is what the files still have.
  abbrev pub IsFresh : ToolCache → Type 0
  IsFresh t = (path d : Str) → t.digests path ≡ some d → digest_file path ≡ some d

  -- The digest of the tool's file, without a cache.
  abbrev pub file_of_tool : Str → Result ToolError Str
  file_of_tool name = elim (look_path name) [
    | none ↦ err (not_found name)
    | some path ↦ elim (digest_file path) [ none ↦ err (unreadable path) | some d ↦ ok d ]
  ]

  updated-IsFresh :
      (t : ToolCache) (path d : Str)
      → IsFresh t
      → digest_file path ≡ some d
      → IsFresh (record { digests = update t.digests path (some d) })
  updated-IsFresh t path d v e q x h = elim (Str-cases path q) [
    | inl same ↦
        let there : some d ≡ some x =
          sym (update_self t.digests path (some d))
          ∙ ap (update t.digests path (some d)) same
          ∙ h in
        subst (λ z. digest_file z ≡ some x) same (e ∙ there)
    | inr (ne, _) ↦ v q x (sym (update_ne t.digests path (some d) q ne) ∙ h)
  ]

  -- While the files of the tools stay as they were when they were digested, `Digest` gives what
  -- digesting the tool's file anew gives, errors included, and keeps the cache so.
  pub tool_digest-IsFresh :
      (name : Str) (t : ToolCache)
      → IsFresh t
      → ((tool_digest name t).1 ≡ file_of_tool name) × IsFresh (tool_digest name t).0
  unfolding tool_digest
  tool_digest-IsFresh name t v = elim (Option-cases (look_path name)) [
    | inl e ↦ rw (e, tool_digest, file_of_tool) (refl, v)
    | inr (path, e) ↦ elim (Option-cases (t.digests path)) [
      | inr (d, known) ↦ rw (e, known, v path d known, tool_digest, file_of_tool) (refl, v)
      | inl unknown ↦ elim (Option-cases (digest_file path)) [
        | inl bad ↦ rw (e, unknown, bad, tool_digest, file_of_tool) (refl, v)
        | inr (d, read) ↦
            rw (e, unknown, read, tool_digest, file_of_tool) (refl, updated-IsFresh t path d v read)
      ]
    ]
  ]
