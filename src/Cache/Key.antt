-- ===== src/Cache/Key.antt =====
-- internal/cache/key.go, `Key`: the bytes that are digested. The platform and the digests of the tool
-- and of the inputs are parameters.
pub mod Framing
pub mod Determines
use buildforge.Prelude.{
  decimal, ℕ, zero, suc, ◌+◌, ◌/◌, ◌%◌, Str, bytes, str_eq, sort_strings, List, [], ◌∷◌, ◌++◌, map,
  length, ltb, if◌then◌else◌, Option, none, some, Result, ok, err,
}
use buildforge.Manifest.{Action}
use buildforge.Cache.Store.{Workspace}

-- A tag and a value, as `write` takes them.
abbrev pub Field : Type 0
Field = Str × Str

-- `write`
abbrev pub write : Field → Str
write f = f.0 ++ (32 ∷ (decimal (length f.1) ++ (10 ∷ (f.1 ++ (10 ∷ [])))))

-- What `buf` holds after the fields were written.
abbrev pub encode : List Field → Str
encode [] = []
encode (f ∷ fs) = write f ++ encode fs

-- `a.Env[k]`
abbrev pub value_of : Str → List (Str × Str) → Str
value_of k [] = []
value_of k ((x, v) ∷ env) = if str_eq x k then v else value_of k env

-- The variables with their values.
abbrev pub env_values : List (Str × Str) → List Str → List Str
env_values env [] = []
env_values env (k ∷ ks) = (k ++ (61 ∷ value_of k env)) ∷ env_values env ks

abbrev pub sorted_env : Action → List Str
sorted_env a = env_values a.env (sort_strings (map (λ (b : Str × Str). b.0) a.env))

abbrev pub tagged : Str → List Str → List Field
tagged tag [] = []
tagged tag (v ∷ vs) = (tag, v) ∷ tagged tag vs

-- The inputs with their digests.
abbrev pub input_values : (Str → Str) → List Str → List Str
input_values digests [] = []
input_values digests (p ∷ ps) = (p ++ (32 ∷ digests p)) ∷ input_values digests ps

abbrev pub sorted_inputs : (Str → Str) → Action → List Str
sorted_inputs digests a = input_values digests (sort_strings a.inputs)

-- The loops over one kind of text after the other.
abbrev pub write_groups : List (Str × List Str) → List Field
write_groups [] = []
write_groups ((tag, vs) ∷ gs) = tagged tag vs ++ write_groups gs

abbrev pub groups : (platform tool : Str) → (Str → Str) → Action → List (Str × List Str)
groups platform tool digests a =
    (bytes "version", bytes "buildforge-key-v1" ∷ [])
    ∷ (bytes "platform", platform ∷ [])
    ∷ (bytes "arg", a.command)
    ∷ (bytes "env", sorted_env a)
    ∷ (bytes "tool", tool ∷ [])
    ∷ (bytes "input", sorted_inputs digests a)
    ∷ (bytes "output", sort_strings a.outputs)
    ∷ []

-- Everything that `Key` writes, in order.
abbrev pub key_bytes : (platform tool : Str) → (Str → Str) → Action → Str
key_bytes platform tool digests a = encode (write_groups (groups platform tool digests a))

pub data KeyError : Type 0 where
  -- `a.Command[0]` of an empty command, which is a panic
  no_command : KeyError
  no_tool : Str → KeyError
  no_input : Str → KeyError

-- The error of `digest.Files`, which reads every input: one that is missing.
unfoldable pub first_unreadable : List Str → Workspace → Option Str
first_unreadable [] ws = none
first_unreadable (p ∷ ps) ws = elim (ws p) [ none ↦ some p | some _ ↦ first_unreadable ps ws ]

abbrev pub file_digest : (List ℕ → Str) → Workspace → Str → Str
file_digest digest ws p = elim (ws p) [ none ↦ [] | some f ↦ digest f.content ]

-- `Key`, over the files of the workspace; `tool` is `ToolCache.Digest`.
unfoldable pub key :
    (List ℕ → Str)
    → (platform : Str) → (tool : Str → Option Str) → Workspace
    → Action
    → Result KeyError Str
unfolding first_unreadable
key digest platform tool ws a = elim a.command [
  | [] ↦ err no_command
  | c ∷ _ ↦ elim (tool c) [
    | none ↦ err (no_tool c)
    | some t ↦ elim (first_unreadable (sort_strings a.inputs) ws) [
      | some p ↦ err (no_input p)
      | none ↦ ok (digest (key_bytes platform t (file_digest digest ws) a))
    ]
  ]
]
