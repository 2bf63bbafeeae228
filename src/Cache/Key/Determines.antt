-- ===== src/Cache/Key/Determines.antt =====
-- internal/cache/key.go, `Key`: what the digested bytes determine.
use buildforge.Prelude.{
  Bool, ◌==◌, ◌≡◌, refl, sym, ap, ◌∙◌, Str, bytes, str_eq, Bool-cases, inl, inr, List, [], ◌∷◌,
  ◌++◌, append-nil, if◌then◌else◌, sort_strings, count-sort, count-cons_self, map, In, subst,
  Str-cases, All, arith, true, false,
}
use buildforge.Manifest.{Action}
use buildforge.Cache.Key.{
  Field, tagged, write_groups, groups, key_bytes, sorted_env, sorted_inputs, env_values, value_of,
  input_values,
}
use buildforge.Cache.Key.Framing.{IsFree, cut, cut_last, encode-injective}

-- The texts under a tag.
values_of : Str → List Field → List Str
values_of t [] = []
values_of t (f ∷ fs) = if str_eq f.0 t then f.1 ∷ values_of t fs else values_of t fs

abbrev pick : Str → Str → List Str → List Str
pick t u vs = if str_eq u t then vs else []

values_of-tagged :
    (t u : Str) (vs : List Str) (fs : List Field)
    → values_of t (tagged u vs ++ fs) ≡ pick t u vs ++ values_of t fs
unfolding values_of
values_of-tagged t u [] fs = elim (Bool-cases (str_eq u t)) [
  | inl y ↦ rw y refl
  | inr y ↦ rw y refl
]
values_of-tagged t u (v ∷ vs) fs = elim (Bool-cases (str_eq u t)) [
  | inl y ↦ rw y (ap (λ z. v ∷ z) (values_of-tagged t u vs fs ∙ rw y refl))
  | inr y ↦ rw y (values_of-tagged t u vs fs ∙ rw y refl)
]

tagged-IsFree :
    (u : Str) (vs : List Str) (fs : List Field)
    → IsFree 32 u
    → All (λ (f : Field). IsFree 32 f.0) fs
    → All (λ (f : Field). IsFree 32 f.0) (tagged u vs ++ fs)
tagged-IsFree u [] fs h k = k
tagged-IsFree u (v ∷ vs) fs h k = (h, tagged-IsFree u vs fs h k)

abbrev picks : Str → List (Str × List Str) → List Str
picks t [] = []
picks t ((u, vs) ∷ gs) = pick t u vs ++ picks t gs

values_of-groups :
    (t : Str) (gs : List (Str × List Str)) → values_of t (write_groups gs) ≡ picks t gs
unfolding values_of
values_of-groups t [] = refl
values_of-groups t ((u, vs) ∷ gs) =
    values_of-tagged t u vs (write_groups gs) ∙ ap (λ z. pick t u vs ++ z) (values_of-groups t gs)

is_free : Str → Bool
is_free [] = true
is_free (c ∷ s) = if c == 32 then false else is_free s

is_free-IsFree : (s : Str) → is_free s ≡ true → IsFree 32 s
unfolding is_free
is_free-IsFree [] h = tt
is_free-IsFree (c ∷ s) h = ground (arith, is_free-IsFree s)

groups-IsFree :
    (gs : List (Str × List Str))
    → All (λ (g : Str × List Str). is_free g.0 ≡ true) gs
    → All (λ (f : Field). IsFree 32 f.0) (write_groups gs)
groups-IsFree [] h = tt
groups-IsFree ((u, vs) ∷ gs) h =
    tagged-IsFree u vs (write_groups gs) (is_free-IsFree u h.0) (groups-IsFree gs h.1)

key-IsFree :
    (p tool : Str) (digests : Str → Str) (a : Action)
    → All (λ (f : Field). IsFree 32 f.0) (write_groups (groups p tool digests a))
unfolding is_free
key-IsFree p tool digests a =
    groups-IsFree (groups p tool digests a)
      (refl, (refl, (refl, (refl, (refl, (refl, (refl, tt)))))))

-- The names of the variables.
abbrev pub variables : Action → List Str
variables a = map (λ (b : Str × Str). b.0) a.env

-- No `=` stands in a name.
abbrev HasNames : List Str → Type 0
HasNames ks = (k : Str) → In k ks → IsFree 61 k

tail-In : (k : Str) (ks : List Str) (q : Str) → In q ks → In q (k ∷ ks)
tail-In k ks q i = omega arith

env_values-determine :
    (env env' : List (Str × Str)) (ks ks' : List Str)
    → HasNames ks
    → HasNames ks'
    → env_values env ks ≡ env_values env' ks'
    → (ks ≡ ks') × ((k : Str) → In k ks → value_of k env ≡ value_of k env')
env_values-determine env env' [] [] f f' e = (refl, λ k i. absurd (omega arith))
env_values-determine env env' [] (k' ∷ ks') f f' e = absurd (cc e)
env_values-determine env env' (k ∷ ks) [] f f' e = absurd (cc e)
env_values-determine env env' (k ∷ ks) (k' ∷ ks') f f' e =
    let first : k ++ 61 ∷ value_of k env ≡ k' ++ 61 ∷ value_of k' env' = cc e in
    let (name, value) =
      cut 61 k k' (value_of k env) (value_of k' env') (f k (omega (arith, count-cons_self k ks)))
        (f' k' (omega (arith, count-cons_self k' ks'))) first in
    let (names, values) =
      env_values-determine env env' ks ks' (λ q i. f q (tail-In k ks q i))
        (λ q i. f' q (tail-In k' ks' q i)) cc in
    (
      cc (name, names),
      λ q i. elim (Str-cases k q) [
        | inl same ↦
            subst (λ z. value_of z env ≡ value_of z env') same
              (value ∙ ap (λ z. value_of z env') (sym name))
        | inr (_, other) ↦ values q (ground arith)
      ],
    )

input_values-determine :
    (d d' : Str → Str) (ps ps' : List Str)
    → ((q : Str) → IsFree 32 (d q))
    → ((q : Str) → IsFree 32 (d' q))
    → input_values d ps ≡ input_values d' ps'
    → (ps ≡ ps') × ((q : Str) → In q ps → d q ≡ d' q)
input_values-determine d d' [] [] f f' e = (refl, λ k i. absurd (omega arith))
input_values-determine d d' [] (p' ∷ ps') f f' e = absurd (cc e)
input_values-determine d d' (p ∷ ps) [] f f' e = absurd (cc e)
input_values-determine d d' (p ∷ ps) (p' ∷ ps') f f' e =
    let first : p ++ 32 ∷ d p ≡ p' ++ 32 ∷ d' p' = cc e in
    let (path, digest) = cut_last 32 p p' (d p) (d' p') (f p) (f' p') first in
    let (paths, digests) = input_values-determine d d' ps ps' f f' cc in
    (
      cc (path, paths),
      λ q i. elim (Str-cases p q) [
        | inl same ↦ subst (λ z. d z ≡ d' z) same (digest ∙ ap d' (sym path))
        | inr (_, other) ↦ digests q (ground arith)
      ],
    )

sort_strings-HasNames :
    (a : Action) → HasNames (variables a) → HasNames (sort_strings (variables a))
sort_strings-HasNames a f k i = f k (omega (arith, count-sort k (variables a)))

-- The texts that are written for two actions with the same digested bytes.
key_bytes-groups :
    (p p' tool tool' : Str) (d d' : Str → Str) (a a' : Action)
    → key_bytes p tool d a ≡ key_bytes p' tool' d' a'
    → (p ≡ p')
      × (a.command ≡ a'.command)
      × (sorted_env a ≡ sorted_env a')
      × (tool ≡ tool')
      × (sorted_inputs d a ≡ sorted_inputs d' a')
      × (sort_strings a.outputs ≡ sort_strings a'.outputs)
unfolding str_eq
key_bytes-groups p p' tool tool' d d' a a' e =
    let gs : List (Str × List Str) = groups p tool d a in
    let gs' : List (Str × List Str) = groups p' tool' d' a' in
    let same : write_groups gs ≡ write_groups gs' =
      encode-injective (write_groups gs) (write_groups gs') (key-IsFree p tool d a)
        (key-IsFree p' tool' d' a') e in
    let under : (t : Str) → picks t gs ≡ picks t gs' =
      λ t. sym (values_of-groups t gs) ∙ ap (values_of t) same ∙ values_of-groups t gs' in
    let inside : (xs ys : List Str) → xs ++ [] ≡ ys ++ [] → xs ≡ ys =
      λ xs ys h. sym (append-nil xs) ∙ h ∙ append-nil ys in
    (
      cc (under (bytes "platform")),
      inside a.command a'.command (under (bytes "arg")),
      inside (sorted_env a) (sorted_env a') (under (bytes "env")),
      cc (under (bytes "tool")),
      inside (sorted_inputs d a) (sorted_inputs d' a') (under (bytes "input")),
      inside (sort_strings a.outputs) (sort_strings a'.outputs) (under (bytes "output")),
    )

-- Two actions for which the same bytes are digested, when no name of a variable has a `=` in it and no
-- digest has a space in it, have the same command, the same names of variables up to their
-- order, the same value of each variable, the same outputs and the same inputs up to their order, and
-- the same digest of each input; and the platform and the tool's digest are the same.
pub key_bytes-determines :
    (p p' tool tool' : Str) (d d' : Str → Str) (a a' : Action)
    → ((k : Str) → In k (variables a) → IsFree 61 k)
    → ((k : Str) → In k (variables a') → IsFree 61 k)
    → ((q : Str) → IsFree 32 (d q))
    → ((q : Str) → IsFree 32 (d' q))
    → key_bytes p tool d a ≡ key_bytes p' tool' d' a'
    → (p ≡ p')
      × (a.command ≡ a'.command)
      × (sort_strings (variables a) ≡ sort_strings (variables a'))
      × ((k : Str) → In k (variables a) → value_of k a.env ≡ value_of k a'.env)
      × (tool ≡ tool')
      × (sort_strings a.inputs ≡ sort_strings a'.inputs)
      × ((q : Str) → In q a.inputs → d q ≡ d' q)
      × (sort_strings a.outputs ≡ sort_strings a'.outputs)
      × (sorted_env a ≡ sorted_env a')
      × (sorted_inputs d a ≡ sorted_inputs d' a')
key_bytes-determines p p' tool tool' d d' a a' f f' g g' e =
    let (platforms, commands, envs, tools, inputs, outputs) =
      key_bytes-groups p p' tool tool' d d' a a' e in
    let (names, values) =
      env_values-determine a.env a'.env (sort_strings (variables a)) (sort_strings (variables a'))
        (sort_strings-HasNames a f) (sort_strings-HasNames a' f') envs in
    let (paths, digests) =
      input_values-determine d d' (sort_strings a.inputs) (sort_strings a'.inputs) g g' inputs in
    (
      platforms,
      commands,
      names,
      λ k i. values k (omega (arith, count-sort k (variables a))),
      tools,
      paths,
      λ q i. digests q (omega (arith, count-sort q a.inputs)),
      outputs,
      envs,
      inputs,
    )
