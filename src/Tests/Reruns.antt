-- ===== src/Tests/Reruns.antt =====
-- An action that runs twice over a local store.
use buildforge.Prelude.{
  ℕ, ◌≡◌, refl, Str, bytes, [], ◌∷◌, map, ◌+◌, ◌%◌, List, some, none, ok, true, false, arith, pos,
}
use buildforge.Cache.Names.{is_name, all_hex}
use buildforge.Cache.Store.{Store, StoreError, Entry, lookup, restore}
use buildforge.Runner.Result.{RunResult}
use buildforge.Runner.Run.{Runner, Report, Site, run, first_missing, cached_result}
use buildforge.Runner.Run.Caches.{store_cache}
use buildforge.Runner.Run.Compared.{site}
use buildforge.Runner.Run.Again.{run-again}
use buildforge.Tests.Caches.{digest, nothing, key, nothing-IsSound, store_program}
use buildforge.Tests.Runs.{shell, compile, before, run_program}

digits : (b : List ℕ) → all_hex (map (λ c. 48 + c % 10) b) ≡ true
digits [] = refl
digits (c ∷ b) = ground (arith, digits b)

hex : (b : List ℕ) → is_name (digest b) ≡ true
unfolding is_name
hex b = ground (arith, digits b)

key_named : is_name key ≡ true
unfolding is_name
key_named = refl

abbrev runner : Runner ℕ Store StoreError Str
runner = record {
  shell = shell;
  cache = some (store_cache digest);
  sandboxed = true;
  key = λ ws a. ok key;
}

abbrev first : Report ℕ Store Str
first = run runner compile (site 3 before nothing)

abbrev first_result : RunResult
first_result = record {
  action = bytes "a";
  exit_code = pos 0;
  stdout = [];
  stderr = [];
  begin = 3;
  end = 4;
  cached = false;
  nondeterministic = [];
}

first-result : first.1 ≡ some first_result
unfolding run_program store_program
first-result = refl

first-ok : first.2 ≡ none
unfolding run_program store_program
first-ok = refl

inputs_there : first_missing compile.inputs before ≡ none
unfolding run_program
inputs_there = refl

-- A clean workspace, with the store of the first run.
abbrev later : Site ℕ Store
later = site 9 before first.0.cached

run-again_example :
    (e : Entry) × (lookup key first.0.cached ≡ ok (some e))
    × ((restore digest e.outputs first.0.cached before).1 ≡ ok tt)
    × ((run runner compile later).1 ≡ some (cached_result compile.name 9 9))
    × ((run runner compile later).2 ≡ none)
    × ((run runner compile later).0.files ≡ (restore digest e.outputs first.0.cached before).0)
run-again_example =
    run-again digest hex runner refl compile key key_named (site 3 before nothing) later
      first_result nothing-IsSound refl first-result first-ok refl refl inputs_there refl
