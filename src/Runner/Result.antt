-- ===== src/Runner/Result.antt =====
-- internal/runner/runner.go, `Result`, and internal/runner/build.go, `Summary`: what one execution
-- and a whole build report. Times are in units of the clock; `Elapsed` is left out.
use buildforge.Prelude.{
  ℕ, ◌+◌, ◌-◌, Str, Bool, List, [], ◌∷◌, ◌++◌, length, if◌then◌else◌, leb, ℤ, pos, negsuc, Option,
  map,
}
use buildforge.Manifest.{Action}

pub record RunResult : Type 0 where
  pub action : Str
  pub exit_code : ℤ
  pub stdout : List ℕ
  pub stderr : List ℕ
  pub begin : ℕ
  pub end : ℕ
  pub cached : Bool
  pub nondeterministic : List Str

pub record Summary : Type 0 where
  pub results : List RunResult
  pub failed : List Str
  pub skipped : List Str

-- `Duration`
unfoldable pub duration : RunResult → ℕ
duration r = r.end - r.begin

-- `len(s.Results) - len(s.Failed)`, which is an `int`.
unfoldable pub succeeded : Summary → ℤ
succeeded s =
    if leb (length s.failed) (length s.results)
    then pos (length s.results - length s.failed)
    else negsuc (length s.failed - length s.results - 1)

count_cached : List RunResult → ℕ
count_cached [] = 0
count_cached (r ∷ rs) = (if r.cached then 1 else 0) + count_cached rs

-- `Cached`
unfoldable pub cached : Summary → ℕ
unfolding count_cached
cached s = count_cached s.results

all_nondeterministic : List RunResult → List Str
all_nondeterministic [] = []
all_nondeterministic (r ∷ rs) = r.nondeterministic ++ all_nondeterministic rs

-- `Nondeterministic`
unfoldable pub nondeterministic : Summary → List Str
unfolding all_nondeterministic
nondeterministic s = all_nondeterministic s.results

abbrev pub executed : Summary → List Str
executed s = map (λ r. r.action) s.results

-- What a driver needs of `Runner.Run` and of its context, over the states `W` of the machine that
-- the actions change: the result, which may be nil, with the error; and `ctx.Err()`.
pub record Machine (W E : Type 0) : Type 0 where
  pub run : W → Action → W × Option RunResult × Option E
  pub ctx_err : W → Option E
