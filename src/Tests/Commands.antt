-- ===== src/Tests/Commands.antt =====
-- The commands on the bytes of a small manifest.
use buildforge.Prelude.{
  [], ℕ, ◌≡◌, All, ◌<◌, ◌≤◌, ◌*◌, ◌%◌, ◌++◌, pos, negsuc, decimal, arith, ◌↔◌, ◌⊎◌, refl, Str,
  str_eq, bytes, List, length, if◌then◌else◌, none, some, Result, ok, err, true,
}
use buildforge.Manifest.{Manifest, check_path, dot, elements}
use buildforge.Manifest.Contained.{check_path-Descends, Descends}
use buildforge.Manifest.Valid.{IsValid}
use buildforge.Graph.{Graph, new}
use buildforge.Graph.Order.{IsCycle}
use buildforge.Graph.Topological.{cycle_error}
use buildforge.Runner.Build.{build, order_error}
use buildforge.Runner.Run.{machine_of}
use buildforge.Runner.Run.Compared.{site}
use buildforge.Cli.{load, build_command, not_built}
use buildforge.Cli.Sizes.{gb, mb, suffix_text, factor, int64_limit, parse_size}
use buildforge.Cli.Sizes.Reads.{parse_size-exact, parse_size-wraps}
use buildforge.Runner.Build.Logged.{logged}
use buildforge.Runner.Build.Erases.{erase}
use buildforge.Cli.Builds.{load-ok_iff, build_command-Told, Told}
use buildforge.Tests.{sample, sample-IsValid, program}
use buildforge.Tests.Runs.{runner, before}

-- A decoder that knows one text.
abbrev decode : List ℕ → Result (Unit {0}) Manifest
decode b = if str_eq b (bytes "{}") then ok sample else err tt

decoded : decode (bytes "{}") ≡ ok sample
unfolding str_eq
decoded = refl

load-ok_iff_example :
    ((g : Graph) × (load decode (some (bytes "{}")) ≡ ok (g, length sample))) ↔ IsValid sample
load-ok_iff_example = load-ok_iff decode (bytes "{}") sample decoded

build_command-Told_example :
    (g : Graph) × (new sample ≡ ok g)
    × (((c : List Str) × IsCycle g.deps c
          × (build_command
                (λ h w. build (machine_of runner) h true w)
                decode
                (some (bytes "{}"))
                (site 3 before tt)
              ≡ record {
                world = site 3 before tt;
                printed = none;
                failure = some (not_built (order_error (cycle_error c)));
              }))
        ⊎ (Told g
              (Unit {0})
              (build (logged (machine_of runner)) g true (site 3 before tt, [])).world.1
              (build_command
                (λ h w. build (machine_of runner) h true w)
                decode
                (some (bytes "{}"))
                (site 3 before tt))
            × (erase (build (logged (machine_of runner)) g true (site 3 before tt, []))
                ≡ build (machine_of runner) g true (site 3 before tt))))
build_command-Told_example =
    build_command-Told runner decode (bytes "{}") sample true (site 3 before tt) decoded
      sample-IsValid

abbrev path : Str
path = bytes "src/a.c"

path-passes : check_path path ≡ none
unfolding program
path-passes = refl

check_path-Descends_example : (path ≡ dot) ⊎ All Descends (elements path)
check_path-Descends_example = check_path-Descends path path-passes

five_hundred : 500 * factor mb < int64_limit
unfolding factor int64_limit
five_hundred = omega arith

parse_size-exact_example : parse_size (decimal 500 ++ suffix_text mb) ≡ ok (pos (500 * factor mb))
parse_size-exact_example = parse_size-exact 500 mb five_hundred

-- 8589934592 GB are as many bytes as an int64 has no value for.
fits : 8589934592 < int64_limit
unfolding int64_limit
fits = omega arith

too_many : int64_limit ≤ (8589934592 * factor gb) % (2 * int64_limit)
unfolding factor int64_limit
too_many = omega arith

parse_size-wraps_example :
    (i : ℕ) × (parse_size (decimal 8589934592 ++ suffix_text gb) ≡ ok (negsuc i))
parse_size-wraps_example = parse_size-wraps 8589934592 gb fits too_many
