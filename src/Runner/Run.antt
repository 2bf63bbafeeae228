-- ===== src/Runner/Run.antt =====
-- internal/runner/runner.go, `Run`, and internal/runner/sandbox.go: one action, from its inputs to its
-- outputs. The files are those of the workspace and of the sandbox, by relative paths; directories
-- are left out, and no file operation fails but for a file that is missing or in the way. The
-- operating system, which runs commands and tells the time, is the parameter `Shell`.
mod World
pub mod Caches
pub mod Named
pub mod Harvests
pub mod Local
pub mod Compared
pub mod Hermetic
pub mod Overlap
pub mod Puts
pub mod Again
use buildforge.Prelude.{
  ℕ, Str, bytes, str_eq, sort_strings, update, Bool, true, false, List, [], ◌∷◌, ◌++◌,
  if◌then◌else◌, Option, none, some, Result, ok, err, ℤ, pos, map,
}
use buildforge.Manifest.{Action}
use buildforge.Cache.Store.{Entry, File, Workspace, PutResult}
use buildforge.Cache.Key.{KeyError}
use buildforge.Runner.Result.{RunResult, Machine}
pub use World.{
  Cache, Node, link, regular, Box, Ending, succeeded, exited, broken, Ran, Shell, Cause,
  missing_input, missing_output, no_key, link_exists, cancelled, bad_exit, not_started, ActionError,
  Site, Runner,
}

-- `checkInputs` and `checkOutputs`: the first path at which there is no file.
unfoldable pub first_missing : List Str → Workspace → Option Str
first_missing [] ws = none
first_missing (p ∷ ps) ws = elim (ws p) [ none ↦ some p | some _ ↦ first_missing ps ws ]

-- `environ`
unfoldable pub environ : Str → Action → List Str
environ path a =
    let declared = sort_strings (map (λ (b : Str × Str). b.0 ++ (61 ∷ b.1)) a.env) in
    if str_eq path [] then declared else (bytes "PATH=" ++ path) ∷ declared

-- `newSandbox`: a link for each input. A link that is there already is an error.
unfoldable pub new_sandbox : List Str → Box → Result Str Box
new_sandbox [] box = ok box
new_sandbox (p ∷ ps) box = elim (box p) [
  | some _ ↦ err p
  | none ↦ new_sandbox ps (update box p (some link))
]

-- `harvest`: each output is moved from the sandbox into the workspace. A link that is moved there
-- would lead to itself: then the workspace has no file at that path.
unfoldable pub harvest : List Str → Box → Workspace → Workspace × Option Str
harvest [] box ws = (ws, none)
harvest (p ∷ ps) box ws = elim (box p) [
  | none ↦ (ws, some p)
  | some (regular f) ↦ harvest ps (update box p none) (update ws p (some f))
  | some link ↦ elim (ws p) [
    | none ↦ (ws, some p)
    | some _ ↦ harvest ps (update box p none) (update ws p none)
  ]
]

abbrev pub failed_with : {O : Type 0} → Str → Cause O → ActionError O
failed_with name cause = record { action = name; exit_code = pos 0; stderr = []; cause = cause }

-- What `Run` knows once the command has ended.
abbrev pub executed_result : {O : Type 0} → Str → ℕ → ℕ → Ran O → RunResult
executed_result name begin end ran = record {
  action = name;
  exit_code = pos 0;
  stdout = ran.stdout;
  stderr = ran.stderr;
  begin = begin;
  end = end;
  cached = false;
  nondeterministic = [];
}

abbrev pub cached_result : Str → ℕ → ℕ → RunResult
cached_result name begin end = record {
  action = name;
  exit_code = pos 0;
  stdout = [];
  stderr = [];
  begin = begin;
  end = end;
  cached = true;
  nondeterministic = [];
}

abbrev pub Report : (W C O : Type 0) → Type 0
Report W C O = Site W C × Option RunResult × Option (ActionError O)

-- Where the command has run: the sandbox, if there is one, and the site.
abbrev pub Scene : (W C O : Type 0) → Type 0
Scene W C O = Option Box × Site W C × Ran O

module _ {W C X O : Type 0} (r : Runner W C X O) (a : Action) where
  -- `cacheKey`
  unfoldable pub cache_key : Workspace → Result KeyError Str
  cache_key ws = elim r.cache [ none ↦ ok [] | some _ ↦ r.key ws a ]

  -- `tryRestore`
  unfoldable pub try_restore : Str → Site W C → Site W C × Option RunResult
  try_restore key s = elim r.cache [
    | none ↦ (s, none)
    | some c ↦
        let (cached, found) = c.look_up s.cached key in
        let s' : Site W C = record s { cached = cached } in
        let tried : Site W C × Option RunResult = elim found [
          | err _ ↦ (s', none)
          | ok none ↦ (s', none)
          | ok (some e) ↦
              let (ws, restored) = c.restore_to cached e s.files in
              let s'' : Site W C = record s' { files = ws } in
              elim restored [
                | err _ ↦ (s'', none)
                | ok _ ↦
                    (s'', some (cached_result a.name (r.shell.now s.world) (r.shell.now s.world)))
              ]
        ] in
        if str_eq key [] then (s, none) else tried
  ]

  -- The end of `Run`: the outputs are there, and go to the cache.
  unfoldable pub keep : Str → RunResult → Site W C → Report W C O
  keep key res s = elim r.cache [
    | none ↦ (s, some res, none)
    | some c ↦
        let (cached, put) = c.put_from s.cached key s.files a.outputs in
        let s' : Site W C = record s { cached = cached } in
        let kept : Report W C O = elim put [
          | err _ ↦ (s', some res, none)
          | ok p ↦ (s', some (record res { nondeterministic = p.nondeterministic }), none)
        ] in
        if str_eq key [] then (s, some res, none) else kept
  ]

  -- The command succeeded: its outputs are taken from the sandbox, and looked for.
  unfoldable pub collect : Str → RunResult → Option Box → Site W C → Report W C O
  unfolding keep harvest first_missing
  collect key res box s =
      let (ws, lost) = elim box as (λ _. Workspace × Option Str) [
        | none ↦ (s.files, none)
        | some b ↦ harvest a.outputs b s.files
      ] in
      let s' : Site W C = record s { files = ws } in
      let bad : Str → Report W C O = λ p. (
        s',
        some res,
        some (record (failed_with a.name (missing_output p)) { stderr = res.stderr }),
      ) in
      elim lost [
        | some p ↦ bad p
        | none ↦ elim (first_missing a.outputs ws) [ some p ↦ bad p | none ↦ keep key res s' ]
      ]

  -- The command has ended.
  unfoldable pub judge : Str → RunResult → Scene W C O → Report W C O
  unfolding collect
  judge key res (box, s, ran) =
      let failure : RunResult → ActionError O → Report W C O = λ res' e.
        elim (r.shell.ctx_err s.world) [
          | some c ↦ (s, some res, some (failed_with a.name (cancelled c)))
          | none ↦ (s, some res', some e)
        ] in
      elim ran.ending [
        | succeeded ↦ collect key res box s
        | exited code ↦
            failure (record res { exit_code = code })
              (record { action = a.name; exit_code = code; stderr = res.stderr; cause = bad_exit })
        | broken o ↦
            failure res (record (failed_with a.name (not_started o)) { stderr = res.stderr })
      ]

  -- The command runs.
  unfoldable pub execute : Option Box → Site W C → Scene W C O
  unfolding environ
  execute box s =
      let env = environ r.shell.path a in
      elim box [
        | none ↦
            let (w, ws, ran) = r.shell.run_in s.world a.command env s.files in
            (none, record s { world = w; files = ws }, ran)
        | some b ↦
            let (w, b', ws, ran) = r.shell.run_boxed s.world a.command env b s.files in
            (some b', record s { world = w; files = ws }, ran)
      ]

  unfoldable pub attempt : Str → Option Box → Site W C → Report W C O
  unfolding execute judge
  attempt key box s =
      let (box', s', ran) = execute box s in
      judge key (executed_result a.name (r.shell.now s.world) (r.shell.now s'.world) ran)
        (box', s', ran)

  -- What follows when the cache has nothing.
  unfoldable pub run_command : Str → Site W C → Report W C O
  unfolding attempt new_sandbox
  run_command key s =
      let in_box : Report W C O = elim (new_sandbox a.inputs (λ _. none)) [
        | err p ↦ (s, none, some (failed_with a.name (link_exists p)))
        | ok box ↦ attempt key (some box) s
      ] in
      elim r.sandboxed [ true ↦ in_box | false ↦ attempt key none s ]

  -- `Run`
  unfoldable pub run : Site W C → Report W C O
  unfolding first_missing cache_key try_restore run_command
  run s = elim (first_missing a.inputs s.files) [
    | some p ↦ (s, none, some (failed_with a.name (missing_input p)))
    | none ↦ elim (cache_key s.files) [
      | err e ↦ (s, none, some (failed_with a.name (no_key e)))
      | ok key ↦
          let (s', hit) = try_restore key s in
          elim hit [ some res ↦ (s', some res, none) | none ↦ run_command key s' ]
    ]
  ]

-- `Runner.Run` as what the drivers ask for.
abbrev pub machine_of : {W C X O : Type 0} → Runner W C X O → Machine (Site W C) (ActionError O)
machine_of r = record {
  run = λ s a. run r a s;
  ctx_err = λ s. elim (r.shell.ctx_err s.world) [
    | none ↦ none
    | some c ↦ some (failed_with [] (cancelled c))
  ];
}
