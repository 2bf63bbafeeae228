-- ===== src/Runner/Run/World.antt =====
-- internal/runner/runner.go and internal/runner/sandbox.go: what a runner and its sandbox consist of, and
-- the operating system that it runs commands with.
use buildforge.Prelude.{ℕ, Str, Bool, List, Option, Result, ℤ}
use buildforge.Manifest.{Action}
use buildforge.Cache.Store.{Entry, File, Workspace, PutResult}
use buildforge.Cache.Key.{KeyError}

-- The interface `Cache`, over the states `C` of a cache.
pub record Cache (C X : Type 0) : Type 0 where
  pub look_up : C → Str → C × Result X (Option Entry)
  pub restore_to : C → Entry → Workspace → Workspace × Result X (Unit {0})
  pub put_from : C → Str → Workspace → List Str → C × Result X PutResult

-- What a path of the sandbox holds: the link to the input of that path, or a file of its own.
pub data Node : Type 0 where
  link : Node
  regular : File → Node

abbrev pub Box : Type 0
Box = Str → Option Node

-- How a command ended: with status 0, with another one, or with an error that is no exit status.
pub data Ending (O : Type 0) : Type 0 where
  succeeded : Ending O
  exited : ℤ → Ending O
  broken : O → Ending O

pub record Ran (O : Type 0) : Type 0 where
  pub ending : Ending O
  pub stdout : List ℕ
  pub stderr : List ℕ

-- The operating system, with its states `W` and its errors `O`. A command runs in the workspace, or
-- in a sandbox whose links lead into the workspace.
pub record Shell (W O : Type 0) : Type 0 where
  pub now : W → ℕ
  pub ctx_err : W → Option O
  pub path : Str
  pub run_in : W → (command env : List Str) → Workspace → W × Workspace × Ran O
  pub run_boxed : W → (command env : List Str) → Box → Workspace → W × Box × Workspace × Ran O

pub data Cause (O : Type 0) : Type 0 where
  missing_input : Str → Cause O
  missing_output : Str → Cause O
  no_key : KeyError → Cause O
  link_exists : Str → Cause O
  cancelled : O → Cause O
  bad_exit : Cause O
  not_started : O → Cause O

-- `ActionError`
pub record ActionError (O : Type 0) : Type 0 where
  pub action : Str
  pub exit_code : ℤ
  pub stderr : List ℕ
  pub cause : Cause O

-- What an action can change.
pub record Site (W C : Type 0) : Type 0 where
  pub world : W
  pub files : Workspace
  pub cached : C

-- `Runner`, with the key of an action as a function of the workspace.
pub record Runner (W C X O : Type 0) : Type 0 where
  pub shell : Shell W O
  pub cache : Option (Cache C X)
  pub sandboxed : Bool
  pub key : Workspace → Action → Result KeyError Str
