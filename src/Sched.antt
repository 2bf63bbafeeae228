-- ===== src/Sched.antt =====
-- internal/sched/sched.go, `Build`: one goroutine for each action, as interleavings of atomic steps.
-- What a goroutine does while it holds the mutex is one step, and so is each operation on a channel.
-- Progress lines, times and the sorting of the reported lists are left out.
pub mod Invariant
pub mod Slots
pub mod Effects
pub mod Steps
pub mod Correct
pub mod Progress
pub mod Termination
use buildforge.Prelude.{
  ℕ, suc, ◌-◌, ◌≡◌, ◌≢◌, ◌<◌, Str, update, Bool, true, false, List, [], ◌∷◌, ◌++◌, count, In, ◌==◌,
  if◌then◌else◌, Option, none, some,
}
use buildforge.Manifest.{Action}
use buildforge.Graph.{Graph}
use buildforge.Runner.Result.{RunResult, Summary}
use buildforge.Runner.Build.{or_first, append_result}

-- The zero value of the map `state` is `ok`.
pub data Status : Type 0 where
  ok failed skipped : Status

-- Where a goroutine stands.
pub data Point : Type 0 where
  -- in the loop over the dependencies, with those still to wait for
  waiting : List Str → Point
  -- before the statuses of the dependencies are read
  checking : Point
  -- before the test of `ctx.Err()`
  polling : Point
  -- before the semaphore
  acquiring : Point
  -- in `r.Run`
  running : Point
  -- before `cancel()`
  cancelling : Point
  -- in the deferred calls: before the slot is given back, and before `close(done[name])`
  releasing closing : Point
  exited : Point

pub record Sched (E : Type 0) : Type 0 where
  pub point : Str → Point
  pub status : Str → Status
  -- `done[name]` is closed
  pub done : Str → Bool
  -- `len(sem)`
  pub slots : ℕ
  pub cancelled : Bool
  pub summary : Summary
  pub first_err : Option E

module _ {E : Type 0} where
  unfoldable pub move : Str → Point → Sched E → Sched E
  move n p s = record s { point = update s.point n p }

  -- The function `skip`, with the point that follows.
  unfoldable pub skip : Str → Point → Sched E → Sched E
  skip n p s = record s {
    point = update s.point n p;
    status = update s.status n skipped;
    summary = record s.summary { skipped = s.summary.skipped ++ n ∷ [] };
  }

  unfoldable pub succeed : Str → RunResult → Sched E → Sched E
  succeed n r s = record s {
    point = update s.point n releasing;
    status = update s.status n ok;
    summary = record s.summary { results = s.summary.results ++ r ∷ [] };
  }

  unfoldable pub fail : Str → Bool → Option RunResult → E → Sched E → Sched E
  fail n keep_going res e s = record s {
    point = update s.point n (if keep_going then releasing else cancelling);
    status = update s.status n failed;
    summary = record s.summary {
      results = append_result s.summary.results res;
      failed = s.summary.failed ++ n ∷ [];
    };
    first_err = or_first s.first_err e;
  }

  unfoldable pub take_slot : Str → Sched E → Sched E
  take_slot n s = record s { point = update s.point n running; slots = suc s.slots }

  unfoldable pub give_slot : Str → Sched E → Sched E
  give_slot n s = record s { point = update s.point n closing; slots = s.slots - 1 }

  unfoldable pub close : Str → Sched E → Sched E
  close n s = record s { point = update s.point n exited; done = update s.done n true }

module _ (g : Graph) where
  -- Every goroutine at its start; no other name has one.
  unfoldable pub start : {E : Type 0} → Sched E
  start = record {
    point = λ q. if count q g.names == 0 then exited else waiting (g.deps q);
    status = λ _. ok;
    done = λ _. false;
    slots = 0;
    cancelled = false;
    summary = record { results = []; failed = []; skipped = [] };
    first_err = none;
  }

  -- One atomic step of one goroutine. Where a `select` has two ready cases, each is a step.
  pub data Turn {E : Type 0} (workers : ℕ) (keep_going : Bool) : Sched E → Sched E → Type 0 where
    await :
        {s : Sched E} (n d : Str) (ds : List Str)
        → s.point n ≡ waiting (d ∷ ds)
        → s.done d ≡ true
        → Turn workers keep_going s (move n (waiting ds) s)
    give_up :
        {s : Sched E} (n d : Str) (ds : List Str)
        → s.point n ≡ waiting (d ∷ ds)
        → s.cancelled ≡ true
        → Turn workers keep_going s (skip n closing s)
    all_done :
        {s : Sched E} (n : Str)
        → s.point n ≡ waiting []
        → Turn workers keep_going s (move n checking s)
    bad_dep :
        {s : Sched E} (n d : Str)
        → s.point n ≡ checking
        → In d (g.deps n)
        → s.status d ≢ ok
        → Turn workers keep_going s (skip n closing s)
    good_deps :
        {s : Sched E} (n : Str)
        → s.point n ≡ checking
        → ((d : Str) → In d (g.deps n) → s.status d ≡ ok)
        → Turn workers keep_going s (move n polling s)
    stopped :
        {s : Sched E} (n : Str)
        → s.point n ≡ polling
        → s.cancelled ≡ true
        → Turn workers keep_going s (skip n closing s)
    go_on :
        {s : Sched E} (n : Str)
        → s.point n ≡ polling
        → s.cancelled ≡ false
        → Turn workers keep_going s (move n acquiring s)
    abandon :
        {s : Sched E} (n : Str)
        → s.point n ≡ acquiring
        → s.cancelled ≡ true
        → Turn workers keep_going s (skip n closing s)
    acquire :
        {s : Sched E} (n : Str)
        → s.point n ≡ acquiring
        → s.slots < workers
        → Turn workers keep_going s (take_slot n s)
    run_ok :
        {s : Sched E} (n : Str) (r : RunResult)
        → s.point n ≡ running
        → r.action ≡ n
        → Turn workers keep_going s (succeed n r s)
    run_failed :
        {s : Sched E} (n : Str) (res : Option RunResult) (e : E)
        → s.point n ≡ running
        → ((r : RunResult) → res ≡ some r → r.action ≡ n)
        → Turn workers keep_going s (fail n keep_going res e s)
    cancel :
        {s : Sched E} (n : Str)
        → s.point n ≡ cancelling
        → Turn workers keep_going s (record (move n releasing s) { cancelled = true })
    release :
        {s : Sched E} (n : Str) → s.point n ≡ releasing → Turn workers keep_going s (give_slot n s)
    finish : {s : Sched E} (n : Str) → s.point n ≡ closing → Turn workers keep_going s (close n s)

  -- A step of the build: one of a goroutine, or the cancellation of `ctx` from outside.
  pub data Step {E : Type 0} (workers : ℕ) (keep_going : Bool) : Sched E → Sched E → Type 0 where
    turn : {s t : Sched E} → Turn workers keep_going s t → Step workers keep_going s t
    interrupt :
        {s : Sched E}
        → s.cancelled ≡ false
        → Step workers keep_going s (record s { cancelled = true })

  -- The states that the goroutines can reach.
  pub data Reach {E : Type 0} (workers : ℕ) (keep_going : Bool) : Sched E → Type 0 where
    here : Reach workers keep_going start
    next :
        {s t : Sched E}
        → Reach workers keep_going s
        → Step workers keep_going s t
        → Reach workers keep_going t
