-- ===== src/Update/CheckService.antt =====
-- update/UpdateCheckService.cpp: one background check, its thread and its owner. The mutex makes each
-- method a step, and so the last lines of the worker; `Join` waits until the worker is through them.
pub mod Life
use cheburnet.Base.{Bool, true, false, not, ◌&&◌, ◌||◌, Option, none, some, if◌then◌else◌}

pub data CheckPhase : Type 0 where
  idle running ready taken cancelled : CheckPhase

pub data Worker : Type 0 where
  -- No thread, or one that was joined; one that runs the check; one that is through with it.
  none_joinable at_work finished : Worker

pub record Service (R : Type 0) : Type 0 where
  pub has_check : Bool
  pub cancel : Bool
  pub result : Option R
  pub phase : CheckPhase
  pub worker : Worker

abbrev is_busy : CheckPhase → Bool
is_busy running = true
is_busy ready = true
is_busy cancelled = true
is_busy _ = false

abbrev ready_if_running : CheckPhase → CheckPhase
ready_if_running running = ready
ready_if_running p = p

module _ {R : Type 0} where
  unfoldable pub new_service : Bool → Service R
  new_service has_check = record {
    has_check = has_check;
    cancel = false;
    result = none;
    phase = idle;
    worker = none_joinable;
  }

  -- `Start`. The worker that it joins first is through with its check, since one that is at work keeps
  -- the phase `running`; so the new one only takes its place.
  unfoldable pub start_check : Service R → Service R × Bool
  start_check s =
      if is_busy s.phase || not s.has_check
      then (s, false)
      else (record s { phase = running; cancel = false; worker = at_work }, true)

  -- The end of the worker's thread, with what the check produced (or the `Offline` result that stands
  -- for its exception).
  unfoldable pub finish : R → Service R → Service R
  finish r s = record s { result = some r; phase = ready_if_running s.phase; worker = finished }

  take_ready : CheckPhase → Option R → Service R → Service R × Option R
  take_ready ready (some r) s = (record s { result = none; phase = taken }, some r)
  take_ready _ _ s = (s, none)

  -- `TryTakeResult`.
  unfoldable pub try_take_result : Service R → Service R × Option R
  unfolding take_ready
  try_take_result s = take_ready s.phase s.result s

  -- `Join`: a worker that is still at work ends with this result.
  unfoldable pub join : R → Service R → Service R
  unfolding finish
  join r s = elim s.worker [
    | none_joinable ↦ s
    | at_work ↦ record (finish r s) { worker = none_joinable }
    | finished ↦ record s { worker = none_joinable }
  ]

  -- `Cancel`.
  unfoldable pub cancel_service : R → Service R → Service R
  unfolding join
  cancel_service r s = record (join r (record s { cancel = true })) {
    phase = cancelled;
    result = none;
  }
