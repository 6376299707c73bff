-- ===== src/Launch/Examples.antt =====
-- Runs of the progress, the gate and the recovery.
use cheburnet.Base.{ℕ, suc, Bool, true, false, some, List, [], ◌∷◌, ◌≡◌, ◌≤◌, ◌⊎◌, refl, codes}
use cheburnet.Launch.Progress.{
  confirmed, success, new_progress, pos, negsuc, tick, reach, display, proc_alive,
  percent_for_stage, progress_code, index,
}
use cheburnet.Launch.Progress.Threads.{
  Threads, Reach, fresh, next, reaches, succeeds, loads_floor, loads_state, loads_reached,
  loads_anim, stores_anim, tick-confirmed, display-success, between, no_frame, state_due, anim_due,
  with_floor, with_state, with_limits, with_value,
}
use cheburnet.Launch.Operation.{
  updating, disconnected, try_transition, Gate, GateReach, gate_fresh, gate_next, GateReach-Owned,
  Owned, tries, evaluate_preflight, unsupported_os, needs_elevation, ok,
}
use cheburnet.Launch.CommandLine.{quote_argv, quote_from}
use cheburnet.Launch.Recovery.{
  decide_pending_recovery, commit_integrity_recovery, commit_integrity_recovery-calls,
  iequals_ascii, outcome, Call, stop_call, commit_call, stop_pending_runtime_then_clear,
  refuse_unknown_runtime,
}

ticks :
    ((tick (pos 3) (reach proc_alive new_progress)).0 ≡ 93)
    × ((tick (negsuc 3) new_progress).0 ≡ 0)
    × (display (reach confirmed new_progress) ≡ 100)
    × (percent_for_stage proc_alive ≡ 90)
unfolding progress_code
ticks = (refl, refl, refl, refl)

preflight :
    (evaluate_preflight false false true ≡ unsupported_os)
    × (evaluate_preflight false true true ≡ needs_elevation)
    × (evaluate_preflight true true true ≡ ok)
unfolding evaluate_preflight
preflight = (refl, refl, refl)

abbrev start_threads : Threads
start_threads = record { model = new_progress; work = between; frame = no_frame; shown = 0 }

abbrev confirmed_threads : Threads
confirmed_threads = record start_threads {
  model = record new_progress { reached = some 9; state = success };
  work = anim_due;
}

abbrev shown_threads : Threads
shown_threads = record confirmed_threads {
  model = record new_progress { reached = some 9; state = success; anim = 100 };
  shown = 100;
}

confirmed_reached : Reach confirmed_threads
confirmed_reached = next (next fresh (reaches start_threads confirmed refl)) (
    succeeds
      (record start_threads { model = record new_progress { reached = some 9 }; work = state_due })
      refl)

-- A whole frame between the store of the state and that of the animation.
shown_reached : Reach shown_threads
shown_reached =
    next
      (next
        (next
          (next (next confirmed_reached (loads_floor confirmed_threads refl))
            (loads_state (record confirmed_threads { frame = with_floor 100 }) {f = 100} refl))
          (loads_reached (record confirmed_threads { frame = with_state 100 success }) {f = 100}
            {s = success} refl))
        (loads_anim (record confirmed_threads { frame = with_limits 100 100 }) {f = 100} {c = 100}
          (pos 1) refl))
      (stores_anim (record confirmed_threads { frame = with_value 100 }) {v = 100} refl)

tick-confirmed_example :
    (shown_threads.shown ≤ 99)
    ⊎ ((shown_threads.shown ≡ 100) × (shown_threads.model.reached ≡ some (index confirmed)))
tick-confirmed_example = tick-confirmed {t = shown_threads} shown_reached

display-success_example : display confirmed_threads.model ≡ 100
display-success_example = display-success {t = confirmed_threads} confirmed_reached refl

abbrev updating_gate : Gate
updating_gate = record { state = updating; entered = 1 }

updating_reached : GateReach updating_gate
unfolding try_transition
updating_reached =
    gate_next gate_fresh
      (tries (record { state = disconnected; entered = 0 }) disconnected updating refl refl)

GateReach-Owned_example : Owned updating_gate
GateReach-Owned_example = GateReach-Owned {g = updating_gate} updating_reached

-- What to do with a runtime that was left pending, by the image that runs.
recovered :
    (decide_pending_recovery true true (codes "C:\\A.EXE") (codes "c:\\a.exe") []
      ≡ stop_pending_runtime_then_clear)
    × (decide_pending_recovery true true (codes "x") (codes "y") (codes "z")
        ≡ refuse_unknown_runtime)
unfolding decide_pending_recovery iequals_ascii
recovered = (refl, refl)

-- The world counts the calls.
abbrev works : ℕ → Bool × ℕ
works n = (true, suc n)

abbrev switched : Bool × List Call
switched = outcome true (codes "old") (codes "OLD") (codes "new") works works 0

commit_integrity_recovery-calls_example :
    ((switched.1 ≡ commit_call true ∷ [])
      × ((true ≡ false) ⊎ (iequals_ascii (codes "old") (codes "new") ≡ true)))
    ⊎ ((switched.1 ≡ commit_call true ∷ stop_call true ∷ [])
        × (iequals_ascii (codes "old") (codes "OLD") ≡ true))
unfolding commit_integrity_recovery iequals_ascii
commit_integrity_recovery-calls_example =
    commit_integrity_recovery-calls true (codes "old") (codes "OLD") (codes "new") works works 0
      refl

quoted :
    (quote_argv (codes "a\\b") ≡ codes "a\\b")
    × (quote_argv (codes "a b\\") ≡ codes "\"a b\\\\\"")
    × (quote_argv (codes "a\\\"") ≡ codes "\"a\\\\\\\"\"")
unfolding quote_argv quote_from
quoted = (refl, refl, refl)
