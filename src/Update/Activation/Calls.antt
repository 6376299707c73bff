-- ===== src/Update/Activation/Calls.antt =====
-- Which hooks `ActivateRuntime` calls, in which order, and what it returns.
use cheburnet.Base.{
  Bool, true, List, [], ◌∷◌, ◌++◌, Option, none, some, Bytes, ◌≡◌, ◌≢◌, ◌↔◌, ◌⊎◌, arith,
}
use cheburnet.Update.Activation.{
  RuntimeState, activated, preflight_failed, stop_failed, rolled_back, rollback_failed, Hook, Hooks,
  call, restore, rollback, committed_state, commit_candidate, switch_over, activate_runtime,
}

-- A call of a hook with what it returned.
pub data Call : Type 0 where
  preflight start health : Bytes → Bool → Call
  stop : Bool → Call
  commit : RuntimeState → Bool → Call

abbrev pub Log : Type 0 → Type 0
Log W = W × List Call

-- The hook with its calls recorded; a missing hook is one that fails.
abbrev recording : {W A : Type 0} → (A → Bool → Call) → (A → W → Bool × W) → Hook (Log W) A
recording note f =
    some (λ a (w, log). let (done, w₁) = f a w in (done, (w₁, log ++ (note a done ∷ []))))

-- The hooks of an environment, each of them present.
pub record Environment (W : Type 0) : Type 0 where
  pub on_preflight : Bytes → W → Bool × W
  pub on_stop : Unit {0} → W → Bool × W
  pub on_start : Bytes → W → Bool × W
  pub on_health : Bytes → W → Bool × W
  pub on_commit : RuntimeState → W → Bool × W

abbrev pub recorded : {W : Type 0} → Environment W → Hooks (Log W)
recorded e = record {
  preflight = recording preflight e.on_preflight;
  stop_current = recording (λ _. stop) e.on_stop;
  start = recording start e.on_start;
  health = recording health e.on_health;
  commit = recording commit e.on_commit;
}

module _ {W : Type 0} (before : RuntimeState) (candidate : Bytes) (hooks : Hooks W) (w : W) where
  -- The state that is returned is the one from before, unless the result is `activated`: then it is
  -- the candidate, with what was current as the previous known good. The results that a failed start,
  -- health check or commit set are always replaced by that of the rollback.
  pub activate_runtime-result :
      let r = (activate_runtime before candidate hooks w).0 in
      ((r.status ≡ activated) × (r.state ≡ committed_state before candidate hooks))
      ⊎ ((r.state ≡ before)
          × ((r.status ≡ preflight_failed)
              ⊎ ((r.status ≡ stop_failed)
                  ⊎ ((r.status ≡ rolled_back) ⊎ (r.status ≡ rollback_failed)))))
  unfolding activate_runtime switch_over commit_candidate rollback
  activate_runtime-result = ground arith

abbrev pub last_two : List Call → Option (Call × Call)
last_two [] = none
last_two (a ∷ []) = none
last_two (a ∷ b ∷ []) = some (a, b)
last_two (a ∷ b ∷ c ∷ calls) = last_two (b ∷ c ∷ calls)

module _ {W : Type 0} (before : RuntimeState) (candidate : Bytes) (e : Environment W) (w : W) where
  abbrev pub all_succeed : List Call
  all_succeed =
      preflight candidate true
      ∷ stop true
      ∷ start candidate true
      ∷ health candidate true
      ∷ commit (committed_state before candidate (recorded e)) true
      ∷ []

  -- `activated` is returned exactly when the five hooks are called in this order, each once and with
  -- success, and nothing else is called.
  pub activated-calls :
      ((activate_runtime before candidate (recorded e) (w, [])).0.status ≡ activated)
      ↔ ((activate_runtime before candidate (recorded e) (w, [])).1.1 ≡ all_succeed)
  unfolding activate_runtime switch_over commit_candidate rollback restore call
  activated-calls = (λ h. ground arith, λ h. ground arith)

  -- `rolled_back` is returned only if there was a current runtime, and the last two calls started it
  -- again and found it healthy.
  pub rolled_back-calls :
      (activate_runtime before candidate (recorded e) (w, [])).0.status ≡ rolled_back
      → (before.current ≢ [])
        × (last_two (activate_runtime before candidate (recorded e) (w, [])).1.1
            ≡ some (start before.current true, health before.current true))
  unfolding activate_runtime switch_over commit_candidate rollback restore call
  rolled_back-calls h = ground arith
