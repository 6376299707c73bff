-- ===== src/Update/Manager/Apply/Switched.antt =====
-- What a switch has done that `ApplyPayload` calls applied.
use cheburnet.Base.{
  ◌≡◌, refl, ◌∙◌, ap, Bool, true, false, Option, none, some, List, [], Bytes, codes, arith,
}
use cheburnet.Core.Paths.{RuntimePaths}
use cheburnet.Settings.Strategies.{RuntimeStrategy}
use cheburnet.Update.StateStore.{StoredRuntimeState}
use cheburnet.Update.Activation.{
  RuntimeState, ActivationStatus, activated, Hooks, call, rollback, committed_state,
  commit_candidate, switch_over, activate_runtime,
}
use cheburnet.Update.Manager.{System, Build}
use cheburnet.Update.Manager.Apply.{Machine, applied, paths_of, save}
use cheburnet.Update.Manager.Apply.Switch.{
  Plan, Switching, hooks, before, detach_kept, finish_switch, switch_payload,
}
use cheburnet.Update.Manager.Apply.Candidate.{
  Request, plan_with, with_rollback, with_saved, rollback_catalog,
}

module _ {W : Type 0} (start : RuntimeState) (candidate : Bytes) (h : Hooks W) where
  -- The world in which the commit hook is called, if no hook before it fails.
  abbrev before_commit : W → W
  before_commit w =
      let (passed, w₁) = call h.preflight candidate w in
      let (stopped, w₂) = call h.stop_current tt w₁ in
      let (started, w₃) = call h.start candidate w₂ in (call h.health candidate w₃).1

  -- Every hook before the commit succeeds, each in the world that the one before it left.
  abbrev pub HavePassed : W → Type 0
  HavePassed w =
      let (passed, w₁) = call h.preflight candidate w in
      let (stopped, w₂) = call h.stop_current tt w₁ in
      let (started, w₃) = call h.start candidate w₂ in
      (passed ≡ true)
      × ((stopped ≡ true) × ((started ≡ true) × ((call h.health candidate w₃).0 ≡ true)))

  -- Where a runtime was activated, the commit hook was the last to be called, and succeeded on the
  -- state that has the candidate as current and the old one as the previous known good.
  activated-commit :
      (w : W)
      → (activate_runtime start candidate h w).0.status ≡ activated
      → let (committed, after) =
          call h.commit (committed_state start candidate h) (before_commit w) in
        (committed ≡ true) × (((activate_runtime start candidate h w).1 ≡ after) × HavePassed w)
  unfolding activate_runtime switch_over commit_candidate rollback
  activated-commit w e =
      (ground arith, (ground arith, (ground arith, (ground arith, (ground arith, ground arith)))))

module _ {W P : Type 0} (sys : System W) (machine : Machine W P) (build : Build)
    (paths : RuntimePaths) (q : Request P) where
  -- The plan of a switch: the artifact and its key, the manager that was given, the state that was
  -- stored, the candidate with its paths, catalog and strategy, and whether a runtime was running.
  pub record IsPlan (stored : StoredRuntimeState) (home : RuntimePaths)
      (catalog : List RuntimeStrategy) (strategy : RuntimeStrategy) (was_running : Bool) (w : W)
      (plan : Plan P) : Type 0 where
    pub artifact : plan.artifact ≡ q.artifact
    pub key_id : plan.key_id ≡ q.key_id
    pub manager : plan.manager ≡ q.manager
    pub of_stored : plan.stored ≡ stored
    pub candidate : plan.candidate_paths ≡ home
    pub previous : plan.previous_paths ≡ paths_of sys machine build stored.current w
    pub of_catalog : plan.catalog ≡ catalog
    pub of_strategy : plan.strategy ≡ strategy
    pub running : plan.was_running ≡ was_running

  -- The switch from the world `w` to the world `after`: the hooks of the plan succeeded, one after the
  -- other; in the world that they left, the state was written that has the candidate as current, what
  -- was stored as the previous known good, and nothing pending; and then the manager that the hooks
  -- kept was detached and the catalog activated.
  pub record IsSwitched (stored : StoredRuntimeState) (home : RuntimePaths)
      (catalog : List RuntimeStrategy) (strategy : RuntimeStrategy) (was_running : Bool)
      (w after : W) : Type 0 where
    pub plan : Plan P
    pub is_plan : IsPlan stored home catalog strategy was_running w plan
    pub passed :
        HavePassed
          (before sys machine build plan)
          q.artifact.version
          (hooks sys machine build plan)
          (w, none)
    pub written :
        let (left, kept) =
          before_commit
            (before sys machine build plan)
            q.artifact.version
            (hooks sys machine build plan)
            (w, none) in
        let (done, committed) =
          save sys machine build
            (record {
              current = q.artifact.version;
              previous_known_good = stored.current;
              pending = [];
              package_sha256 = q.artifact.sha256;
              manifest_key_id = q.key_id;
              last_result = codes "payload-update-committed";
            })
            left in
        (done ≡ true)
        × (after
            ≡ machine.activate_catalog catalog (detach_kept sys machine build plan kept committed))

  finish_switch-applied :
      (plan : Plan P) (status : ActivationStatus) (s : Switching W P)
      → (finish_switch sys machine build plan status s).0 ≡ applied
      → status ≡ activated
  finish_switch-applied plan activated s h = refl
  finish_switch-applied plan status (w, kept) h = ground arith

  -- What `finish_switch` leaves of a runtime that was activated.
  finish_switch-activated :
      (plan : Plan P) (status : ActivationStatus) (s : Switching W P)
      → status ≡ activated
      → (finish_switch sys machine build plan status s).1
        ≡ machine.activate_catalog plan.catalog (detach_kept sys machine build plan s.1 s.0)
  finish_switch-activated plan activated s h = refl
  finish_switch-activated plan status (w, kept) h = absurd (ground arith)

  module _ (stored : StoredRuntimeState) (catalog : List RuntimeStrategy)
      (strategy : RuntimeStrategy) (home : RuntimePaths) where
    switch_with-IsSwitched :
        (was_running : Bool) (back : List RuntimeStrategy) (w : W)
        → let plan =
            plan_with sys machine build paths q stored catalog strategy was_running home
              (paths_of sys machine build stored.current w)
              back in
          let end = switch_payload sys machine build plan w in
          (end.0 ≡ applied) → IsSwitched stored home catalog strategy was_running w end.1
    unfolding switch_payload call
    switch_with-IsSwitched was_running back w h =
        let previous = paths_of sys machine build stored.current w in
        let plan =
          plan_with sys machine build paths q stored catalog strategy was_running home previous
            back in
        let start = before sys machine build plan in
        let steps = hooks sys machine build plan in
        let (outcome, s) = activate_runtime start q.artifact.version steps (w, none) in
        let done = finish_switch-applied plan outcome.status s h in
        let (committed, (same, passed)) =
          activated-commit start q.artifact.version steps (w, none) done in
        record {
          plan = plan;
          is_plan = record {
            artifact = refl;
            key_id = refl;
            manager = refl;
            of_stored = refl;
            candidate = refl;
            previous = refl;
            of_catalog = refl;
            of_strategy = refl;
            running = refl;
          };
          passed = passed;
          written = (
            committed,
            finish_switch-activated plan outcome.status s done
                ∙ ap
                    (λ t.
                      machine.activate_catalog catalog (detach_kept sys machine build plan t.1 t.0))
                    same,
          );
        }

    pub with_saved-IsSwitched :
        (was_running : Bool) (w : W)
        → let end =
            with_saved sys machine build paths q stored catalog strategy home was_running w in
          (end.0 ≡ applied) → IsSwitched stored home catalog strategy was_running w end.1
    with_saved-IsSwitched false w h = switch_with-IsSwitched false [] w h
    with_saved-IsSwitched true w h =
        let previous = paths_of sys machine build stored.current w in
        with_rollback-IsSwitched (rollback_catalog sys machine build paths q stored previous w) w h
      where
        with_rollback-IsSwitched :
            (found : Option (List RuntimeStrategy)) (w : W)
            → let end =
                with_rollback sys machine build paths q stored catalog strategy home
                  (paths_of sys machine build stored.current w)
                  found
                  w in
              (end.0 ≡ applied) → IsSwitched stored home catalog strategy true w end.1
        with_rollback-IsSwitched none w h = absurd (ground arith)
        with_rollback-IsSwitched (some back) w h = switch_with-IsSwitched true back w h
