-- ===== src/Update/Manager/Apply/Prepared.antt =====
-- What `ApplyPayload` has done from the candidate in its place to the switch.
use cheburnet.Base.{
  ◌≡◌, refl, Bool, true, false, Option, none, some, List, [], ◌∷◌, codes, is_empty, arith,
}
use cheburnet.Core.Paths.{RuntimePaths}
use cheburnet.Settings.Strategies.{RuntimeStrategy}
use cheburnet.Update.StateStore.{StoredRuntimeState}
use cheburnet.Update.Manager.{System, Build}
use cheburnet.Update.Manager.Apply.{Machine, applied, preflight_rejected, save, selected}
use cheburnet.Update.Manager.Apply.Candidate.{
  Request, if_saved, with_strategy, with_catalog, discard, pending_state,
}
use cheburnet.Update.Manager.Apply.Switched.{IsSwitched, with_saved-IsSwitched}

module _ {W P : Type 0} (sys : System W) (machine : Machine W P) (build : Build)
    (paths : RuntimePaths) (q : Request P) where
  -- From the world `w`, in which the candidate lies in its place, to the world `after`: its catalog is
  -- that of the installed runtime, and not empty; the state was saved that has the candidate as
  -- pending; and the switch was made with the strategy that was chosen from the catalog.
  pub record IsPrepared (stored : StoredRuntimeState) (home : RuntimePaths) (w after : W)
      : Type 0 where
    pub catalog : List RuntimeStrategy
    pub installed : machine.installed home w ≡ some catalog
    pub listed : is_empty catalog ≡ false
    pub strategy : RuntimeStrategy
    pub chosen : selected q.strategy_id catalog ≡ some strategy
    pub saved : W
    pub pending :
        save sys machine build
          (record {
            current = stored.current;
            previous_known_good = stored.previous_known_good;
            pending = q.artifact.version;
            package_sha256 = q.artifact.sha256;
            manifest_key_id = q.key_id;
            last_result = codes "candidate-preflight-ok";
          })
          w
        ≡ (true, saved)
    pub switched :
        IsSwitched sys machine build paths q stored home catalog strategy
          (machine.connected q.manager w)
          saved
          after

  module _ (stored : StoredRuntimeState) (home : RuntimePaths) where
    discard-refused : (w : W) → (discard sys machine build paths q home w).0 ≡ preflight_rejected
    discard-refused w = unfold discard in refl

    if_saved-IsPrepared :
        (catalog : List RuntimeStrategy) (strategy : RuntimeStrategy) (w : W) (answer : Bool × W)
        → machine.installed home w ≡ some catalog
        → is_empty catalog ≡ false
        → selected q.strategy_id catalog ≡ some strategy
        → save sys machine build (pending_state sys machine build paths q stored) w ≡ answer
        → let end =
            if_saved sys machine build paths q stored catalog strategy home
              (machine.connected q.manager w)
              answer in
          (end.0 ≡ applied) → IsPrepared stored home w end.1
    if_saved-IsPrepared catalog strategy w (false, v) i l c e h =
        absurd (ground (arith, discard-refused v))
    if_saved-IsPrepared catalog strategy w (true, v) i l c e h = record {
      catalog = catalog;
      installed = i;
      listed = l;
      strategy = strategy;
      chosen = c;
      saved = v;
      pending = e;
      switched =
          with_saved-IsSwitched sys machine build paths q stored catalog strategy home
            (machine.connected q.manager w) v h;
    }

    with_strategy-IsPrepared :
        (catalog : List RuntimeStrategy) (choice : Option RuntimeStrategy) (w : W)
        → machine.installed home w ≡ some catalog
        → is_empty catalog ≡ false
        → selected q.strategy_id catalog ≡ choice
        → let end = with_strategy sys machine build paths q stored catalog home choice w in
          (end.0 ≡ applied) → IsPrepared stored home w end.1
    with_strategy-IsPrepared catalog none w i l c h = absurd (ground (arith, discard-refused w))
    with_strategy-IsPrepared catalog (some strategy) w i l c h =
        if_saved-IsPrepared catalog strategy w
          (save sys machine build (pending_state sys machine build paths q stored) w) i l c refl h

    pub with_catalog-IsPrepared :
        (verified : Bool) (found : Option (List RuntimeStrategy)) (w : W)
        → machine.installed home w ≡ found
        → let end = with_catalog sys machine build paths q stored home verified found w in
          (end.0 ≡ applied) → (verified ≡ true) × IsPrepared stored home w end.1
    with_catalog-IsPrepared true (some []) w i h = absurd (ground (arith, discard-refused w))
    with_catalog-IsPrepared true (some (first ∷ catalog)) w i h = (
      refl,
      with_strategy-IsPrepared (first ∷ catalog) (selected q.strategy_id (first ∷ catalog)) w i refl
          refl h,
    )
    with_catalog-IsPrepared true none w i h = absurd (ground (arith, discard-refused w))
    with_catalog-IsPrepared false found w i h = absurd (ground (arith, discard-refused w))
