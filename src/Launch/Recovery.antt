-- ===== src/Launch/Recovery.antt =====
-- app/RuntimeRecovery.cpp: what to do with a runtime left pending and with one that fails its
-- integrity check. `IEqualsAscii` of util/StringUtil.cpp compares UTF-16 units.
use cheburnet.Base.{
  ℕ, ◌+◌, ◌≡◌, ◌⊎◌, Bool, true, false, not, ◌&&◌, ◌||◌, Option, none, some, List, [], ◌∷◌, arith,
  Bytes, ◌==◌, within, if◌then◌else◌,
}

abbrev pub to_lower_ascii : ℕ → ℕ
to_lower_ascii c = if within b'A' b'Z' c then c + 32 else c

unfoldable pub iequals_ascii : Bytes → Bytes → Bool
iequals_ascii [] [] = true
iequals_ascii (x ∷ a) (y ∷ b) = to_lower_ascii x == to_lower_ascii y && iequals_ascii a b
iequals_ascii _ _ = false

pub data PendingAction : Type 0 where
  none_pending clear_pending_only stop_pending_runtime_then_clear refuse_unknown_runtime :
      PendingAction

unfoldable pub decide_pending_recovery : Bool → Bool → Bytes → Bytes → Bytes → PendingAction
decide_pending_recovery has_pending process_valid running pending current =
    if not has_pending
    then none_pending
    else if not process_valid
    then clear_pending_only
    else if iequals_ascii running pending
    then stop_pending_runtime_then_clear
    else if iequals_ascii running current
    then clear_pending_only
    else refuse_unknown_runtime

pub data IntegrityAction : Type 0 where
  use_embedded use_installed rollback_to_previous refuse : IntegrityAction

unfoldable pub decide_integrity_recovery : Bool → Bool → Bool → Bool → IntegrityAction
decide_integrity_recovery is_embedded verified have_trusted have_previous =
    if is_embedded
    then use_embedded
    else if verified
    then use_installed
    else if not have_trusted || not have_previous
    then refuse
    else rollback_to_previous

-- A callback: `none` is the empty `std::function`.
abbrev pub Callback : Type 0 → Type 0
Callback W = Option (W → Bool × W)

abbrev pub invoke : {W : Type 0} → Callback W → W → Bool × W
invoke none w = (false, w)
invoke (some f) w = f w

-- `CommitIntegrityRecovery`, with the world that the callbacks change.
unfoldable pub commit_integrity_recovery :
    {W : Type 0} → Bool → Bytes → Bytes → Bytes → Callback W → Callback W → W → Bool × W
commit_integrity_recovery process_valid running failed fallback stop commit w =
    if process_valid && not (iequals_ascii running fallback)
    then (if iequals_ascii running failed
        then (let (stopped, w₁) = invoke stop w in
            if stopped then invoke commit w₁ else (false, w₁))
        else (false, w))
    else invoke commit w

-- The calls of the two callbacks and what they returned.
pub data Call : Type 0 where
  stop_call commit_call : Bool → Call

abbrev recording : {W : Type 0} → (Bool → Call) → (W → Bool × W) → Callback (W × List Call)
recording note f = some (λ (w, log). let (done, w₁) = f w in (done, (w₁, note done ∷ log)))

module _ {W : Type 0} (process_valid : Bool) (running failed fallback : Bytes)
    (stop commit : W → Bool × W) (w : W) where
  -- The calls made, the last one first, and the result.
  abbrev pub outcome : Bool × List Call
  outcome =
      let (done, (w₁, log)) =
        commit_integrity_recovery process_valid running failed fallback (recording stop_call stop)
          (recording commit_call commit) (w, []) in
      (done, log)

  -- The switch to the fallback runtime succeeds only with a successful `commit` as its last call; and
  -- when a process runs whose image is not the fallback's, only if that image is the failed
  -- runtime's and it was stopped, with success, right before.
  pub commit_integrity_recovery-calls :
      outcome.0 ≡ true
      → ((outcome.1 ≡ commit_call true ∷ [])
          × ((process_valid ≡ false) ⊎ (iequals_ascii running fallback ≡ true)))
        ⊎ ((outcome.1 ≡ commit_call true ∷ stop_call true ∷ [])
            × (iequals_ascii running failed ≡ true))
  unfolding commit_integrity_recovery
  commit_integrity_recovery-calls h = ground arith
