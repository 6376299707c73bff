-- ===== src/Launch/Operation.antt =====
-- app/OperationState.h, the gate that serializes what changes the runtime or the process, and
-- core/Preflight.h.
use cheburnet.Base.{
  ℕ, suc, ◌≡◌, refl, sym, subst, ◌⊎◌, inl, inr, Bool, true, false, not, ◌||◌, arith, if◌then◌else◌,
}

pub data AppOperationState : Type 0 where
  disconnected connecting connected disconnecting updating rolling_back error : AppOperationState

abbrev pub same : AppOperationState → AppOperationState → Bool
same disconnected disconnected = true
same connecting connecting = true
same connected connected = true
same disconnecting disconnecting = true
same updating updating = true
same rolling_back rolling_back = true
same error error = true
same _ _ = false

-- `TryTransition`: the new state, and whether the exchange was made.
unfoldable pub try_transition :
    AppOperationState → AppOperationState → AppOperationState → AppOperationState × Bool
try_transition expected desired state =
    if same state expected then (desired, true) else (state, false)

-- The condition of the loop of `ObserveProcess`.
abbrev pub is_settled : AppOperationState → Bool
is_settled connected = true
is_settled disconnected = true
is_settled error = true
is_settled _ = false

-- `ObserveProcess`, whose loop ends with an exchange made on the state that it tested.
unfoldable pub observe_process : Bool → AppOperationState → AppOperationState
observe_process alive state =
    if is_settled state then (if alive then connected else disconnected) else state

abbrev pub complete : AppOperationState → AppOperationState → AppOperationState
complete result state = result

pub data PreflightResult : Type 0 where
  ok unsupported_os needs_elevation : PreflightResult

unfoldable pub evaluate_preflight : Bool → Bool → Bool → PreflightResult
evaluate_preflight elevated os_64bit win10_or_greater =
    if not os_64bit || not win10_or_greater
    then unsupported_os
    else if not elevated
    then needs_elevation
    else ok

-- The gate's state, and how many operations have entered since the last call of `Complete`.
pub record Gate : Type 0 where
  pub state : AppOperationState
  pub entered : ℕ

-- What the threads of the program do with the gate, in any order: every caller of `TryTransition` asks
-- from a settled state for a busy one; `Complete` is called with any state and by any thread, whether or
-- not it entered; and any thread reports what it sees of the process.
pub data Step : Gate → Gate → Type 0 where
  tries :
      (g : Gate) (expected busy : AppOperationState)
      → is_settled expected ≡ true
      → is_settled busy ≡ false
      → Step g (record {
        state = (try_transition expected busy g.state).0;
        entered = if (try_transition expected busy g.state).1 then suc g.entered else g.entered;
      })
  completes :
      (g : Gate) (result : AppOperationState)
      → Step g (record { state = complete result g.state; entered = 0 })
  observes : (g : Gate) (alive : Bool) → Step g (record g { state = observe_process alive g.state })

pub data GateReach : Gate → Type 0 where
  gate_fresh : GateReach (record { state = disconnected; entered = 0 })
  gate_next : {g k : Gate} → GateReach g → Step g k → GateReach k

-- Nothing has entered since the last `Complete`; or one operation has, the state is busy, and every
-- further transition from a settled state fails and leaves the state, as every observation does.
abbrev OwnedBy : AppOperationState → ℕ → Type 0
OwnedBy state entered =
    (entered ≡ 0)
    ⊎ ((entered ≡ 1)
        × ((is_settled state ≡ false)
            × (((alive : Bool) → observe_process alive state ≡ state)
                × ((settled busy : AppOperationState)
                    → (is_settled settled ≡ false)
                      ⊎ (try_transition settled busy state ≡ (state, false))))))

abbrev pub Owned : Gate → Type 0
Owned g = OwnedBy g.state g.entered

-- What a busy state refuses.
refused :
    (state settled busy : AppOperationState)
    → is_settled state ≡ false
    → (is_settled settled ≡ false) ⊎ (try_transition settled busy state ≡ (state, false))
unfolding try_transition
refused state settled busy h = ground arith

kept :
    (state : AppOperationState) (alive : Bool)
    → is_settled state ≡ false
    → observe_process alive state ≡ state
unfolding observe_process
kept state alive h = ground arith

busy-OwnedBy : (state : AppOperationState) → is_settled state ≡ false → OwnedBy state 1
busy-OwnedBy state h =
    inr (refl, (h, (λ alive. kept state alive h, λ settled busy. refused state settled busy h)))

try_transition-cases :
    (expected busy state : AppOperationState)
    → (try_transition expected busy state ≡ (busy, true))
      ⊎ (try_transition expected busy state ≡ (state, false))
unfolding try_transition
try_transition-cases expected busy state = ground arith

-- What a call of `TryTransition` leaves.
abbrev After : ℕ → AppOperationState × Bool → Type 0
After n (state, made) = OwnedBy state (if made then suc n else n)

try-After :
    (expected busy state : AppOperationState) (n : ℕ)
    → is_settled expected ≡ true
    → is_settled busy ≡ false
    → OwnedBy state n
    → After n (try_transition expected busy state)
try-After expected busy state n e b (inl z) = elim (try_transition-cases expected busy state) [
  | inl made ↦
      subst (After n) (sym made) (subst (λ m. OwnedBy busy (suc m)) (sym z) (busy-OwnedBy busy b))
  | inr failed ↦ subst (After n) (sym failed) (inl z)
]
try-After expected busy state n e b (inr (once, (h, rest))) = elim (refused state expected busy h) [
  | inl unsettled ↦ absurd (ground arith)
  | inr failed ↦ subst (After n) (sym failed) (inr (once, (h, rest)))
]

Step-Owned : {g k : Gate} → Step g k → Owned g → Owned k
Step-Owned (tries g expected busy e b) h = try-After expected busy g.state g.entered e b h
Step-Owned (completes g result) h = inl refl
Step-Owned (observes g alive) (inl z) = inl z
Step-Owned (observes g alive) (inr (once, (h, (keeps, rest)))) =
    subst (λ s. OwnedBy s g.entered) (sym (keeps alive)) (inr (once, (h, (keeps, rest))))

-- Where every `TryTransition` asks from a settled state for a busy one, as all callers do, then however
-- the threads interleave their calls, and whoever calls `Complete` with whatever state, at most one
-- operation has entered since the last call of `Complete`. If one has, the gate's state is not
-- settled (connected, disconnected or error); no transition from a settled state is made, so no other
-- operation enters; and what is observed of the process changes nothing.
pub GateReach-Owned : {g : Gate} → GateReach g → Owned g
GateReach-Owned gate_fresh = inl refl
GateReach-Owned (gate_next r s) = Step-Owned s (GateReach-Owned r)
