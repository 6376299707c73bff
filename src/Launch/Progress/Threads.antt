-- ===== src/Launch/Progress/Threads.antt =====
-- The worker, which calls `Reach` and `MarkError`, against the animation thread, which calls `Tick`
-- and `Display`: every atomic access is a step of its own.
use cheburnet.Base.{
  ℕ, zero, suc, ◌≤◌, ◌≡◌, refl, ap, subst, ◌∙◌, ◌⊎◌, inl, inr, Option, none, some, Bytes, arith,
}
use cheburnet.Launch.Progress.{
  Stage, start, os_check, admin_check, runtime_prep, extract_verify, conflict_check, args_prep,
  launch_proc, proc_alive, confirmed, RunState, running, success, error, ℤ, index, Progress,
  new_progress, raise, fail, floor_of, ceiling_of, forward, advance, display, floor, ceiling,
}

-- How far the worker is in `Reach(Confirmed)`.
pub data Work : Type 0 where
  between state_due anim_due : Work

-- How far the animation is in `Tick`: what it has loaded so far.
pub data Frame : Type 0 where
  no_frame : Frame
  with_floor : ℕ → Frame
  with_state : ℕ → RunState → Frame
  with_limits : ℕ → ℕ → Frame
  with_value : ℕ → Frame

pub record Threads : Type 0 where
  pub model : Progress
  pub work : Work
  pub frame : Frame
  -- The value that `Tick` returned last.
  pub shown : ℕ

abbrev after_cas : Stage → Work
after_cas confirmed = state_due
after_cas _ = between

pub data Step : Threads → Threads → Type 0 where
  reaches :
      (t : Threads) (s : Stage)
      → t.work ≡ between
      → Step t (record t {
        model = record t.model { reached = raise (index s) t.model.reached };
        work = after_cas s;
      })
  succeeds :
      (t : Threads)
      → t.work ≡ state_due
      → Step t (record t { model = record t.model { state = success }; work = anim_due })
  completes :
      (t : Threads)
      → t.work ≡ anim_due
      → Step t (record t { model = record t.model { anim = 100 }; work = between })
  fails :
      (t : Threads) (message : Bytes)
      → t.work ≡ between
      → Step t (record t {
        model = record t.model { error_message = message; state = fail t.model.state };
      })
  loads_floor :
      (t : Threads)
      → t.frame ≡ no_frame
      → Step t (record t { frame = with_floor (floor_of t.model.reached) })
  loads_state :
      (t : Threads) {f : ℕ}
      → t.frame ≡ with_floor f
      → Step t (record t { frame = with_state f t.model.state })
  loads_reached :
      (t : Threads) {f : ℕ} {s : RunState}
      → t.frame ≡ with_state f s
      → Step t (record t { frame = with_limits f (ceiling_of s t.model.reached) })
  loads_anim :
      (t : Threads) {f c : ℕ} (step : ℤ)
      → t.frame ≡ with_limits f c
      → Step t (record t { frame = with_value (advance (forward step) f c t.model.anim) })
  stores_anim :
      (t : Threads) {v : ℕ}
      → t.frame ≡ with_value v
      → Step t (record t { model = record t.model { anim = v }; frame = no_frame; shown = v })

pub data Reach : Threads → Type 0 where
  fresh : Reach (record { model = new_progress; work = between; frame = no_frame; shown = 0 })
  next : {t u : Threads} → Reach t → Step t u → Reach u

-- The value of a percentage that may only be shown as 100 once the stage `Confirmed` is reached.
abbrev Fair : Option ℕ → ℕ → Type 0
Fair r v = (v ≤ 99) ⊎ ((v ≡ 100) × (r ≡ some 9))

abbrev InTable : Option ℕ → Type 0
InTable none = Unit
InTable (some r) = r ≤ 9

abbrev FairFrame : Option ℕ → Frame → Type 0
FairFrame r (with_limits f c) = Fair r c
FairFrame r (with_state f s) = s ≡ success → r ≡ some 9
FairFrame r (with_value v) = Fair r v
FairFrame r _ = Unit

record IsFair (t : Threads) : Type 0 where
  in_table : InTable t.model.reached
  success_confirmed : t.model.state ≡ success → t.model.reached ≡ some 9
  due_confirmed : (t.work ≡ between) ⊎ (t.model.reached ≡ some 9)
  fair_frame : FairFrame t.model.reached t.frame
  fair_shown : Fair t.model.reached t.shown

floor-Fair : (r : Option ℕ) → InTable r → Fair r (floor_of r)
floor-Fair none h = ground arith
floor-Fair (some zero) h = ground arith
floor-Fair (some (suc zero)) h = ground arith
floor-Fair (some (suc (suc zero))) h = ground arith
floor-Fair (some (suc (suc (suc zero)))) h = ground arith
floor-Fair (some (suc (suc (suc (suc zero))))) h = ground arith
floor-Fair (some (suc (suc (suc (suc (suc zero)))))) h = ground arith
floor-Fair (some (suc (suc (suc (suc (suc (suc zero))))))) h = ground arith
floor-Fair (some (suc (suc (suc (suc (suc (suc (suc zero)))))))) h = ground arith
floor-Fair (some (suc (suc (suc (suc (suc (suc (suc (suc zero))))))))) h = ground arith
floor-Fair (some (suc (suc (suc (suc (suc (suc (suc (suc (suc zero)))))))))) h = ground arith
floor-Fair (some (suc (suc (suc (suc (suc (suc (suc (suc (suc (suc r))))))))))) h =
    absurd (ground arith)

ceiling-Fair :
    (s : RunState) (r : Option ℕ) → InTable r → (s ≡ success → r ≡ some 9) → Fair r (ceiling_of s r)
ceiling-Fair running r h k = ground arith
ceiling-Fair success r h k = ground arith
ceiling-Fair error r h k = floor-Fair r h

index_le : (s : Stage) → index s ≤ 9
index_le start = ground arith
index_le os_check = ground arith
index_le admin_check = ground arith
index_le runtime_prep = ground arith
index_le extract_verify = ground arith
index_le conflict_check = ground arith
index_le args_prep = ground arith
index_le launch_proc = ground arith
index_le proc_alive = ground arith
index_le confirmed = ground arith

raise-InTable : (s : Stage) (r : Option ℕ) → InTable r → InTable (raise (index s) r)
raise-InTable s none h = index_le s
raise-InTable s (some r) h = ground (arith, index_le s)

raise-nine : (s : Stage) → raise (index s) (some 9) ≡ some 9
raise-nine s = ground (arith, index_le s)

raise-Fair : (s : Stage) (r : Option ℕ) {v : ℕ} → Fair r v → Fair (raise (index s) r) v
raise-Fair s r (inl h) = inl h
raise-Fair s r (inr (h, e)) = inr (h, ap (raise (index s)) e ∙ raise-nine s)

advance-Fair : (step f c v : ℕ) {r : Option ℕ} → Fair r c → Fair r (advance step f c v)
advance-Fair step f c v h = ground arith

raise-FairFrame :
    (s : Stage) (r : Option ℕ) (f : Frame) → FairFrame r f → FairFrame (raise (index s) r) f
raise-FairFrame s r no_frame h = tt
raise-FairFrame s r (with_floor f) h = tt
raise-FairFrame s r (with_state f st) h = λ e. ap (raise (index s)) (h e) ∙ raise-nine s
raise-FairFrame s r (with_limits f c) h = raise-Fair s r h
raise-FairFrame s r (with_value v) h = raise-Fair s r h

raise-due :
    (s : Stage) (r : Option ℕ) → InTable r → (after_cas s ≡ between) ⊎ (raise (index s) r ≡ some 9)
raise-due start r h = inl refl
raise-due os_check r h = inl refl
raise-due admin_check r h = inl refl
raise-due runtime_prep r h = inl refl
raise-due extract_verify r h = inl refl
raise-due conflict_check r h = inl refl
raise-due args_prep r h = inl refl
raise-due launch_proc r h = inl refl
raise-due proc_alive r h = inl refl
raise-due confirmed none h = inr refl
raise-due confirmed (some r) h = inr (ground arith)

Step-IsFair : {t u : Threads} → Step t u → IsFair t → IsFair u
Step-IsFair (reaches t s e) h = record {
  in_table = raise-InTable s t.model.reached h.in_table;
  success_confirmed = λ k. ap (raise (index s)) (h.success_confirmed k) ∙ raise-nine s;
  due_confirmed = raise-due s t.model.reached h.in_table;
  fair_frame = raise-FairFrame s t.model.reached t.frame h.fair_frame;
  fair_shown = raise-Fair s t.model.reached h.fair_shown;
}
Step-IsFair (succeeds t e) h = ground arith
Step-IsFair (completes t e) h = ground arith
Step-IsFair (fails t m e) h = ground arith
Step-IsFair (loads_floor t e) h = ground arith
Step-IsFair (loads_state t e) h = ground arith
Step-IsFair (loads_reached t {f = f} {s = s} e) h =
    let known : FairFrame t.model.reached (with_state f s) =
      subst (FairFrame t.model.reached) e h.fair_frame in
    record {
      in_table = h.in_table;
      success_confirmed = h.success_confirmed;
      due_confirmed = h.due_confirmed;
      fair_frame = ceiling-Fair s t.model.reached h.in_table known;
      fair_shown = h.fair_shown;
    }
Step-IsFair (loads_anim t {f = f} {c = c} step e) h =
    let known : FairFrame t.model.reached (with_limits f c) =
      subst (FairFrame t.model.reached) e h.fair_frame in
    record {
      in_table = h.in_table;
      success_confirmed = h.success_confirmed;
      due_confirmed = h.due_confirmed;
      fair_frame = advance-Fair (forward step) f c t.model.anim known;
      fair_shown = h.fair_shown;
    }
Step-IsFair (stores_anim t {v = v} e) h = record {
  in_table = h.in_table;
  success_confirmed = h.success_confirmed;
  due_confirmed = h.due_confirmed;
  fair_frame = tt;
  fair_shown = subst (FairFrame t.model.reached) e h.fair_frame;
}

Reach-IsFair : {t : Threads} → Reach t → IsFair t
Reach-IsFair fresh = record {
  in_table = tt;
  success_confirmed = λ e. absurd (ground arith);
  due_confirmed = inl refl;
  fair_frame = tt;
  fair_shown = inl (ground arith);
}
Reach-IsFair (next r s) = Step-IsFair s (Reach-IsFair r)

-- Whatever the interleaving, what `Tick` returned is at most 99, or it is 100 and the stage
-- `Confirmed` has been reached.
pub tick-confirmed :
    {t : Threads}
    → Reach t
    → (t.shown ≤ 99) ⊎ ((t.shown ≡ 100) × (t.model.reached ≡ some (index confirmed)))
tick-confirmed r = (Reach-IsFair r).fair_shown

-- Whatever the interleaving, once the state is `Success` the animation displays 100.
pub display-success : {t : Threads} → Reach t → t.model.state ≡ success → display t.model ≡ 100
unfolding display floor ceiling
display-success {t = t} r e = let h = (Reach-IsFair r).success_confirmed e in ground arith
