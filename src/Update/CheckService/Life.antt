-- ===== src/Update/CheckService/Life.antt =====
-- What holds of the service under every interleaving of its owner and its worker.
use cheburnet.Base.{ℕ, suc, ◌+◌, ◌≤◌, Bool, true, false, Option, none, some, ◌≡◌, ◌≢◌, ◌↔◌, arith}
use cheburnet.Update.CheckService.{
  CheckPhase, running, ready, cancelled, at_work, Service, new_service, start_check, finish,
  try_take_result, cancel_service,
}

-- The checks started so far, and the results handed to the owner.
pub record Ledger (R : Type 0) : Type 0 where
  pub service : Service R
  pub started : ℕ
  pub delivered : ℕ

abbrev count_true : Bool → ℕ → ℕ
count_true false n = n
count_true true n = suc n

abbrev due : CheckPhase → ℕ
due running = 1
due ready = 1
due _ = 0

module _ {R : Type 0} where
  abbrev count_some : Option R → ℕ → ℕ
  count_some none n = n
  count_some (some r) n = suc n

  -- One step of the owner or, while it is at work, of the worker.
  pub data Step : Ledger R → Ledger R → Type 0 where
    starts :
        (l : Ledger R)
        → Step l (record l {
          service = (start_check l.service).0;
          started = count_true (start_check l.service).1 l.started;
        })
    takes :
        (l : Ledger R)
        → Step l (record l {
          service = (try_take_result l.service).0;
          delivered = count_some (try_take_result l.service).1 l.delivered;
        })
    cancels : (l : Ledger R) (r : R) → Step l (record l { service = cancel_service r l.service })
    works :
        (l : Ledger R) (r : R)
        → l.service.worker ≡ at_work
        → Step l (record l { service = finish r l.service })

  pub data Reach : Ledger R → Type 0 where
    fresh :
        (has_check : Bool)
        → Reach (record { service = new_service has_check; started = 0; delivered = 0 })
    next : {l m : Ledger R} → Reach l → Step l m → Reach m

  -- A result is kept exactly in phase `ready`, and a worker is at work exactly in phase `running`;
  -- each result that was handed out, is kept or is being worked on has a check of its own.
  pub record IsOrderly (l : Ledger R) : Type 0 where
    pub kept : (l.service.result ≢ none) ↔ (l.service.phase ≡ ready)
    pub at_work_running : (l.service.worker ≡ at_work) ↔ (l.service.phase ≡ running)
    pub delivered_le : l.delivered + due l.service.phase ≤ l.started

  Step-IsOrderly : {l m : Ledger R} → Step l m → IsOrderly l → IsOrderly m
  Step-IsOrderly (starts l) h = unfold start_check in ground arith
  Step-IsOrderly (takes l) h = unfold try_take_result in ground arith
  Step-IsOrderly (cancels l r) h = unfold cancel_service in ground arith
  Step-IsOrderly (works l r e) h = unfold finish in ground arith

  -- However the owner's calls and the worker's end interleave, a result is kept exactly in phase `ready`,
  -- a worker is at work exactly in phase `running`, and no more results are handed out than checks
  -- were started, not counting the one that is under way or kept.
  pub Reach-IsOrderly : {l : Ledger R} → Reach l → IsOrderly l
  Reach-IsOrderly (fresh b) = unfold new_service in ground arith
  Reach-IsOrderly (next r s) = Step-IsOrderly s (Reach-IsOrderly r)

  -- Once it is cancelled, a service stays so: it starts no check and hands out no result.
  pub cancelled_stays :
      (s : Service R)
      → s.phase ≡ cancelled
      → ((start_check s).1 ≡ false)
        × ((start_check s).0 ≡ s)
        × ((try_take_result s).1 ≡ none)
        × ((try_take_result s).0 ≡ s)
  unfolding start_check try_take_result
  cancelled_stays s h = ground arith
