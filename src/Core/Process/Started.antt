-- ===== src/Core/Process/Started.antt =====
-- Every start is one of the runs of `Start`.
use cheburnet.Base.{
  if-holds, ℕ, ◌≡◌, refl, inl, inr, Bool, true, false, not, ◌&&◌, Option, none, some, Bytes, arith,
  &&-true,
}
use cheburnet.Launch.Recovery.{iequals_ascii}
use cheburnet.Core.Files.{a_file}
use cheburnet.Launch.CommandLine.{build}
use cheburnet.Core.Process.{
  ProcessRecord, is_expected_winws_image, StartStatus, invalid_executable, redirect_failed,
  job_failed, create_failed, identity_failed, Waited, signaled, timed_out, wait_failed,
  identity_matches, Starting, roll_back, after_limits, after_save, after_stabilizing, after_resume,
  pin_identity, after_assign, after_create, prepare, with_job, with_attributes, with_redirects,
  start_process,
}
use cheburnet.Core.Process.Run.{
  Call, IsAllowed, IsRedirected, HasAttributes, HasJob, IsCreated, IsAssigned, IsPinned, IsResumed,
  IsStable, IsSaved, Uncreated, Fault, IsOutcome, not_allowed, not_redirected, no_attributes,
  not_created, not_assigned, not_resumed, not_waited, not_matched, not_saved, not_cleared, no_job,
  not_pinned,
}

module _ {W H : Type 0} (c : Call W H) (r : ProcessRecord) where
  uncreated : {status : StartStatus} {w : W} → Uncreated c status w → IsOutcome c r (status, (r, w))
  uncreated u = inr (inl (refl, u))

  rolled :
      {status : StartStatus} {h : H} {w : W}
      → Fault c status h w
      → IsOutcome c r (roll_back c.sys c.runtime_root status h w)
  unfolding roll_back
  rolled {h = h} {w = w} f = inr (inr (inl (refl, (h, (w, (f, refl))))))

  after_limits-IsOutcome :
      (h : H) (r₁ : ProcessRecord) (w : W) (answer : Bool × W)
      → IsSaved c h r₁ w
      → c.sys.clear_limits w ≡ answer
      → IsOutcome c r (after_limits c.sys c.runtime_root h r₁ answer)
  after_limits-IsOutcome h r₁ w (false, v) p e = rolled (not_cleared p e)
  after_limits-IsOutcome h r₁ w (true, v) p e =
      inl (refl, record { handle = h; before = w; so_far = p; cleared = e })

  after_save-IsOutcome :
      (h : H) (r₁ : ProcessRecord) (w : W) (answer : Bool × W)
      → IsStable c h r₁ w
      → c.sys.save_record r₁ w ≡ answer
      → IsOutcome c r (after_save c.sys c.runtime_root h r₁ answer)
  after_save-IsOutcome h r₁ w (false, v) p e = rolled (not_saved p e)
  after_save-IsOutcome h r₁ w (true, v) p e =
      after_limits-IsOutcome h r₁ v (c.sys.clear_limits v)
        (record { before = w; so_far = p; saved = e }) refl

  after_stabilizing-IsOutcome :
      (h : H) (r₁ : ProcessRecord) (w : W) (answer : Waited × W)
      → IsResumed c h r₁ w
      → c.sys.wait h c.ms w ≡ answer
      → IsOutcome c r (after_stabilizing c.sys c.runtime_root h r₁ answer)
  after_stabilizing-IsOutcome h r₁ w (signaled, v) p e = inr (
      inr (
        inr (
          refl,
          (
            refl,
            record {
              handle = h;
              kept = r₁;
              before = w;
              after = v;
              so_far = p;
              waited = e;
              left = refl;
            },
          ),
        )))
  after_stabilizing-IsOutcome h r₁ w (wait_failed, v) p e = rolled (not_waited p e)
  after_stabilizing-IsOutcome h r₁ w (timed_out, v) p e =
      if-holds (IsOutcome c r) (not (identity_matches c.sys c.runtime_root r₁ v))
        (roll_back c.sys c.runtime_root identity_failed h v)
        (after_save c.sys c.runtime_root h r₁ (c.sys.save_record r₁ v))
        (λ n. rolled (not_matched p e (ground arith)))
        (λ n.
          after_save-IsOutcome h r₁ v (c.sys.save_record r₁ v)
            (record { before = w; so_far = p; waited = e; matches = ground arith }) refl)

  after_resume-IsOutcome :
      (h : H) (r₁ : ProcessRecord) (w : W) (answer : Bool × W)
      → IsPinned c h r₁ w
      → c.sys.resume h w ≡ answer
      → IsOutcome c r (after_resume c.sys c.runtime_root h r₁ c.ms answer)
  after_resume-IsOutcome h r₁ w (false, v) p e = rolled (not_resumed p e)
  after_resume-IsOutcome h r₁ w (true, v) p e =
      after_stabilizing-IsOutcome h r₁ v (c.sys.wait h c.ms v)
        (record { before = w; so_far = p; resumed = e }) refl

  pin_identity-IsOutcome :
      (h : H) (time : Option ℕ) (image : Option Bytes) (w : W)
      → IsAssigned c h w
      → c.sys.creation_time_of h w ≡ time
      → c.sys.image_path_of h w ≡ image
      → IsOutcome c r (pin_identity c.sys c.runtime_root h c.exe c.ms time image w)
  pin_identity-IsOutcome h none image w p t i = rolled (not_pinned p (inl t))
  pin_identity-IsOutcome h (some time) none w p t i = rolled (not_pinned p (inr (inl i)))
  pin_identity-IsOutcome h (some time) (some image) w p t i =
      let r₁ : ProcessRecord = record {
        pid = c.sys.pid_of h;
        creation_time = time;
        image_path = image;
      } in
      if-holds (IsOutcome c r)
        (iequals_ascii image c.exe && is_expected_winws_image image c.runtime_root)
        (after_resume c.sys c.runtime_root h r₁ c.ms (c.sys.resume h w))
        (roll_back c.sys c.runtime_root identity_failed h w)
        (λ y.
          let (same, expected) = &&-true (iequals_ascii image c.exe) _ y in
          after_resume-IsOutcome h r₁ w (c.sys.resume h w)
            (record {
              so_far = p;
              pid = refl;
              created = t;
              runs = i;
              same = same;
              expected = expected;
            })
            refl)
        (λ n. rolled (not_pinned p (inr (inr (image, (i, n))))))

  after_assign-IsOutcome :
      (h : H) (w : W) (answer : Bool × W)
      → IsCreated c h w
      → c.sys.assign_to_job h w ≡ answer
      → IsOutcome c r (after_assign c.sys c.runtime_root h c.exe c.ms answer)
  after_assign-IsOutcome h w (false, v) p e = rolled (not_assigned p e)
  after_assign-IsOutcome h w (true, v) p e =
      pin_identity-IsOutcome h (c.sys.creation_time_of h v) (c.sys.image_path_of h v) v
        (record { before = w; so_far = p; assigned = e }) refl refl

  after_create-IsOutcome :
      (w : W) (answer : Option H × W)
      → HasJob c w
      → c.sys.create_process c.exe (build c.exe c.arguments) c.dir w ≡ answer
      → IsOutcome c r (after_create c.sys c.runtime_root r c.exe c.ms answer)
  after_create-IsOutcome w (none, v) p e = uncreated (not_created p e)
  after_create-IsOutcome w (some h, v) p e =
      after_assign-IsOutcome h v (c.sys.assign_to_job h v)
        (record { before = w; so_far = p; created = e }) refl

  -- A preparation, from what holds of its world to what holds of the next one.
  prepare-IsOutcome :
      (status : StartStatus) (answer call : Bool × W) (next : W → Starting c.sys c.runtime_root)
      → call ≡ answer
      → ((v : W) → call ≡ (false, v) → Uncreated c status v)
      → ((v : W) → call ≡ (true, v) → IsOutcome c r (next v))
      → IsOutcome c r (prepare c.sys c.runtime_root status r answer next)
  prepare-IsOutcome status (false, v) call next e u f = uncreated (u v e)
  prepare-IsOutcome status (true, v) call next e u f = f v e

  with_attributes-IsOutcome :
      (w : W)
      → HasAttributes c w
      → IsOutcome c r (with_attributes c.sys c.runtime_root r c.exe c.arguments c.dir c.ms w)
  with_attributes-IsOutcome w p =
      prepare-IsOutcome job_failed (c.sys.create_job w) (c.sys.create_job w)
        (with_job c.sys c.runtime_root r c.exe c.arguments c.dir c.ms) refl (λ v e. no_job p e)
        (λ v e.
          after_create-IsOutcome v (c.sys.create_process c.exe (build c.exe c.arguments) c.dir v)
            (record { before = w; so_far = p; made = e }) refl)

  with_redirects-IsOutcome :
      (w : W)
      → IsRedirected c w
      → IsOutcome c r (with_redirects c.sys c.runtime_root r c.exe c.arguments c.dir c.ms w)
  with_redirects-IsOutcome w p =
      prepare-IsOutcome create_failed (c.sys.prepare_attributes w) (c.sys.prepare_attributes w)
        (with_attributes c.sys c.runtime_root r c.exe c.arguments c.dir c.ms) refl
        (λ v e. no_attributes p e)
        (λ v e. with_attributes-IsOutcome v (record { before = w; so_far = p; prepared = e }))

  -- `Start` says `Ok` only at the end of a run in which every step succeeded, each in the world that the
  -- one before it left: the executable is allowed; the redirections, the attributes and the job are
  -- made; the process is created suspended and assigned to the job; its identity is taken while it is
  -- suspended, with the image asked for, a winws.exe below the root of the runtimes; it is resumed, and
  -- when the wait is over without its end it still has this identity; the record is saved; and the
  -- limits of the job are cleared. If a step fails before a process is created, the status is that of
  -- the step and the record from before is kept. If one fails after that, the process is terminated,
  -- the job closed, the end awaited and the record deleted, from the world that the failed step left. If
  -- the process ends during the wait, the record is deleted and the job closed.
  pub start_process-IsOutcome : IsOutcome c r (
      start_process c.sys c.runtime_root r c.exe c.arguments c.dir c.ms c.stdout_log c.stderr_log
        c.start)
  unfolding start_process
  start_process-IsOutcome =
      let file = c.sys.files.validate_object c.exe a_file true c.start in
      let safe = file && is_expected_winws_image c.exe c.runtime_root in
      let redirected = c.sys.open_redirects c.stdout_log c.stderr_log c.start in
      let redirect = with_redirects c.sys c.runtime_root r c.exe c.arguments c.dir c.ms in
      if-holds (IsOutcome c r) (not safe) (invalid_executable, (r, c.start))
        (prepare c.sys c.runtime_root redirect_failed r redirected redirect)
        (λ n. uncreated (not_allowed (ground arith)))
        (λ y.
          let (single, expected) =
            &&-true file (is_expected_winws_image c.exe c.runtime_root) (ground arith) in
          let allowed : IsAllowed c = record { file = single; expected = expected } in
          prepare-IsOutcome redirect_failed redirected redirected redirect refl
            (λ v e. not_redirected allowed e)
            (λ v e. with_redirects-IsOutcome v (record { allowed = allowed; redirected = e })))
