-- ===== src/Core/Process/Run.antt =====
-- The runs of `Start`, call by call: the steps that succeed, and those that fail.
use cheburnet.Base.{ℕ, ◌≡◌, ◌⊎◌, true, false, ◌&&◌, none, some, Bytes, List}
use cheburnet.Launch.Recovery.{iequals_ascii}
use cheburnet.Core.Files.{a_file}
use cheburnet.Launch.CommandLine.{build}
use cheburnet.Core.Process.{
  ProcessRecord, no_record, is_expected_winws_image, StartStatus, start_ok, invalid_executable,
  redirect_failed, job_failed, create_failed, assign_job_failed, resume_failed, identity_failed,
  exited_early, record_failed, signaled, timed_out, wait_failed, Processes, identity_matches,
  Starting,
}

-- A call of `Start`: the system and the root of the runtimes, the arguments, and the world.
pub record Call (W H : Type 0) : Type 0 where
  pub sys : Processes W H
  pub runtime_root : Bytes
  pub exe : Bytes
  pub arguments : List Bytes
  pub dir : Bytes
  pub ms : ℕ
  pub stdout_log : Bytes
  pub stderr_log : Bytes
  pub start : W

module _ {W H : Type 0} (c : Call W H) where
  -- The steps that succeed, one after the other, each in the world that the one before it left. The
  -- executable is a single file, and a winws.exe below the root of the runtimes.
  pub record IsAllowed : Type 0 where
    pub file : c.sys.files.validate_object c.exe a_file true c.start ≡ true
    pub expected : is_expected_winws_image c.exe c.runtime_root ≡ true

  -- The redirections, the attributes and the job are made, in this order.
  pub record IsRedirected (w : W) : Type 0 where
    pub allowed : IsAllowed
    pub redirected : c.sys.open_redirects c.stdout_log c.stderr_log c.start ≡ (true, w)

  pub record HasAttributes (w : W) : Type 0 where
    pub before : W
    pub so_far : IsRedirected before
    pub prepared : c.sys.prepare_attributes before ≡ (true, w)

  pub record HasJob (w : W) : Type 0 where
    pub before : W
    pub so_far : HasAttributes before
    pub made : c.sys.create_job before ≡ (true, w)

  -- The process is created, suspended.
  pub record IsCreated (h : H) (w : W) : Type 0 where
    pub before : W
    pub so_far : HasJob before
    pub created : c.sys.create_process c.exe (build c.exe c.arguments) c.dir before ≡ (some h, w)

  pub record IsAssigned (h : H) (w : W) : Type 0 where
    pub before : W
    pub so_far : IsCreated h before
    pub assigned : c.sys.assign_to_job h before ≡ (true, w)

  -- Its identity is taken, before it is resumed: the record has its id, time and image, and the image is
  -- the executable asked for and a winws.exe below the root of the runtimes.
  pub record IsPinned (h : H) (r : ProcessRecord) (w : W) : Type 0 where
    pub so_far : IsAssigned h w
    pub pid : r.pid ≡ c.sys.pid_of h
    pub created : c.sys.creation_time_of h w ≡ some r.creation_time
    pub runs : c.sys.image_path_of h w ≡ some r.image_path
    pub same : iequals_ascii r.image_path c.exe ≡ true
    pub expected : is_expected_winws_image r.image_path c.runtime_root ≡ true

  pub record IsResumed (h : H) (r : ProcessRecord) (w : W) : Type 0 where
    pub before : W
    pub so_far : IsPinned h r before
    pub resumed : c.sys.resume h before ≡ (true, w)

  -- It does not end during the wait, and then has the identity that was taken.
  pub record IsStable (h : H) (r : ProcessRecord) (w : W) : Type 0 where
    pub before : W
    pub so_far : IsResumed h r before
    pub waited : c.sys.wait h c.ms before ≡ (timed_out, w)
    pub matches : identity_matches c.sys c.runtime_root r w ≡ true

  pub record IsSaved (h : H) (r : ProcessRecord) (w : W) : Type 0 where
    pub before : W
    pub so_far : IsStable h r before
    pub saved : c.sys.save_record r before ≡ (true, w)

  -- The limits of the job are cleared, last of all.
  pub record IsStarted (r : ProcessRecord) (w : W) : Type 0 where
    pub handle : H
    pub before : W
    pub so_far : IsSaved handle r before
    pub cleared : c.sys.clear_limits before ≡ (true, w)

  -- The identity that `w` gives for the handle is not that of the executable.
  abbrev pub HasOtherIdentity : H → W → Type 0
  HasOtherIdentity h w =
      (c.sys.creation_time_of h w ≡ none)
      ⊎ ((c.sys.image_path_of h w ≡ none)
          ⊎ ((image : Bytes) × ((c.sys.image_path_of h w ≡ some image)
                × ((iequals_ascii image c.exe && is_expected_winws_image image c.runtime_root)
                    ≡ false))))

  -- The step that failed before a process was created, and the world that is left.
  pub data Uncreated : StartStatus → W → Type 0 where
    not_allowed :
        (c.sys.files.validate_object c.exe a_file true c.start
            && is_expected_winws_image c.exe c.runtime_root)
          ≡ false
        → Uncreated invalid_executable c.start
    not_redirected :
        {w : W}
        → IsAllowed
        → c.sys.open_redirects c.stdout_log c.stderr_log c.start ≡ (false, w)
        → Uncreated redirect_failed w
    no_attributes :
        {w v : W}
        → IsRedirected w
        → c.sys.prepare_attributes w ≡ (false, v)
        → Uncreated create_failed v
    no_job : {w v : W} → HasAttributes w → c.sys.create_job w ≡ (false, v) → Uncreated job_failed v
    not_created :
        {w v : W}
        → HasJob w
        → c.sys.create_process c.exe (build c.exe c.arguments) c.dir w ≡ (none, v)
        → Uncreated create_failed (c.sys.close_job v)

  -- The step that failed once the process was created, and the world right after it.
  pub data Fault : StartStatus → H → W → Type 0 where
    not_assigned :
        {h : H} {w v : W}
        → IsCreated h w
        → c.sys.assign_to_job h w ≡ (false, v)
        → Fault assign_job_failed h v
    not_pinned : {h : H} {w : W} → IsAssigned h w → HasOtherIdentity h w → Fault identity_failed h w
    not_resumed :
        {h : H} {r : ProcessRecord} {w v : W}
        → IsPinned h r w
        → c.sys.resume h w ≡ (false, v)
        → Fault resume_failed h v
    not_waited :
        {h : H} {r : ProcessRecord} {w v : W}
        → IsResumed h r w
        → c.sys.wait h c.ms w ≡ (wait_failed, v)
        → Fault identity_failed h v
    not_matched :
        {h : H} {r : ProcessRecord} {w v : W}
        → IsResumed h r w
        → c.sys.wait h c.ms w ≡ (timed_out, v)
        → identity_matches c.sys c.runtime_root r v ≡ false
        → Fault identity_failed h v
    not_saved :
        {h : H} {r : ProcessRecord} {w v : W}
        → IsStable h r w
        → c.sys.save_record r w ≡ (false, v)
        → Fault record_failed h v
    not_cleared :
        {h : H} {r : ProcessRecord} {w v : W}
        → IsSaved h r w
        → c.sys.clear_limits w ≡ (false, v)
        → Fault job_failed h v

  -- The world once a process was terminated, the job closed, the wait over and the record deleted.
  abbrev pub rolled_back : H → W → W
  rolled_back h w =
      let terminated = (c.sys.terminate h w).1 in
      let waited = (c.sys.wait h 5000 (c.sys.close_job terminated)).1 in c.sys.delete_record waited

  -- The process ended by itself during the wait.
  pub record HasEnded (w : W) : Type 0 where
    pub handle : H
    pub kept : ProcessRecord
    pub before : W
    pub after : W
    pub so_far : IsResumed handle kept before
    pub waited : c.sys.wait handle c.ms before ≡ (signaled, after)
    pub left : w ≡ c.sys.close_job (c.sys.delete_record after)

  -- The four ways in which a start that had a record ends.
  abbrev pub IsOutcome : ProcessRecord → Starting c.sys c.runtime_root → Type 0
  IsOutcome r (status, (r₁, w₁)) =
      ((status ≡ start_ok) × IsStarted r₁ w₁)
      ⊎ (((r₁ ≡ r) × Uncreated status w₁)
          ⊎ (((r₁ ≡ no_record)
                × ((h : H) × ((w : W) × (Fault status h w × (w₁ ≡ rolled_back h w)))))
              ⊎ ((r₁ ≡ no_record) × ((status ≡ exited_early) × HasEnded w₁))))
