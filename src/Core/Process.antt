-- ===== src/Core/Process.antt =====
-- core/ProcessManager.cpp: the identity of a started winws.exe, `Start` and `Stop`. What is asked of the
-- system is an operation of `Processes`; the error numbers and the messages are left out, and so is the
-- owning of handles that only `CloseHandle` sees. A wait changes the world in so far as time goes by.
pub mod Stopped
pub mod Run
pub mod Started
pub mod Text
use cheburnet.Base.{
  ℕ, ◌-◌, Bool, true, false, not, ◌&&◌, ◌||◌, Option, none, some, List, [], ◌∷◌, ◌++◌, Bytes, codes,
  length, is_empty, bytes_eq, ltb, ◌==◌, take, drop, if◌then◌else◌,
}
use cheburnet.Core.Files.{Files, a_file}
use cheburnet.Core.SecureFs.{with_slash}
use cheburnet.Launch.CommandLine.{build}
use cheburnet.Launch.Recovery.{to_lower_ascii, iequals_ascii}
use cheburnet.Update.Package.{starts_with}

pub record ProcessRecord : Type 0 where
  pub pid : ℕ
  pub creation_time : ℕ
  pub image_path : Bytes

abbrev pub no_record : ProcessRecord
no_record = record { pid = 0; creation_time = 0; image_path = [] }

-- `valid()`
unfoldable pub is_valid : ProcessRecord → Bool
is_valid r = not (r.pid == 0) && (not (r.creation_time == 0) && not (is_empty r.image_path))

-- `ToLowerAsciiW`
unfoldable pub to_lower_all : Bytes → Bytes
to_lower_all [] = []
to_lower_all (c ∷ s) = to_lower_ascii c ∷ to_lower_all s

abbrev pub winws_suffix : Bytes
winws_suffix = codes "\\bin\\winws.exe"

abbrev pub has_suffix : Bytes → Bytes → Bool
has_suffix s suffix =
    not (ltb (length s) (length suffix)) && bytes_eq (drop (length s - length suffix) s) suffix

unfoldable pub is_expected_winws_image : Bytes → Bytes → Bool
is_expected_winws_image image runtime_root =
    not (is_empty image || is_empty runtime_root)
    && (starts_with (to_lower_all image) (with_slash (to_lower_all runtime_root))
        && has_suffix (to_lower_all image) winws_suffix)

pub data StartStatus : Type 0 where
  start_ok invalid_executable redirect_failed job_failed create_failed : StartStatus
  assign_job_failed resume_failed identity_failed exited_early record_failed : StartStatus

pub data StopStatus : Type 0 where
  stopped not_running identity_mismatch stop_error : StopStatus

-- `WaitForSingleObject`
pub data Waited : Type 0 where
  signaled timed_out wait_failed : Waited

-- `H` stands for the handle of a process.
pub record Processes (W H : Type 0) : Type 0 where
  pub files : Files W
  -- `probe::ProcessAlive`, `ProcessCreationTime`, `ProcessImagePath` of a process id.
  pub alive : ℕ → W → Bool
  pub creation_time : ℕ → W → Option ℕ
  pub image_path : ℕ → W → Option Bytes
  -- `OpenProcess`, and the same questions to a handle.
  pub open_process : ℕ → W → Option H
  pub pid_of : H → ℕ
  pub creation_time_of : H → W → Option ℕ
  pub image_path_of : H → W → Option Bytes
  pub terminate : H → W → Bool × W
  pub wait : H → ℕ → W → Waited × W
  pub resume : H → W → Bool × W
  -- The redirections into the two logs; the list of attributes; the job that kills when it is closed;
  -- `CreateProcessW` of a suspended process; `AssignProcessToJobObject`; the closing of the job; the
  -- clearing of its limits.
  pub open_redirects : Bytes → Bytes → W → Bool × W
  pub prepare_attributes : W → Bool × W
  pub create_job : W → Bool × W
  pub create_process : Bytes → Bytes → Bytes → W → Option H × W
  pub assign_to_job : H → W → Bool × W
  pub close_job : W → W
  pub clear_limits : W → Bool × W
  -- `SaveRecord` and `DeleteRecord` of the record's path.
  pub save_record : ProcessRecord → W → Bool × W
  pub delete_record : W → W

-- A time and an image are those of the record.
abbrev pub is_same : ProcessRecord → Option ℕ → Option Bytes → Bool
is_same r none image = false
is_same r (some time) none = false
is_same r (some time) (some image) = time == r.creation_time && iequals_ascii image r.image_path

module _ {W H : Type 0} (sys : Processes W H) (runtime_root : Bytes) where
  unfoldable pub identity_matches : ProcessRecord → W → Bool
  identity_matches r w =
      is_valid r
      && (sys.alive r.pid w && is_same r (sys.creation_time r.pid w) (sys.image_path r.pid w))

  unfoldable pub trusted_pid_for_exclusion : ProcessRecord → W → ℕ
  trusted_pid_for_exclusion r w =
      if is_valid r && (is_expected_winws_image r.image_path runtime_root && identity_matches r w)
      then r.pid
      else 0

  -- The record that the constructor keeps of the one that was loaded.
  unfoldable pub initial_record : ProcessRecord → W → ProcessRecord × W
  initial_record r w =
      if not (is_valid r)
      then (r, w)
      else if not (is_expected_winws_image r.image_path runtime_root)
      then (no_record, w)
      else if not (identity_matches r w)
      then (no_record, sys.delete_record w)
      else (r, w)

  unfoldable pub is_connected_by_us : ProcessRecord → W → Bool
  is_connected_by_us r w = is_valid r && identity_matches r w

  -- `Stop`: the status, with the record that is kept.
  abbrev pub Stopping : Type 0
  Stopping = StopStatus × (ProcessRecord × W)

  abbrev pub after_wait : ProcessRecord → Waited × W → Stopping
  after_wait r (signaled, w) = (stopped, (no_record, sys.delete_record w))
  after_wait r (timed_out, w) = (stop_error, (r, w))
  after_wait r (wait_failed, w) = (stop_error, (r, w))

  abbrev pub after_terminate : ProcessRecord → H → Bool × W → Stopping
  after_terminate r h (false, w) = (stop_error, (r, w))
  after_terminate r h (true, w) = after_wait r (sys.wait h 5000 w)

  -- With the handle that `OpenProcess` gave: its time and image are compared once more.
  abbrev pub stop_opened : ProcessRecord → Option H → W → Stopping
  stop_opened r none w = (stop_error, (r, w))
  stop_opened r (some h) w =
      if not (is_same r (sys.creation_time_of h w) (sys.image_path_of h w))
      then (identity_mismatch, (r, w))
      else after_terminate r h (sys.terminate h w)

  unfoldable pub stop_process : ProcessRecord → W → Stopping
  stop_process r w =
      if not (is_valid r)
      then (not_running, (r, w))
      else if not (is_expected_winws_image r.image_path runtime_root)
      then (identity_mismatch, (r, w))
      else if not (sys.alive r.pid w)
      then (not_running, (no_record, sys.delete_record w))
      else if not (identity_matches r w)
      then (identity_mismatch, (r, w))
      else stop_opened r (sys.open_process r.pid w) w

  -- `Start`: the status, with the record that is kept.
  abbrev pub Starting : Type 0
  Starting = StartStatus × (ProcessRecord × W)

  -- The lambda `rollback`: the new process is terminated, the job closed and the record deleted.
  unfoldable pub roll_back : StartStatus → H → W → Starting
  roll_back status h w =
      let killed = (sys.terminate h w).1 in
      let waited = (sys.wait h 5000 (sys.close_job killed)).1 in
      (status, (no_record, sys.delete_record waited))

  abbrev pub after_limits : H → ProcessRecord → Bool × W → Starting
  after_limits h r (false, w) = roll_back job_failed h w
  after_limits h r (true, w) = (start_ok, (r, w))

  abbrev pub after_save : H → ProcessRecord → Bool × W → Starting
  after_save h r (false, w) = roll_back record_failed h w
  after_save h r (true, w) = after_limits h r (sys.clear_limits w)

  -- With the outcome of the wait in which the process must not end.
  abbrev pub after_stabilizing : H → ProcessRecord → Waited × W → Starting
  after_stabilizing h r (signaled, w) =
      (exited_early, (no_record, sys.close_job (sys.delete_record w)))
  after_stabilizing h r (wait_failed, w) = roll_back identity_failed h w
  after_stabilizing h r (timed_out, w) =
      if not (identity_matches r w)
      then roll_back identity_failed h w
      else after_save h r (sys.save_record r w)

  abbrev pub after_resume : H → ProcessRecord → ℕ → Bool × W → Starting
  after_resume h r stabilize_ms (false, w) = roll_back resume_failed h w
  after_resume h r stabilize_ms (true, w) = after_stabilizing h r (sys.wait h stabilize_ms w)

  -- With the time and the image of the suspended process.
  abbrev pub pin_identity : H → Bytes → ℕ → Option ℕ → Option Bytes → W → Starting
  pin_identity h exe stabilize_ms none image w = roll_back identity_failed h w
  pin_identity h exe stabilize_ms (some time) none w = roll_back identity_failed h w
  pin_identity h exe stabilize_ms (some time) (some image) w =
      if iequals_ascii image exe && is_expected_winws_image image runtime_root
      then after_resume h (record { pid = sys.pid_of h; creation_time = time; image_path = image })
          stabilize_ms (sys.resume h w)
      else roll_back identity_failed h w

  abbrev pub after_assign : H → Bytes → ℕ → Bool × W → Starting
  after_assign h exe stabilize_ms (false, w) = roll_back assign_job_failed h w
  after_assign h exe stabilize_ms (true, w) =
      pin_identity h exe stabilize_ms (sys.creation_time_of h w) (sys.image_path_of h w) w

  abbrev pub after_create : ProcessRecord → Bytes → ℕ → Option H × W → Starting
  after_create r exe stabilize_ms (none, w) = (create_failed, (r, sys.close_job w))
  after_create r exe stabilize_ms (some h, w) =
      after_assign h exe stabilize_ms (sys.assign_to_job h w)

  -- A preparation that fails ends the start with its status, and the old record.
  abbrev pub prepare : StartStatus → ProcessRecord → Bool × W → (W → Starting) → Starting
  prepare status r (false, w) next = (status, (r, w))
  prepare status r (true, w) next = next w

  -- The steps before the process is created, the last one first.
  module _ (r : ProcessRecord) (exe : Bytes) (arguments : List Bytes) (dir : Bytes)
      (stabilize_ms : ℕ) where
    abbrev pub with_job : W → Starting
    with_job w =
        after_create r exe stabilize_ms (sys.create_process exe (build exe arguments) dir w)

    abbrev pub with_attributes : W → Starting
    with_attributes w = prepare job_failed r (sys.create_job w) with_job

    abbrev pub with_redirects : W → Starting
    with_redirects w = prepare create_failed r (sys.prepare_attributes w) with_attributes

    unfoldable pub start_process : Bytes → Bytes → W → Starting
    start_process stdout_log stderr_log w =
        if not
          (sys.files.validate_object exe a_file true w && is_expected_winws_image exe runtime_root)
        then (invalid_executable, (r, w))
        else prepare redirect_failed r (sys.open_redirects stdout_log stderr_log w) with_redirects
