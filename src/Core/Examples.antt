-- ===== src/Core/Examples.antt =====
-- Runs of the process manager.
use cheburnet.Base.{◌≡◌, refl, arith, Bool, true, false, [], some, none, Bytes, codes, bytes_eq}
use cheburnet.Core.Files.{Files}
use cheburnet.Core.Process.{
  ProcessRecord, is_valid, to_lower_all, is_expected_winws_image, Processes, timed_out, signaled,
  identity_matches, start_ok, start_process, roll_back, stopped, stop_process,
}
use cheburnet.Core.Process.Stopped
use cheburnet.Core.Process.Stopped.{stop_process-IsOutcome}
use cheburnet.Core.Process.Run
use cheburnet.Core.Process.Run.{Call}
use cheburnet.Core.Process.Started.{start_process-IsOutcome}
use cheburnet.Core.Process.Text.{digits_from, save_record, load_record, trim_back}
use cheburnet.Core.Process.Text.RoundTrip.{load_record-save_record}
use cheburnet.Launch.Recovery.{iequals_ascii}

abbrev root : Bytes
root = codes "C:\\P\\CHEBURNET\\runtime"

abbrev exe : Bytes
exe = codes "C:\\P\\CHEBURNET\\runtime\\1\\bin\\winws.exe"

abbrev engine : ProcessRecord
engine = record { pid = 42; creation_time = 7; image_path = exe }

-- The world is whether the engine lives; its handle has no content.
abbrev files : Files Bool
files = record {
  full_path = λ path. path;
  to_lower = λ c. c;
  exists = λ path w. true;
  validate_object = λ path kind single w. true;
  validate_protected = λ path kind single w. true;
  ensure_protected = λ path w. (true, w);
  remove_tree = λ path w. (true, w);
  atomic_write = λ path content sha256 w. (true, w);
  open_package = λ path w. none;
  file_size = λ path w. none;
  sha256_file = λ path w. none;
  sha256_hex = λ content. none;
}

abbrev system : Processes Bool (Unit {0})
system = record {
  files = files;
  alive = λ pid w. w;
  creation_time = λ pid w. some 7;
  image_path = λ pid w. some exe;
  open_process = λ pid w. some tt;
  pid_of = λ h. 42;
  creation_time_of = λ h w. some 7;
  image_path_of = λ h w. some exe;
  terminate = λ h w. (true, false);
  wait = λ h ms w. elim w [ true ↦ (timed_out, true) | false ↦ (signaled, false) ];
  resume = λ h w. (true, w);
  open_redirects = λ out error w. (true, w);
  prepare_attributes = λ w. (true, w);
  create_job = λ w. (true, w);
  create_process = λ exe command dir w. (some tt, true);
  assign_to_job = λ h w. (true, w);
  close_job = λ w. w;
  clear_limits = λ w. (true, w);
  save_record = λ r w. (true, w);
  delete_record = λ w. w;
}

-- The engine is started, and stopped again.
started : (start_process system root engine exe [] [] 2500 [] [] false).0 ≡ start_ok
unfolding start_process is_expected_winws_image to_lower_all identity_matches is_valid iequals_ascii
    bytes_eq roll_back
started = refl

ended : (stop_process system root engine true).0 ≡ stopped
unfolding stop_process is_expected_winws_image to_lower_all identity_matches is_valid iequals_ascii
    bytes_eq
ended = refl

stop_process-IsOutcome_example :
    Stopped.IsOutcome system root engine true (stop_process system root engine true)
stop_process-IsOutcome_example = stop_process-IsOutcome system root engine true

abbrev start_call : Call Bool (Unit {0})
start_call = record {
  sys = system;
  runtime_root = root;
  exe = exe;
  arguments = [];
  dir = [];
  ms = 2500;
  stdout_log = [];
  stderr_log = [];
  start = false;
}

start_process-IsOutcome_example :
    Run.IsOutcome start_call engine (start_process system root engine exe [] [] 2500 [] [] false)
start_process-IsOutcome_example = start_process-IsOutcome start_call engine

abbrev same_text : Bytes → Bytes
same_text s = s

abbrev engine_text : Bytes
engine_text = codes "pid=42\nctime=7\nimage=C:\\P\\CHEBURNET\\runtime\\1\\bin\\winws.exe\n"

load_record-save_record_example : load_record same_text engine_text ≡ some engine
unfolding save_record digits_from is_valid trim_back
load_record-save_record_example =
    load_record-save_record same_text same_text engine {text = engine_text} refl (omega arith)
      (omega arith) (omega arith)
      (record { full = refl; short = omega arith; one_line = refl; ends = refl }) refl
