-- ===== src/Lib.antt =====
-- CHEBURNET, a Windows launcher that keeps winws.exe running, and updates itself and the files that
-- winws.exe works with. What is modelled is the logic that decides: which version is newer, which
-- manifest and package may be used, how a runtime is switched and recovered, what a launch shows.
--
-- Version: src/update/Version.cpp, `parse_version` and `compare_versions`.
-- Json: src/util/Json.cpp; Json/Text has strings and `quote`, Json/Parser has `parse`.
-- Update/Manifest, Update/Eligibility: src/update/UpdateManifest.cpp, from the signed text to the
--   verdict on the payload and the launcher; it reads through Json and compares through Version.
-- Update/Package, Update/Package/Header: src/update/UpdatePackage.cpp, paths, entries and the header;
--   Update/Package/Extract has the extraction and the check behind it.
-- Update/Manager: src/update/UpdateManager.cpp, `CheckNow` and `DownloadVerified`, with the cache of
--   the verified manifest passed through; Update/Manager/Notify: `ShouldNotify`.
-- Update/Manager/Apply: `ApplyPayload`; its Candidate goes from the first check to the switch, its
--   Switch has the hooks that are given to Update/Activation. Here Manifest, Eligibility, StateStore,
--   Package, Activation, Core and Settings/Strategies meet.
-- Update/Activation: src/update/RuntimeActivation.cpp, over hooks that act on any world.
-- Update/CheckService: src/update/UpdateCheckService.cpp, its methods and the end of its worker as
--   steps; the mutex makes them atomic.
-- Update/StateStore: src/update/RuntimeStateStore.cpp, the text of the active-runtime record; its
--   checks stand in the code twice, for loading and for saving, and here too.
-- Launch/Progress: src/config/ProgressModel.cpp; Launch/Progress/Threads interleaves its atomic
--   accesses.
-- Launch/Operation: src/app/OperationState.h and src/core/Preflight.h. Its steps are the calls that
--   src/app/App.cpp and src/app/UiScreens.cpp make of the gate, in any order: `Complete` with any state
--   and by any thread, and `TryTransition` from a settled state to a busy one.
-- Launch/Recovery: src/app/RuntimeRecovery.cpp, with `IEqualsAscii` of src/util/StringUtil.cpp.
-- Launch/CommandLine: src/util/CommandLine.cpp.
-- Settings/Config, Settings/Strategies: src/config/Config.cpp and src/config/Strategies.cpp.
-- Core/Paths, Core/SecureFs: src/core/RuntimePaths.cpp and the tests on paths of
--   src/core/SecureFs.cpp; Core/Files is what both and the updater ask of the file system.
-- Core/Process: src/core/ProcessManager.cpp, `Start`, `Stop` and the identity of a process;
--   Core/Process/Run has the runs of `Start`, Core/Process/Text: the text of its record, with `Trim` of src/util/StringUtil.cpp.
-- Ui/FrameBuffer: src/ui/FrameBuffer.cpp; Ui/Menu: the menu of src/ui/Widgets.cpp.
-- Base has what they share. The files called Examples hold runs and concrete instances.
--
-- Texts are lists of bytes, or of UTF-16 units; numbers are native, with `% 2 ^ 64` where the code may
-- wrap around. The loops of Json run on fuel: the length of the input left and one more, and for
-- nesting `max_depth` and one more, since each round takes a byte and the code counts the levels. The
-- other loops are structural recursion.
--
-- What is asked of Windows is an operation of a record that the definitions take: `Files` for the file
-- system, `Processes` for processes, `System` for the network and the signature check, `Machine` for
-- what the updater asks of the process manager and of an installed runtime, `Console` for the screen.
-- An operation that changes something passes on the world. The cache of the verified manifest, three globals under a mutex, is a `Session`; calls of
-- the updater follow one another, and in between anything may happen in the world.
--
-- Not modelled: those calls themselves, with the rest of src/update/SignatureVerifier.cpp,
-- src/update/WinHttpClient.cpp, src/core/SecureFs.cpp and src/core/ResourceExtractor.cpp; the launch
-- pipeline of src/core/Launcher.cpp; the messages that `ApplyPayload` and `DownloadVerified` return; the
-- screens of src/app and the other drawing of src/ui and src/console; the logging of src/util.
-- `str::ToUtf8`, `str::ToUtf16` and the version text that the build generates are parameters.
mod Base
pub mod Version
pub mod Json
pub mod Update
pub mod Core
pub mod Ui
pub mod Launch
pub mod Settings
