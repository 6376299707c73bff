-- ===== src/Launch.antt =====
-- What drives and guards a launch: config/ProgressModel.cpp (Progress), app/OperationState.h and
-- core/Preflight.h (Operation), app/RuntimeRecovery.cpp (Recovery), util/CommandLine.cpp (CommandLine).
pub mod Progress
pub mod Operation
pub mod Recovery
pub mod CommandLine
mod Examples
