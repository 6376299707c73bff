-- ===== src/Ui.antt =====
-- The parts of src/ui that do not call Windows themselves.
pub mod FrameBuffer
pub mod Menu
mod Examples
