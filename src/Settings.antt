-- ===== src/Settings.antt =====
-- What the user chooses and what winws.exe is started with: config/Config.cpp (Config) and
-- config/Strategies.cpp (Strategies).
pub mod Config
pub mod Strategies
mod Examples
