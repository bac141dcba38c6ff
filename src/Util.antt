-- ===== src/Util.antt =====
-- nix/util: helpers on text, files and processes.
pub mod Split
pub mod Text
pub mod System
pub mod Fs
pub mod Pid
