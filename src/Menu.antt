-- ===== src/Menu.antt =====
-- The menu application, QSD8250Pkg/Application/HtcLeoMenuApp.
pub mod HexInput
pub mod Pages
pub mod Dump
mod Tests
