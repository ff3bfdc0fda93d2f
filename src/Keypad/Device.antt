-- ===== src/Keypad/Device.antt =====
-- The keypad device, QSD8250Pkg/Library/KeypadDeviceImplLib.
pub mod Wiring
pub mod Poll
pub mod Polling
pub mod Led
pub mod Light
pub mod Stroke
mod Tests
