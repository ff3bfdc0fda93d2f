-- ===== src/Keypad.antt =====
-- The keypad: QSD8250Pkg/Drivers/KeypadDxe over QSD8250Pkg/Library/KeypadDeviceImplLib.
pub mod Data
pub mod Queue
pub mod Bitmap
pub mod Context
pub mod Console
pub mod Device
mod Tests
