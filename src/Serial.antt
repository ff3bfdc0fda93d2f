-- ===== src/Serial.antt =====
-- The serial ports that write to memory: QSD8250Pkg/Library/FrameBufferSerialPortLib and
-- QSD8250Pkg/Library/InMemorySerialPortLib.
pub mod FrameBuffer
pub mod InMemory
mod Tests
