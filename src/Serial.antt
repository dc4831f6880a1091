-- ===== src/Serial.antt =====
-- src/serial_port.rs: the reader of the serial line (or of the TCP stream in its place).
pub mod Reader
