-- ===== src/Protocol.antt =====
-- src/protocol: the frame format of the serial line.
pub mod Fault
pub mod InfoField
pub mod AppData
pub mod UserData
pub mod Frame
