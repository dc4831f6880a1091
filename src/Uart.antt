-- ===== src/Uart.antt =====
-- src/request_info.rs, src/uart_agent.rs and src/uart_handler.rs: requests, the agent of the serial
-- line and the dispatch of what it receives.
pub mod Request
pub mod Agent
pub mod Dispatch
