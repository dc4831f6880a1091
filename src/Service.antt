-- ===== src/Service.antt =====
-- The services of src/service, and what they share: actions on a state and maps with text keys.
pub mod Action
pub mod Dict
pub mod NodeConfig
pub mod Response
pub mod NodeManage
pub mod ConcurrentMeter
pub mod FileUpgrade
