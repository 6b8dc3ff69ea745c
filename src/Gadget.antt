-- ===== src/Gadget.antt =====
-- The gadget framework above the controller driver.
pub mod Descriptors
pub mod Connection
pub mod Configs
pub mod Functions
pub mod Speeds
pub mod Strings
pub mod Device
pub mod Setup
pub mod Endpoints
pub mod Udc
pub mod Resources
pub mod EpSetup
mod Examples
pub mod SetupExamples
mod EndpointExamples
mod UdcExamples
mod ResourceExamples
