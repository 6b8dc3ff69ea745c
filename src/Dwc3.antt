-- ===== src/Dwc3.antt =====
-- usb_device_driver/udc/dwc3: the driver of the USB device controller.
pub mod Endpoint
pub mod Ring
pub mod Command
pub mod Transfer
pub mod Completion
pub mod Events
pub mod Stage
pub mod Ep0
pub mod Control
mod Examples
pub mod EventExamples
pub mod ControlExamples
pub mod WrongWayExamples
