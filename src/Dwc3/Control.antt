-- ===== src/Dwc3/Control.antt =====
-- The stages of control transfers on endpoint 0, from udc/dwc3/ep0.c.
pub mod Start
pub mod Queue
pub mod Finish
pub mod Moved
pub mod Events
pub mod Safety
pub mod SetAddress
pub mod Stall
