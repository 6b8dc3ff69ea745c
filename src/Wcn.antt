-- ===== src/Wcn.antt =====
-- The WCN function driver: gadget/f_wcn_composite.c and gadget/u_wcn_composite.c.
pub mod Requests
pub mod Links
pub mod Transmit
pub mod Receive
mod Examples
