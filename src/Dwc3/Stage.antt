-- ===== src/Dwc3/Stage.antt =====
-- Where a control transfer stands: the fields of `struct dwc3` in udc/dwc3/core.h that
-- udc/dwc3/ep0.c keeps for the stages of endpoint 0.
use unisoc_usb.Prelude.{ℕ, Bool, true, false, List}
use unisoc_usb.Dwc3.Endpoint.{Trb, Request}

-- `enum dwc3_ep0_state`
pub data Phase : Type 0 where
  unconnected setup data_stage status : Phase

-- `enum dwc3_ep0_next`
pub data NextEvent : Type 0 where
  unknown complete nrdy_data nrdy_status : NextEvent

-- `dir_in` is the flag DWC3_EP0_DIR_IN of endpoint 0, `has_driver` says that `gadget_driver` is set,
-- `trbs` are the TRBs from `ep0_trb` on, `setup_buf` is the 16-bit word at the start of that buffer, and
-- `tstctrl` the field TSTCTRL of the register DCTL. `max_packet` is endpoint 0's `maxpacket`.
pub record Stage : Type 0 where
  pub phase : Phase
  pub next_event : NextEvent
  pub three_stage : Bool
  pub expect_in : Bool
  pub delayed_status : Bool
  pub setup_packet_pending : Bool
  pub dir_in : Bool
  pub has_driver : Bool
  pub trbs : List Trb
  pub trb_addr : ℕ
  pub ctrl_req_addr : ℕ
  pub bounce_addr : ℕ
  pub max_packet : ℕ
  pub usb_req : Request
  pub setup_buf : ℕ
  pub tstctrl : ℕ

abbrev pub is_setup : Phase → Bool
is_setup Phase.setup = true
is_setup _ = false

abbrev pub is_data : Phase → Bool
is_data Phase.data_stage = true
is_data _ = false

abbrev pub is_status : Phase → Bool
is_status Phase.status = true
is_status _ = false

abbrev pub awaits_status : NextEvent → Bool
awaits_status NextEvent.nrdy_status = true
awaits_status _ = false

-- The physical endpoint of a direction: 1 is IN.
abbrev pub side : Bool → ℕ
side true = 1
side false = 0
