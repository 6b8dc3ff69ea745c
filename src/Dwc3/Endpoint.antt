-- ===== src/Dwc3/Endpoint.antt =====
-- The data of udc/dwc3/core.h that an endpoint works on: transfer request blocks, requests, the
-- endpoint itself. A word whose bits are named is a record of those bits.
use unisoc_usb.Prelude.{ℕ, Bool, true, false, List, [], ◌∷◌, Option, some, Code, Errno}
use unisoc_usb.Prelude.{length, ◌==◌, if◌then◌else◌}

-- `usb_endpoint_type(desc)`
pub data XferType : Type 0 where
  control isoc bulk int : XferType

-- `dwc3_trb.ctrl`, by its fields DWC3_TRB_CTRL_*; `trbctl` is the 6-bit type, `sid` the 16-bit id.
pub record TrbCtrl : Type 0 where
  pub hwo : Bool
  pub lst : Bool
  pub chn : Bool
  pub csp : Bool
  pub isp_imi : Bool
  pub ioc : Bool
  pub trbctl : ℕ
  pub sid : ℕ

-- `struct dwc3_trb`; `size` is the 32-bit word, with DWC3_TRB_SIZE_LENGTH in its low 24 bits and
-- DWC3_TRB_SIZE_TRBSTS in its high 4.
pub record Trb : Type 0 where
  pub bpl : ℕ
  pub bph : ℕ
  pub size : ℕ
  pub ctrl : TrbCtrl

-- One `cpdu_t` of a buffer chain: its bus address plus offset, and its length.
pub record Cpdu : Type 0 where
  pub dma : ℕ
  pub len : ℕ

-- `struct dwc3_request` with its `struct usb_request`. The chain of `buf_num` buffers from `buf_head`
-- is the list `bufs`; `id` stands for the request's address; `trb` is the index of its first
-- TRB, `owner` the number of the endpoint that allocated it.
pub record Request : Type 0 where
  pub id : ℕ
  pub dma : ℕ
  pub length : ℕ
  pub bufs : List Cpdu
  pub no_interrupt : Bool
  pub zero : Bool
  pub stream_id : ℕ
  pub actual : ℕ
  pub status : Code
  pub queued : Bool
  pub trb : Option ℕ
  pub trb_dma : ℕ
  pub start_slot : ℕ
  pub direction : Bool
  pub epnum : ℕ
  pub owner : ℕ

-- `struct dwc3_ep`, its `flags` by bit; `desc` is the transfer type of `endpoint.desc`, or none where
-- that pointer is NULL. `completed` are the requests given back so far, oldest last.
pub record Endpoint : Type 0 where
  pub desc : Option XferType
  pub number : ℕ
  pub direction : Bool
  pub stream_capable : Bool
  pub resource_index : ℕ
  pub interval : ℕ
  pub enabled : Bool
  pub stall : Bool
  pub wedge : Bool
  pub busy : Bool
  pub pending_request : Bool
  pub missed_isoc : Bool
  pub cmdcmplt_busy : Bool
  pub trb_pool : List Trb
  pub trb_pool_dma : ℕ
  pub trb_enqueue : ℕ
  pub trb_dequeue : ℕ
  pub request_list : List Request
  pub req_queued : List Request
  pub completed : List Request

-- DWC3_TRB_NUM
abbrev pub trb_num : ℕ
trb_num = 1024

abbrev pub buf_num : Request → ℕ
buf_num r = length r.bufs

-- `usb_endpoint_xfer_isoc` and its like, where `desc` is not NULL.
abbrev pub is_isoc : Option XferType → Bool
is_isoc (some XferType.isoc) = true
is_isoc _ = false

abbrev pub is_bulk : Option XferType → Bool
is_bulk (some XferType.bulk) = true
is_bulk _ = false

abbrev pub is_int : Option XferType → Bool
is_int (some XferType.int) = true
is_int _ = false

abbrev pub is_in_progress : Code → Bool
is_in_progress (some Errno.einprogress) = true
is_in_progress _ = false

-- `list_del` of the request with this address.
unfoldable pub list_del : ℕ → List Request → List Request
list_del i [] = []
list_del i (r ∷ rs) = if r.id == i then rs else r ∷ list_del i rs
