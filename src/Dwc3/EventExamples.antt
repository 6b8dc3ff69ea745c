-- ===== src/Dwc3/EventExamples.antt =====
-- Concrete event buffers and control requests.
use unisoc_usb.Prelude.{
  ℕ, none, ◌≡◌, refl, true, false, List, [], ◌∷◌, some, inl, replicate, length-replicate, arith,
}
use unisoc_usb.Dwc3.Endpoint.{Endpoint, XferType, Request, Trb}
use unisoc_usb.Dwc3.Stage.{Stage, Phase, NextEvent}
use unisoc_usb.Dwc3.Command.{Depcmd, Accepts}
use unisoc_usb.Dwc3.Events.{EventBuf, interrupt}
use unisoc_usb.Dwc3.Events.Copy.{IsReady}
use unisoc_usb.Dwc3.Events.Delivery.{Delivered, interrupt_lem}
use unisoc_usb.Dwc3.Ep0.{
  Ctrl, Ep0, DeviceState, SetupCode, done, std_request, handle_feature, status_word,
}
use unisoc_usb.Dwc3.Ep0.Address.{IsAddressed, KeepsAddress, std_request-IsAddressed}
use unisoc_usb.Dwc3.Ep0.Halt.{handle_feature_status}

-- A buffer whose next event is the last of the memory.
abbrev at_end : EventBuf
at_end = record {
  buf = replicate 256 1;
  cache = replicate 256 0;
  length = 256;
  lpos = 252;
  count = 0;
  pending = false;
  masked = false;
  acks = [];
}

-- A handler that notes what it is given.
abbrev note : List ℕ → ℕ → List ℕ
note seen e = e ∷ seen

at_end-IsReady : IsReady at_end
at_end-IsReady = record {
  whole = refl;
  cached = length-replicate {A = ℕ} 256 0;
  inside = omega arith;
  aligned = refl;
}

interrupt_lem_example :
    Delivered note 8 at_end [] (interrupt note false 8 at_end [])
    × (interrupt note true 8 at_end [] ≡ (record at_end { acks = 8 ∷ [] }, []))
interrupt_lem_example =
    interrupt_lem note 8 at_end [] at_end-IsReady (λ e. absurd (omega (arith, e))) (omega arith)

abbrev pub bulk_in : Endpoint
bulk_in = record {
  desc = some XferType.bulk;
  number = 3;
  direction = true;
  stream_capable = false;
  resource_index = 0;
  interval = 0;
  enabled = true;
  stall = false;
  wedge = false;
  busy = false;
  pending_request = false;
  missed_isoc = false;
  cmdcmplt_busy = false;
  trb_pool = [];
  trb_pool_dma = 0;
  trb_enqueue = 0;
  trb_dequeue = 0;
  request_list = [];
  req_queued = [];
  completed = [];
}

abbrev pub no_trb : Trb
no_trb = record {
  bpl = 0;
  bph = 0;
  size = 0;
  ctrl = record {
    hwo = false;
    lst = false;
    chn = false;
    csp = false;
    isp_imi = false;
    ioc = false;
    trbctl = 0;
    sid = 0;
  };
}

-- The driver's own request of endpoint 0.
abbrev pub own_request : Request
own_request = record {
  id = 0;
  dma = 0;
  length = 0;
  bufs = [];
  no_interrupt = false;
  zero = false;
  stream_id = 0;
  actual = 0;
  status = none;
  queued = false;
  trb = none;
  trb_dma = 0;
  start_slot = 0;
  direction = false;
  epnum = 0;
  owner = 0;
}

abbrev pub waiting : Stage
waiting = record {
  phase = Phase.setup;
  next_event = NextEvent.complete;
  three_stage = false;
  expect_in = false;
  delayed_status = false;
  setup_packet_pending = false;
  dir_in = false;
  has_driver = true;
  trbs = no_trb ∷ no_trb ∷ [];
  trb_addr = 0;
  ctrl_req_addr = 0;
  bounce_addr = 0;
  max_packet = 64;
  usb_req = own_request;
  setup_buf = 0;
  tstctrl = 0;
}

abbrev pub addressed : Ep0
addressed = record {
  state = DeviceState.address;
  super = false;
  is_selfpowered = true;
  address = 9;
  init_u1 = false;
  init_u2 = false;
  accept_u1_u2 = false;
  test_mode = false;
  test_mode_nr = 0;
  isoch_delay = 0;
  resize_fifos = false;
  eps = λ i. bulk_in;
  core = record {
    dep = bulk_in;
    pullups_connected = true;
    ep0_bounced = false;
    cmds = [];
    now = 0;
  };
  stage = waiting;
}

-- SET_CONFIGURATION, SET_FEATURE(ENDPOINT_HALT) on endpoint 1 IN, and its GET_STATUS.
abbrev configure : Ctrl
configure = record { type_bits = 0; request = 9; value = 1; index = 0; length = 0 }

abbrev halt : Ctrl
halt = record { type_bits = 2; request = 3; value = 0; index = 129; length = 0 }

abbrev ask : Ctrl
ask = record { type_bits = 130; request = 0; value = 0; index = 129; length = 2 }

-- A gadget driver that accepts every request.
abbrev pub willing : Ctrl → Ep0 → Ep0 × SetupCode
willing c d = (d, SetupCode.length 0)

willing-KeepsAddress : KeepsAddress willing
willing-KeepsAddress c d = (refl, inl refl)

abbrev pub prompt : ℕ → Depcmd
prompt n = record { cmdact = false; status = 0; rsc_idx = 3 }

pub prompt-Accepts : Accepts prompt
prompt-Accepts n = (refl, refl)

std_request-IsAddressed_example : IsAddressed (std_request willing prompt addressed configure).0
std_request-IsAddressed_example =
    std_request-IsAddressed willing prompt addressed configure willing-KeepsAddress
      (omega arith, omega arith)

handle_feature_status_example :
    ((handle_feature prompt addressed halt true).1 ≡ done)
    × (status_word (handle_feature prompt addressed halt true).0 ask ≡ some 1)
handle_feature_status_example =
    handle_feature_status prompt addressed halt ask true prompt-Accepts refl refl refl refl refl
      refl refl
