-- ===== src/Dwc3/Completion.antt =====
-- What a transfer event does to an endpoint, from udc/dwc3/gadget.c: which requests it completes, and
-- how the next transfer starts.
pub mod Cleanup
pub mod Interrupt
use unisoc_usb.Prelude.{
  ℕ, zero, suc, ◌+◌, ◌-◌, ◌*◌, ◌/◌, ◌%◌, ◌^◌, Bool, true, false, not, ◌&&◌, ◌||◌, List, [], ◌∷◌,
  Option, none, some, Code, Errno, is_empty, get_elem?, ltb, leb, ◌==◌, if◌then◌else◌,
}
use unisoc_usb.Dwc3.Endpoint.{
  XferType, Trb, TrbCtrl, Request, Endpoint, trb_num, buf_num, is_isoc, is_bulk,
}
use unisoc_usb.Dwc3.Ring.{giveback}
use unisoc_usb.Dwc3.Command.{Depcmd, Dwc}
use unisoc_usb.Dwc3.Transfer.{kick_transfer, stop_active_transfer, start_isoc_at, only_enabled}

-- `event->endpoint_event`
pub data EpEvent : Type 0 where
  xfer_complete xfer_in_progress xfer_not_ready rxtx_fifo stream_evt cmd_complete : EpEvent

-- `struct dwc3_event_depevt`; the bits are those of the 4-bit `status`, from low to high. Bit 3 is
-- also DEPEVT_STATUS_TRANSFER_ACTIVE.
pub record Depevt : Type 0 where
  pub endpoint_number : ℕ
  pub endpoint_event : EpEvent
  pub buserr : Bool
  pub short : Bool
  pub ioc : Bool
  pub lst : Bool
  pub parameters : ℕ

-- The pool has an entry at every slot, which is taken modulo its length.
abbrev pub trb_at : List Trb → ℕ → Trb
trb_at pool slot = elim (get_elem? pool slot) [
  | some t ↦ t
  | none ↦ record {
    bpl = 0;
    bph = 0;
    size = 0;
    ctrl = record {
      hwo = false;
      lst = false;
      chn = false;
      csp = false;
      isp_imi = false;
      ioc = false;
      trbctl = 0;
      sid = 0;
    };
  }
]

-- What `__dwc3_cleanup_done_trbs` does to the flag MISSED_ISOC: `count` bytes are left over, and
-- DWC3_TRBSTS_MISSED_ISOC is 1.
pub missed_after : Endpoint → Trb → ℕ → Bool
missed_after dep trb count =
    if dep.direction
    then (if count == 0
        then false
        else (if trb.size / 2 ^ 28 % 16 == 1 then true else dep.missed_isoc))
    else dep.missed_isoc

-- `__dwc3_cleanup_done_trbs`. Its argument `status` is a copy: what it assigns to it is lost.
pub cleanup_trb : Endpoint → Request → Trb → Depevt → Endpoint × Request × Bool
cleanup_trb dep req trb event =
    let count = trb.size % 2 ^ 24 in
    let s_pkt = not dep.direction && not (count == 0) && event.short in
    let stop = s_pkt || event.lst && (trb.ctrl.lst || trb.ctrl.hwo) || event.ioc && trb.ctrl.ioc in
    (
      record dep { missed_isoc = missed_after dep trb count },
      record req { actual = (req.actual + req.length + 2 ^ 32 - count) % 2 ^ 32 },
      stop,
    )

-- The slot of the `i`-th TRB of a request.
pub slot_of : ℕ → ℕ → ℕ
slot_of start i =
    let slot = (start + i) % 2 ^ 32 in
    (if leb (trb_num - 1) slot then (slot + 1) % 2 ^ 32 else slot) % trb_num

-- `do … while (++i < buf_num)` of `dwc3_cleanup_done_reqs`; `more` are the rounds after this one.
pub cleanup_trbs : ℕ → ℕ → Endpoint → Request → Depevt → Endpoint × Request × Bool
cleanup_trbs zero i dep req event =
    cleanup_trb dep req (trb_at dep.trb_pool (slot_of req.start_slot i)) event
cleanup_trbs (suc more) i dep req event =
    let out = cleanup_trb dep req (trb_at dep.trb_pool (slot_of req.start_slot i)) event in
    let rest = cleanup_trbs more (i + 1) out.0 out.1 event in if out.2 then out else rest

-- The outer loop of `dwc3_cleanup_done_reqs` over `req_queued`; the Boolean says that the list ran out.
pub cleanup_reqs : List Request → Endpoint → Depevt → Code → Endpoint × Bool
cleanup_reqs [] dep event status = (dep, true)
cleanup_reqs (r ∷ rs) dep event status =
    let out = cleanup_trbs (buf_num r - 1) 0 dep r event in
    let dep' = giveback out.0 out.1 status in
    let more = cleanup_reqs rs dep' event status in if out.2 then (dep', false) else more

abbrev pub is_complete : EpEvent → Bool
is_complete EpEvent.xfer_complete = true
is_complete _ = false

abbrev pub is_cmd_complete : EpEvent → Bool
is_cmd_complete EpEvent.cmd_complete = true
is_cmd_complete _ = false

module _ (depcmd : ℕ → Depcmd) where
  -- `dwc3_gadget_start_isoc`: the microframe of the event, on the endpoint's interval, which is a power
  -- of two; `& ~(interval - 1)` drops the remainder. (An interval of 0 makes the mask 0.)
  pub start_isoc : Dwc → Depevt → Dwc
  start_isoc dwc event =
      let interval = dwc.dep.interval in
      let cur_uf = if interval == 0 then 0 else event.parameters - event.parameters % interval in
      start_isoc_at depcmd dwc cur_uf

  -- An isochronous endpoint whose ring has run empty.
  pub settle_isoc : Dwc → Dwc
  settle_isoc dwc =
      let stopped = stop_active_transfer depcmd dwc true in
      if is_empty dwc.dep.request_list
      then record dwc {
        dep = record (only_enabled dwc.dep) { enabled = false; pending_request = true };
      }
      else record stopped { dep = only_enabled stopped.dep }

  -- `dwc3_cleanup_done_reqs`, which returns 1 on every path.
  pub cleanup_done_reqs : Dwc → Depevt → Code → Dwc
  cleanup_done_reqs dwc event status =
      let out = cleanup_reqs dwc.dep.req_queued dwc.dep event status in
      let cleaned = record dwc { dep = out.0 } in
      let settled = settle_isoc cleaned in
      if out.1 then cleaned else (elim out.0.desc [
        | none ↦ cleaned
        | some t ↦
            if dwc.pullups_connected && (is_isoc (some t) && is_empty out.0.req_queued)
            then settled
            else cleaned
      ])

  -- `dwc3_endpoint_transfer_complete`, for a controller of revision 1.83a or later: earlier ones also
  -- run a workaround over all endpoints.
  pub transfer_complete : Dwc → Depevt → Dwc
  transfer_complete dwc event =
      let status = if event.buserr then some Errno.econnreset else none in
      let cleaned = cleanup_done_reqs dwc event status in
      let whole = is_complete event.endpoint_event in
      let idle = record cleaned { dep = record (cleaned.dep) { busy = false } } in
      elim cleaned.dep.desc [
        | none ↦ idle
        | some t ↦
            let next = if whole || is_isoc (some t) then idle else cleaned in
            if not next.pullups_connected || is_isoc (some t)
            then next
            else (kick_transfer depcmd next 0 whole).0
      ]

  -- The switch of `dwc3_endpoint_interrupt`, for endpoints 2 and up; `dwc3_ep0_interrupt` serves 0
  -- and 1.
  pub endpoint_event : EpEvent → Dwc → Depevt → Dwc
  endpoint_event EpEvent.xfer_complete dwc event =
      let reset = record dwc { dep = record (dwc.dep) { resource_index = 0 } } in
      if is_isoc dwc.dep.desc then reset else transfer_complete reset event
  endpoint_event EpEvent.xfer_in_progress dwc event = transfer_complete dwc event
  endpoint_event EpEvent.xfer_not_ready dwc event = elim dwc.dep.desc [
    | none ↦ dwc
    | some t ↦
        if is_isoc (some t)
        then start_isoc dwc event
        else (kick_transfer depcmd dwc 0 (not event.lst)).0
  ]
  endpoint_event EpEvent.rxtx_fifo dwc event = dwc
  endpoint_event EpEvent.stream_evt dwc event = dwc
  endpoint_event EpEvent.cmd_complete dwc event = record dwc {
    dep = record (dwc.dep) { cmdcmplt_busy = false };
  }

  -- The guards of `dwc3_endpoint_interrupt`: a disabled endpoint only waits for the end of a command.
  pub endpoint_interrupt : Dwc → Depevt → Dwc
  endpoint_interrupt dwc event =
      let dep = dwc.dep in
      let handled = endpoint_event event.endpoint_event dwc event in
      if not dep.enabled && not dep.cmdcmplt_busy
      then dwc
      else (if not dep.enabled && dep.cmdcmplt_busy && not (is_cmd_complete event.endpoint_event)
          then dwc
          else handled)
