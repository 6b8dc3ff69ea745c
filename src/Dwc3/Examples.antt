-- ===== src/Dwc3/Examples.antt =====
-- Concrete endpoints, buffers and requests.
use unisoc_usb.Prelude.{
  ℕ, zero, suc, ◌+◌, ◌≡◌, ◌≤◌, refl, true, false, [], ◌∷◌, none, some, Errno, replicate,
  length-replicate, arith, ◌==◌, if◌then◌else◌,
}
use unisoc_usb.Dwc3.Endpoint.{Trb, Request, Endpoint, XferType}
use unisoc_usb.Dwc3.Ring.{calc_trbs_left, prepare_trbs, giveback}
use unisoc_usb.Dwc3.Ring.Invariant.{
  IsValid, IsHonest, used, calc_trbs_left-le, calc_trbs_left_exact,
}
use unisoc_usb.Dwc3.Ring.Prepare.{line, IsStopped, prepare_trbs-Prepared, prepare_trbs_fills}
use unisoc_usb.Dwc3.Ring.Giveback.{history, finished, giveback-IsValid, handed_out}
use unisoc_usb.Dwc3.Command.{
  Depcmd, Cmd, Dwc, Accepts, IsBusyFor, send_ep_cmd, send_ep_cmd_lem, EpCmd, Waited, cmd_timeout,
}
use unisoc_usb.Dwc3.Transfer.{ep_queue}
use unisoc_usb.Dwc3.Transfer.Kick.{Keeps}
use unisoc_usb.Dwc3.Transfer.Queue.{ep_queue_lem}
use unisoc_usb.Dwc3.Transfer.{ep_dequeue, ep_disable}
use unisoc_usb.Dwc3.Transfer.Disable.{ep_dequeue_oldest, Ended, ep_disable_lem}
use unisoc_usb.Dwc3.Completion.{Depevt, EpEvent, endpoint_interrupt}
use unisoc_usb.Dwc3.Completion.Interrupt.{endpoint_interrupt-Keeps}

abbrev blank : Trb
blank = record {
  bpl = 0;
  bph = 0;
  size = 0;
  ctrl = record {
    hwo = false;
    lst = false;
    chn = false;
    csp = false;
    isp_imi = false;
    ioc = false;
    trbctl = 0;
    sid = 0;
  };
}

-- A request for 512 bytes, not queued yet.
abbrev fresh : Request
fresh = record {
  id = 7;
  dma = 4096;
  length = 512;
  bufs = [];
  no_interrupt = false;
  zero = false;
  stream_id = 0;
  actual = 0;
  status = none;
  queued = false;
  trb = none;
  trb_dma = 0;
  start_slot = 0;
  direction = false;
  epnum = 2;
  owner = 2;
}

abbrev laid : Request
laid = record fresh { id = 5; queued = true; trb = some 1022; start_slot = 1022 }

-- A bulk endpoint whose ring holds one request, in the last entry before the link TRB; another waits.
abbrev bulk_out : Endpoint
bulk_out = record {
  desc = some XferType.bulk;
  number = 2;
  direction = false;
  stream_capable = false;
  resource_index = 1;
  interval = 0;
  enabled = true;
  stall = false;
  wedge = false;
  busy = false;
  pending_request = false;
  missed_isoc = false;
  cmdcmplt_busy = false;
  trb_pool = replicate 1024 blank;
  trb_pool_dma = 65536;
  trb_enqueue = 0;
  trb_dequeue = 1022;
  request_list = record fresh { id = 6 } ∷ [];
  req_queued = laid ∷ [];
  completed = [];
}

abbrev ready : Dwc
ready = record { dep = bulk_out; pullups_connected = true; ep0_bounced = false; cmds = []; now = 0 }

-- A controller that carries out every command, and one that never does.
abbrev prompt : ℕ → Depcmd
prompt n = record { cmdact = false; status = 0; rsc_idx = 3 }

prompt-Accepts : Accepts prompt
prompt-Accepts n = (refl, refl)

abbrev slow : ℕ → Depcmd
slow n = record { cmdact = if n == 2 then false else true; status = 0; rsc_idx = 3 }

abbrev stuck : ℕ → Depcmd
stuck n = record { cmdact = true; status = 0; rsc_idx = 0 }

bulk_out-IsValid : IsValid bulk_out
bulk_out-IsValid = record {
  pool = length-replicate 1024 blank;
  enqueue_in = omega arith;
  dequeue_in = omega arith;
  laid = (refl, refl, refl, omega arith);
  fits = omega arith;
  pending = ((refl, refl), tt);
}

bulk_out-IsHonest : IsHonest bulk_out
bulk_out-IsHonest = λ e. absurd (omega (arith, e))

abbrev halted_isoc : Dwc
halted_isoc = record ready { dep = record bulk_out { desc = some XferType.isoc } }

abbrev event : Depevt
event = record {
  endpoint_number = 2;
  endpoint_event = EpEvent.xfer_in_progress;
  buserr = false;
  short = false;
  ioc = true;
  lst = false;
  parameters = 0;
}

calc_trbs_left-le_example : calc_trbs_left bulk_out + used bulk_out.req_queued ≤ 1023
calc_trbs_left-le_example = calc_trbs_left-le bulk_out bulk_out-IsValid bulk_out-IsHonest

prepare_trbs-Prepared_example :
    IsValid (prepare_trbs bulk_out)
    × (line (prepare_trbs bulk_out) ≡ line bulk_out)
    × ((prepare_trbs bulk_out).trb_dequeue ≡ 1022)
    × ((prepare_trbs bulk_out).completed ≡ [])
prepare_trbs-Prepared_example = prepare_trbs-Prepared bulk_out bulk_out-IsValid bulk_out-IsHonest

prepare_trbs_fills_example :
    IsStopped 1023 (prepare_trbs bulk_out).req_queued (prepare_trbs bulk_out).request_list
prepare_trbs_fills_example =
    prepare_trbs_fills bulk_out bulk_out-IsValid
      (calc_trbs_left_exact bulk_out bulk_out-IsValid (λ e. absurd (omega (arith, e))))

giveback-IsValid_example :
    let d = giveback bulk_out (record laid { actual = 100 }) none in
    IsValid d
    × (d.req_queued ≡ [])
    × (d.request_list ≡ bulk_out.request_list)
    × (d.completed ≡ finished (record laid { actual = 100 }) none ∷ [])
giveback-IsValid_example = giveback-IsValid bulk_out laid 100 [] none bulk_out-IsValid refl

send_ep_cmd_lem_example :
    let out = send_ep_cmd slow ready Cmd.set_stall 0 0 in
    let written : EpCmd = record { ep = 2; cmd = Cmd.set_stall; param0 = 0; param1 = 0 } in
    (out.0.cmds ≡ written ∷ [])
    × (out.0.dep ≡ ready.dep)
    × Waited slow cmd_timeout 0 (out.1, out.0.now)
send_ep_cmd_lem_example = send_ep_cmd_lem slow ready Cmd.set_stall 0 0

stuck-IsBusyFor : (now n : ℕ) → IsBusyFor stuck now n
stuck-IsBusyFor now zero = tt
stuck-IsBusyFor now (suc n) = (refl, stuck-IsBusyFor (now + 1) n)

ep_queue_lem_example :
    IsValid (ep_queue prompt ready fresh none).0.dep
    × (history (ep_queue prompt ready fresh none).0.dep ≡ 5 ∷ 6 ∷ 7 ∷ [])
ep_queue_lem_example =
    ep_queue_lem prompt ready fresh none XferType.bulk prompt-Accepts bulk_out-IsValid
      bulk_out-IsHonest (refl, refl) refl refl refl

endpoint_interrupt-Keeps_example : Keeps bulk_out (endpoint_interrupt prompt ready event).dep
endpoint_interrupt-Keeps_example =
    endpoint_interrupt-Keeps prompt ready event prompt-Accepts bulk_out-IsValid bulk_out-IsHonest

ep_dequeue_oldest_example :
    let out = ep_dequeue prompt ready 5 in
    (out.1 ≡ none)
    × IsValid out.0.dep
    × (out.0.dep.req_queued ≡ [])
    × (out.0.dep.request_list ≡ bulk_out.request_list)
    × (out.0.dep.completed ≡ finished laid (some Errno.econnreset) ∷ [])
    × Ended ready out.0
ep_dequeue_oldest_example = ep_dequeue_oldest prompt ready laid [] bulk_out-IsValid refl refl

ep_disable_lem_example :
    let d = (ep_disable prompt ready).0.dep in
    IsValid d
    × (d.req_queued ≡ [])
    × (d.request_list ≡ [])
    × (d.completed ≡ handed_out (laid ∷ record fresh { id = 6 } ∷ []) (some Errno.eshutdown) [])
    × (d.desc ≡ none)
    × (d.enabled ≡ false)
    × (d.stall ≡ false)
ep_disable_lem_example = ep_disable_lem prompt ready bulk_out-IsValid
