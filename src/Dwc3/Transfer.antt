-- ===== src/Dwc3/Transfer.antt =====
-- Transfers on an endpoint other than 0: starting, stopping, queueing, cancelling and halting, from
-- udc/dwc3/gadget.c.
pub mod Flags
pub mod Kick
pub mod Queue
pub mod Remove
pub mod Disable
use unisoc_usb.Prelude.{
  ℕ, zero, suc, ◌+◌, ◌-◌, ◌*◌, ◌/◌, ◌%◌, ◌^◌, Bool, true, false, not, ◌&&◌, ◌||◌, List, [], ◌∷◌,
  ◌++◌, Option, none, some, Code, Errno, is_empty, ltb, ◌==◌, if◌then◌else◌,
}
use unisoc_usb.Dwc3.Endpoint.{XferType, Request, Endpoint, is_isoc, is_bulk, is_int, list_del}
use unisoc_usb.Dwc3.Ring.{prepare_trbs, giveback, giveback_all}
use unisoc_usb.Dwc3.Command.{Depcmd, Cmd, EpCmd, Dwc, send_ep_cmd}

-- The kick's first half: which requests stand in the ring when the command is sent.
pub refill : Bool → Endpoint → Endpoint
refill true dep = if is_empty dep.req_queued then prepare_trbs dep else dep
refill false dep = prepare_trbs dep

pub transfer_cmd : Bool → ℕ → Cmd
transfer_cmd true param = Cmd.start_transfer param
transfer_cmd false param = Cmd.update_transfer param

-- `req->trb_dma` goes with a start only.
pub transfer_dma : Bool → Request → ℕ
transfer_dma true req = req.trb_dma
transfer_dma false req = 0

-- `dwc3_gadget_giveback`; the flag of the bounce buffer is endpoint 0's.
unfoldable pub give : Dwc → Request → Code → Dwc
give dwc req status =
    let bounced = if dwc.ep0_bounced && dwc.dep.number == 0 then false else dwc.ep0_bounced in
    record dwc { dep = giveback dwc.dep req status; ep0_bounced = bounced }

-- `DWC3_EP_ENABLED` as the whole flag word.
unfoldable pub only_enabled : Endpoint → Endpoint
only_enabled dep = record dep {
  enabled = true;
  stall = false;
  wedge = false;
  busy = false;
  pending_request = false;
  missed_isoc = false;
  cmdcmplt_busy = false;
}

-- A kick that succeeds ends the wait for a request.
pub clear_pending : Dwc × Code → Dwc × Code
clear_pending (dwc, none) =
    (record dwc { dep = record (dwc.dep) { pending_request = false } }, none)
clear_pending (dwc, some e) = (dwc, some e)

-- The request of this address in a list.
abbrev pub find_request : ℕ → List Request → Option Request
find_request i [] = none
find_request i (r ∷ rs) = if r.id == i then some r else find_request i rs

-- A busy endpoint is no error of the queueing.
pub busy_is_ok : Code → Code
busy_is_ok (some Errno.ebusy) = none
busy_is_ok c = c

-- The request as `__dwc3_gadget_ep_queue` puts it on `request_list`.
pub enlisted : Dwc → Request → Dwc
enlisted dwc req =
    let req' = record req {
      actual = 0;
      status = some Errno.einprogress;
      direction = dwc.dep.direction;
      epnum = dwc.dep.number;
    } in
    record dwc { dep = record (dwc.dep) { request_list = dwc.dep.request_list ++ (req' ∷ []) } }

module _ (depcmd : ℕ → Depcmd) where
  -- The kick's second half, with the first request in the ring.
  pub issue_transfer : Dwc → Request → ℕ → Bool → Dwc × Code
  issue_transfer dwc req cmd_param start_new =
      let dma = transfer_dma start_new req in
      let out =
        send_ep_cmd depcmd dwc (transfer_cmd start_new cmd_param) (dma / 2 ^ 32 % 2 ^ 32)
          (dma % 2 ^ 32) in
      let dep = dwc.dep in
      let failed = record out.0 {
        dep = record dep { req_queued = list_del req.id dep.req_queued };
      } in
      let started = record out.0 {
        dep = record dep { busy = true; resource_index = (depcmd out.0.now).rsc_idx };
        now = out.0.now + 1;
      } in
      let updated = record out.0 { dep = record dep { busy = true } } in
      elim out.1 [
        | some e ↦ (failed, some e)
        | none ↦ (if start_new then started else updated, none)
      ]

  -- The kick once the ring is refilled.
  pub kick_refilled : Dwc → List Request → ℕ → Bool → Dwc × Code
  kick_refilled dwc [] cmd_param start_new =
      (record dwc { dep = record (dwc.dep) { pending_request = true } }, none)
  kick_refilled dwc (req ∷ rest) cmd_param start_new = issue_transfer dwc req cmd_param start_new

  -- `__dwc3_gadget_kick_transfer`
  pub kick_transfer : Dwc → ℕ → Bool → Dwc × Code
  kick_transfer dwc cmd_param start_new =
      let dep = refill start_new dwc.dep in
      if not dwc.pullups_connected
      then (dwc, some Errno.eshutdown)
      else (if start_new && dwc.dep.busy
          then (dwc, some Errno.ebusy)
          else kick_refilled (record dwc { dep = dep }) dep.req_queued (cmd_param % 2 ^ 16)
              start_new)

  -- `dwc3_stop_active_transfer`
  pub stop_active_transfer : Dwc → Bool → Dwc
  stop_active_transfer dwc force =
      let out = send_ep_cmd depcmd dwc (Cmd.end_transfer force dwc.dep.resource_index) 0 0 in
      if dwc.dep.resource_index == 0 then dwc else record (out.0) {
        dep = record (dwc.dep) { resource_index = 0; busy = false; cmdcmplt_busy = true };
      }

  -- `__dwc3_gadget_start_isoc`
  unfoldable pub start_isoc_at : Dwc → ℕ → Dwc
  start_isoc_at dwc cur_uf =
      let uf = (cur_uf + dwc.dep.interval * 4) % 2 ^ 32 in
      if is_empty dwc.dep.request_list
      then record dwc { dep = record (dwc.dep) { pending_request = true } }
      else (kick_transfer dwc uf true).0

  -- The first loop of `dwc3_remove_requests`.
  pub remove_queued : Dwc → Dwc
  remove_queued dwc =
      let stopped = stop_active_transfer dwc true in
      if is_empty dwc.dep.req_queued then dwc else record stopped {
        dep = giveback_all stopped.dep.req_queued (some Errno.eshutdown) stopped.dep;
      }

  -- `dwc3_remove_requests`
  pub remove_requests : Dwc → Dwc
  remove_requests dwc =
      let left = remove_queued dwc in
      record left { dep = giveback_all left.dep.request_list (some Errno.eshutdown) left.dep }

  -- `__dwc3_gadget_ep_queue` on an endpoint that waits for a request.
  pub queue_waiting : Dwc → Dwc × Code
  queue_waiting dwc =
      let stopped = stop_active_transfer dwc true in
      let ended = record stopped { dep = only_enabled stopped.dep } in
      if is_isoc dwc.dep.desc
      then (if is_empty dwc.dep.req_queued then ended else dwc, none)
      else clear_pending (kick_transfer dwc 0 true)

  -- `__dwc3_gadget_ep_queue` after the kicks of an idle and of a waiting endpoint.
  pub queue_running : Dwc → Code → Dwc × Code
  queue_running dwc unset =
      if is_isoc dwc.dep.desc && dwc.dep.busy && not dwc.dep.missed_isoc
      then kick_transfer dwc dwc.dep.resource_index false
      else (if dwc.dep.stream_capable then kick_transfer dwc 0 true else (dwc, unset))

  -- `__dwc3_gadget_ep_queue` from the point where the request is on `request_list`. `unset` is the
  -- value of `ret` that no statement has assigned.
  pub queue_started : Dwc → Code → Dwc × Code
  queue_started dwc unset =
      if not (is_isoc dwc.dep.desc) && not (is_int dwc.dep.desc) && not dwc.dep.busy
      then kick_transfer dwc 0 true
      else (if dwc.dep.pending_request then queue_waiting dwc else queue_running dwc unset)

  -- `__dwc3_gadget_ep_queue`
  pub ep_queue_locked : Dwc → Request → Code → Dwc × Code
  ep_queue_locked dwc req unset =
      let out = queue_started (enlisted dwc req) unset in (out.0, busy_is_ok out.1)

  -- `dwc3_gadget_ep_queue`
  pub ep_queue : Dwc → Request → Code → Dwc × Code
  ep_queue dwc req unset = elim dwc.dep.desc [
    | none ↦ (dwc, some Errno.eshutdown)
    | some t ↦
        if not (req.owner == dwc.dep.number)
        then (dwc, some Errno.einval)
        else (if not dwc.pullups_connected
            then (dwc, some Errno.eshutdown)
            else ep_queue_locked dwc req unset)
  ]

  -- `dwc3_gadget_ep_dequeue` of the request of this address
  pub ep_dequeue : Dwc → ℕ → Dwc × Code
  ep_dequeue dwc i = elim (find_request i dwc.dep.request_list) [
    | some r ↦ (give dwc r (some Errno.econnreset), none)
    | none ↦ elim (find_request i dwc.dep.req_queued) [
      | some r ↦ (give (stop_active_transfer dwc true) r (some Errno.econnreset), none)
      | none ↦ (dwc, some Errno.einval)
    ]
  ]

  -- `__dwc3_gadget_ep_set_halt`
  pub ep_set_halt : Dwc → Bool → Bool → Dwc × Code
  ep_set_halt dwc value protocol =
      let dep = dwc.dep in
      let set = send_ep_cmd depcmd dwc Cmd.set_stall 0 0 in
      let clear = send_ep_cmd depcmd dwc Cmd.clear_stall 0 0 in
      let halted = record (set.0) { dep = record dep { stall = true } } in
      let resumed = record (clear.0) { dep = record dep { stall = false; wedge = false } } in
      if is_isoc dep.desc
      then (dwc, some Errno.einval)
      else (if value
          then (if not protocol
                && (dep.direction && dep.busy
                    || (not (is_empty dep.req_queued) || not (is_empty dep.request_list)))
              then (dwc, some Errno.eagain)
              else (elim set.1 [ none ↦ (halted, none) | some e ↦ set ]))
          else (elim clear.1 [ none ↦ (resumed, none) | some e ↦ clear ]))

  -- `__dwc3_gadget_ep_disable`; the endpoint's bit in DALEPENA and its name are not kept.
  pub ep_disable : Dwc → Dwc × Code
  ep_disable dwc =
      let removed = remove_requests dwc in
      let cleared = (ep_set_halt removed false false).0 in
      let out = if removed.dep.stall then cleared else removed in
      (
        record out {
          dep = record (out.dep) {
            desc = none;
            stream_capable = false;
            enabled = false;
            stall = false;
            wedge = false;
            busy = false;
            pending_request = false;
            missed_isoc = false;
          };
        },
        none,
      )
