-- ===== src/Dwc3/Control/Finish.antt =====
-- What ends a stage: `dwc3_ep0_inspect_setup`, `dwc3_ep0_complete_data` and
-- `dwc3_ep0_complete_status`.
use unisoc_usb.Prelude.{
  ℕ, ◌+◌, ◌-◌, ◌/◌, ◌%◌, ◌^◌, true, false, not, ◌&&◌, ◌||◌, List, [], ◌∷◌, none, some, Code, Errno,
  min, ltb, leb, ◌==◌, if◌then◌else◌,
}
use unisoc_usb.Dwc3.Endpoint.{Request}
use unisoc_usb.Dwc3.Stage.{NextEvent}
use unisoc_usb.Dwc3.Command.{Depcmd}
use unisoc_usb.Dwc3.Completion.{trb_at}
use unisoc_usb.Dwc3.Ep0.{
  Ep0, Ctrl, Answer, SetupCode, put_ep, std_request, delegate_req, delayed_status,
}
use unisoc_usb.Dwc3.Control.Start.{start_trans, give_oldest, restart, stall_and_restart}
use unisoc_usb.Dwc3.Control.Queue.{ep0_queue, direct_part, roundup, bounce_size}

-- How many bytes the data stage moved, from what its TRBs left over.
unfoldable pub transferred : Ep0 → Request → ℕ
transferred d r =
    let packet = d.stage.max_packet in
    let part = direct_part r packet in
    let long = ltb bounce_size r.length in
    let left = (trb_at d.stage.trbs 0).size % 2 ^ 24 in
    let last = (trb_at d.stage.trbs 1).size % 2 ^ 24 in
    let head = if long then (part + 2 ^ 32 - left) % 2 ^ 32 else 0 in
    let rest = (r.length + 2 ^ 32 - head) % 2 ^ 32 in
    let room = roundup ((r.length + 2 ^ 32 - part) % 2 ^ 32) packet in
    let tail = min rest ((room + 2 ^ 32 - (if long then last else left)) % 2 ^ 32) in
    if d.core.ep0_bounced then head + tail else (r.length + 2 ^ 32 - left) % 2 ^ 32

-- The oldest request with its new length, and the TRB to write next where two were used.
unfoldable pub received : Ep0 → Request → List Request → Ep0
received d r rs =
    let dep = d.eps 0 in
    let enqueue = if d.core.ep0_bounced && ltb bounce_size r.length then 0 else dep.trb_enqueue in
    let r' = record r { actual = (r.actual + transferred d r) % 2 ^ 32 } in
    record d { eps = put_ep d.eps 0 (record dep { request_list = r' ∷ rs; trb_enqueue = enqueue }) }

-- TRBs after the setup packet: two or three stages, as `wLength` says.
unfoldable pub staged : Ep0 → Ctrl → Ep0
staged d ctrl = record d {
  stage = record (d.stage) {
    three_stage = not (ctrl.length == 0);
    expect_in = not (ctrl.length == 0) && leb 128 ctrl.type_bits;
    next_event = if ctrl.length == 0 then NextEvent.nrdy_status else NextEvent.nrdy_data;
  };
}

-- `dwc3_gadget_set_test_mode`, which knows the modes 1 to 5.
unfoldable pub set_test_mode : Ep0 → ℕ → Ep0 × Code
set_test_mode d mode =
    if not (mode == 0) && leb mode 5
    then (record d { stage = record (d.stage) { tstctrl = mode } }, none)
    else (d, some Errno.einval)

module _ (depcmd : ℕ → Depcmd) where
  -- `dwc3_ep0_inspect_setup` once the request is answered: a status word and the exit latencies
  -- have the driver's own request as their data stage.
  unfoldable pub answered : Ep0 × Answer → Ep0
  answered (d, Answer.returned (SetupCode.failed e)) = stall_and_restart depcmd d
  answered (d, Answer.returned (SetupCode.length n)) =
      if n == delayed_status
      then record d { stage = record (d.stage) { delayed_status = true } }
      else d
  answered (d, Answer.reply w) =
      let own = record (d.stage.usb_req) { length = 2 } in
      ep0_queue depcmd (record d { stage = record (d.stage) { setup_buf = w; usb_req = own } }) own
  answered (d, Answer.receive_sel) =
      let own = record (d.stage.usb_req) { length = d.stage.max_packet } in
      ep0_queue depcmd (record d { stage = record (d.stage) { usb_req = own } }) own

  -- `dwc3_ep0_inspect_setup`; bits 5 and 6 of the request's type are 0 for a standard request.
  unfoldable pub inspect_setup : (Ctrl → Ep0 → Ep0 × SetupCode) → Ep0 → Ctrl → Ep0
  inspect_setup setup d ctrl =
      let s = staged d ctrl in
      let standard = answered (std_request setup depcmd s ctrl) in
      let other = answered (delegate_req setup s ctrl) in
      if not d.stage.has_driver || not d.core.pullups_connected
      then stall_and_restart depcmd d
      else (if ctrl.type_bits / 2 ^ 5 % 4 == 0 then standard else other)

  -- The end of `dwc3_ep0_complete_data` for a request that has moved all: a last packet of no bytes
  -- where the driver wants one.
  unfoldable pub given_back : Ep0 → ℕ → Request → Ep0
  given_back d n r =
      let given = give_oldest (d.eps 0).request_list d none in
      let more = record given {
        stage = record (given.stage) { next_event = NextEvent.complete };
      } in
      if r.length % d.stage.max_packet == 0 && not (r.length == 0) && r.zero
      then (start_trans depcmd more n d.stage.ctrl_req_addr 0 5 false).0
      else given

  -- `dwc3_ep0_complete_data` for the oldest request.
  unfoldable pub complete_request : Ep0 → ℕ → Request → List Request → Ep0
  complete_request d n r rs =
      let got = received d r rs in
      let short = ltb ((r.actual + transferred d r) % 2 ^ 32) r.length in
      if (trb_at d.stage.trbs 0).size / 2 ^ 28 % 16 == 2
      then give_oldest (r ∷ rs) d (some Errno.econnreset)
      else (if n % 2 == 1 && short then stall_and_restart depcmd got else given_back got n r)

  -- `dwc3_ep0_complete_data` on the list of endpoint 0
  unfoldable pub complete_listed : List Request → Ep0 → ℕ → Ep0
  complete_listed [] d n = d
  complete_listed (r ∷ rs) d n = complete_request d n r rs

  -- `dwc3_ep0_complete_data`; the bytes that it copies out of the bounce buffer are not kept.
  unfoldable pub complete_data : Ep0 → ℕ → Ep0
  complete_data d n =
      complete_listed (d.eps 0).request_list
        (record d { stage = record (d.stage) { next_event = NextEvent.nrdy_status } }) n

  -- `dwc3_ep0_complete_status` after the request is given back.
  unfoldable pub status_done : Ep0 → Ep0
  status_done d =
      let tested = set_test_mode d d.test_mode_nr in
      if d.test_mode
      then (elim tested.1 [
        | some e ↦ stall_and_restart depcmd tested.0
        | none ↦ restart depcmd tested.0
      ])
      else restart depcmd d

  -- `dwc3_ep0_complete_status`
  unfoldable pub complete_status : Ep0 → Ep0
  complete_status d = status_done (give_oldest (d.eps 0).request_list d none)
