-- ===== src/Dwc3/Control/Queue.antt =====
-- The data and status stages, and `dwc3_gadget_ep0_queue`, which starts them for a request.
use unisoc_usb.Prelude.{
  ℕ, ◌+◌, ◌-◌, ◌*◌, ◌/◌, ◌%◌, true, false, not, ◌&&◌, [], ◌∷◌, ◌++◌, none, some, Code, Errno,
  is_empty, ltb, ◌==◌, if◌then◌else◌,
}
use unisoc_usb.Dwc3.Endpoint.{Request}
use unisoc_usb.Dwc3.Stage.{Phase, is_data, is_status, side}
use unisoc_usb.Dwc3.Command.{Depcmd}
use unisoc_usb.Dwc3.Ep0.{Ep0, put_ep, DeviceState}
use unisoc_usb.Dwc3.Control.Start.{start_trans}

-- `roundup(x, y)`; `ALIGN(x, y)` is the same for a power of two, as a packet size is.
unfoldable pub roundup : ℕ → ℕ → ℕ
roundup x y = (x + (y - 1)) / y * y

-- DWC3_EP0_BOUNCE_SIZE
abbrev pub bounce_size : ℕ
bounce_size = 512

-- The part of a long request that does not go through the bounce buffer.
unfoldable pub direct_part : Request → ℕ → ℕ
direct_part req packet =
    if ltb bounce_size req.length then roundup (req.length - packet) packet else 0

abbrev pub bounced : Ep0 → Ep0
bounced d = record d { core = record (d.core) { ep0_bounced = true } }

-- The request as `__dwc3_gadget_ep0_queue` puts it on the list of endpoint 0.
unfoldable pub ep0_enlisted : Ep0 → Request → Ep0
ep0_enlisted d req =
    let dep = d.eps 0 in
    let req' = record req { actual = 0; status = some Errno.einprogress; epnum = dep.number } in
    record d {
      eps = put_ep d.eps 0 (record dep { request_list = dep.request_list ++ (req' ∷ []) });
    }

-- Endpoint 0 no longer waits for a request.
unfoldable pub ep0_served : Ep0 → Ep0
ep0_served d = record d {
  eps = put_ep d.eps 0 (record (d.eps 0) { pending_request = false });
  stage = record (d.stage) { dir_in = false };
}

abbrev pub no_dir : Ep0 → Ep0
no_dir d = record d { stage = record (d.stage) { dir_in = false } }

module _ (depcmd : ℕ → Depcmd) where
  -- `__dwc3_ep0_do_control_data` through the bounce buffer.
  unfoldable pub bounce_data : Ep0 → ℕ → Request → Ep0
  bounce_data d n req =
      let packet = d.stage.max_packet in
      let part = direct_part req packet in
      let first = (start_trans depcmd d n req.dma part 5 true).0 in
      let begun = if ltb bounce_size req.length then first else d in
      (start_trans depcmd (bounced begun) n d.stage.bounce_addr (roundup (req.length - part) packet)
        5 false).0

  -- `__dwc3_ep0_do_control_data`; mapping a request always succeeds. The request's `direction`, which
  -- nothing reads later, is not kept.
  unfoldable pub control_data : Ep0 → ℕ → Request → Ep0
  control_data d n req =
      if req.length == 0
      then (start_trans depcmd d n d.stage.ctrl_req_addr 0 5 false).0
      else (if not (req.length % d.stage.max_packet == 0) && n == 0
          then bounce_data d n req
          else (start_trans depcmd d n req.dma req.length 5 false).0)

  -- `__dwc3_ep0_do_control_status`; the FIFO sizes are registers.
  unfoldable pub control_status : Ep0 → ℕ → Ep0
  control_status d n =
      (start_trans depcmd (record d { resize_fifos = false }) n d.stage.ctrl_req_addr 0
        (if d.stage.three_stage then 4 else 3) false).0

  -- `__dwc3_gadget_ep0_queue` where endpoint 0 waits for a request.
  unfoldable pub queue_pending : Ep0 → Request → Ep0
  queue_pending d req =
      if is_data d.stage.phase then ep0_served (control_data d (side d.stage.dir_in) req) else d

  -- `__dwc3_gadget_ep0_queue` where the gadget driver has asked for a delay of the status stage.
  unfoldable pub queue_delayed : Ep0 → Ep0
  queue_delayed d =
      let ended = record d {
        state = DeviceState.configured;
        stage = record (d.stage) { delayed_status = false };
      } in
      if is_status d.stage.phase then control_status ended (side (not d.stage.expect_in)) else ended

  -- `__dwc3_gadget_ep0_queue` for the data stage.
  unfoldable pub queue_data : Ep0 → Request → Ep0
  queue_data d req =
      let begun = record d { stage = record (d.stage) { phase = Phase.data_stage } } in
      no_dir (control_data begun (side d.stage.expect_in) req)

  -- `__dwc3_gadget_ep0_queue`, which always returns 0.
  unfoldable pub ep0_queue : Ep0 → Request → Ep0
  ep0_queue d req =
      let e = ep0_enlisted d req in
      if (d.eps 0).pending_request
      then queue_pending e req
      else (if d.stage.delayed_status
          then queue_delayed e
          else (if d.stage.three_stage then queue_data e req else e))

  -- `dwc3_gadget_ep0_queue`
  unfoldable pub gadget_ep0_queue : Ep0 → Request → Ep0 × Code
  gadget_ep0_queue d req = elim (d.eps 0).desc [
    | none ↦ (d, some Errno.eshutdown)
    | some t ↦
        if not (is_empty (d.eps 0).request_list)
        then (d, some Errno.ebusy)
        else (if not d.core.pullups_connected
            then (d, some Errno.eshutdown)
            else (ep0_queue d req, none))
  ]
