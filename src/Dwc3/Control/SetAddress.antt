-- ===== src/Dwc3/Control/SetAddress.antt =====
-- A control transfer from the setup packet to the next one: SET_ADDRESS.
use unisoc_usb.Prelude.{
  ℕ, ◌/◌, ◌%◌, ◌^◌, ◌≡◌, ◌≢◌, ◌≤◌, refl, sym, ap, ◌∙◌, subst, true, false, not, ◌||◌, List, [],
  none, some, Code, if◌then◌else◌, arith, if_both, if_each,
}
use unisoc_usb.Dwc3.Endpoint.{Request}
use unisoc_usb.Dwc3.Stage.{Phase, NextEvent, awaits_status}
use unisoc_usb.Dwc3.Command.{Depcmd, Cmd, Accepts, send_ep_cmd}
use unisoc_usb.Dwc3.Completion.{Depevt, EpEvent}
use unisoc_usb.Dwc3.Ep0.{Ep0, Ctrl, Answer, SetupCode, DeviceState, put_ep}
use unisoc_usb.Dwc3.Ep0.Address.{std_request-set_address, set_address_accepted}
use unisoc_usb.Dwc3.Control.Start.{
  give_oldest, at_ep, control_trb, started, start_command, start_trans, with_trb, restart,
  out_start,
}
use unisoc_usb.Dwc3.Control.Queue.{control_status}
use unisoc_usb.Dwc3.Control.Finish.{staged, answered, inspect_setup, complete_status, status_done}
use unisoc_usb.Dwc3.Control.Events.{
  settle, status_ready, xfernotready, phase_done, xfer_complete, ep0_event, ep0_interrupt,
}
use unisoc_usb.Dwc3.Control.Safety.{View, view}
use unisoc_usb.Dwc3.Control.Safety.Launch.{begun_on, start_trans-begun}
use unisoc_usb.Dwc3.Control.Safety.Restart.{awaiting}
use unisoc_usb.Dwc3.Control.Safety.Finish.{complete_status-awaiting}

-- SET_ADDRESS as the host sends it.
abbrev pub set_address_packet : ℕ → Ctrl
set_address_packet a = record { type_bits = 0; request = 5; value = a; index = 0; length = 0 }

-- The end of a transfer on a physical endpoint, and its wish for the status stage.
abbrev pub over_on : ℕ → Depevt
over_on n = record {
  endpoint_number = n;
  endpoint_event = EpEvent.xfer_complete;
  buserr = false;
  short = false;
  ioc = true;
  lst = true;
  parameters = 0;
}

abbrev pub status_wanted : Depevt
status_wanted = record {
  endpoint_number = 1;
  endpoint_event = EpEvent.xfer_not_ready;
  buserr = false;
  short = true;
  ioc = false;
  lst = false;
  parameters = 0;
}

-- The setup packet is awaited.
pub record IsAwaiting (d : Ep0) : Type 0 where
  pub seen : view d ≡ awaiting (view d)
  pub delayed : d.stage.delayed_status ≡ false
  pub pending : (d.eps 0).pending_request ≡ false

-- The address and the test mode of another state.
abbrev Kept : Ep0 → Ep0 → Type 0
Kept d e = (e.address ≡ d.address) × (e.test_mode ≡ d.test_mode)

-- The view of a state after the setup packet of a transfer without data.
abbrev answered_view : View → View
answered_view v = record v {
  next_event = NextEvent.nrdy_status;
  expect_in = false;
  three_stage = false;
  out_busy = false;
}

module _ (depcmd : ℕ → Depcmd) where
  started-Kept : (n : ℕ) (d : Ep0) (c : Code) → Kept d (started depcmd n d c).0
  unfolding started
  started-Kept n d none = (refl, refl)
  started-Kept n d (some e) = (refl, refl)

  start_command-Kept : (n : ℕ) (d : Ep0) → Kept d (start_command depcmd n d).0
  unfolding start_command
  start_command-Kept n d =
      let addr = d.stage.trb_addr in
      let out =
        send_ep_cmd depcmd (at_ep d n) (Cmd.start_transfer 0) (addr / 2 ^ 32 % 2 ^ 32)
          (addr % 2 ^ 32) in
      started-Kept n (record d { core = out.0 }) out.1

  start_trans-Kept :
      (d : Ep0) (n dma len type : ℕ) → Kept d (start_trans depcmd d n dma len type false).0
  unfolding start_trans with_trb
  start_trans-Kept d n dma len type =
      if_both (λ (x : Ep0 × Code). Kept d x.0) (d.eps n).busy {x = (d, none)} (refl, refl)
        (start_command-Kept n (with_trb d (d.eps n).trb_enqueue (control_trb dma len type false)))

  -- The setup packet is there.
  module _ (setup : Ctrl → Ep0 → Ep0 × SetupCode) where
    packet-answered :
        (d : Ep0) (a : ℕ)
        → IsAwaiting d
        → d.stage.has_driver ≡ true
        → d.core.pullups_connected ≡ true
        → a ≤ 127
        → d.state ≢ DeviceState.configured
        → let e = inspect_setup depcmd setup (settle d 0) (set_address_packet a) in
          (view e ≡ answered_view (view d)) × (e.address ≡ a) × (e.test_mode ≡ d.test_mode)
    unfolding inspect_setup settle staged answered put_ep
    packet-answered d a w g c h n =
        let s = staged (settle d 0) (set_address_packet a) in
        let P = λ (x : Ep0).
          (view x ≡ answered_view (view d)) × (x.address ≡ a) × (x.test_mode ≡ d.test_mode) in
        let out =
          std_request-set_address setup depcmd s (set_address_packet a) refl
          ∙ set_address_accepted s (set_address_packet a) h n in
        if_each P (not d.stage.has_driver || not d.core.pullups_connected)
          (λ y. absurd (ground (arith, y, g, c)))
          (λ y. subst (λ (o : Ep0 × Answer). P (answered depcmd o)) (sym out) (refl, refl, refl))

  -- The host wants the status stage.
  status-begun :
      (d : Ep0)
      → Accepts depcmd
      → d.stage.next_event ≡ NextEvent.nrdy_status
      → d.stage.delayed_status ≡ false
      → (d.eps 1).busy ≡ false
      → let e = xfernotready depcmd d 1 2 in
        (view e ≡ begun_on (record (view d) { phase = Phase.status }) true) × Kept d e
  unfolding xfernotready status_ready control_status
  status-begun d a n z i =
      let pending : Ep0 = record d { stage = record (d.stage) { setup_packet_pending = true } } in
      let begun : Ep0 = record pending {
        stage = record (pending.stage) { phase = Phase.status };
        resize_fifos = false;
      } in
      let P = λ (x : Ep0).
        (view x ≡ begun_on (record (view d) { phase = Phase.status }) true) × Kept d x in
      let type : ℕ = if d.stage.three_stage then 4 else 3 in
      if_each P (awaits_status d.stage.next_event)
        (λ y.
          if_each P d.stage.delayed_status (λ u. absurd (ground (arith, u, z)))
            (λ u. (
              start_trans-begun depcmd begun true d.stage.ctrl_req_addr 0 type a i,
              start_trans-Kept begun 1 d.stage.ctrl_req_addr 0 type,
            )))
        (λ y. absurd (ground (arith, y, n)))

  complete_status-address :
      (d : Ep0)
      → (d.eps 0).request_list ≡ []
      → d.test_mode ≡ false
      → (complete_status depcmd d).address ≡ d.address
  unfolding complete_status status_done give_oldest restart out_start
  complete_status-address d q m =
      let begun : Ep0 = record d { stage = record (d.stage) { phase = Phase.setup } } in
      subst
        (λ (rs : List Request). (status_done depcmd (give_oldest rs d none)).address ≡ d.address)
        (sym q)
        (if_each (λ (x : Ep0). x.address ≡ d.address) d.test_mode
          (λ y. absurd (ground (arith, y, m)))
          (λ y. (start_trans-Kept begun 0 d.stage.ctrl_req_addr 8 2).0))

  -- The status stage is over.
  status-ended :
      (setup : Ctrl → Ep0 → Ep0 × SetupCode) (d : Ep0) (ctrl : Ctrl)
      → Accepts depcmd
      → d.stage.phase ≡ Phase.status
      → (d.eps 0).busy ≡ false
      → (d.eps 0).request_list ≡ []
      → d.test_mode ≡ false
      → let e = xfer_complete depcmd setup d 1 ctrl in
        (view e ≡ awaiting (record (view d) { in_busy = false })) × (e.address ≡ d.address)
  unfolding xfer_complete phase_done settle put_ep
  status-ended setup d ctrl a p i q m =
      subst
        (λ (k : Phase).
          let e = phase_done depcmd setup k (settle d 1) 1 ctrl in
          (view e ≡ awaiting (record (view d) { in_busy = false })) × (e.address ≡ d.address))
        (sym p)
        (
          complete_status-awaiting depcmd (settle d 1) a (i, refl) q m,
          complete_status-address (settle d 1) q m,
        )

  -- On a controller that carries out the commands, SET_ADDRESS runs from the setup packet to the next
  -- one: three events, the packet's, the host's wish for the status stage and its end, leave the device
  -- with the address, up to 127, and endpoint 0 waiting as before, but that the transfer is noted as one
  -- without data. The device is connected, not configured and in no test mode, and has a gadget driver.
  pub set_address_transfer :
      (setup : Ctrl → Ep0 → Ep0 × SetupCode) (d : Ep0) (a : ℕ) (later last : Ctrl)
      → Accepts depcmd
      → IsAwaiting d
      → d.stage.has_driver ≡ true
      → d.core.pullups_connected ≡ true
      → d.test_mode ≡ false
      → a ≤ 127
      → d.state ≢ DeviceState.configured
      → let d1 = ep0_interrupt depcmd setup d (over_on 0) (set_address_packet a) in
        let d2 = ep0_interrupt depcmd setup d1 status_wanted later in
        let d3 = ep0_interrupt depcmd setup d2 (over_on 1) last in
        (view d3 ≡ record (view d) { expect_in = false; three_stage = false }) × (d3.address ≡ a)
  unfolding ep0_interrupt ep0_event xfer_complete phase_done
  set_address_transfer setup d a later last c w g k t h n =
      let packet = set_address_packet a in
      let d1 = xfer_complete depcmd setup d 0 packet in
      let (v1, a1, t1) : (view d1 ≡ answered_view (view d))
          × (d1.address ≡ a)
          × (d1.test_mode ≡ d.test_mode) =
        subst
          (λ (p : Phase).
            let e = phase_done depcmd setup p (settle d 0) 0 packet in
            (view e ≡ answered_view (view d)) × (e.address ≡ a) × (e.test_mode ≡ d.test_mode))
          (sym (ap (λ (v : View). v.phase) w.seen)) (packet-answered setup d a w g k h n) in
      let d2 = xfernotready depcmd d1 1 2 in
      let (v2, kept) =
        status-begun d1 c (ap (λ (v : View). v.next_event) v1)
          (ap (λ (v : View). v.delayed) v1 ∙ w.delayed)
          (ap (λ (v : View). v.in_busy) v1 ∙ ap (λ (v : View). v.in_busy) w.seen) in
      let u2 : view d2 ≡ begun_on (record (answered_view (view d)) { phase = Phase.status }) true =
        v2 ∙ ap (λ (v : View). begun_on (record v { phase = Phase.status }) true) v1 in
      let (v3, a3) =
        status-ended setup d2 last c (ap (λ (v : View). v.phase) u2)
          (ap (λ (v : View). v.out_busy) u2)
          (ap (λ (v : View). v.queue) u2 ∙ ap (λ (v : View). v.queue) w.seen) (kept.1 ∙ (t1 ∙ t)) in
      (
        v3
            ∙ ap (λ (v : View). awaiting (record v { in_busy = false })) u2
            ∙ ap (λ (v : View). record v { expect_in = false; three_stage = false }) (sym w.seen),
        a3 ∙ (kept.0 ∙ a1),
      )
