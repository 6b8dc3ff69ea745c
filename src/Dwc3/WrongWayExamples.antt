-- ===== src/Dwc3/WrongWayExamples.antt =====
-- A host that asks for a data stage and then for the other direction.
use unisoc_usb.Prelude.{◌≡◌, refl, true, false, inl, arith}
use unisoc_usb.Dwc3.Endpoint.{Request}
use unisoc_usb.Dwc3.Stage.{Phase, NextEvent}
use unisoc_usb.Dwc3.Command.{send_ep_cmd, poll_cmd}
use unisoc_usb.Dwc3.Ep0.{Ep0, Ctrl, delegate_req, put_ep}
use unisoc_usb.Dwc3.EventExamples.{own_request, willing, prompt}
use unisoc_usb.Dwc3.ControlExamples.{idle, idle-IsOver, restarted_busy}
use unisoc_usb.Dwc3.Control.Start.{
  with_trb, started, start_command, start_trans, out_start, restart,
}
use unisoc_usb.Dwc3.Control.Queue.{
  ep0_enlisted, control_data, queue_data, ep0_queue, gadget_ep0_queue,
}
use unisoc_usb.Dwc3.Control.Finish.{staged, answered, inspect_setup}
use unisoc_usb.Dwc3.Control.Events.{
  settle, phase_done, xfer_complete, xfernotready, ep0_event, ep0_interrupt,
}
use unisoc_usb.Dwc3.Control.SetAddress.{over_on}
use unisoc_usb.Dwc3.Control.Safety.{view, IsSafe}
use unisoc_usb.Dwc3.Control.Safety.Launch.{busy_on}
use unisoc_usb.Dwc3.Control.Safety.Steps.{Step, Reach}
use unisoc_usb.Dwc3.Control.Safety.Ended.{EndsFirst, Reach-EndsFirst}

-- A class request for 8 bytes, which the gadget driver answers later.
abbrev class_request : Ctrl
class_request = record { type_bits = 161; request = 1; value = 0; index = 0; length = 8 }

abbrev asked_for : Ep0
asked_for = ep0_interrupt prompt willing (restart prompt idle) (over_on 0) class_request

abbrev eight_bytes : Request
eight_bytes = record own_request { id = 1; length = 8 }

abbrev sending : Ep0
sending = (gadget_ep0_queue prompt asked_for eight_bytes).0

asked_for-view :
    ((view asked_for).phase ≡ Phase.setup) × ((view asked_for).next_event ≡ NextEvent.nrdy_data)
unfolding ep0_interrupt ep0_event xfer_complete settle phase_done inspect_setup staged answered
    delegate_req put_ep restart out_start start_trans start_command started send_ep_cmd poll_cmd
    with_trb
asked_for-view = (refl, refl)

sending-view :
    ((view sending).phase ≡ Phase.data_stage)
    × (busy_on (view sending) true ≡ true)
    × ((sending.eps 1).resource_index ≡ 3)
unfolding ep0_interrupt ep0_event xfer_complete settle phase_done inspect_setup staged answered
    delegate_req put_ep restart out_start start_trans start_command started send_ep_cmd poll_cmd
    with_trb ep0_enlisted control_data queue_data ep0_queue gadget_ep0_queue
sending-view = (refl, refl, refl)

Reach-EndsFirst_example :
    let out = xfernotready prompt sending 0 1 in EndsFirst sending true out × IsSafe (view out)
Reach-EndsFirst_example =
    Reach-EndsFirst prompt (λ n. willing) idle sending true (λ n c d. inl refl) idle-IsOver refl
      (Reach.later
        (Reach.later Reach.start (Step.event 0 (over_on 0) false class_request refl restarted_busy))
        (Step.queue eight_bytes
          (inl (asked_for-view.0, λ e. absurd (ground (arith, e, asked_for-view.1)))) refl))
      sending-view.0 sending-view.1 (ground (arith, sending-view.2))
