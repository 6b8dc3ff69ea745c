-- ===== src/Dwc3/ControlExamples.antt =====
-- Concrete control transfers.
use unisoc_usb.Prelude.{
  ◌≡◌, refl, ap, true, false, [], ◌∷◌, some, inl, ◌==◌, if◌then◌else◌, is_empty, arith,
}
use unisoc_usb.Dwc3.Endpoint.{Endpoint, XferType, Request}
use unisoc_usb.Dwc3.Command.{Cmd, EpCmd}
use unisoc_usb.Dwc3.Ep0.{Ep0, DeviceState}
use unisoc_usb.Dwc3.EventExamples.{bulk_in, own_request, addressed, willing, prompt, prompt-Accepts}
use unisoc_usb.Dwc3.Control.Queue.{roundup}
use unisoc_usb.Dwc3.Control.Start.{stall_both, restart, stall_and_restart, control_trb}
use unisoc_usb.Dwc3.Control.Finish.{transferred}
use unisoc_usb.Dwc3.Control.Events.{ep0_interrupt}
use unisoc_usb.Dwc3.Control.Moved.{IsLeft, Moved, transferred_lem}
use unisoc_usb.Dwc3.Control.SetAddress.{
  IsAwaiting, set_address_packet, over_on, status_wanted, set_address_transfer,
}
use unisoc_usb.Dwc3.Control.Stall.{stall_both-cmds, start_of, stall_and_restart_lem}
use unisoc_usb.Dwc3.Control.Safety.{View, view, IsSafe}
use unisoc_usb.Dwc3.Control.Safety.Finish.{IsOver}
use unisoc_usb.Dwc3.Control.Safety.Restart.{awaiting, restart-awaiting}
use unisoc_usb.Dwc3.Control.Safety.Setup.{QueuesOnly}
use unisoc_usb.Dwc3.Control.Safety.Steps.{Step, Reach, Reach-IsSafe}

abbrev control_ep : Endpoint
control_ep = record bulk_in { desc = some XferType.control; number = 0; direction = false }

-- Before the first setup packet is awaited.
abbrev pub idle : Ep0
idle = record addressed { state = DeviceState.default; eps = λ i. control_ep }

pub idle-IsOver : IsOver (view idle)
idle-IsOver = record { tame = (omega arith, tt, refl); idle = (refl, refl); calm = refl }

willing-QueuesOnly : QueuesOnly prompt willing
willing-QueuesOnly c d = inl refl

pub restarted_busy : (view (restart prompt idle)).out_busy ≡ true
restarted_busy =
    ap (λ (v : View). v.out_busy) (restart-awaiting prompt idle prompt-Accepts (refl, refl) refl)

Reach-IsSafe_example :
    IsSafe
      (view (ep0_interrupt prompt willing (restart prompt idle) (over_on 0) (set_address_packet 5)))
Reach-IsSafe_example =
    Reach-IsSafe prompt (λ n. willing) idle
      (ep0_interrupt prompt willing (restart prompt idle) (over_on 0) (set_address_packet 5))
      (λ n. willing-QueuesOnly) idle-IsOver refl
      (Reach.later Reach.start
        (Step.event 0 (over_on 0) false (set_address_packet 5) refl restarted_busy))

-- The setup packet is awaited on endpoint 0.
abbrev attentive : Ep0
attentive = record idle {
  eps = λ i. if i == 0 then record control_ep { busy = true } else control_ep;
}

attentive-IsAwaiting : IsAwaiting attentive
attentive-IsAwaiting = record { seen = refl; delayed = refl; pending = refl }

set_address_transfer_example :
    let d1 = ep0_interrupt prompt willing attentive (over_on 0) (set_address_packet 5) in
    let d2 = ep0_interrupt prompt willing d1 status_wanted (set_address_packet 0) in
    let d3 = ep0_interrupt prompt willing d2 (over_on 1) (set_address_packet 0) in
    (view d3 ≡ record (view attentive) { expect_in = false; three_stage = false })
    × (d3.address ≡ 5)
set_address_transfer_example =
    set_address_transfer prompt willing attentive 5 (set_address_packet 0) (set_address_packet 0)
      prompt-Accepts attentive-IsAwaiting refl refl refl (omega arith) (λ e. ground arith)

-- A request is on the list, and its data stage is marked as busy.
abbrev asked : Ep0
asked = record idle {
  eps = λ i.
      if i == 0
      then record control_ep { request_list = own_request ∷ []; busy = true }
      else control_ep;
}

stall_and_restart_lem_example :
    let set : EpCmd = record { ep = 0; cmd = Cmd.set_stall; param0 = 0; param1 = 0 } in
    let out = stall_and_restart prompt asked in
    (view out ≡ awaiting (record (view asked) { delayed = false; pending = false }))
    × (out.core.cmds
        ≡ start_of asked 0
          ∷ (if is_empty (asked.eps 0).request_list
              then set ∷ asked.core.cmds
              else asked.core.cmds))
stall_and_restart_lem_example =
    stall_and_restart_lem prompt asked prompt-Accepts (omega arith, (refl, tt), refl) refl refl refl

stall_both-cmds_example :
    let set : EpCmd = record { ep = 0; cmd = Cmd.set_stall; param0 = 0; param1 = 0 } in
    (stall_both prompt asked).core.cmds
    ≡ (if is_empty (asked.eps 0).request_list then set ∷ asked.core.cmds else asked.core.cmds)
stall_both-cmds_example = stall_both-cmds prompt asked refl refl refl

-- A request of 18 bytes.
abbrev short_request : Request
short_request = record own_request { length = 18 }

-- The bounce buffer was used, and the controller left 50 of 64 bytes.
abbrev bounced : Ep0
bounced = record idle {
  core = record (idle.core) { ep0_bounced = true };
  stage = record (idle.stage) { trbs = control_trb 0 50 3 false ∷ [] };
}

bounced-IsLeft : IsLeft bounced short_request
unfolding control_trb roundup
bounced-IsLeft = record {
  direct = λ e. absurd (ground (arith, e));
  short = λ e h. omega arith;
  long = λ e h. absurd (omega (arith, h));
}

transferred_lem_example : Moved bounced short_request (transferred bounced short_request)
transferred_lem_example =
    transferred_lem bounced short_request (omega arith) bounced-IsLeft (omega arith) (omega arith)
