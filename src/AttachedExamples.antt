-- ===== src/AttachedExamples.antt =====
-- A composite device on the controller, concretely.
use unisoc_usb.Prelude.{false, refl, some, ok}
use unisoc_usb.Dwc3.EventExamples.{own_request, prompt}
use unisoc_usb.Dwc3.ControlExamples.{idle, idle-IsOver, restarted_busy}
use unisoc_usb.Dwc3.Control.Start.{restart}
use unisoc_usb.Dwc3.Control.Events.{ep0_interrupt}
use unisoc_usb.Dwc3.Control.SetAddress.{over_on}
use unisoc_usb.Dwc3.Control.Safety.{view, IsSafe}
use unisoc_usb.Dwc3.Control.Safety.Steps.{Step, Reach}
use unisoc_usb.Gadget.Setup.Current.{get_configuration}
use unisoc_usb.Gadget.Setup.{Callbacks}
use unisoc_usb.Gadget.SetupExamples.{plain, gadget}
use unisoc_usb.Attached.{attached, attached-IsSafe}

-- Functions that queue an empty answer by themselves.
abbrev answering : Callbacks
answering = record plain {
  setup = λ f.
      some
        λ c. record { value = ok 0; own = some (record (gadget.req) { length = 0; zero = false }) };
}

-- GET_CONFIGURATION arrives.
attached-IsSafe_example : IsSafe (
    view (
      ep0_interrupt prompt
        (attached prompt own_request answering gadget)
        (restart prompt idle)
        (over_on 0)
        (get_configuration 1)))
attached-IsSafe_example =
    attached-IsSafe prompt own_request answering (λ n. gadget) idle
      (ep0_interrupt prompt (attached prompt own_request answering gadget) (restart prompt idle)
        (over_on 0) (get_configuration 1))
      refl idle-IsOver refl
      (Reach.later Reach.start
        (Step.event 0 (over_on 0) false (get_configuration 1) refl restarted_busy))
