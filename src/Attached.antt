-- ===== src/Attached.antt =====
-- The composite driver on the device controller: `composite_setup` of gadget/composite.c as the
-- gadget driver's `setup` of udc/dwc3/ep0.c, with `dwc3_gadget_ep0_queue` as its queue.
use unisoc_usb.Prelude.{ℕ, [], ◌≡◌, inl, inr, ap, false, Code, Result, ok, err}
use unisoc_usb.Dwc3.Endpoint.{Request}
use unisoc_usb.Dwc3.Command.{Depcmd}
use unisoc_usb.Dwc3.Ep0.{Ep0, Ctrl, SetupCode}
use unisoc_usb.Dwc3.Control.Queue.{gadget_ep0_queue}
use unisoc_usb.Dwc3.Control.Safety.{view, IsSafe}
use unisoc_usb.Dwc3.Control.Safety.Finish.{IsOver}
use unisoc_usb.Dwc3.Control.Safety.Steps.{Reach, Reach-IsSafe}
use unisoc_usb.Dwc3.Control.Safety.Setup.{QueuesOnly}
use unisoc_usb.Gadget.Device.{Reply, Device}
use unisoc_usb.Gadget.Setup.{Callbacks, composite_setup}
use unisoc_usb.Gadget.Setup.Queueing.{composite_setup-Queued}

-- The request of `cdev->req` for an answer.
abbrev pub reply_request : Request → Reply → Request
reply_request r reply = record r { length = reply.length; zero = reply.zero }

-- A return value as the controller driver sees it.
abbrev pub setup_code : Result ℕ → SetupCode
setup_code (ok n) = SetupCode.length n
setup_code (err e) = SetupCode.failed e

module _ (depcmd : ℕ → Depcmd) (r : Request) where
  -- `usb_ep_queue(cdev->gadget->ep0, cdev->req)`
  pub ep0_reply : Reply → Ep0 → Ep0 × Code
  ep0_reply reply e = gadget_ep0_queue depcmd e (reply_request r reply)

  -- `composite_setup` as the `setup` of the gadget driver.
  pub attached : Callbacks → Device → Ctrl → Ep0 → Ep0 × SetupCode
  attached cb d ctrl e =
      let out = composite_setup cb ep0_reply d e ctrl in (out.0.1, setup_code out.1)

  attached-QueuesOnly :
      (cb : Callbacks) (d : Device) → r.queued ≡ false → QueuesOnly depcmd (attached cb d)
  unfolding attached ep0_reply
  attached-QueuesOnly cb d u ctrl e = elim (composite_setup-Queued cb ep0_reply d e ctrl) [
    | inl x ↦ inl (ap view x)
    | inr (reply, x) ↦ inr (reply_request r reply, u, ap view x)
  ]

  -- With the composite driver as its gadget driver, whatever the device's state is at each call of its
  -- `setup`, endpoint 0 of the controller has at most one request, none while a setup packet is awaited, and at
  -- most one of its physical endpoints marked as busy, after any steps in which the end of a transfer
  -- is reported only on an endpoint marked as busy. The `setup` of a function or a configuration
  -- may queue one request by itself, as the WCN function's does; the device's own request is not marked as queued, and the first setup packet is awaited on an idle endpoint 0 without requests.
  pub attached-IsSafe :
      (cb : Callbacks) (device : ℕ → Device) (d e : Ep0)
      → r.queued ≡ false
      → IsOver (view d)
      → (view d).queue ≡ []
      → Reach depcmd (λ n. attached cb (device n)) d e
      → IsSafe (view e)
  attached-IsSafe cb device d e u o n reached =
      Reach-IsSafe depcmd (λ n. attached cb (device n)) d e
        (λ n. attached-QueuesOnly cb (device n) u) o n reached
