-- ===== src/Gadget/UdcExamples.antt =====
-- A controller without a driver, and two gadget drivers.
use unisoc_usb.Prelude.{◌≡◌, refl, true, false, [], ◌∷◌, none, some}
use unisoc_usb.Dwc3.Ep0.{DeviceState}
use unisoc_usb.Gadget.Udc.{GadgetDriver, Call, Udc, Platform, probe_driver}
use unisoc_usb.Gadget.Udc.Life.{IsBound, Op, step, step-IsBound}
use unisoc_usb.Gadget.Udc.Second.{IsLost, probe_driver_second}

abbrev complete : GadgetDriver
complete = record {
  has_bind = true;
  has_unbind = true;
  has_setup = true;
  has_disconnect = true;
  has_reset = true;
}

abbrev works : Platform
works = record {
  drivers = λ d. complete;
  pullup = λ l on. none;
  isr = λ calls. none;
  bind = λ calls d l. (l, none);
  unbind = λ calls d l. l;
  disconnect = λ calls d l. l;
  reset = λ calls d l. l;
}

abbrev idle : Udc
idle = record {
  driver = none;
  vbus = true;
  link = record { pulled_up = false; connected = false; deactivated = false; deactivations = 0 };
  state = DeviceState.notattached;
  gadget_driver = none;
  irq = false;
  calls = [];
}

abbrev busy : Udc
busy = record idle {
  driver = some 1;
  gadget_driver = some 1;
  irq = true;
  calls = Call.bind 1 none ∷ [];
}

step-IsBound_example :
    (v : Udc) × (step works (Op.unregister (some 1)) busy ≡ some v) × IsBound works v
step-IsBound_example =
    step-IsBound works (Op.unregister (some 1)) busy
      (record {
        lives = refl;
        same = refl;
        served = refl;
        whole = record { unbind = refl; disconnect = refl; reset = refl };
      })
      (1, refl)

probe_driver_second_example : IsLost works 1 (probe_driver works (some 2) busy)
probe_driver_second_example =
    probe_driver_second works 2 busy 1
      (record {
        lives = refl;
        same = refl;
        served = refl;
        whole = record { unbind = refl; disconnect = refl; reset = refl };
      })
      refl refl refl refl refl refl
