-- ===== src/Gadget/Udc.antt =====
-- Binding a gadget driver to the controller: gadget/udc-core.c, with `dwc3_gadget_start` and
-- `dwc3_gadget_stop` of udc/dwc3/gadget.c below it.
pub mod Life
pub mod Second
use unisoc_usb.Prelude.{
  ℕ, Bool, true, false, not, ◌||◌, List, [], ◌∷◌, Option, none, some, Code, Errno, if◌then◌else◌,
}
use unisoc_usb.Dwc3.Ep0.{DeviceState}
use unisoc_usb.Gadget.Connection.{Link, set_connected}

-- `struct usb_gadget_driver`: which callbacks are there. A pointer to one is a number.
pub record GadgetDriver : Type 0 where
  pub has_bind : Bool
  pub has_unbind : Bool
  pub has_setup : Bool
  pub has_disconnect : Bool
  pub has_reset : Bool

-- A call of a gadget driver's callback; `bind` with what it returns. `crash` is one through a pointer that
-- is NULL, behind which nothing counts any more.
pub data Call : Type 0 where
  bind : ℕ → Code → Call
  unbind disconnect reset : ℕ → Call
  crash : Call

-- `g_udc` with the gadget of `struct dwc3`, which has been added: `driver` and `vbus` are of
-- `struct usb_udc`, `gadget_driver` is of `struct dwc3`, `irq` says whether the interrupt's handlers
-- are registered. `calls` are those so far, the last one first.
pub record Udc : Type 0 where
  pub driver : Option ℕ
  pub vbus : Bool
  pub link : Link
  pub state : DeviceState
  pub gadget_driver : Option ℕ
  pub irq : Bool
  pub calls : List Call

abbrev pub called : Call → Link → Udc → Udc
called c l u = record u { calls = c ∷ u.calls; link = l }

-- A callback that is called whether it is there or not.
abbrev pub attempted : Bool → Call → Link → Udc → Udc
attempted there c l u = if there then called c l u else called Call.crash u.link u

-- `dwc3_gadget_start`, where `isr` is what registering the interrupt's handlers returns.
pub gadget_start : Code → ℕ → Udc → Udc × Code
gadget_start (some e) d u = (u, some e)
gadget_start none d u = elim u.gadget_driver [
  | some other ↦ (record u { irq = false }, some Errno.ebusy)
  | none ↦ (record u { irq = true; gadget_driver = some d }, none)
]

-- `dwc3_gadget_stop`
pub gadget_stop : Udc → Udc
gadget_stop u = record u { gadget_driver = none; irq = false }

-- `usb_add_gadget_udc`, whose result is 0.
pub add_gadget_udc : Udc → Udc
add_gadget_udc u = record u { state = DeviceState.notattached; vbus = true }

-- What this code calls. `drivers` are the gadget drivers by their numbers. `pullup` is the controller's, and `isr` what registering the interrupt's
-- handlers returns. A gadget driver's callbacks may change whether the gadget connects: `bind` also
-- returns a code. They may depend on the calls so far.
pub record Platform : Type 0 where
  pub drivers : ℕ → GadgetDriver
  pub pullup : Link → Bool → Code
  pub isr : List Call → Code
  pub bind : List Call → ℕ → Link → Link × Code
  pub unbind : List Call → ℕ → Link → Link
  pub disconnect : List Call → ℕ → Link → Link
  pub reset : List Call → ℕ → Link → Link

module _ (p : Platform) where
  -- `usb_udc_connect_control`
  pub connect_control : Udc → Udc
  connect_control u = record u { link = (set_connected p.pullup u.vbus u.link).0 }

  -- `usb_udc_vbus_handler`
  pub vbus_handler : Bool → Udc → Udc
  vbus_handler status u = connect_control (record u { vbus = status })

  -- `usb_gadget_udc_reset`, which the controller driver calls for its `gadget_driver`.
  pub udc_reset : Udc → Udc
  udc_reset u = elim u.gadget_driver [
    | none ↦ u
    | some d ↦
        record (attempted (p.drivers d).has_reset (Call.reset d) (p.reset u.calls d u.link) u) {
          state = DeviceState.default;
        }
  ]

  abbrev pub do_bind : ℕ → Udc → Udc × Code
  do_bind d u = let out = p.bind u.calls d u.link in (called (Call.bind d out.1) out.0 u, out.1)

  abbrev pub do_unbind : ℕ → Udc → Udc
  do_unbind d u = attempted (p.drivers d).has_unbind (Call.unbind d) (p.unbind u.calls d u.link) u

  abbrev pub do_disconnect : ℕ → Udc → Udc
  do_disconnect d u =
      attempted (p.drivers d).has_disconnect (Call.disconnect d) (p.disconnect u.calls d u.link) u

  -- `usb_gadget_remove_driver` of the driver `d`.
  pub remove_bound : ℕ → Udc → Udc
  remove_bound d u =
      let hidden = record u { link = (set_connected p.pullup false u.link).0 } in
      record (gadget_stop (do_unbind d (do_disconnect d hidden))) { driver = none }

  -- `usb_gadget_remove_driver`, which follows `udc->driver`: none if that is NULL.
  pub remove_driver : Udc → Option Udc
  remove_driver u = elim u.driver [ none ↦ none | some d ↦ some (remove_bound d u) ]

  -- `usb_del_gadget_udc`
  pub del_gadget_udc : Udc → Udc
  del_gadget_udc u = elim u.driver [ none ↦ u | some d ↦ remove_bound d u ]

  -- `udc_bind_to_driver` after `bind`, and after `usb_gadget_udc_start`.
  pub after_start : ℕ → Udc × Code → Udc × Code
  after_start d (u, none) = (connect_control u, none)
  after_start d (u, some e) = (record (do_unbind d u) { driver = none }, some e)

  pub after_bind : ℕ → Udc × Code → Udc × Code
  after_bind d (u, none) = after_start d (gadget_start (p.isr u.calls) d u)
  after_bind d (u, some e) = (record u { driver = none }, some e)

  -- `udc_bind_to_driver`
  pub bind_to_driver : ℕ → Udc → Udc × Code
  bind_to_driver d u = after_bind d (do_bind d (record u { driver = some d }))

  -- `usb_gadget_probe_driver`
  pub probe_driver : Option ℕ → Udc → Udc × Code
  probe_driver none u = (u, some Errno.einval)
  probe_driver (some d) u =
      let out = bind_to_driver d u in
      if not (p.drivers d).has_bind || not (p.drivers d).has_setup
      then (u, some Errno.einval)
      else out

  -- `usb_gadget_unregister_driver`
  pub unregister_driver : Option ℕ → Udc → Option (Udc × Code)
  unregister_driver none u = some (u, some Errno.einval)
  unregister_driver (some d) u =
      if not (p.drivers d).has_unbind
      then some (u, some Errno.einval)
      else (elim (remove_driver u) [ none ↦ none | some v ↦ some (v, none) ])
