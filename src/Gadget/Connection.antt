-- ===== src/Gadget/Connection.antt =====
-- Whether the host sees the gadget: `usb_gadget_connect`, `_disconnect`, `_deactivate` and `_activate` of
-- include/gadget.h, and the count of deactivations in gadget/composite.c.
pub mod Refine
use unisoc_usb.Prelude.{
  ℕ, zero, suc, ◌+◌, ◌-◌, Bool, true, false, not, ◌&&◌, List, [], ◌∷◌, Option, none, some, Code,
  Errno, ◌==◌, if◌then◌else◌,
}

-- `connected` and `deactivated` of `struct usb_gadget` with `deactivations` of `struct usb_composite_dev`.
-- `pulled_up` is what the controller was last told successfully.
pub record Link : Type 0 where
  pub pulled_up : Bool
  pub connected : Bool
  pub deactivated : Bool
  pub deactivations : ℕ

-- The calls of the framework's users.
pub data Op : Type 0 where
  connect disconnect deactivate activate : Op

-- `usb_gadget_deactivate` once the gadget is disconnected.
pub deactivate_after : Link × Code → Link × Code
deactivate_after (g, none) = (record g { connected = true; deactivated = true }, none)
deactivate_after (g, some e) = (g, some e)

-- The end of `usb_function_deactivate`.
pub count_up : Link × Code → Link × Code
count_up (g, none) = (record g { deactivations = g.deactivations + 1 }, none)
count_up (g, some e) = (g, some e)

-- `pullup` is the operation that the controller driver registers, which is present: whether it
-- succeeds in this state.
module _ (pullup : Link → Bool → Code) where
  -- `usb_gadget_connect` for `true`, `usb_gadget_disconnect` for `false`
  pub set_connected : Bool → Link → Link × Code
  set_connected on g =
      let told = record g { pulled_up = on; connected = on } in
      if g.deactivated
      then (record g { connected = on }, none)
      else (elim (pullup g on) [ none ↦ (told, none) | some e ↦ (g, some e) ])

  -- `usb_gadget_deactivate`
  pub gadget_deactivate : Link → Link × Code
  gadget_deactivate g =
      let out = set_connected false g in
      let hidden = deactivate_after out in
      if g.deactivated
      then (g, none)
      else (if g.connected then hidden else (record g { deactivated = true }, none))

  -- `usb_gadget_activate`
  pub gadget_activate : Link → Link × Code
  gadget_activate g =
      let awake = record g { deactivated = false } in
      let shown = set_connected true awake in
      if not g.deactivated then (g, none) else (if g.connected then shown else (awake, none))

  -- `usb_function_deactivate`
  pub function_deactivate : Link → Link × Code
  function_deactivate g =
      let first = gadget_deactivate g in
      count_up (if g.deactivations == 0 then first else (g, none))

  -- `usb_function_activate`
  pub function_activate : Link → Link × Code
  function_activate g =
      let less = record g { deactivations = g.deactivations - 1 } in
      let last = gadget_activate less in
      if g.deactivations == 0
      then (g, some Errno.einval)
      else (if less.deactivations == 0 then last else (less, none))

  pub step : Op → Link → Link × Code
  step Op.connect g = set_connected true g
  step Op.disconnect g = set_connected false g
  step Op.deactivate g = function_deactivate g
  step Op.activate g = function_activate g

  -- A sequence of calls, whatever they return.
  pub run : List Op → Link → Link
  run [] g = g
  run (o ∷ os) g = run os (step o g).0
