-- ===== src/Gadget/Setup/Queueing.antt =====
-- `composite_setup` touches the controller through its queue alone.
use unisoc_usb.Prelude.{
  ℕ, ◌/◌, ◌%◌, ◌^◌, false, ◌≡◌, ◌⊎◌, inl, inr, refl, Code, Result, ok, err, ltb, ◌==◌, if_both,
  option_both,
}
use unisoc_usb.Dwc3.Ep0.{Ctrl}
use unisoc_usb.Gadget.Device.{Reply, Device}
use unisoc_usb.Gadget.Setup.{
  Callbacks, Handled, handled, Route, standard, delayed_status, respond, routed, composite_setup,
}

module _ (cb : Callbacks) {S : Type 0} (queue : Reply → S → S × Code) where
  -- Nothing is done to the controller, or one answer is queued.
  abbrev pub Queued : S → S → Type 0
  Queued s x = (x ≡ s) ⊎ (reply : Reply) × (x ≡ (queue reply s).0)

  handled-Queued : (d : Device) (s : S) (h : Handled) → Queued s (handled cb queue d s h).0.1
  unfolding handled
  handled-Queued d s h =
      option_both (λ (o : (Device × S) × Result ℕ). Queued s o.0.1) h.own (inl refl)
        λ reply. inr (reply, refl)

  routed-Queued :
      (d : Device) (s : S) (ctrl : Ctrl) (route : Route)
      → Queued s (routed cb queue d s ctrl route).0.1
  unfolding routed respond
  routed-Queued d s ctrl (Route.answer f (err c)) = inl refl
  routed-Queued d s ctrl (Route.answer f (ok value)) =
      let reply : Reply = record (f.req) { length = value; zero = ltb value ctrl.length } in
      let P = λ (o : (Device × S) × Result ℕ). Queued s o.0.1 in
      if_both P (value == delayed_status) (inl refl)
        (option_both P (queue reply s).1 (inr (reply, refl)) (λ c. inr (reply, refl)))
  routed-Queued d s ctrl Route.unknown = handled-Queued d s _
  routed-Queued d s ctrl (Route.to_function f g) = handled-Queued f s _

  pub composite_setup-Queued :
      (d : Device) (s : S) (ctrl : Ctrl) → Queued s (composite_setup cb queue d s ctrl).0.1
  unfolding composite_setup
  composite_setup-Queued d s ctrl =
      let fresh : Device = record d { req = record (d.req) { length = 0; zero = false } } in
      if_both (λ (o : (Device × S) × Result ℕ). Queued s o.0.1) (ctrl.type_bits / 2 ^ 5 % 4 == 0)
        (routed-Queued fresh s ctrl (standard cb fresh ctrl))
        (routed-Queued fresh s ctrl Route.unknown)
