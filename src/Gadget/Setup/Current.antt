-- ===== src/Gadget/Setup/Current.antt =====
-- The configuration that a host is told is the one that it chose.
use unisoc_usb.Prelude.{
  ℕ, ◌≡◌, ◌<◌, ◌⊎◌, inl, inr, refl, sym, subst, ap, ◌∙◌, false, [], ◌∷◌, Option, none, some, Code,
  Errno, Result, ok, err, drop, min, ltb, ◌==◌, arith, if_both, option_both, option_each,
}
use unisoc_usb.Dwc3.Ep0.{Ctrl}
use unisoc_usb.Gadget.Configs.{Configuration, Cdev, Chosen, set_config}
use unisoc_usb.Gadget.Configs.Choice.{Active, Settles, set_config-Settles}
use unisoc_usb.Gadget.Device.{Reply, Device, filled}
use unisoc_usb.Gadget.Setup.{
  Callbacks, Route, delayed_status, chosen_value, choose_config, tell_config, standard, by_request,
  respond, routed, composite_setup,
}

abbrev pub set_configuration : ℕ → Ctrl
set_configuration v = record { type_bits = 0; request = 9; value = v; index = 0; length = 0 }

abbrev pub get_configuration : ℕ → Ctrl
get_configuration n = record { type_bits = 128; request = 8; value = 0; index = 0; length = n }

Result-cases : (r : Result ℕ) → ((e : Errno) × (r ≡ err e)) ⊎ ((n : ℕ) × (r ≡ ok n))
Result-cases (err e) = inl (e, refl)
Result-cases (ok n) = inr (n, refl)

-- The device as each request begins with it.
abbrev fresh : Device → Device
fresh d = record d { req = record (d.req) { length = 0; zero = false } }

Active-value :
    (o : Option Configuration) (v : ℕ)
    → Active o v
    → (elim o as (λ x. ℕ) [ none ↦ 0 | some c ↦ c.configuration_value ]) ≡ v
Active-value none v a = sym a
Active-value (some c) v a = a

-- A choice that succeeds makes the configuration the active one.
chosen_active :
    (d : Cdev) (v : ℕ) (out : Cdev × Chosen) (n : ℕ)
    → Settles d v out
    → chosen_value out.1 ≡ ok n
    → Active out.0.active v
chosen_active d v (e, Chosen.failed c) n s h = ground (arith, h)
chosen_active d v (e, Chosen.done) n s h = s.0
chosen_active d v (e, Chosen.delayed_status) n s h = s.0

module _ (cb : Callbacks) {S : Type 0} (queue : Reply → S → S × Code) where
  routed-cdev :
      (d e : Device) (s : S) (ctrl : Ctrl) (r : Result ℕ)
      → (routed cb queue d s ctrl (Route.answer e r)).0.0.cdev ≡ e.cdev
  unfolding routed respond
  routed-cdev d e s ctrl (err c) = refl
  routed-cdev d e s ctrl (ok value) =
      let reply : Reply = record (e.req) { length = value; zero = ltb value ctrl.length } in
      let P = λ (o : (Device × S) × Result ℕ). o.0.0.cdev ≡ e.cdev in
      if_both P (value == delayed_status) refl (option_both P (queue reply s).1 refl (λ c. refl))

  routed_ok :
      (d e : Device) (s : S) (ctrl : Ctrl) (r : Result ℕ) (n : ℕ)
      → (routed cb queue d s ctrl (Route.answer e r)).1 ≡ ok n
      → (m : ℕ) × (r ≡ ok m)
  unfolding routed
  routed_ok d e s ctrl (err c) n h = ground (arith, h)
  routed_ok d e s ctrl (ok value) n h = (value, refl)

  one_byte :
      (d e : Device) (s : S) (ctrl : Ctrl)
      → ((r : Reply) (z : S) → (queue r z).1 ≡ none)
      → let out = routed cb queue d s ctrl (Route.answer e (ok 1)) in
        (out.1 ≡ ok 0) × (out.0.0.req.length ≡ 1) × (out.0.0.req.buf ≡ e.req.buf)
  unfolding routed respond
  one_byte d e s ctrl q =
      let reply : Reply = record (e.req) { length = 1; zero = ltb 1 ctrl.length } in
      let P = λ (o : (Device × S) × Result ℕ).
        (o.1 ≡ ok 0) × (o.0.0.req.length ≡ 1) × (o.0.0.req.buf ≡ e.req.buf) in
      option_each P (queue reply s).1 (λ n. (refl, refl, refl))
        (λ c x. absurd (ground (arith, sym (q reply s) ∙ x)))

  told :
      (d : Device) (s : S) (v len : ℕ)
      → ((r : Reply) (z : S) → (queue r z).1 ≡ none)
      → 0 < len
      → Active d.cdev.active v
      → let out = composite_setup cb queue d s (get_configuration len) in
        (out.1 ≡ ok 0) × (out.0.0.req.length ≡ 1) × (out.0.0.req.buf ≡ v ∷ drop 1 d.req.buf)
  unfolding composite_setup standard by_request tell_config
  told d s v len q l a =
      let value : ℕ = elim d.cdev.active [ none ↦ 0 | some c ↦ c.configuration_value ] in
      let shown : Device = filled (fresh d) (value ∷ []) in
      let one : 1 ≡ min len 1 = ground arith in
      let (r, n, b) = one_byte (fresh d) shown s (get_configuration len) q in
      subst
        (λ (m : ℕ).
          let out =
            routed cb queue (fresh d) s (get_configuration len) (Route.answer shown (ok m)) in
          (out.1 ≡ ok 0) × (out.0.0.req.length ≡ 1) × (out.0.0.req.buf ≡ v ∷ drop 1 d.req.buf))
        one (r, n, b ∙ ap (λ (x : ℕ). x ∷ drop 1 d.req.buf) (Active-value d.cdev.active v a))

  chosen :
      (d : Device) (s : S) (v n : ℕ)
      → (composite_setup cb queue d s (set_configuration v)).1 ≡ ok n
      → Active (composite_setup cb queue d s (set_configuration v)).0.0.cdev.active v
  unfolding composite_setup standard by_request choose_config
  chosen d s v n h =
      let f = fresh d in
      let out = set_config (λ f i. cb.set_alt f i 0) d.cdev v d.power in
      let e : Device = record f { cdev = out.0 } in
      let (m, k) = routed_ok f e s (set_configuration v) (chosen_value out.1) n h in
      let settles = set_config-Settles (λ f i. cb.set_alt f i 0) d.cdev v d.power in
      subst (λ (x : Cdev). Active x.active v)
        (sym (routed-cdev f e s (set_configuration v) (chosen_value out.1)))
        (chosen_active d.cdev v out m settles k)

  -- A host that chooses a configuration, 0 for none, is refused with an error, or it is told the number
  -- that it chose, in one byte, when it then asks for at least one byte of the current configuration, as long as
  -- the answers can be queued.
  pub composite_setup_configuration :
      (d : Device) (s : S) (v len : ℕ)
      → ((r : Reply) (z : S) → (queue r z).1 ≡ none)
      → 0 < len
      → let first = composite_setup cb queue d s (set_configuration v) in
        let out = composite_setup cb queue first.0.0 first.0.1 (get_configuration len) in
        ((e : Errno) × (first.1 ≡ err e))
        ⊎ ((out.1 ≡ ok 0)
            × (out.0.0.req.length ≡ 1)
            × (out.0.0.req.buf ≡ v ∷ drop 1 first.0.0.req.buf))
  composite_setup_configuration d s v len q l =
      let first = composite_setup cb queue d s (set_configuration v) in
      elim (Result-cases first.1) [
        | inl f ↦ inl f
        | inr (n, h) ↦ inr (told first.0.0 first.0.1 v len q l (chosen d s v n h))
      ]
