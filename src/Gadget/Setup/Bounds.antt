-- ===== src/Gadget/Setup/Bounds.antt =====
-- An answer is never longer than the host asked for.
use unisoc_usb.Prelude.{
  ℕ, ◌/◌, ◌%◌, ◌^◌, ◌≡◌, ◌≤◌, ◌⊎◌, inl, inr, sym, subst, false, ◌&&◌, List, [], ◌∷◌, none, some,
  Code, Errno, Result, ok, err, length, min, ltb, ◌==◌, arith, if_both, option_both, option_each,
  Option,
}
use unisoc_usb.Dwc3.Ep0.{Ctrl}
use unisoc_usb.Gadget.Speeds.{config_desc, dt_config, dt_other_speed_config}
use unisoc_usb.Gadget.Strings.{get_string}
use unisoc_usb.Gadget.Device.{Reply, Device, shown, shown_os, device_qual, bos_desc, filled}
use unisoc_usb.Gadget.Setup.{
  Callbacks, Handled, silent, try_single, try_config, try_fun_setup, recipient, handled, Route,
  delayed_status, with_bytes, usb2_dualspeed, matching, all_functions, interface_at, string_desc,
  get_descriptor, tell_config, get_interface, at_interface, standard, by_request, respond, routed,
  composite_setup,
}

result_both {ℓ κ μ} :
    {A : Type ℓ} {B : Type κ} (P : B → Type μ) (r : Result A) {f : A → B} {g : Errno → B}
    → ((a : A) → P (f a))
    → ((e : Errno) → P (g e))
    → P (elim r [ ok a ↦ f a | err e ↦ g e ])
result_both P (ok a) hf hg = hf a
result_both P (err e) hf hg = hg e

min_le : (a b : ℕ) → min a b ≤ a
min_le a b = ground arith

-- An answer of at most this many bytes, and no longer one queued yet.
abbrev IsWithin : ℕ → Route → Type 0
IsWithin w (Route.answer d (ok value)) = (d.req.length ≤ w) × (value ≤ w)
IsWithin w (Route.answer d (err e)) = d.req.length ≤ w
IsWithin w Route.unknown = Unit
IsWithin w (Route.to_function d f) = d.req.length ≤ w

with_bytes-IsWithin :
    (d : Device) (w : ℕ) (r : Result (List ℕ)) → d.req.length ≤ w → IsWithin w (with_bytes d w r)
with_bytes-IsWithin d w (ok bs) h = (h, min_le w (length bs))
with_bytes-IsWithin d w (err e) h = h

-- The answer that a `setup` queues by itself is no longer than the host asked for.
abbrev Short : Ctrl → Option Reply → Type 0
Short ctrl none = Unit
Short ctrl (some r) = r.length ≤ ctrl.length

abbrev Modest : Ctrl → Handled → Type 0
Modest ctrl h = Short ctrl h.own

abbrev pub AllModest : Option (Ctrl → Handled) → Type 0
AllModest none = Unit
AllModest (some setup) = (ctrl : Ctrl) → Modest ctrl (setup ctrl)

module _ (cb : Callbacks) where
  -- No answer that a callback queues by itself is longer than the host asked for.
  pub record IsModest : Type 0 where
    pub setup : (f : ℕ) → AllModest (cb.setup f)
    pub config_setup : (v : ℕ) → AllModest (cb.config_setup v)

  string_desc-IsWithin :
      (d : Device) (ctrl : Ctrl)
      → d.req.length ≤ ctrl.length
      → IsWithin ctrl.length (string_desc cb d ctrl)
  unfolding string_desc
  string_desc-IsWithin d ctrl h =
      let got = get_string d.tables d.req.buf ctrl.index (ctrl.value % 2 ^ 8) in
      let left : Device = record d { req = record (d.req) { buf = got.0 } } in
      let P = IsWithin ctrl.length in
      result_both P got.1 {f = λ value. Route.answer left (ok (min ctrl.length value))}
        (λ value. (h, min_le ctrl.length value))
        (λ e.
          if_both P (d.desc.bcd_device == 65535)
            (option_both P (matching cb.req_match (all_functions d.cdev.configs) ctrl)
              {x = Route.answer left (err e)} {f = λ f. Route.to_function left f} h (λ f. h))
            h)

  get_descriptor-IsWithin :
      (d : Device) (ctrl : Ctrl) (type : ℕ)
      → d.req.length ≤ ctrl.length
      → IsWithin ctrl.length (get_descriptor cb d ctrl type)
  unfolding get_descriptor
  get_descriptor-IsWithin d ctrl type h =
      let P = IsWithin ctrl.length in
      let w = ctrl.length in
      let configs =
        with_bytes-IsWithin d w (config_desc d.bus (shown_os d) (shown d) type (ctrl.value % 2 ^ 8))
          h in
      if_both P (type == 1) (h, min_le w 18)
        (if_both P (type == 6)
          (if_both P (usb2_dualspeed d.bus) (with_bytes-IsWithin d w (ok (device_qual d)) h) h)
          (if_both P (type == dt_other_speed_config) (if_both P (usb2_dualspeed d.bus) configs h) (
            if_both P (type == dt_config) configs (
              if_both P (type == 3) (string_desc-IsWithin d ctrl h) (
                if_both P (type == 15 && d.bus.is_superspeed)
                  (with_bytes-IsWithin d w (ok (bos_desc d)) h) h)))))

  get_interface-IsWithin :
      (d : Device) (ctrl : Ctrl) (f : ℕ)
      → d.req.length ≤ ctrl.length
      → IsWithin ctrl.length (get_interface cb d ctrl f)
  unfolding get_interface
  get_interface-IsWithin d ctrl f h =
      let value : Result ℕ = elim (cb.get_alt f) [ none ↦ ok 0 | some g ↦ g ctrl.index ] in
      result_both (IsWithin ctrl.length) value
        {f = λ v. Route.answer (filled d ((v % 2 ^ 8) ∷ [])) (ok (min ctrl.length 1))}
        {g = λ e. Route.answer d (err e)} (λ v. (h, min_le ctrl.length 1)) (λ e. h)

  -- A request that reads a descriptor, the configuration or an interface's setting.
  standard-IsWithin :
      (d : Device) (ctrl : Ctrl)
      → ((ctrl.request ≡ 6) ⊎ (ctrl.request ≡ 8)) ⊎ (ctrl.request ≡ 10)
      → d.req.length ≤ ctrl.length
      → IsWithin ctrl.length (standard cb d ctrl)
  unfolding standard by_request tell_config at_interface
  standard-IsWithin d ctrl r h =
      let P = IsWithin ctrl.length in
      let at = λ (n : ℕ) (e : ctrl.request ≡ n) (p : P (by_request cb n d ctrl)).
        subst (λ (k : ℕ). P (by_request cb k d ctrl)) (sym e) p in
      elim r [
        | inl (inl e) ↦ at 6 e (
            if_both P (ctrl.type_bits == 128)
              (get_descriptor-IsWithin d ctrl (ctrl.value / 2 ^ 8) h) tt)
        | inl (inr e) ↦ at 8 e (if_both P (ctrl.type_bits == 128) (h, min_le ctrl.length 1) tt)
        | inr e ↦ at 10 e (
            if_both P (ctrl.type_bits == 129)
              (option_both P (interface_at d (ctrl.index % 2 ^ 8)) h
                (λ f. get_interface-IsWithin d ctrl f h))
              tt)
      ]

  try_config-IsModest :
      (d : Device) (ctrl : Ctrl) (h : Handled)
      → IsModest
      → Modest ctrl h
      → Modest ctrl (try_config cb d ctrl h)
  unfolding try_config try_single
  try_config-IsModest d ctrl h m k =
      option_each P d.cdev.active (λ e. k)
        λ c e.
          option_each P (cb.config_setup c.configuration_value) (λ z. single c.functions)
            λ s z. subst AllModest z (m.config_setup c.configuration_value) ctrl
    where
      P : Handled → Type 0
      P x = Modest ctrl x

      single : (fs : List ℕ) → P (try_single cb fs ctrl h)
      single [] = k
      single (f ∷ []) =
          option_each P (cb.setup f) (λ z. k) λ s z. subst AllModest z (m.setup f) ctrl
      single (f ∷ g ∷ fs) = k

  try_fun_setup-IsModest :
      (d : Device) (ctrl : Ctrl) (o : Option ℕ) (v : Result ℕ)
      → IsModest
      → Modest ctrl (try_fun_setup cb d ctrl o (silent v))
  unfolding try_fun_setup
  try_fun_setup-IsModest d ctrl none v m = try_config-IsModest d ctrl (silent v) m tt
  try_fun_setup-IsModest d ctrl (some f) v m =
      option_each (Modest ctrl) (cb.setup f) (λ z. try_config-IsModest d ctrl (silent v) m tt)
        λ s z. subst AllModest z (m.setup f) ctrl

  module _ {S : Type 0} (queue : Reply → S → S × Code) where
    handled-length :
        (d : Device) (s : S) (ctrl : Ctrl) (h : Handled)
        → d.req.length ≤ ctrl.length
        → Modest ctrl h
        → (handled cb queue d s h).0.0.req.length ≤ ctrl.length
    unfolding handled
    handled-length d s ctrl h k m =
        option_each (λ (o : (Device × S) × Result ℕ). o.0.0.req.length ≤ ctrl.length) h.own (λ z. k)
          λ r z. subst (Short ctrl) z m

    routed-length :
        (d : Device) (s : S) (ctrl : Ctrl) (route : Route)
        → IsModest
        → d.req.length ≤ ctrl.length
        → IsWithin ctrl.length route
        → (routed cb queue d s ctrl route).0.0.req.length ≤ ctrl.length
    unfolding routed respond
    routed-length d s ctrl (Route.answer e (err c)) m h i = i
    routed-length d s ctrl (Route.answer e (ok value)) m h i =
        let P = λ (o : (Device × S) × Result ℕ). o.0.0.req.length ≤ ctrl.length in
        let reply : Reply = record (e.req) { length = value; zero = ltb value ctrl.length } in
        if_both P (value == delayed_status) i.0 (option_both P (queue reply s).1 i.1 (λ c. i.1))
    routed-length d s ctrl Route.unknown m h i =
        handled-length d s ctrl _ h
          (try_fun_setup-IsModest d ctrl (recipient cb d ctrl) (err Errno.eopnotsupp) m)
    routed-length d s ctrl (Route.to_function e f) m h i =
        handled-length e s ctrl _ i (try_fun_setup-IsModest e ctrl (some f) (err Errno.einval) m)

    -- The answer to a standard request for a descriptor, the configuration or an interface's setting
    -- is never longer than the host asked for, whether it is queued or not, as long as the answers are not
    -- that the `setup` of functions and configurations queues by itself.
    pub composite_setup-length :
        (d : Device) (s : S) (ctrl : Ctrl)
        → IsModest
        → ctrl.type_bits / 2 ^ 5 % 4 ≡ 0
        → ((ctrl.request ≡ 6) ⊎ (ctrl.request ≡ 8)) ⊎ (ctrl.request ≡ 10)
        → (composite_setup cb queue d s ctrl).0.0.req.length ≤ ctrl.length
    unfolding composite_setup
    composite_setup-length d s ctrl m t r =
        let fresh : Device = record d { req = record (d.req) { length = 0; zero = false } } in
        let z : 0 ≤ ctrl.length = omega arith in
        let P = λ (o : (Device × S) × Result ℕ). o.0.0.req.length ≤ ctrl.length in
        if_both P (ctrl.type_bits / 2 ^ 5 % 4 == 0)
          (routed-length fresh s ctrl (standard cb fresh ctrl) m z
            (standard-IsWithin fresh ctrl r z))
          (routed-length fresh s ctrl Route.unknown m z tt)
