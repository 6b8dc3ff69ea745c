-- ===== src/Gadget/Setup.antt =====
-- `composite_setup` of gadget/composite.c: the control requests that the controller driver does not
-- answer itself. OS strings and OS descriptors are not in use.
pub mod Bounds
pub mod Current
pub mod Queueing
use unisoc_usb.Prelude.{
  ℕ, zero, suc, ◌+◌, ◌*◌, ◌/◌, ◌%◌, ◌^◌, Bool, true, false, not, ◌&&◌, ◌||◌, List, [], ◌∷◌, ◌++◌,
  map, Option, none, some, Code, Errno, Result, ok, err, get_elem?, length, take, min, ltb, ◌==◌,
  if◌then◌else◌,
}
use unisoc_usb.Dwc3.Ep0.{Ctrl}
use unisoc_usb.Gadget.Descriptors.{Speed}
use unisoc_usb.Gadget.Configs.{
  Configuration, Cdev, AltCode, Chosen, max_config_interfaces, set_config,
}
use unisoc_usb.Gadget.Speeds.{Bus, config_desc, dt_config, dt_other_speed_config}
use unisoc_usb.Gadget.Strings.{get_string}
use unisoc_usb.Gadget.Device.{
  Reply, Device, shown, shown_os, device_bytes, device_desc, device_qual, bos_desc, filled,
}

-- What `setup` of a function or a configuration does: its value, and the answer that it queues on endpoint
-- 0 by itself with `cdev->req`, if any, as `wcn_setup` of gadget/f_wcn_composite.c does.
pub record Handled : Type 0 where
  pub value : Result ℕ
  pub own : Option Reply

abbrev pub silent : Result ℕ → Handled
silent value = record { value = value; own = none }

-- The callbacks of the functions, by the number that stands for a function, and of the configurations,
-- by their value. A pointer that is NULL is `none`; one for `req_match` is a test that always fails.
pub record Callbacks : Type 0 where
  pub set_alt : ℕ → ℕ → ℕ → AltCode
  pub get_alt : ℕ → Option (ℕ → Result ℕ)
  pub func_suspend : ℕ → Option (ℕ → Result ℕ)
  pub req_match : ℕ → Ctrl → Bool
  pub setup : ℕ → Option (Ctrl → Handled)
  pub config_setup : ℕ → Option (Ctrl → Handled)

-- What the switch of `composite_setup` comes to: a value that may be answered; the label `unknown`; the
-- label `try_fun_setup` with a function.
pub data Route : Type 0 where
  answer : Device → Result ℕ → Route
  unknown : Route
  to_function : Device → ℕ → Route

-- USB_GADGET_DELAYED_STATUS
abbrev pub delayed_status : ℕ
delayed_status = 32767

-- `value = -EOPNOTSUPP` is left as it is.
abbrev pub unanswered : Device → Route
unanswered d = Route.answer d (err Errno.eopnotsupp)

-- The bytes of a descriptor as the answer, or an error.
abbrev pub with_bytes : Device → ℕ → Result (List ℕ) → Route
with_bytes d w_length (ok bs) = Route.answer (filled d bs) (ok (min w_length (length bs)))
with_bytes d w_length (err e) = Route.answer d (err e)

-- `gadget_is_dualspeed` below super speed
abbrev pub usb2_dualspeed : Bus → Bool
usb2_dualspeed b = b.is_dualspeed && (elim b.speed [ Speed.super ↦ false | _ ↦ true ])

-- The first function in a list that claims the request.
abbrev pub matching : (ℕ → Ctrl → Bool) → List ℕ → Ctrl → Option ℕ
matching req_match [] ctrl = none
matching req_match (f ∷ fs) ctrl = if req_match f ctrl then some f else matching req_match fs ctrl

abbrev pub all_functions : List Configuration → List ℕ
all_functions [] = []
all_functions (c ∷ cs) = c.functions ++ all_functions cs

-- The function of an interface of the active configuration.
pub interface_at : Device → ℕ → Option ℕ
interface_at d intf = elim d.cdev.active [
  | none ↦ none
  | some c ↦
      if ltb intf max_config_interfaces
      then (elim (get_elem? c.interface intf) [ none ↦ none | some slot ↦ slot ])
      else none
]

-- What `set_config` returns, as an `int`.
abbrev pub chosen_value : Chosen → Result ℕ
chosen_value (Chosen.failed e) = err e
chosen_value Chosen.done = ok 0
chosen_value Chosen.delayed_status = ok delayed_status

module _ (cb : Callbacks) where
  -- USB_DT_STRING of USB_REQ_GET_DESCRIPTOR
  pub string_desc : Device → Ctrl → Route
  string_desc d ctrl =
      let got = get_string d.tables d.req.buf ctrl.index (ctrl.value % 2 ^ 8) in
      let left : Device = record d { req = record (d.req) { buf = got.0 } } in
      let claimed = matching cb.req_match (all_functions d.cdev.configs) ctrl in
      elim got.1 [
        | ok value ↦ Route.answer left (ok (min ctrl.length value))
        | err e ↦
            if d.desc.bcd_device == 65535
            then (elim claimed [
              | some f ↦ Route.to_function left f
              | none ↦ Route.answer left (err e)
            ])
            else Route.answer left (err e)
      ]

  -- USB_REQ_GET_DESCRIPTOR by the descriptor's type, USB_DT_*; OTG is not compiled in.
  pub get_descriptor : Device → Ctrl → ℕ → Route
  get_descriptor d ctrl type =
      let configs =
        with_bytes d ctrl.length
          (config_desc d.bus (shown_os d) (shown d) type (ctrl.value % 2 ^ 8)) in
      let desc = device_desc d in
      let whole : Device = record d { desc = desc } in
      if type == 1
      then Route.answer (filled whole (take (min ctrl.length 18) (device_bytes desc)))
          (ok (min ctrl.length 18))
      else (if type == 6
          then (if usb2_dualspeed d.bus
              then with_bytes d ctrl.length (ok (device_qual d))
              else unanswered d)
          else (if type == dt_other_speed_config
              then (if usb2_dualspeed d.bus then configs else unanswered d)
              else (if type == dt_config
                  then configs
                  else (if type == 3
                      then string_desc d ctrl
                      else (if type == 15 && d.bus.is_superspeed
                          then with_bytes d ctrl.length (ok (bos_desc d))
                          else unanswered d)))))

  -- USB_REQ_SET_CONFIGURATION
  pub choose_config : Device → Ctrl → Route
  choose_config d ctrl =
      let out = set_config (λ f i. cb.set_alt f i 0) d.cdev ctrl.value d.power in
      Route.answer (record d { cdev = out.0 }) (chosen_value out.1)

  -- USB_REQ_GET_CONFIGURATION
  pub tell_config : Device → Ctrl → Route
  tell_config d ctrl =
      let value : ℕ = elim d.cdev.active [ none ↦ 0 | some c ↦ c.configuration_value ] in
      Route.answer (filled d (value ∷ [])) (ok (min ctrl.length 1))

  -- USB_REQ_SET_INTERFACE on a function, which has `set_alt`
  pub set_interface : Device → Ctrl → ℕ → Route
  set_interface d ctrl f =
      let delayed : Device = record d {
        cdev = record (d.cdev) { delayed_status = d.cdev.delayed_status + 1 };
      } in
      elim (cb.set_alt f ctrl.index ctrl.value) [
        | AltCode.failed e ↦ Route.answer d (err e)
        | AltCode.ready ↦ Route.answer d (ok 0)
        | AltCode.delayed ↦ Route.answer delayed (ok delayed_status)
      ]

  -- USB_REQ_GET_INTERFACE on a function
  pub get_interface : Device → Ctrl → ℕ → Route
  get_interface d ctrl f =
      let value : Result ℕ = elim (cb.get_alt f) [ none ↦ ok 0 | some g ↦ g ctrl.index ] in
      elim value [
        | ok v ↦ Route.answer (filled d ((v % 2 ^ 8) ∷ [])) (ok (min ctrl.length 1))
        | err e ↦ Route.answer d (err e)
      ]

  -- USB_INTRF_FUNC_SUSPEND on a function; an error of the callback counts as 0.
  pub suspend_function : Device → Ctrl → ℕ → Route
  suspend_function d ctrl f =
      let value : Result ℕ = elim (cb.func_suspend f) [
        | none ↦ ok 0
        | some g ↦ g (ctrl.index / 2 ^ 8)
      ] in
      elim value [ ok v ↦ Route.answer d (ok v) | err e ↦ Route.answer d (ok 0) ]

  -- A request to the function of an interface; where there is none, it is not answered.
  pub at_interface : Device → Ctrl → (ℕ → Route) → Route
  at_interface d ctrl handle = elim (interface_at d (ctrl.index % 2 ^ 8)) [
    | none ↦ unanswered d
    | some f ↦ handle f
  ]

  -- USB_REQ_GET_STATUS of an interface: 2 bytes, which `put_unaligned_le16`, an empty function, does
  -- not write.
  abbrev pub interface_status : Device → Route
  interface_status d = Route.answer d (ok 2)

  -- The switch of `composite_setup` over `bRequest`, with `bRequestType` tested by each case.
  pub by_request : ℕ → Device → Ctrl → Route
  by_request r d ctrl =
      let type = ctrl.type_bits in
      let feature =
        if ctrl.value == 0 then at_interface d ctrl (suspend_function d ctrl) else unanswered d in
      if r == 6
      then (if type == 128 then get_descriptor d ctrl (ctrl.value / 2 ^ 8) else Route.unknown)
      else (if r == 9
          then (if type == 0 then choose_config d ctrl else Route.unknown)
          else (if r == 8
              then (if type == 128 then tell_config d ctrl else Route.unknown)
              else (if r == 11
                  then (if type == 1
                      then at_interface d ctrl (set_interface d ctrl)
                      else Route.unknown)
                  else (if r == 10
                      then (if type == 129
                          then at_interface d ctrl (get_interface d ctrl)
                          else Route.unknown)
                      else (if r == 0
                          then (if d.bus.is_superspeed && type == 129
                              then interface_status d
                              else Route.unknown)
                          else (if (r == 1 || r == 3) && (d.bus.is_superspeed && type == 1)
                              then feature
                              else Route.unknown))))))

  pub standard : Device → Ctrl → Route
  standard d ctrl = by_request ctrl.request d ctrl

  -- The only function of a configuration.
  pub try_single : List ℕ → Ctrl → Handled → Handled
  try_single (f ∷ []) ctrl value = elim (cb.setup f) [ none ↦ value | some s ↦ s ctrl ]
  try_single _ ctrl value = value

  -- `try_fun_setup` where the function has no `setup`, with the value so far.
  pub try_config : Device → Ctrl → Handled → Handled
  try_config d ctrl value = elim d.cdev.active [
    | none ↦ value
    | some c ↦ elim (cb.config_setup c.configuration_value) [
      | some s ↦ s ctrl
      | none ↦ try_single c.functions ctrl value
    ]
  ]

  -- `try_fun_setup`
  pub try_fun_setup : Device → Ctrl → Option ℕ → Handled → Handled
  try_fun_setup d ctrl none value = try_config d ctrl value
  try_fun_setup d ctrl (some f) value = elim (cb.setup f) [
    | some s ↦ s ctrl
    | none ↦ try_config d ctrl value
  ]

  -- The function that `unknown` finds: one that claims the request, or the recipient interface's. The
  -- test of a recipient endpoint is commented out, so that no function is found for one.
  pub recipient : Device → Ctrl → Option ℕ
  recipient d ctrl =
      let owner = if ctrl.type_bits % 32 == 1 then interface_at d (ctrl.index % 2 ^ 8) else none in
      let claimed : Option ℕ = elim d.cdev.active [
        | some c ↦ matching cb.req_match c.functions ctrl
        | none ↦
            if d.desc.bcd_device == 65535
            then matching cb.req_match (all_functions d.cdev.configs) ctrl
            else none
      ] in
      elim claimed [ some f ↦ some f | none ↦ owner ]

  -- `queue` is `usb_ep_queue` on endpoint 0, which works on the controller's state.
  module _ {S : Type 0} (queue : Reply → S → S × Code) where
    -- The end of `composite_setup`: the answer is queued, with a packet of no bytes at its end where
    -- it is short.
    pub respond : Device → S → Ctrl → ℕ → (Device × S) × Result ℕ
    respond d s ctrl value =
        let reply : Reply = record (d.req) { length = value; zero = ltb value ctrl.length } in
        let out = queue reply s in
        elim out.1 [
          | none ↦ ((record d { req = reply; setup_pending = true }, out.0), ok 0)
          | some e ↦ ((record d { req = reply; setup_pending = false }, out.0), err e)
        ]

    -- A `setup` that may have queued an answer by itself.
    pub handled : Device → S → Handled → (Device × S) × Result ℕ
    handled d s h = elim h.own [
      | none ↦ ((d, s), h.value)
      | some reply ↦ ((record d { req = reply }, (queue reply s).0), h.value)
    ]

    -- `composite_setup` once the route is known.
    pub routed : Device → S → Ctrl → Route → (Device × S) × Result ℕ
    routed d s ctrl (Route.answer e (err c)) = ((e, s), err c)
    routed d s ctrl (Route.answer e (ok value)) =
        if value == delayed_status then ((e, s), ok value) else respond e s ctrl value
    routed d s ctrl Route.unknown =
        handled d s (try_fun_setup d ctrl (recipient d ctrl) (silent (err Errno.eopnotsupp)))
    routed d s ctrl (Route.to_function e f) =
        handled e s (try_fun_setup e ctrl (some f) (silent (err Errno.einval)))

    -- `composite_setup`
    pub composite_setup : Device → S → Ctrl → (Device × S) × Result ℕ
    composite_setup d s ctrl =
        let fresh : Device = record d { req = record (d.req) { length = 0; zero = false } } in
        if ctrl.type_bits / 2 ^ 5 % 4 == 0
        then routed fresh s ctrl (standard fresh ctrl)
        else routed fresh s ctrl Route.unknown
