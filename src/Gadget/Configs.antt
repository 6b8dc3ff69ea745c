-- ===== src/Gadget/Configs.antt =====
-- The configurations of a composite device, from gadget/composite.c: adding them, giving out interface
-- numbers, and choosing one.
pub mod Adding
pub mod Choice
pub mod Interfaces
use unisoc_usb.Prelude.{
  ℕ, zero, suc, ◌+◌, Bool, true, false, not, ◌&&◌, List, [], ◌∷◌, ◌++◌, Option, none, some, Code,
  Errno, Result, ok, err, get_elem?, set, replicate, ltb, ◌==◌, if◌then◌else◌, map,
}

-- MAX_CONFIG_INTERFACES
abbrev pub max_config_interfaces : ℕ
max_config_interfaces = 4

-- `struct usb_configuration`; a function is known by the number that stands for its address.
pub record Configuration : Type 0 where
  pub configuration_value : ℕ
  pub max_power : ℕ
  pub interface : List (Option ℕ)
  pub next_interface_id : ℕ
  pub functions : List ℕ

-- `struct usb_composite_dev` with the state of its gadget: `configured` is USB_STATE_CONFIGURED,
-- `active` is `config`, `disabled` are the functions whose `disable` was called, the last one first.
pub record Cdev : Type 0 where
  pub configured : Bool
  pub active : Option Configuration
  pub configs : List Configuration
  pub delayed_status : ℕ
  pub disabled : List ℕ
  pub vbus_draw : ℕ

-- `usb_interface_id`
pub interface_id : Configuration → ℕ → Configuration × Result ℕ
interface_id c function =
    let id = c.next_interface_id in
    let taken = record c {
      interface = set c.interface id (some function);
      next_interface_id = id + 1;
    } in
    if ltb id max_config_interfaces then (taken, ok id) else (c, err Errno.enodev)

-- The configuration of this value in a list.
abbrev pub find_config : ℕ → List Configuration → Option Configuration
find_config value [] = none
find_config value (c ∷ cs) = if c.configuration_value == value then some c else find_config value cs

-- `usb_add_config_only`
pub add_config_only : Cdev → Configuration → Cdev × Code
add_config_only d config =
    let fresh = record config {
      functions = [];
      next_interface_id = 0;
      interface = replicate max_config_interfaces none;
    } in
    if config.configuration_value == 0
    then (d, some Errno.einval)
    else (elim (find_config config.configuration_value d.configs) [
      | some c ↦ (d, some Errno.ebusy)
      | none ↦ (record d { configs = d.configs ++ (fresh ∷ []) }, none)
    ])

-- The functions in the order in which they are disabled, onto those before.
pub disable_all : List ℕ → List ℕ → List ℕ
disable_all [] done = done
disable_all (f ∷ fs) done = disable_all fs (f ∷ done)

-- `reset_config` where a configuration is active, and every function has a `disable`.
pub reset_config : Cdev → Configuration → Cdev
reset_config d c = record d {
  disabled = disable_all c.functions d.disabled;
  active = none;
  delayed_status = 0;
}

-- `if (cdev->config) reset_config(cdev)`
pub reset_active : Cdev → Cdev
reset_active d = elim d.active [ none ↦ d | some c ↦ reset_config d c ]

-- What `set_alt` returns: `-e`, 0, or USB_GADGET_DELAYED_STATUS.
pub data AltCode : Type 0 where
  failed : Errno → AltCode
  ready delayed : AltCode

-- What `set_config` returns.
pub data Chosen : Type 0 where
  failed : Errno → Chosen
  done delayed_status : Chosen

-- Whether the configuration is the active one.
pub is_active : Cdev → ℕ → Bool
is_active d number = elim d.active [
  | none ↦ false
  | some c ↦ d.configured && (c.configuration_value == number)
]

-- The end of `set_config` after its loop. `power` is what the bus gives a device that is not configured.
pub started : Cdev → Configuration → ℕ → Result ℕ → Cdev × Chosen
started d c power (err e) = (record (reset_config d c) { vbus_draw = power }, Chosen.failed e)
started d c power (ok count) = (
  record d { delayed_status = count; vbus_draw = if c.max_power == 0 then 1 else c.max_power },
  if count == 0 then Chosen.done else Chosen.delayed_status,
)

-- `set_alt` is the function driver's, by function and interface.
module _ (set_alt : ℕ → ℕ → AltCode) where
  -- The loop of `set_config` over the interfaces from `tmp` on: how many asked for a delay. (The
  -- addresses that it computes of their endpoints are used by nothing.)
  pub set_alts : List (Option ℕ) → ℕ → ℕ → Result ℕ
  set_alts [] tmp count = ok count
  set_alts (none ∷ slots) tmp count = ok count
  set_alts (some f ∷ slots) tmp count = elim (set_alt f tmp) [
    | AltCode.failed e ↦ err e
    | AltCode.ready ↦ set_alts slots (tmp + 1) count
    | AltCode.delayed ↦ set_alts slots (tmp + 1) (count + 1)
  ]

  -- `set_config` from the point where the configuration is known.
  pub start_config : Cdev → Configuration → ℕ → Cdev × Chosen
  start_config d c power =
      let begun = record d { configured = true; active = some c } in
      started begun c power (set_alts c.interface 0 d.delayed_status)

  -- `set_config`; `power` is 8 for an OTG gadget and 100 for any other.
  pub set_config : Cdev → ℕ → ℕ → Cdev × Chosen
  set_config d number power =
      let idle = reset_active d in
      if is_active d number
      then (d, Chosen.done)
      else (if number == 0
          then (
            record idle { vbus_draw = power },
            if idle.delayed_status == 0 then Chosen.done else Chosen.delayed_status,
          )
          else (elim (find_config number d.configs) [
            | none ↦ (record d { vbus_draw = power }, Chosen.failed Errno.einval)
            | some c ↦ start_config idle c power
          ]))
