-- ===== src/Gadget/Speeds.antt =====
-- Which configurations a host sees at its speed: `config_desc` and `count_configs` of
-- gadget/composite.c.
pub mod Index
use unisoc_usb.Prelude.{
  ℕ, zero, suc, ◌+◌, Bool, true, false, not, List, [], ◌∷◌, Option, none, some, Errno, Result, ok,
  err, ◌==◌, if◌then◌else◌,
}
use unisoc_usb.Gadget.Descriptors.{Speed, Config, config_buf}

-- The bus as the gadget has it: `speed`, and whether `max_speed` reaches USB_SPEED_HIGH and
-- USB_SPEED_SUPER. A speed that is low or unknown counts as full.
pub record Bus : Type 0 where
  pub speed : Speed
  pub is_dualspeed : Bool
  pub is_superspeed : Bool

-- `enum` of descriptor types, USB_DT_*
abbrev pub dt_device : ℕ
dt_device = 1

abbrev pub dt_config : ℕ
dt_config = 2

abbrev pub dt_device_qualifier : ℕ
dt_device_qualifier = 6

abbrev pub dt_other_speed_config : ℕ
dt_other_speed_config = 7

-- High or full speed, where `flip` asks for the other one.
abbrev pub at_usb2 : Speed → Bool → Speed
at_usb2 Speed.high flip = if flip then Speed.full else Speed.high
at_usb2 _ flip = if flip then Speed.high else Speed.full

-- The speed that `config_desc` looks for.
pub desc_speed : Bus → ℕ → Speed
desc_speed b type = elim b.speed [
  | Speed.super ↦ Speed.super
  | Speed.high ↦
      if b.is_dualspeed then at_usb2 Speed.high (type == dt_other_speed_config) else Speed.full
  | Speed.full ↦
      if b.is_dualspeed then at_usb2 Speed.full (type == dt_other_speed_config) else Speed.full
]

-- The speed for which `count_configs` counts.
pub count_speed : Bus → ℕ → Speed
count_speed b type =
    let usb2 = at_usb2 b.speed (type == dt_device_qualifier) in
    if b.is_dualspeed then (elim b.speed [ Speed.super ↦ Speed.super | _ ↦ usb2 ]) else Speed.full

abbrev pub works_at : Speed → Config → Bool
works_at Speed.super c = c.superspeed
works_at Speed.high c = c.highspeed
works_at Speed.full c = c.fullspeed

-- The loop of `config_desc`: the configuration of this index among those that work at the speed.
pub select : Speed → ℕ → List Config → Option Config
select speed i [] = none
select speed zero (c ∷ cs) = if works_at speed c then some c else select speed zero cs
select speed (suc i) (c ∷ cs) =
    let next = select speed i cs in
    let same = select speed (suc i) cs in if works_at speed c then next else same

-- The configurations other than the one of this value.
abbrev pub without : ℕ → List Config → List Config
without value [] = []
without value (c ∷ cs) =
    if c.configuration_value == value then without value cs else c ∷ without value cs

-- `os_desc_config` comes first, and is not met again.
abbrev pub visited : Option Config → List Config → List Config
visited none cs = cs
visited (some c) cs = c ∷ without c.configuration_value cs

-- `config_desc`, for the type and the index in its `w_value`
pub config_desc : Bus → Option Config → List Config → ℕ → ℕ → Result (List ℕ)
config_desc b os configs type index =
    let speed = desc_speed b type in
    elim (select speed index (visited os configs)) [
      | none ↦ err Errno.einval
      | some c ↦ config_buf c speed type
    ]

-- The loop of `count_configs`.
pub count_at : Speed → List Config → ℕ
count_at speed [] = 0
count_at speed (c ∷ cs) =
    let rest = count_at speed cs in if works_at speed c then suc rest else rest

-- `count_configs`
pub count_configs : Bus → List Config → ℕ → ℕ
count_configs b configs type = count_at (count_speed b type) configs
