-- ===== src/Gadget/Examples.antt =====
-- Concrete descriptors, links and configurations.
use unisoc_usb.Prelude.{
  ℕ, ◌≡◌, ◌≢◌, refl, Bool, true, false, List, [], ◌∷◌, none, some, Code, Errno, ok, ◌⊎◌, replicate,
  get_elem?-replicate, arith, length, set,
}
use unisoc_usb.Gadget.Descriptors.{Config, Speed, config_buf, config_header}
use unisoc_usb.Gadget.Descriptors.Layout.{config_buf_fits, split, announced}
use unisoc_usb.Gadget.Connection.{Link, Op, run}
use unisoc_usb.Gadget.Connection.Refine.{Wish, Grants, run-Grants}
use unisoc_usb.Gadget.Configs.{
  Configuration, Cdev, AltCode, add_config_only, set_config, find_config,
}
use unisoc_usb.Gadget.Configs.Choice.{Settles, set_config-Settles}
use unisoc_usb.Gadget.Configs.Interfaces.{IsDense, IsUnique, add_config_only_lem}
use unisoc_usb.Gadget.Functions.{FunctionDriver}

-- Two short descriptors, at high speed.
abbrev pub two_descriptors : Config
two_descriptors = record {
  configuration_value = 1;
  i_configuration = 0;
  attributes = 192;
  max_power = 500;
  next_interface_id = 1;
  descriptors = none;
  fullspeed = true;
  highspeed = true;
  superspeed = false;
  functions =
      record {
        fs_descriptors = none;
        hs_descriptors = some ((3 ∷ 4 ∷ 1 ∷ []) ∷ (2 ∷ 5 ∷ []) ∷ []);
        ss_descriptors = none;
      }
      ∷ [];
}

config_buf_fits_example :
    (bytes : List ℕ) × (config_buf two_descriptors Speed.high 2 ≡ ok bytes)
    × (announced bytes ≡ length bytes)
    × (split 3 bytes
        ≡ config_header two_descriptors Speed.high 2 (length bytes)
          ∷ (3 ∷ 4 ∷ 1 ∷ [])
          ∷ (2 ∷ 5 ∷ [])
          ∷ [])
config_buf_fits_example =
    config_buf_fits two_descriptors Speed.high 2 ((refl, omega arith), ((refl, omega arith), tt))
      (omega arith)

-- A link that nobody wants yet.
abbrev idle : Link
idle = record { pulled_up = false; connected = false; deactivated = false; deactivations = 0 }

abbrev no_wish : Wish
no_wish = record { wanted = false; holds = 0 }

abbrev works : Link → Bool → Code
works g on = none

abbrev calls : List Op
calls = Op.deactivate ∷ Op.connect ∷ Op.deactivate ∷ Op.activate ∷ Op.activate ∷ []

run-Grants_example : Grants (run works calls idle) (record { wanted = true; holds = 0 })
run-Grants_example =
    run-Grants works calls idle no_wish (λ g on. refl)
      (record { wanted = refl; holds = refl; held = refl; seen = refl })

abbrev empty_config : Configuration
empty_config = record {
  configuration_value = 1;
  max_power = 0;
  interface = replicate 4 none;
  next_interface_id = 0;
  functions = [];
}

abbrev pub device : Cdev
device = record {
  configured = false;
  active = none;
  configs = record empty_config { interface = set (replicate 4 none) 0 (some 4) } ∷ [];
  delayed_status = 0;
  disabled = [];
  vbus_draw = 0;
}

abbrev delays : ℕ → ℕ → AltCode
delays f i = AltCode.delayed

set_config-Settles_example : Settles device 1 (set_config delays device 1 100)
set_config-Settles_example = set_config-Settles delays device 1 100

empty_config-IsDense : IsDense empty_config
empty_config-IsDense = record {
  slots = refl;
  bounded = omega arith;
  owned = λ i b. absurd (omega arith);
  free = λ i a b. get_elem?-replicate 4 none i b;
}

add_config_only_lem_example :
    let out = add_config_only device empty_config in
    IsUnique out.0.configs
    × (((out.1 ≡ none)
          × (c : Configuration) × (find_config 1 out.0.configs ≡ some c)
          × (c.functions ≡ [])
          × (c.next_interface_id ≡ 0))
        ⊎ (out.0 ≡ device)
          × ((empty_config.configuration_value ≡ 0) × (out.1 ≡ some Errno.einval)
              ⊎ (find_config 1 device.configs ≢ none) × (out.1 ≡ some Errno.ebusy)))
add_config_only_lem_example =
    add_config_only_lem device empty_config (λ e. absurd (omega (arith, e)), refl, tt)

abbrev first_driver : FunctionDriver
first_driver = record { id = 1; name = 10 }

abbrev second_driver : FunctionDriver
second_driver = record { id = 2; name = 20 }
