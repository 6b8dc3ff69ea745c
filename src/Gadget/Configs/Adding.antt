-- ===== src/Gadget/Configs/Adding.antt =====
-- Adding a configuration with its functions, and removing one: `usb_add_config` and
-- `usb_remove_config` of gadget/composite.c.
use unisoc_usb.Prelude.{
  ℕ, ◌≡◌, ◌≢◌, refl, Bool, List, [], ◌∷◌, ◌++◌, Option, none, some, Code, Errno, ◌==◌,
  if◌then◌else◌, replicate, option_both, if_each, false,
}
use unisoc_usb.Gadget.Configs.{
  Configuration, Cdev, add_config_only, reset_config, max_config_interfaces, find_config,
}

-- The configuration as `usb_add_config_only` hands it to `bind`.
abbrev pub emptied : Configuration → Configuration
emptied c = record c {
  functions = [];
  next_interface_id = 0;
  interface = replicate max_config_interfaces none;
}

-- What adding or removing leaves: the device, the functions whose `unbind` is called, in order, and the
-- return code.
pub record Change : Type 0 where
  pub cdev : Cdev
  pub unbound : List ℕ
  pub code : Code

-- `usb_add_config` once the configuration is on the list: `bind` may fail.
pub bound : Cdev → Configuration × Code → Change
bound d (c, none) = record {
  cdev = record d { configs = d.configs ++ (c ∷ []) };
  unbound = [];
  code = none;
}
bound d (c, some e) = record { cdev = d; unbound = c.functions; code = some e }

-- `usb_add_config`; `bind` adds the configuration's functions, and is none where it is NULL. What
-- `usb_ep_autoconfig_reset` does to the endpoints is not kept.
pub add_config : Cdev → Configuration → Option (Configuration → Configuration × Code) → Change
add_config d c none = record { cdev = d; unbound = []; code = some Errno.einval }
add_config d c (some bind) = elim (add_config_only d c).1 [
  | some e ↦ record { cdev = d; unbound = []; code = some e }
  | none ↦ bound d (bind (emptied c))
]

-- The other configurations.
abbrev pub others : ℕ → List Configuration → List Configuration
others value [] = []
others value (c ∷ cs) =
    if c.configuration_value == value then others value cs else c ∷ others value cs

-- Whether the configuration is the active one, by its value.
abbrev pub is_current : Cdev → Configuration → Bool
is_current d c = elim d.active [
  | none ↦ false
  | some a ↦ a.configuration_value == c.configuration_value
]

-- `usb_remove_config`
pub remove_config : Cdev → Configuration → Change
remove_config d c =
    let idle = if is_current d c then reset_config d c else d in
    record {
      cdev = record idle { configs = others c.configuration_value d.configs };
      unbound = c.functions;
      code = none;
    }

-- The device is as it was where the change failed.
abbrev IsUndone : Cdev → Change → Type 0
IsUndone d x = x.code ≢ none → x.cdev ≡ d

bound-IsUndone : (d : Cdev) (x : Configuration × Code) → IsUndone d (bound d x)
unfolding bound
bound-IsUndone d (c, none) h = absurd (h refl)
bound-IsUndone d (c, some e) h = refl

-- A configuration that cannot be added changes nothing of the device.
add_config-IsUndone :
    (d : Cdev) (c : Configuration) (bind : Option (Configuration → Configuration × Code))
    → IsUndone d (add_config d c bind)
unfolding add_config
add_config-IsUndone d c none h = refl
add_config-IsUndone d c (some bind) h =
    option_both (IsUndone d) (add_config_only d c).1 {x = bound d (bind (emptied c))}
      {f = λ e. record { cdev = d; unbound = []; code = some e }}
      (bound-IsUndone d (bind (emptied c))) (λ e k. refl) h

none_left : (value : ℕ) (cs : List Configuration) → find_config value (others value cs) ≡ none
none_left value [] = refl
none_left value (c ∷ cs) =
    if_each (λ (l : List Configuration). find_config value l ≡ none)
      (c.configuration_value == value) (λ e. none_left value cs) (λ e. rw e (none_left value cs))

-- A configuration that is removed is not found any more, and it is not the active one.
remove_config-none :
    (d : Cdev) (c : Configuration)
    → (find_config c.configuration_value (remove_config d c).cdev.configs ≡ none)
      × (is_current (remove_config d c).cdev c ≡ false)
unfolding remove_config reset_config
remove_config-none d c = (
  none_left c.configuration_value d.configs,
  if_each (λ (x : Cdev). is_current x c ≡ false) (is_current d c) (λ e. refl) (λ e. e),
)
