-- ===== src/Gadget/Configs/Choice.antt =====
-- What `set_config` leaves behind.
use unisoc_usb.Prelude.{
  ℕ, zero, suc, ◌≡◌, ◌≢◌, refl, sym, subst, true, false, List, [], ◌∷◌, Option, none, some, Errno,
  Result, ok, err, ◌==◌, if◌then◌else◌, arith, ==_iff, ==_false, ==_apart, if_each, option_each,
  ◌⊎◌, inl, inr,
}
use unisoc_usb.Gadget.Configs.{
  Configuration, Cdev, Chosen, AltCode, find_config, is_active, set_config, start_config, started,
  set_alts, reset_active, reset_config,
}

find_config_value :
    (value : ℕ) (cs : List Configuration) (c : Configuration)
    → find_config value cs ≡ some c
    → c.configuration_value ≡ value
find_config_value value [] c e = ground (arith, e)
find_config_value value (x ∷ cs) c e = ground (arith, e, find_config_value value cs c)

-- The configuration that is active for a number: none for 0.
abbrev pub Active : Option Configuration → ℕ → Type 0
Active none number = number ≡ 0
Active (some c) number = c.configuration_value ≡ number

-- What a device may be after the host has asked for a configuration: refused, as it was but for the
-- state and the power, or unconfigured with nothing delayed; or configured as asked, with the status
-- stage delayed just if a function asked for that, unless nothing was to be done.
abbrev pub Settles : Cdev → ℕ → Cdev × Chosen → Type 0
Settles d number (e, Chosen.failed _) =
    ((e.active ≡ none) × (e.delayed_status ≡ 0))
    ⊎ ((e.active ≡ d.active) × (e.delayed_status ≡ d.delayed_status))
Settles d number (e, Chosen.done) = Active e.active number × ((e.delayed_status ≡ 0) ⊎ (e ≡ d))
Settles d number (e, Chosen.delayed_status) = Active e.active number × (e.delayed_status ≢ 0)

reset_active-none : (d : Cdev) → (reset_active d).active ≡ none
unfolding reset_active reset_config
reset_active-none d = ground arith

is_active_lem : (d : Cdev) (number : ℕ) → is_active d number ≡ true → Active d.active number
unfolding is_active
is_active_lem d number e = ground (arith, e)

started-Settles :
    (d begun : Cdev) (c : Configuration) (number power : ℕ) (r : Result ℕ)
    → Active begun.active number
    → Settles d number (started begun c power r)
unfolding started reset_config
started-Settles d begun c number power (err e) a = inl (refl, refl)
started-Settles d begun c number power (ok zero) a = (a, inl refl)
started-Settles d begun c number power (ok (suc n)) a =
    let more : (suc n == 0) ≡ false = ==_false (suc n) 0 (omega arith) in simp more (a, omega arith)

module _ (set_alt : ℕ → ℕ → AltCode) where
  start_config-Settles :
      (d idle : Cdev) (c : Configuration) (number power : ℕ)
      → c.configuration_value ≡ number
      → Settles d number (start_config set_alt idle c power)
  unfolding start_config
  start_config-Settles d idle c number power e =
      started-Settles d (record idle { configured = true; active = some c }) c number power
        (set_alts set_alt c.interface 0 idle.delayed_status) e

  -- Whatever the host asks for, the device ends up in one of four ways. The request fails and no
  -- configuration is active nor any status delayed; or it fails and both are as before; or it succeeds,
  -- and the configuration of that number is active (none for 0), with the status stage delayed just if
  -- the count of delays is not 0, or, where it had been active already, with nothing changed.
  pub set_config-Settles :
      (d : Cdev) (number power : ℕ) → Settles d number (set_config set_alt d number power)
  unfolding set_config
  set_config-Settles d number power =
      let P = Settles d number in
      let idle = reset_active d in
      let off : Cdev = record idle { vbus_draw = power } in
      let nothing = λ (z : number ≡ 0).
        subst (λ (a : Option Configuration). Active a number) (sym (reset_active-none d)) z in
      if_each P (is_active d number) {x = (d, Chosen.done)}
        (λ e. (is_active_lem d number e, inr refl))
        (λ _.
          if_each P (number == 0)
            {x = (off, if idle.delayed_status == 0 then Chosen.done else Chosen.delayed_status)}
            (λ z.
              let at = nothing ((==_iff number 0).0 z) in
              if_each (λ (c : Chosen). P (off, c)) (idle.delayed_status == 0) {x = Chosen.done}
                {y = Chosen.delayed_status} (λ e. (at, inl ((==_iff idle.delayed_status 0).0 e)))
                (λ e. (at, ==_apart idle.delayed_status 0 e)))
            (λ _.
              option_each P (find_config number d.configs)
                {x = (record d { vbus_draw = power }, Chosen.failed Errno.einval)}
                {f = λ c. start_config set_alt idle c power} (λ _. inr (refl, refl))
                (λ c e.
                  start_config-Settles d idle c number power
                    (find_config_value number d.configs c e))))
