-- ===== src/Gadget/Speeds/Index.antt =====
-- The host may ask for as many configurations as the device announces.
use unisoc_usb.Prelude.{
  ℕ, zero, suc, ◌≡◌, ◌≤◌, ◌<◌, refl, sym, ap, subst, true, false, List, [], ◌∷◌, Option, none, some,
  Errno, Result, err, arith, get_elem?, ◌∙◌, if◌then◌else◌, ◌⊎◌, inl, inr, if_each, lt_or_le,
}
use unisoc_usb.Gadget.Descriptors.{Speed, Config, config_buf}
use unisoc_usb.Gadget.Speeds.{
  Bus, dt_device, dt_config, dt_device_qualifier, dt_other_speed_config, desc_speed, count_speed,
  works_at, select, config_desc, count_at, count_configs,
}

-- A descriptor that announces configurations, with the type by which they are asked for.
pub data Announces : ℕ → ℕ → Type 0 where
  device : Announces dt_device dt_config
  qualifier : Announces dt_device_qualifier dt_other_speed_config

-- The configurations that work at the speed, in their order.
abbrev pub working : Speed → List Config → List Config
working speed [] = []
working speed (c ∷ cs) = if works_at speed c then c ∷ working speed cs else working speed cs

-- One entry of the list works at the speed, and is what is found.
abbrev pub IsFound : Speed → Option Config → Type 0
IsFound speed o = (c : Config) × (o ≡ some c) × (works_at speed c ≡ true)

count_works :
    (speed : Speed) (c : Config) (cs : List Config)
    → works_at speed c ≡ true
    → count_at speed (c ∷ cs) ≡ suc (count_at speed cs)
unfolding count_at
count_works speed c cs e = rw e refl

count_skips :
    (speed : Speed) (c : Config) (cs : List Config)
    → works_at speed c ≡ false
    → count_at speed (c ∷ cs) ≡ count_at speed cs
unfolding count_at
count_skips speed c cs e = rw e refl

select-IsFound :
    (speed : Speed) (i : ℕ) (cs : List Config)
    → i < count_at speed cs
    → IsFound speed (select speed i cs)
unfolding select count_at
select-IsFound speed i [] h = absurd (omega arith)
select-IsFound speed zero (c ∷ cs) h =
    if_each (IsFound speed) (works_at speed c) (λ e. (c, refl, e))
      (λ e. select-IsFound speed zero cs (subst (λ (n : ℕ). 0 < n) (count_skips speed c cs e) h))
select-IsFound speed (suc i) (c ∷ cs) h =
    if_each (IsFound speed) (works_at speed c)
      (λ e.
        let k = subst (λ (n : ℕ). suc i < n) (count_works speed c cs e) h in
        select-IsFound speed i cs (omega (arith, k)))
      (λ e.
        select-IsFound speed (suc i) cs (subst (λ (n : ℕ). suc i < n) (count_skips speed c cs e) h))

select-none :
    (speed : Speed) (i : ℕ) (cs : List Config) → count_at speed cs ≤ i → select speed i cs ≡ none
unfolding select count_at
select-none speed i [] h = refl
select-none speed zero (c ∷ cs) h =
    if_each (λ (o : Option Config). o ≡ none) (works_at speed c)
      (λ e.
        let k = subst (λ (n : ℕ). n ≤ 0) (count_works speed c cs e) h in absurd (omega (arith, k)))
      (λ e. select-none speed zero cs (subst (λ (n : ℕ). n ≤ 0) (count_skips speed c cs e) h))
select-none speed (suc i) (c ∷ cs) h =
    if_each (λ (o : Option Config). o ≡ none) (works_at speed c)
      (λ e.
        let k = subst (λ (n : ℕ). n ≤ suc i) (count_works speed c cs e) h in
        select-none speed i cs (omega (arith, k)))
      (λ e.
        select-none speed (suc i) cs (subst (λ (n : ℕ). n ≤ suc i) (count_skips speed c cs e) h))

-- What is found is the entry of this index among those that work.
select_lem :
    (speed : Speed) (i : ℕ) (cs : List Config) → select speed i cs ≡ get_elem? (working speed cs) i
unfolding select
select_lem speed i [] = refl
select_lem speed zero (c ∷ cs) = ground (arith, select_lem speed zero cs)
select_lem speed (suc i) (c ∷ cs) =
    ground (arith, select_lem speed i cs, select_lem speed (suc i) cs)

-- Both descriptors are about the same speed.
same_speed :
    (b : Bus) (announced asked : ℕ)
    → Announces announced asked
    → (b.speed ≡ Speed.super → b.is_dualspeed ≡ true)
    → desc_speed b asked ≡ count_speed b announced
unfolding desc_speed count_speed
same_speed b _ _ Announces.device d = ground (arith, d)
same_speed b _ _ Announces.qualifier d = ground (arith, d)

-- For each index below the number that the descriptor announces, the host is given the configuration of
-- this index among those that work at the speed, in their order, and -EINVAL for any other: the device
-- descriptor announces for configuration descriptors, the qualifier for those of the other speed.
-- There is no configuration for OS descriptors, and a gadget at super speed is one that also knows high
-- speed.
pub config_desc_lem :
    (b : Bus) (cs : List Config) (announced asked i : ℕ)
    → Announces announced asked
    → (b.speed ≡ Speed.super → b.is_dualspeed ≡ true)
    → ((i < count_configs b cs announced)
        × ((c : Config) × (get_elem? (working (desc_speed b asked) cs) i ≡ some c)
            × (config_desc b none cs asked i ≡ config_buf c (desc_speed b asked) asked)))
      ⊎ (count_configs b cs announced ≤ i) × (config_desc b none cs asked i ≡ err Errno.einval)
unfolding config_desc count_configs
config_desc_lem b cs announced asked i a d =
    let e = same_speed b announced asked a d in
    let speed = desc_speed b asked in
    let answer : Option Config → Result (List ℕ) =
      λ o. elim o [ none ↦ err Errno.einval | some c ↦ config_buf c speed asked ] in
    elim (lt_or_le i (count_at (count_speed b announced) cs)) [
      | inl h ↦
          let (c, f, w) =
            select-IsFound speed i cs (subst (λ (s : Speed). i < count_at s cs) (sym e) h) in
          inl (h, (c, sym (select_lem speed i cs) ∙ f, ap answer f))
      | inr h ↦ inr (
        h,
        ap answer (select-none speed i cs (subst (λ (s : Speed). count_at s cs ≤ i) (sym e) h)),
      )
    ]
