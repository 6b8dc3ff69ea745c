-- ===== src/Gadget/Configs/Interfaces.antt =====
-- Interface numbers and configuration values are given out once.
use unisoc_usb.Prelude.{
  ℕ, ◌+◌, ◌≡◌, ◌≢◌, ◌≤◌, ◌<◌, refl, sym, ◌∙◌, subst, List, [], ◌∷◌, ◌++◌, none, some, Code, Errno,
  Result, ok, length, get_elem?, set, ◌==◌, arith, length-set, ==_iff, ==_apart, if_each,
  option_each, replicate, get_elem?-set_self, get_elem?-set_ne, inl, inr, ◌⊎◌, lt→ltb, eq_or_lt,
}
use unisoc_usb.Gadget.Configs.{
  Configuration, Cdev, interface_id, add_config_only, find_config, max_config_interfaces,
}

-- The interfaces given out are 0 up to the next number, and no others.
pub record IsDense (c : Configuration) : Type 0 where
  pub slots : length c.interface ≡ 4
  pub bounded : c.next_interface_id ≤ 4
  pub owned :
      (i : ℕ) → i < c.next_interface_id → (f : ℕ) × (get_elem? c.interface i ≡ some (some f))
  pub free : (i : ℕ) → c.next_interface_id ≤ i → i < 4 → get_elem? c.interface i ≡ some none

interface_id_taken :
    (c : Configuration) (f : ℕ)
    → c.next_interface_id < 4
    → interface_id c f ≡ (
      record c {
        interface = set c.interface c.next_interface_id (some f);
        next_interface_id = c.next_interface_id + 1;
      },
      ok c.next_interface_id,
    )
unfolding interface_id
interface_id_taken c f h = simp (lt→ltb c.next_interface_id 4 h) refl

-- With less than 4 interfaces given out, a function gets the next number, its slot is the function's,
-- every other slot keeps its owner, and the numbers given out stay without a gap.
pub interface_id_lem :
    (c : Configuration) (f : ℕ)
    → IsDense c
    → c.next_interface_id < 4
    → let out = interface_id c f in
      (out.1 ≡ ok c.next_interface_id)
      × IsDense out.0
      × (get_elem? out.0.interface c.next_interface_id ≡ some (some f))
      × (out.0.interface ≡ set c.interface c.next_interface_id (some f))
interface_id_lem c f v h =
    let next = c.next_interface_id in
    let slots = set c.interface next (some f) in
    let own : get_elem? slots next ≡ some (some f) =
      get_elem?-set_self c.interface next (some f) (omega (arith, v.slots)) in
    let other =
      λ (i : ℕ) (n : i ≢ next). get_elem?-set_ne c.interface next i (some f) (λ e. n (sym e)) in
    subst
      (λ (out : Configuration × Result ℕ).
        (out.1 ≡ ok next)
        × IsDense out.0
        × (get_elem? out.0.interface next ≡ some (some f))
        × (out.0.interface ≡ slots))
      (sym (interface_id_taken c f h))
      (
        refl,
        record {
          slots = length-set c.interface next (some f) ∙ v.slots;
          bounded = omega arith;
          owned = λ i b. elim (eq_or_lt i next (omega arith)) [
            | inl e ↦ (f, subst (λ (j : ℕ). get_elem? slots j ≡ some (some f)) (sym e) own)
            | inr l ↦ let o = v.owned i l in (o.0, other i (omega arith) ∙ o.1)
          ];
          free = λ i b k. other i (omega arith) ∙ v.free i (omega arith) k;
        },
        own,
        refl,
      )

-- Configuration values are not 0, and no two are the same.
abbrev pub IsUnique : List Configuration → Type 0
IsUnique [] = Unit
IsUnique (c ∷ cs) =
    (c.configuration_value ≢ 0) × (find_config c.configuration_value cs ≡ none) × IsUnique cs

find_config-snoc :
    (value : ℕ) (cs : List Configuration) (c : Configuration)
    → c.configuration_value ≢ value
    → find_config value cs ≡ none
    → find_config value (cs ++ (c ∷ [])) ≡ none
find_config-snoc value [] c n e = ground (arith, n)
find_config-snoc value (x ∷ cs) c n e = ground (arith, n, e, find_config-snoc value cs c n)

find_config_last :
    (cs : List Configuration) (c : Configuration)
    → find_config c.configuration_value cs ≡ none
    → find_config c.configuration_value (cs ++ (c ∷ [])) ≡ some c
find_config_last [] c e = ground arith
find_config_last (x ∷ cs) c e = ground (arith, e, find_config_last cs c)

find_config_apart :
    (value : ℕ) (x : Configuration) (cs : List Configuration)
    → find_config value (x ∷ cs) ≡ none
    → (x.configuration_value ≢ value) × (find_config value cs ≡ none)
find_config_apart value x cs e = ground (arith, e)

IsUnique-snoc :
    (cs : List Configuration) (c : Configuration)
    → IsUnique cs
    → c.configuration_value ≢ 0
    → find_config c.configuration_value cs ≡ none
    → IsUnique (cs ++ (c ∷ []))
IsUnique-snoc [] c u n e = (n, refl, tt)
IsUnique-snoc (x ∷ cs) c u n e =
    let (a, m) = find_config_apart c.configuration_value x cs e in
    (
      u.0,
      find_config-snoc x.configuration_value cs c (λ q. a (sym q)) u.1,
      IsUnique-snoc cs c u.2 n m,
    )

-- Adding a configuration keeps the values of all distinct and not 0. It fails, and changes nothing, just
-- for the value 0 and for a value in use; else a configuration of that value, without a function, is
-- found from then on.
pub add_config_only_lem :
    (d : Cdev) (config : Configuration)
    → IsUnique d.configs
    → let out = add_config_only d config in
      IsUnique out.0.configs
      × (((out.1 ≡ none)
            × (c : Configuration) × (find_config config.configuration_value out.0.configs ≡ some c)
            × (c.functions ≡ [])
            × (c.next_interface_id ≡ 0))
          ⊎ (out.0 ≡ d)
            × ((config.configuration_value ≡ 0) × (out.1 ≡ some Errno.einval)
                ⊎ (find_config config.configuration_value d.configs ≢ none)
                  × (out.1 ≡ some Errno.ebusy)))
unfolding add_config_only
add_config_only_lem d config u =
    let value = config.configuration_value in
    let fresh : Configuration = record config {
      functions = [];
      next_interface_id = 0;
      interface = replicate max_config_interfaces none;
    } in
    let P = λ (out : Cdev × Code).
      IsUnique out.0.configs
      × (((out.1 ≡ none)
            × (c : Configuration) × (find_config value out.0.configs ≡ some c)
            × (c.functions ≡ [])
            × (c.next_interface_id ≡ 0))
          ⊎ (out.0 ≡ d)
            × ((value ≡ 0) × (out.1 ≡ some Errno.einval)
                ⊎ (find_config value d.configs ≢ none) × (out.1 ≡ some Errno.ebusy))) in
    if_each P (value == 0) {x = (d, some Errno.einval)}
      (λ z. (u, inr (refl, inl ((==_iff value 0).0 z, refl))))
      (λ n.
        option_each P (find_config value d.configs)
          {x = (record d { configs = d.configs ++ (fresh ∷ []) }, none)}
          {f = λ c. (d, some Errno.ebusy)}
          (λ e. (
            IsUnique-snoc d.configs fresh u (==_apart value 0 n) e,
            inl (refl, fresh, find_config_last d.configs fresh e, refl, refl),
          ))
          (λ c e. (u, inr (refl, inr (λ q. ground (arith, q, e), refl)))))
