-- ===== src/Gadget/Endpoints/Hardware/Listed.antt =====
-- Which endpoints the controller driver lists.
use unisoc_usb.Prelude.{
  ℕ, zero, suc, ◌+◌, ◌*◌, ◌/◌, ◌%◌, ◌^◌, ◌<◌, ◌≤◌, ◌≡◌, refl, subst, ap, sym, ◌∙◌, Bool, true,
  false, List, [], ◌∷◌, ◌++◌, map, append-nil, append_assoc, map-append, Option, none, some, Code,
  option_each, if_each, if◌then◌else◌, ltb, arith,
}
use unisoc_usb.Gadget.Endpoints.{UsbEp}
use unisoc_usb.Gadget.Endpoints.Hardware.{
  ep_name, init_ep, init_hw_endpoint, init_hw_endpoints, init_endpoints,
}

-- The names of `count` endpoints of a direction, from the number `i` on.
abbrev pub names : ℕ → ℕ → Bool → List (List ℕ)
names zero i is_in = []
names (suc count) i is_in = ep_name i is_in ∷ names count (i + 1) is_in

abbrev pub names_of : List UsbEp → List (List ℕ)
names_of eps = map (λ (ep : UsbEp). ep.name) eps

-- Rounds that succeed, and add endpoints of these names.
abbrev pub Adds : List (List ℕ) → List (List ℕ) → List UsbEp × Code → Type 0
Adds old new r = (names_of r.0 ≡ old ++ new) × (r.1 ≡ none)

module _ (malloc : ℕ → Option UsbEp) (trb_pool : ℕ → Code) where
  -- Memory is there for endpoints and TRBs.
  abbrev pub HasMemory : Type 0
  HasMemory = (n : ℕ) → ((raw : UsbEp) × (malloc n ≡ some raw)) × (trb_pool n ≡ none)

  init_hw_endpoint_lem :
      (epnum n : ℕ) (is_in : Bool) (eps : List UsbEp)
      → HasMemory
      → 2 ≤ epnum
      → epnum / 2 ≡ n
      → Adds
          (names_of eps)
          (ep_name n is_in ∷ [])
          (init_hw_endpoint malloc trb_pool epnum is_in eps)
  unfolding init_hw_endpoint
  init_hw_endpoint_lem epnum n is_in eps m b h =
      option_each P (malloc epnum) (λ e. absurd (ground (arith, e, (m epnum).0.1)))
        λ raw e.
          if_each P (ltb epnum 2) (λ t. absurd (ground (arith, t, b)))
            λ t. (
              map-append (λ (ep : UsbEp). ep.name) eps (init_ep raw epnum is_in ∷ [])
                  ∙ ap (λ k. names_of eps ++ (ep_name k is_in ∷ [])) h,
              (m epnum).1,
            )
    where
      P : List UsbEp × Code → Type 0
      P r = Adds (names_of eps) (ep_name n is_in ∷ []) r

  init_hw_endpoints_lem :
      (left i : ℕ) (is_in : Bool) (old : List (List ℕ)) (r : List UsbEp × Code)
      → HasMemory
      → 1 ≤ i
      → left + i ≤ 2 ^ 7
      → Adds [] old r
      → Adds old (names left i is_in) (init_hw_endpoints malloc trb_pool left i is_in r)
  unfolding init_hw_endpoints
  init_hw_endpoints_lem left i is_in old (eps, some e) m p b a = absurd (ground (arith, a.1))
  init_hw_endpoints_lem zero i is_in old (eps, none) m p b a = (a.0 ∙ sym (append-nil old), refl)
  init_hw_endpoints_lem (suc left) i is_in old (eps, none) m p b a =
      let epnum = (2 * i + (if is_in then 1 else 0)) % 2 ^ 8 in
      let first =
        init_hw_endpoint_lem epnum i is_in eps m (ground (arith, p, b)) (ground (arith, p, b)) in
      let rest =
        init_hw_endpoints_lem left (i + 1) is_in (old ++ (ep_name i is_in ∷ []))
          (init_hw_endpoint malloc trb_pool epnum is_in eps) m (omega arith) (omega arith)
          (first.0 ∙ ap (λ l. l ++ (ep_name i is_in ∷ [])) a.0, first.1) in
      (rest.0 ∙ append_assoc old (ep_name i is_in ∷ []) (names left (i + 1) is_in), rest.1)

  low_endpoint_lem :
      (epnum : ℕ) (is_in : Bool) (eps : List UsbEp)
      → HasMemory
      → epnum < 2
      → init_hw_endpoint malloc trb_pool epnum is_in eps ≡ (eps, none)
  unfolding init_hw_endpoint
  low_endpoint_lem epnum is_in eps m b =
      option_each P (malloc epnum) (λ e. absurd (ground (arith, e, (m epnum).0.1)))
        λ raw e. if_each P (ltb epnum 2) (λ t. refl) (λ t. absurd (ground (arith, t, b)))
    where
      P : List UsbEp × Code → Type 0
      P r = r ≡ (eps, none)

  -- All the endpoints of a direction: the one with the number 0 is not listed.
  init_direction_lem :
      (num : ℕ) (is_in : Bool) (old : List (List ℕ)) (r : List UsbEp × Code)
      → HasMemory
      → num + 1 ≤ 2 ^ 7
      → Adds [] old r
      → Adds old (names num 1 is_in) (init_hw_endpoints malloc trb_pool (suc num) 0 is_in r)
  unfolding init_hw_endpoints
  init_direction_lem num is_in old (eps, some e) m b a = absurd (ground (arith, a.1))
  init_direction_lem num is_in old (eps, none) m b a =
      subst (λ r. Adds old (names num 1 is_in) (init_hw_endpoints malloc trb_pool num 1 is_in r))
        (sym (
          low_endpoint_lem ((2 * 0 + (if is_in then 1 else 0)) % 2 ^ 8) is_in eps m (ground arith)))
        (init_hw_endpoints_lem num 1 is_in old (eps, none) m (omega arith) b a)

-- With memory for all of them, the gadget's list gets every OUT endpoint but the one numbered 0, then
-- every such IN endpoint, each named by its number and direction.
init_endpoints_lem :
    (malloc : ℕ → Option UsbEp) (trb_pool : ℕ → Code) (num_out num_in : ℕ)
    → HasMemory malloc trb_pool
    → num_out + 1 ≤ 2 ^ 7
    → num_in + 1 ≤ 2 ^ 7
    → Adds []
        (names num_out 1 false ++ names num_in 1 true)
        (init_endpoints malloc trb_pool (suc num_out) (suc num_in))
unfolding init_endpoints
init_endpoints_lem malloc trb_pool num_out num_in m bo bi =
    init_direction_lem malloc trb_pool num_in true (names num_out 1 false) _ m bi
      (init_direction_lem malloc trb_pool num_out false [] ([], none) m bo (refl, refl))
