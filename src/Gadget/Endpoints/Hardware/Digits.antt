-- ===== src/Gadget/Endpoints/Hardware/Digits.antt =====
-- The numbers that the controller driver's endpoints are given: none but 0.
use unisoc_usb.Prelude.{
  ℕ, zero, suc, ◌+◌, ◌/◌, ◌^◌, ◌<◌, ◌≡◌, refl, Bool, true, false, List, [], ◌∷◌, ◌++◌, Option, none,
  some, Code, All, All_get, option_both, if_both, ltb, arith, set,
}
use unisoc_usb.Gadget.Endpoints.{EpDesc, UsbEp, EpGadget, Choice, named_by_digit, direction}
use unisoc_usb.Gadget.Endpoints.Claims.{Ask, answer, asked, Took, missed, took, answer-Took}
use unisoc_usb.Gadget.Endpoints.Numbers.{
  by_name, next_in, next_out, IsReported, autoconfig_ss-IsReported,
}
use unisoc_usb.Gadget.Endpoints.Hardware.{
  ep_name, init_ep, init_hw_endpoint, init_hw_endpoints, init_endpoints,
}

-- Every endpoint on the list is named by a digit.
abbrev pub AreDigits : List UsbEp → Type 0
AreDigits eps = All (λ (ep : UsbEp). named_by_digit ep ≡ true) eps

decimal_digit :
    (n : ℕ) (is_in : Bool) (ep : UsbEp)
    → n < 1000
    → ep.name ≡ ep_name n is_in
    → named_by_digit ep ≡ true
decimal_digit n is_in ep b e = rw (named_by_digit, e) (ground (arith, b))

AreDigits-append :
    (eps : List UsbEp) (ep : UsbEp)
    → AreDigits eps
    → named_by_digit ep ≡ true
    → AreDigits (eps ++ (ep ∷ []))
AreDigits-append [] ep h d = (d, tt)
AreDigits-append (x ∷ xs) ep h d = (h.0, AreDigits-append xs ep h.1 d)

module _ (malloc : ℕ → Option UsbEp) (trb_pool : ℕ → Code) where
  init_hw_endpoint-AreDigits :
      (epnum : ℕ) (is_in : Bool) (eps : List UsbEp)
      → epnum < 2 ^ 8
      → AreDigits eps
      → AreDigits (init_hw_endpoint malloc trb_pool epnum is_in eps).0
  unfolding init_hw_endpoint
  init_hw_endpoint-AreDigits epnum is_in eps b h = option_both P (malloc epnum) h λ raw.
      if_both P (ltb epnum 2) h (
        AreDigits-append eps _ h
          (decimal_digit (epnum / 2) is_in (init_ep raw epnum is_in) (omega (arith, b)) refl))
    where
      P : List UsbEp × Code → Type 0
      P r = AreDigits r.0

  init_hw_endpoints-AreDigits :
      (left i : ℕ) (is_in : Bool) (r : List UsbEp × Code)
      → AreDigits r.0
      → AreDigits (init_hw_endpoints malloc trb_pool left i is_in r).0
  unfolding init_hw_endpoints
  init_hw_endpoints-AreDigits left i is_in (eps, some e) h = h
  init_hw_endpoints-AreDigits zero i is_in (eps, none) h = h
  init_hw_endpoints-AreDigits (suc left) i is_in (eps, none) h =
      init_hw_endpoints-AreDigits left (i + 1) is_in _
        (init_hw_endpoint-AreDigits _ is_in eps (omega arith) h)

  init_endpoints-AreDigits :
      (num_out num_in : ℕ) → AreDigits (init_endpoints malloc trb_pool num_out num_in).0
  unfolding init_endpoints
  init_endpoints-AreDigits num_out num_in =
      init_hw_endpoints-AreDigits num_in 0 true _
        (init_hw_endpoints-AreDigits num_out 0 false ([], none) tt)

AreDigits-set :
    (eps : List UsbEp) (i : ℕ) (ep : UsbEp)
    → AreDigits eps
    → named_by_digit ep ≡ true
    → AreDigits (set eps i ep)
AreDigits-set [] i ep h d = h
AreDigits-set (x ∷ xs) zero ep h d = (d, h.1)
AreDigits-set (x ∷ xs) (suc i) ep h d = (h.0, AreDigits-set xs i ep h.1 d)

Took-AreDigits :
    (eps : List UsbEp) (c : Choice) → Took eps c → AreDigits eps → AreDigits c.gadget.ep_list
Took-AreDigits eps c (missed n e) h = rw e h
Took-AreDigits eps c (took i old ep n l s b f t e) h = rw e (
    AreDigits-set eps i ep h
      (rw (named_by_digit, s) (All_get (λ (x : UsbEp). named_by_digit x ≡ true) eps i old l h)))

asked-AreDigits :
    (g : EpGadget) (earlier : List Ask) → AreDigits g.ep_list → AreDigits (asked g earlier).ep_list
unfolding asked
asked-AreDigits g [] h = h
asked-AreDigits g (a ∷ later) h =
    asked-AreDigits (answer g a).gadget later
      (Took-AreDigits g.ep_list (answer g a) (answer-Took g a) h)

by_digit :
    (g : EpGadget) (i : ℕ) (d : EpDesc) (c : Choice)
    → AreDigits g.ep_list
    → IsReported g i d c
    → c.desc.endpoint_address ≡ direction d
by_digit g i d c h r = elim r.reported [
  | by_name n a x y ↦ a
  | next_in n t x b a ↦ absurd (ground (arith, n, known))
  | next_out n t x b a ↦ absurd (ground (arith, n, known))
]
  where
    known : named_by_digit r.ep ≡ true
    known = All_get (λ (x : UsbEp). named_by_digit x ≡ true) g.ep_list i r.ep r.placed h

-- Of the endpoints that the controller driver registers, whatever was asked for before, each one that a
-- descriptor is given gets the number 0, with the direction that the descriptor asked for.
pub init_endpoints_numbers :
    (malloc : ℕ → Option UsbEp) (trb_pool : ℕ → Code) (num_out num_in : ℕ) (g : EpGadget)
    (earlier : List Ask) (a : Ask) (i : ℕ)
    → g.ep_list ≡ (init_endpoints malloc trb_pool num_out num_in).0
    → (answer (asked g earlier) a).ep ≡ some i
    → (answer (asked g earlier) a).desc.endpoint_address ≡ direction a.desc
init_endpoints_numbers malloc trb_pool num_out num_in g earlier a i l e =
    by_digit (asked g earlier) i a.desc (answer (asked g earlier) a)
      (asked-AreDigits g earlier (rw l (init_endpoints-AreDigits malloc trb_pool num_out num_in)))
      (autoconfig_ss-IsReported a.unset i (asked g earlier) a.desc a.comp e)
