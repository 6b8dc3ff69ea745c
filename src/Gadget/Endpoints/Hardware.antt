-- ===== src/Gadget/Endpoints/Hardware.antt =====
-- The endpoints that the controller driver puts on the gadget's list: `dwc3_gadget_init_endpoints` of
-- udc/dwc3/gadget.c.
pub mod Digits
pub mod Listed
use unisoc_usb.Prelude.{
  ℕ, zero, suc, ◌+◌, ◌*◌, ◌/◌, ◌%◌, ◌^◌, ◌<◌, ◌≤◌, ◌≡◌, refl, subst, ap, sym, ◌∙◌, Bool, true,
  false, not, List, [], ◌∷◌, ◌++◌, map, append-nil, append_assoc, map-append, Option, none, some,
  Code, Errno, All, All_get, option_both, option_each, if_both, if_each, if◌then◌else◌, ltb, ◌==◌,
  arith, set,
}
use unisoc_usb.Gadget.Endpoints.{
  Caps, EpDesc, UsbEp, EpGadget, Choice, named_by_digit, direction, autoconfig_ss, claimed_as,
}

-- `%d` of a number below 1000, as characters.
abbrev pub decimal : ℕ → List ℕ
decimal n =
    if ltb n 10
    then (48 + n) ∷ []
    else (if ltb n 100
        then (48 + n / 10) ∷ (48 + n % 10) ∷ []
        else (48 + n / 100) ∷ (48 + n / 10 % 10) ∷ (48 + n % 10) ∷ [])

-- `"in"` and `"out"`
abbrev pub suffix : Bool → List ℕ
suffix true = 105 ∷ 110 ∷ []
suffix false = 111 ∷ 117 ∷ 116 ∷ []

-- `"ep%d%s"`
abbrev pub ep_name : ℕ → Bool → List ℕ
ep_name number is_in = 101 ∷ 112 ∷ (decimal number ++ suffix is_in)

-- An endpoint other than 0 and 1 in the memory `raw`; the fields that are not set keep what stands
-- there.
abbrev pub init_ep : UsbEp → ℕ → Bool → UsbEp
init_ep raw epnum is_in = record raw {
  name = ep_name (epnum / 2) is_in;
  maxpacket_limit = 1024;
  max_streams = 15;
  caps = record {
    type_iso = true;
    type_bulk = true;
    type_int = true;
    dir_in = is_in;
    dir_out = not is_in;
  };
}

-- `malloc` is what allocating an endpoint gives, with its contents, and `trb_pool` whether its TRBs can
-- be allocated, by the endpoint's number.
module _ (malloc : ℕ → Option UsbEp) (trb_pool : ℕ → Code) where
  -- One round of `dwc3_gadget_init_hw_endpoints`: the gadget's list after it. The endpoints 0 and 1
  -- are not put on it.
  unfoldable pub init_hw_endpoint : ℕ → Bool → List UsbEp → List UsbEp × Code
  init_hw_endpoint epnum is_in ep_list = elim (malloc epnum) [
    | none ↦ (ep_list, some Errno.enomem)
    | some raw ↦
        if ltb epnum 2
        then (ep_list, none)
        else (ep_list ++ (init_ep raw epnum is_in ∷ []), trb_pool epnum)
  ]

  -- `dwc3_gadget_init_hw_endpoints` with `left` rounds to go from the index `i` on.
  unfoldable pub init_hw_endpoints : ℕ → ℕ → Bool → List UsbEp × Code → List UsbEp × Code
  init_hw_endpoints left i is_in (ep_list, some e) = (ep_list, some e)
  init_hw_endpoints zero i is_in (ep_list, none) = (ep_list, none)
  init_hw_endpoints (suc left) i is_in (ep_list, none) =
      init_hw_endpoints left (i + 1) is_in
        (init_hw_endpoint ((2 * i + (if is_in then 1 else 0)) % 2 ^ 8) is_in ep_list)

  -- `dwc3_gadget_init_endpoints`
  unfoldable pub init_endpoints : ℕ → ℕ → List UsbEp × Code
  init_endpoints num_out num_in =
      init_hw_endpoints num_in 0 true (init_hw_endpoints num_out 0 false ([], none))
