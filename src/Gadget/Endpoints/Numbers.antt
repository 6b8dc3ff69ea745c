-- ===== src/Gadget/Endpoints/Numbers.antt =====
-- The addresses and packet sizes that gadget/epautoconf.c reports.
use unisoc_usb.Prelude.{
  ℕ, ◌+◌, ◌%◌, ◌^◌, ◌≤◌, ◌≡◌, refl, subst, if_each, ◌∙◌, ltb→le, true, false, Option, none, some,
  arith, get_elem?, ltb, option_each,
}
use unisoc_usb.Gadget.Endpoints.{
  EpDesc, UsbEp, EpGadget, choose, dir_in, direction, named_by_digit, report_address, Choice,
  found_ep, autoconfig_ss, full_speed_size,
}

-- How the address in a descriptor comes about, for an endpoint of `g`.
pub data Reported (g : EpGadget) (ep : UsbEp) (d : EpDesc) (c : Choice) : Type 0 where
  by_name :
      named_by_digit ep ≡ true
      → c.desc.endpoint_address ≡ direction d
      → c.gadget.in_epnum ≡ g.in_epnum
      → c.gadget.out_epnum ≡ g.out_epnum
      → Reported g ep d c
  next_in :
      named_by_digit ep ≡ false
      → dir_in d ≡ true
      → c.gadget.in_epnum ≡ (g.in_epnum + 1) % 2 ^ 32
      → c.gadget.in_epnum ≤ 15
      → c.desc.endpoint_address ≡ 2 ^ 7 + c.gadget.in_epnum
      → Reported g ep d c
  next_out :
      named_by_digit ep ≡ false
      → dir_in d ≡ false
      → c.gadget.out_epnum ≡ (g.out_epnum + 1) % 2 ^ 32
      → c.gadget.out_epnum ≤ 15
      → c.desc.endpoint_address ≡ c.gadget.out_epnum
      → Reported g ep d c

-- Sizing a descriptor leaves its address alone.
full_speed_size_keeps :
    (ep : UsbEp) (d : EpDesc) (comp : Option ℕ)
    → (full_speed_size ep d comp).endpoint_address ≡ d.endpoint_address
full_speed_size_keeps ep d none = ground arith
full_speed_size_keeps ep d (some a) = refl

found_ep_address :
    (i : ℕ) (ep : UsbEp) (d : EpDesc) (comp : Option ℕ) (h : EpGadget) (address : ℕ)
    → (found_ep i ep d comp (h, some address)).desc.endpoint_address ≡ address
unfolding found_ep
found_ep_address i ep d comp h address = full_speed_size_keeps ep _ comp

found_ep-Reported :
    (i j : ℕ) (g : EpGadget) (ep : UsbEp) (d : EpDesc) (comp : Option ℕ)
    → (found_ep i ep d comp (report_address g ep d)).ep ≡ some j
    → Reported g ep d (found_ep i ep d comp (report_address g ep d))
unfolding report_address found_ep
found_ep-Reported i j g ep d comp =
    if_each P (named_by_digit ep) (λ n e. by_name n (full_speed_size_keeps ep _ comp) refl refl)
      λ n.
        if_each P (dir_in d)
          (λ y.
            if_each P (ltb 15 ((g.in_epnum + 1) % 2 ^ 32)) (λ t e. absurd (ground (arith, e)))
              (λ t e. next_in n y refl (ltb→le 15 _ t) (full_speed_size_keeps ep _ comp)))
          (λ y.
            if_each P (ltb 15 ((g.out_epnum + 1) % 2 ^ 32)) (λ t e. absurd (ground (arith, e)))
              (λ t e.
                next_out n y refl (ltb→le 15 _ t)
                  (full_speed_size_keeps ep _ comp ∙ outward y ((g.out_epnum + 1) % 2 ^ 32))))
  where
    P : EpGadget × Option ℕ → Type 0
    P r = (found_ep i ep d comp r).ep ≡ some j → Reported g ep d (found_ep i ep d comp r)

    outward : dir_in d ≡ false → (n : ℕ) → direction d + n ≡ n
    outward y n = ground (arith, y)

found_ep_place :
    (i j : ℕ) (ep : UsbEp) (d : EpDesc) (comp : Option ℕ) (r : EpGadget × Option ℕ)
    → (found_ep i ep d comp r).ep ≡ some j
    → i ≡ j
unfolding found_ep
found_ep_place i j ep d comp (h, none) e = absurd (ground (arith, e))
found_ep_place i j ep d comp (h, some address) e = ground (arith, e)

-- The endpoint at this place is the one whose address is reported.
pub record IsReported (g : EpGadget) (i : ℕ) (d : EpDesc) (c : Choice) : Type 0 where
  pub ep : UsbEp
  pub placed : get_elem? g.ep_list i ≡ some ep
  pub reported : Reported g ep d c

-- The address that a descriptor is given has the direction that it asked for. Its number is the next
-- one of that direction, and at most 15, unless a digit stands third in the endpoint's name: then the
-- number is 0.
pub autoconfig_ss-IsReported :
    (unset i : ℕ) (g : EpGadget) (d : EpDesc) (comp : Option ℕ)
    → (autoconfig_ss unset g d comp).ep ≡ some i
    → IsReported g i d (autoconfig_ss unset g d comp)
unfolding autoconfig_ss
autoconfig_ss-IsReported unset i g d comp =
    option_each P (choose unset g d comp) (λ c e. absurd (ground (arith, e)))
      λ k c.
        option_each P (get_elem? g.ep_list k) (λ l e. absurd (ground (arith, e)))
          λ ep l e. record {
            ep = ep;
            placed =
                subst (λ n. get_elem? g.ep_list n ≡ some ep)
                  (found_ep_place k i ep d comp (report_address g ep d) e) l;
            reported = found_ep-Reported k i g ep d comp e;
          }
  where
    P : Choice → Type 0
    P c = c.ep ≡ some i → IsReported g i d c
