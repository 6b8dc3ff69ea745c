-- ===== src/Gadget/Endpoints/Match.antt =====
-- `usb_gadget_ep_match_desc` against what it takes for an endpoint to carry a descriptor.
use unisoc_usb.Prelude.{ℕ, ◌≤◌, ◌≡◌, ◌↔◌, ◌⊎◌, inl, inr, Bool, true, false, Option, arith}
use unisoc_usb.Gadget.Speeds.{Bus}
use unisoc_usb.Gadget.Endpoints.{
  EpDesc, UsbEp, xfer_control, xfer_isoc, xfer_bulk, xfer_int, endpoint_type, dir_in, max_of,
  extra_packets, streams_of, match_type, match_desc,
}

-- A transfer type that the endpoint can carry, within the packet sizes of full speed where the
-- controller has no other.
pub data Carries (b : Bus) (ep : UsbEp) (d : EpDesc) (comp : Option ℕ) : Type 0 where
  isoc :
      endpoint_type d ≡ xfer_isoc
      → ep.caps.type_iso ≡ true
      → (b.is_dualspeed ≡ true) ⊎ (max_of d ≤ 1023)
      → Carries b ep d comp
  bulk :
      endpoint_type d ≡ xfer_bulk
      → ep.caps.type_bulk ≡ true
      → streams_of b comp ≤ ep.max_streams
      → Carries b ep d comp
  interrupt :
      endpoint_type d ≡ xfer_int
      → (ep.caps.type_int ≡ true) ⊎ (ep.caps.type_bulk ≡ true)
      → (b.is_dualspeed ≡ true) ⊎ (max_of d ≤ 64)
      → Carries b ep d comp

-- The direction that a descriptor asks for.
abbrev pub has_direction : UsbEp → EpDesc → Bool
has_direction ep d = elim (dir_in d) [ true ↦ ep.caps.dir_in | false ↦ ep.caps.dir_out ]

pub record Suits (b : Bus) (ep : UsbEp) (d : EpDesc) (comp : Option ℕ) : Type 0 where
  pub unclaimed : ep.claimed ≡ false
  pub directed : has_direction ep d ≡ true
  pub fits : max_of d ≤ ep.maxpacket_limit
  pub single : (b.is_dualspeed ≡ true) ⊎ (extra_packets d ≡ 0)
  pub carries : Carries b ep d comp

type_cases :
    (d : EpDesc)
    → (endpoint_type d ≡ xfer_control)
      ⊎ ((endpoint_type d ≡ xfer_isoc)
          ⊎ ((endpoint_type d ≡ xfer_bulk) ⊎ (endpoint_type d ≡ xfer_int)))
type_cases d = ground arith

match_type-Carries :
    (b : Bus) (ep : UsbEp) (d : EpDesc) (comp : Option ℕ)
    → match_type b ep d comp ≡ true
    → Carries b ep d comp
unfolding match_type
match_type-Carries b ep d comp h = elim (type_cases d) [
  | inl e ↦ absurd (ground (arith, e, h))
  | inr (inl e) ↦ isoc e (ground (arith, e, h)) (ground (arith, e, h))
  | inr (inr (inl e)) ↦ bulk e (ground (arith, e, h)) (ground (arith, e, h))
  | inr (inr (inr e)) ↦ interrupt e (ground (arith, e, h)) (ground (arith, e, h))
]

Carries-match_type :
    (b : Bus) (ep : UsbEp) (d : EpDesc) (comp : Option ℕ)
    → Carries b ep d comp
    → match_type b ep d comp ≡ true
unfolding match_type
Carries-match_type b ep d comp (isoc t c m) = ground (arith, t, c, m)
Carries-match_type b ep d comp (bulk t c m) = ground (arith, t, c, m)
Carries-match_type b ep d comp (interrupt t c m) = ground (arith, t, c, m)

-- An endpoint matches a descriptor just if it is unclaimed, works in the descriptor's direction, takes
-- packets of its size, and carries its type of transfer; the streams that a bulk descriptor asks for at
-- SuperSpeed, and the packet sizes of a controller without high speed, are kept to.
pub match_desc_iff :
    (b : Bus) (ep : UsbEp) (d : EpDesc) (comp : Option ℕ)
    → (match_desc b ep d comp ≡ true) ↔ Suits b ep d comp
unfolding match_desc
match_desc_iff b ep d comp = (
  λ h. record {
    unclaimed = ground (arith, h);
    directed = ground (arith, h);
    fits = ground (arith, h);
    single = ground (arith, h);
    carries = match_type-Carries b ep d comp (ground (arith, h));
  },
  λ s.
      ground (
        arith,
        s.unclaimed,
        s.directed,
        s.fits,
        s.single,
        Carries-match_type b ep d comp s.carries,
      ),
)
