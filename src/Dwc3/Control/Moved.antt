-- ===== src/Dwc3/Control/Moved.antt =====
-- How many bytes a data stage moved, `dwc3_ep0_complete_data`.
use native.Mathlib.Nat.{div-mul-le_self, lt-div-mul-add}
use unisoc_usb.Prelude.{
  refl, not, min, if◌then◌else◌, ℕ, ◌+◌, ◌-◌, ◌%◌, ◌^◌, ◌≡◌, ◌≤◌, ◌<◌, true, false, ltb, arith, inl,
  inr, Bool-cases, ltb→le, ltb→lt,
}
use unisoc_usb.Dwc3.Endpoint.{Request}
use unisoc_usb.Dwc3.Completion.{trb_at}
use unisoc_usb.Dwc3.Ep0.{Ep0}
use unisoc_usb.Dwc3.Control.Queue.{roundup, direct_part, bounce_size}
use unisoc_usb.Dwc3.Control.Finish.{transferred}

roundup-ge : (x y : ℕ) → 0 < y → x ≤ roundup x y
unfolding roundup
roundup-ge x y h = let f = lt-div-mul-add {a = x + (y - 1)} h in omega (arith, f)

roundup-le : (x y : ℕ) → 0 < y → roundup x y ≤ x + (y - 1)
unfolding roundup
roundup-le x y h = div-mul-le_self (x + (y - 1)) y

-- The part that does not go through the bounce buffer is not the whole.
direct_part-lt :
    (r : Request) (packet : ℕ)
    → 0 < packet
    → packet ≤ bounce_size
    → ltb bounce_size r.length ≡ true
    → direct_part r packet < r.length
unfolding direct_part
direct_part-lt r packet h k l =
    let f = roundup-le (r.length - packet) packet h in ground (arith, f, l, h, k)

-- What the controller leaves of each TRB is no more than what the TRB asked for.
pub record IsLeft (d : Ep0) (r : Request) : Type 0 where
  pub direct : d.core.ep0_bounced ≡ false → (trb_at d.stage.trbs 0).size % 2 ^ 24 ≤ r.length
  pub short :
      d.core.ep0_bounced ≡ true
      → r.length ≤ bounce_size
      → (trb_at d.stage.trbs 0).size % 2 ^ 24 ≤ roundup r.length d.stage.max_packet
  pub long :
      d.core.ep0_bounced ≡ true
      → bounce_size < r.length
      → ((trb_at d.stage.trbs 0).size % 2 ^ 24 ≤ direct_part r d.stage.max_packet)
        × ((trb_at d.stage.trbs 1).size % 2 ^ 24
            ≤ roundup (r.length - direct_part r d.stage.max_packet) d.stage.max_packet)

-- A 32-bit difference that does not wrap.
sub_exact : (a b : ℕ) → b ≤ a → a < 2 ^ 32 → (a + 2 ^ 32 - b) % 2 ^ 32 ≡ a - b
sub_exact a b h k = omega arith

-- The bytes that were moved, counted without wrap-around: what was asked for less what was left, in the
-- TRB of the direct part and in the one of the bounce buffer, of which no more counts than is wanted.
abbrev pub moved_bytes : Ep0 → Request → ℕ
moved_bytes d r =
    let packet = d.stage.max_packet in
    let part = direct_part r packet in
    let left = (trb_at d.stage.trbs 0).size % 2 ^ 24 in
    let last = (trb_at d.stage.trbs 1).size % 2 ^ 24 in
    let direct = part - left in
    if not d.core.ep0_bounced
    then r.length - left
    else (if ltb bounce_size r.length
        then direct + min (r.length - direct) (roundup (r.length - part) packet - last)
        else min r.length (roundup r.length packet - left))

-- `n` bytes of a request were moved, as the TRBs say, and all where nothing was left.
abbrev pub Moved : Ep0 → Request → ℕ → Type 0
Moved d r n =
    (n ≡ moved_bytes d r)
    × (n ≤ r.length)
    × ((trb_at d.stage.trbs 0).size % 2 ^ 24 ≡ 0
        → (trb_at d.stage.trbs 1).size % 2 ^ 24 ≡ 0
        → n ≡ r.length)

module _ (d : Ep0) (r : Request) (l : r.length < 2 ^ 24) (f : IsLeft d r) where
  Moved-direct : d.core.ep0_bounced ≡ false → Moved d r (transferred d r)
  unfolding transferred
  Moved-direct b =
      let left = (trb_at d.stage.trbs 0).size % 2 ^ 24 in
      let h = f.direct b in
      let e = sub_exact r.length left h (omega arith) in
      rw (b, e) (refl, omega arith, λ p q. omega arith)

  module _ (h : 0 < d.stage.max_packet) (k : d.stage.max_packet ≤ bounce_size) where
    Moved-short :
        d.core.ep0_bounced ≡ true → ltb bounce_size r.length ≡ false → Moved d r (transferred d r)
    unfolding transferred direct_part
    Moved-short b s =
        let len = r.length in
        let packet = d.stage.max_packet in
        let left = (trb_at d.stage.trbs 0).size % 2 ^ 24 in
        let small = ltb→le bounce_size len s in
        let up = roundup-le len packet h in
        let room = roundup-ge len packet h in
        let all = sub_exact len 0 (omega arith) (omega arith) in
        let e = sub_exact (roundup len packet) left (f.short b small) (omega (arith, up)) in
        let none_off : len - 0 ≡ len = omega arith in
        rw (b, s, all, none_off, e)
          (omega arith, ground (arith, room), λ p q. ground (arith, room, p))

    Moved-long :
        d.core.ep0_bounced ≡ true → ltb bounce_size r.length ≡ true → Moved d r (transferred d r)
    unfolding transferred
    Moved-long b s =
        let len = r.length in
        let packet = d.stage.max_packet in
        let part = direct_part r packet in
        let left = (trb_at d.stage.trbs 0).size % 2 ^ 24 in
        let last = (trb_at d.stage.trbs 1).size % 2 ^ 24 in
        let (fl, fr) = f.long b (ltb→lt bounce_size len s) in
        let under = direct_part-lt r packet h k s in
        let up = roundup-le (len - part) packet h in
        let room = roundup-ge (len - part) packet h in
        let e = sub_exact part left fl (omega (arith, under)) in
        let rest = sub_exact len (part - left) (omega (arith, under)) (omega arith) in
        let size = sub_exact len part (omega (arith, under)) (omega arith) in
        let tail = sub_exact (roundup (len - part) packet) last fr (omega (arith, up)) in
        rw (b, s, e, rest, size, tail)
          (refl, ground (arith, room, under), λ p q. ground (arith, room, under, p, q))

    -- The bytes that a data stage is said to have moved, for a request below 16 MB, are what its TRBs asked for
    -- less what the controller left of each, with no difference that wraps and no more of the bounce buffer
    -- than is wanted; so they are no more than the request's length, and all of it where nothing was left.
    -- The controller leaves no more of a TRB than the TRB asked for, and endpoint 0 has packets of 1 to 512
    -- bytes.
    pub transferred_lem : Moved d r (transferred d r)
    transferred_lem = elim (Bool-cases d.core.ep0_bounced) [
      | inr b ↦ Moved-direct b
      | inl b ↦ elim (Bool-cases (ltb bounce_size r.length)) [
        | inl s ↦ Moved-long b s
        | inr s ↦ Moved-short b s
      ]
    ]
