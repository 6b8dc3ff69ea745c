-- ===== src/Gadget/Descriptors/Fill.antt =====
-- `usb_descriptor_fillbuf` against the concatenation of the descriptors.
use unisoc_usb.Prelude.{
  ℕ, ◌-◌, ◌≡◌, ◌≤◌, ◌<◌, refl, ap, false, List, [], ◌∷◌, ◌++◌, Errno, ok, err, length, take, ltb,
  All, arith, length-append, Bool-cases, inl, inr, le→ltb, ltb→le,
}
use unisoc_usb.Gadget.Descriptors.{b_length, fillbuf}

-- A descriptor whose `bLength` tells its size.
abbrev pub IsWhole : List ℕ → Type 0
IsWhole d = (b_length d ≡ length d) × (0 < length d)

abbrev pub flat : List (List ℕ) → List ℕ
flat [] = []
flat (d ∷ ds) = d ++ flat ds

pub take_length : {A : Type 0} (xs : List A) → take (length xs) xs ≡ xs
take_length [] = refl
take_length (x ∷ xs) = ap (λ l. x ∷ l) (take_length xs)

pub fillbuf_fits :
    (ds : List (List ℕ)) (n : ℕ)
    → All IsWhole ds
    → length (flat ds) ≤ n
    → fillbuf n ds ≡ ok (flat ds)
unfolding fillbuf
fillbuf_fits [] n w h = refl
fillbuf_fits (d ∷ ds) n w h =
    let size = length-append d (flat ds) in
    let e : b_length d ≡ length d = w.0.0 in
    let room : ltb n (length d) ≡ false = le→ltb n (length d) (omega arith) in
    simp (e, room, take_length d, fillbuf_fits ds (n - length d) w.1 (omega arith)) refl

pub fillbuf_full :
    (ds : List (List ℕ)) (n : ℕ)
    → All IsWhole ds
    → n < length (flat ds)
    → fillbuf n ds ≡ err Errno.einval
unfolding fillbuf
fillbuf_full [] n w h = absurd (omega arith)
fillbuf_full (d ∷ ds) n w h =
    let size = length-append d (flat ds) in
    let e : b_length d ≡ length d = w.0.0 in
    elim (Bool-cases (ltb n (length d))) [
      | inl t ↦ simp (e, t) refl
      | inr t ↦
          let room = ltb→le n (length d) t in
          simp (e, t, fillbuf_full ds (n - length d) w.1 (omega arith)) refl
    ]
