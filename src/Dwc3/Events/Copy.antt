-- ===== src/Dwc3/Events/Copy.antt =====
-- What the copies of `dwc3_check_event_buf` put into the cache.
use unisoc_usb.Prelude.{
  ℕ, zero, suc, ◌+◌, ◌-◌, ◌%◌, ◌^◌, ◌<◌, ◌≤◌, ◌≡◌, ◌≢◌, refl, ap, sym, if_both, lt_or_le, eq_or_lt,
  lt→ltb, ◌∙◌, List, [], ◌∷◌, length, set, min, arith, length-set, ◌⊎◌, inl, inr, ltb, Bool-cases,
}
use unisoc_usb.Dwc3.Events.{EventBuf, byte, copy_bytes, fetch}

byte-set_self : (xs : List ℕ) (i v : ℕ) → i < length xs → byte (set xs i v) i ≡ v
unfolding byte
byte-set_self [] i v h = elim h [ ]
byte-set_self (x ∷ xs) zero v h = refl
byte-set_self (x ∷ xs) (suc i) v h = byte-set_self xs i v (omega arith)

byte-set_ne : (xs : List ℕ) (i j v : ℕ) → i ≢ j → byte (set xs i v) j ≡ byte xs j
unfolding byte
byte-set_ne [] i j v h = refl
byte-set_ne (x ∷ xs) zero zero v h = absurd (h refl)
byte-set_ne (x ∷ xs) zero (suc j) v h = refl
byte-set_ne (x ∷ xs) (suc i) zero v h = refl
byte-set_ne (x ∷ xs) (suc i) (suc j) v h = byte-set_ne xs i j v (λ e. h (ap suc e))

length-copy_bytes : (n off : ℕ) (src dst : List ℕ) → length (copy_bytes n off src dst) ≡ length dst
unfolding copy_bytes
length-copy_bytes zero off src dst = refl
length-copy_bytes (suc n) off src dst =
    length-copy_bytes n (off + 1) src (set dst off (byte src off))
    ∙ length-set dst off (byte src off)

-- A byte outside of the copied range is kept.
copy_bytes_outside :
    (n off : ℕ) (src dst : List ℕ) (i : ℕ)
    → (i < off) ⊎ (off + n ≤ i)
    → byte (copy_bytes n off src dst) i ≡ byte dst i
unfolding copy_bytes
copy_bytes_outside zero off src dst i h = refl
copy_bytes_outside (suc n) off src dst i h =
    copy_bytes_outside n (off + 1) src (set dst off (byte src off)) i (omega arith)
    ∙ byte-set_ne dst off i (byte src off) (omega arith)

-- A byte of the copied range is the source's.
copy_bytes_inside :
    (n off : ℕ) (src dst : List ℕ) (i : ℕ)
    → off ≤ i
    → i < off + n
    → i < length dst
    → byte (copy_bytes n off src dst) i ≡ byte src i
unfolding copy_bytes
copy_bytes_inside zero off src dst i a b l = absurd (omega arith)
copy_bytes_inside (suc n) off src dst i a b l =
    let dst' = set dst off (byte src off) in
    let l' : i < length dst' = omega (arith, length-set dst off (byte src off)) in
    elim (eq_or_lt off i a) [
      | inl e ↦
          copy_bytes_outside n (off + 1) src dst' i (inl (omega arith))
          ∙ (ap (λ k. byte (set dst off (byte src off)) k) (sym e)
              ∙ (byte-set_self dst off (byte src off) (omega arith) ∙ ap (byte src) e))
      | inr g ↦ copy_bytes_inside n (off + 1) src dst' i (omega arith) (omega arith) l'
    ]

-- A buffer as the driver sets it up, with the next event at a multiple of the event size.
pub record IsReady (evt : EventBuf) : Type 0 where
  pub whole : evt.length ≡ 256
  pub cached : length evt.cache ≡ 256
  pub inside : evt.lpos < 256
  pub aligned : evt.lpos % 4 ≡ 0

-- The copies bring the `count` bytes that follow the position, round the end of the buffer.
pub fetch_lem :
    (evt : EventBuf) (count k : ℕ)
    → IsReady evt
    → count ≤ 256
    → k < count
    → byte (fetch evt count) ((evt.lpos + k) % 256) ≡ byte evt.buf ((evt.lpos + k) % 256)
unfolding fetch
fetch_lem evt count k r c h =
    let amount = min count ((evt.length + 2 ^ 32 - evt.lpos) % 2 ^ 32) in
    let first = copy_bytes amount evt.lpos evt.buf evt.cache in
    let w = r.whole in
    let i = r.inside in
    let l = r.cached in
    let ll = length-copy_bytes amount evt.lpos evt.buf evt.cache in
    let n = (evt.lpos + k) % 256 in
    let a : amount ≡ min count (256 - evt.lpos) = omega arith in
    elim (lt_or_le (evt.lpos + k) 256) [
      | inl g ↦
          let e =
            copy_bytes_inside amount evt.lpos evt.buf evt.cache n (omega arith) (omega arith)
              (omega arith) in
          elim (Bool-cases (ltb amount count)) [
            | inl t ↦ elim (lt_or_le n (count - amount)) [
              | inl p ↦ simp t (
                  copy_bytes_inside (count - amount) 0 evt.buf first n (omega arith) (omega arith)
                    (omega arith))
              | inr p ↦
                  simp t
                    (copy_bytes_outside (count - amount) 0 evt.buf first n (inr (omega arith)) ∙ e)
            ]
            | inr t ↦ simp t e
          ]
      | inr g ↦
          let t : amount < count = omega arith in
          simp (lt→ltb amount count t) (
            copy_bytes_inside (count - amount) 0 evt.buf first n (omega arith) (omega arith)
              (omega arith))
    ]

pub length-fetch : (evt : EventBuf) (count : ℕ) → length (fetch evt count) ≡ length evt.cache
unfolding fetch
length-fetch evt count =
    let amount = min count ((evt.length + 2 ^ 32 - evt.lpos) % 2 ^ 32) in
    let first = copy_bytes amount evt.lpos evt.buf evt.cache in
    let one = length-copy_bytes amount evt.lpos evt.buf evt.cache in
    if_both (λ l. length l ≡ length evt.cache) (ltb amount count)
      {x = copy_bytes (count - amount) 0 evt.buf first} {y = first}
      (length-copy_bytes (count - amount) 0 evt.buf first ∙ one) one
