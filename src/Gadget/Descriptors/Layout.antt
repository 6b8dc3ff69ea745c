-- ===== src/Gadget/Descriptors/Layout.antt =====
-- What a host reads in the answer that `config_buf` builds.
use unisoc_usb.Prelude.{
  ℕ, zero, suc, ◌+◌, ◌-◌, ◌*◌, ◌≡◌, ◌≤◌, ◌<◌, refl, ap, ap₂, sym, ◌∙◌, List, [], ◌∷◌, ◌++◌, Errno,
  ok, err, length, take, drop, All, arith, take_append, drop_append, length-append, append_assoc,
  inl, inr, lt_or_le,
}
use unisoc_usb.Gadget.Descriptors.{
  fill_functions, config_buf, config_header, Config, Function, Speed, at_speed, given, bufsiz,
}
use unisoc_usb.Gadget.Descriptors.Fill.{IsWhole, flat, fillbuf_fits, fillbuf_full}

-- A reader of descriptors goes from one to the next by their first byte.
abbrev pub split : ℕ → List ℕ → List (List ℕ)
split zero bytes = []
split (suc n) [] = []
split (suc n) (b ∷ bytes) = take b (b ∷ bytes) ∷ split n (drop b (b ∷ bytes))

-- The descriptors that functions show at a speed, and those of a whole configuration.
abbrev pub shown : Speed → List Function → List (List ℕ)
shown speed [] = []
shown speed (f ∷ fs) = given (at_speed speed f) ++ shown speed fs

abbrev pub of_config : Speed → Config → List (List ℕ)
of_config speed c = given c.descriptors ++ shown speed c.functions

flat-append : (xs ys : List (List ℕ)) → flat (xs ++ ys) ≡ flat xs ++ flat ys
flat-append [] ys = refl
flat-append (x ∷ xs) ys =
    ap (λ l. x ++ l) (flat-append xs ys) ∙ sym (append_assoc x (flat xs) (flat ys))

All-left : (xs ys : List (List ℕ)) → All IsWhole (xs ++ ys) → All IsWhole xs
All-left [] ys h = tt
All-left (x ∷ xs) ys h = (h.0, All-left xs ys h.1)

All-right : (xs ys : List (List ℕ)) → All IsWhole (xs ++ ys) → All IsWhole ys
All-right [] ys h = h
All-right (x ∷ xs) ys h = All-right xs ys h.1

-- Reading back descriptors of whole bytes gives them, one by one.
pub split-flat :
    (ds : List (List ℕ)) (n : ℕ) → All IsWhole ds → length ds ≤ n → split n (flat ds) ≡ ds
split-flat [] zero w h = refl
split-flat [] (suc n) w h = refl
split-flat (d ∷ ds) zero w h = absurd (omega arith)
split-flat ([] ∷ ds) (suc n) w h = absurd (omega (arith, w.0.1))
split-flat ((b ∷ bs) ∷ ds) (suc n) w h =
    let e : b ≡ length (b ∷ bs) = w.0.0 in
    ap₂ (λ (x : List ℕ) (xs : List (List ℕ)). x ∷ xs)
      (ap (λ (k : ℕ). take k (b ∷ (bs ++ flat ds))) e ∙ take_append (b ∷ bs) (flat ds))
      (ap (λ (k : ℕ). split n (drop k (b ∷ (bs ++ flat ds)))) e
        ∙ (ap (split n) (drop_append (b ∷ bs) (flat ds)) ∙ split-flat ds n w.1 (omega arith)))

fill_functions_fits :
    (fs : List Function) (len : ℕ) (speed : Speed)
    → All IsWhole (shown speed fs)
    → length (flat (shown speed fs)) ≤ len
    → fill_functions len speed fs ≡ ok (flat (shown speed fs))
unfolding fill_functions
fill_functions_fits [] len speed w h = refl
fill_functions_fits (f ∷ fs) len speed w h =
    let own = given (at_speed speed f) in
    let joined = flat-append own (shown speed fs) in
    let size = ap length joined ∙ length-append (flat own) (flat (shown speed fs)) in
    let first = fillbuf_fits own len (All-left own (shown speed fs) w) (omega arith) in
    let rest =
      fill_functions_fits fs (len - length (flat own)) speed (All-right own (shown speed fs) w)
        (omega arith) in
    simp (first, rest, joined) refl

fill_functions_full :
    (fs : List Function) (len : ℕ) (speed : Speed)
    → All IsWhole (shown speed fs)
    → len < length (flat (shown speed fs))
    → fill_functions len speed fs ≡ err Errno.einval
unfolding fill_functions
fill_functions_full [] len speed w h = absurd (omega arith)
fill_functions_full (f ∷ fs) len speed w h =
    let own = given (at_speed speed f) in
    let joined = flat-append own (shown speed fs) in
    let size = ap length joined ∙ length-append (flat own) (flat (shown speed fs)) in
    let left = All-left own (shown speed fs) w in
    elim (lt_or_le len (length (flat own))) [
      | inl t ↦ simp (fillbuf_full own len left t) refl
      | inr t ↦
          let rest =
            fill_functions_full fs (len - length (flat own)) speed
              (All-right own (shown speed fs) w) (omega arith) in
          simp (fillbuf_fits own len left t, rest) refl
    ]

-- The length that the header announces.
abbrev pub announced : List ℕ → ℕ
announced (_ ∷ _ ∷ low ∷ high ∷ _) = low + 256 * high
announced _ = 0

-- A configuration whose descriptors fit into the buffer is answered with bytes that a host reads as
-- the configuration's header and, in their order, all its descriptors for the speed; the length in the
-- header is that of the whole answer.
pub config_buf_fits :
    (c : Config) (speed : Speed) (type : ℕ)
    → All IsWhole (of_config speed c)
    → 9 + length (flat (of_config speed c)) ≤ bufsiz
    → (bytes : List ℕ) × (config_buf c speed type ≡ ok bytes)
      × (announced bytes ≡ length bytes)
      × (split (suc (length (of_config speed c))) bytes
          ≡ config_header c speed type (length bytes) ∷ of_config speed c)
unfolding config_buf config_header
config_buf_fits c speed type w h =
    let own = given c.descriptors in
    let others = shown speed c.functions in
    let body = flat own ++ flat others in
    let joined = flat-append own others in
    let size = ap length joined ∙ length-append (flat own) (flat others) in
    let size' = length-append (flat own) (flat others) in
    let first = fillbuf_fits own 1015 (All-left own others w) (omega arith) in
    let rest =
      fill_functions_fits c.functions (1015 - length (flat own)) speed (All-right own others w)
        (omega arith) in
    let bytes = config_header c speed type (9 + length body) ++ body in
    let long : length bytes ≡ 9 + length body = omega arith in
    (
      bytes,
      simp (first, rest) refl,
      omega arith,
      ap₂ (λ (x : List ℕ) (xs : List (List ℕ)). x ∷ xs) (sym (ap (config_header c speed type) long))
          (ap (split (length (own ++ others))) (sym joined)
            ∙ split-flat (own ++ others) (length (own ++ others)) w (omega arith)),
    )

-- A configuration whose descriptors do not fit is refused with -EINVAL.
pub config_buf_full :
    (c : Config) (speed : Speed) (type : ℕ)
    → All IsWhole (of_config speed c)
    → bufsiz < 9 + length (flat (of_config speed c))
    → config_buf c speed type ≡ err Errno.einval
unfolding config_buf
config_buf_full c speed type w h =
    let own = given c.descriptors in
    let others = shown speed c.functions in
    let size = ap length (flat-append own others) ∙ length-append (flat own) (flat others) in
    elim (lt_or_le 1015 (length (flat own))) [
      | inl t ↦ simp (fillbuf_full own 1015 (All-left own others w) t) refl
      | inr t ↦
          let rest =
            fill_functions_full c.functions (1015 - length (flat own)) speed
              (All-right own others w) (omega arith) in
          simp (fillbuf_fits own 1015 (All-left own others w) t, rest) refl
    ]
