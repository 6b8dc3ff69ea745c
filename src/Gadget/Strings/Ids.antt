-- ===== src/Gadget/Strings/Ids.antt =====
-- String numbers are given out once.
use unisoc_usb.Prelude.{
  ℕ, suc, ◌+◌, ◌≡◌, ◌≤◌, ◌<◌, ◌⊎◌, inl, inr, refl, true, List, [], ◌∷◌, Option, none, some, Code,
  Errno, map, length, ltb, arith, if_each, lt→ltb, ltb→lt, lt_or_le, ap, ◌∙◌,
}
use unisoc_usb.Gadget.Strings.{UsbString, number_strings, string_ids_tab}

-- The numbers from the one after `next` on, as many as there are strings.
abbrev pub numbers : ℕ → List UsbString → List ℕ
numbers next [] = []
numbers next (s ∷ ss) = (next + 1) ∷ numbers (next + 1) ss

number_strings_all :
    (next : ℕ) (ss : List UsbString)
    → next + length ss ≤ 254
    → ((number_strings next ss).0 ≡ some (next + length ss))
      × (map (λ (s : UsbString). s.id) (number_strings next ss).1 ≡ numbers next ss)
      × (map (λ (s : UsbString). s.text) (number_strings next ss).1
          ≡ map (λ (s : UsbString). s.text) ss)
unfolding number_strings
number_strings_all next [] h = (ground arith, refl, refl)
number_strings_all next (s ∷ ss) h =
    let (n, i, t) = number_strings_all (next + 1) ss (omega arith) in
    let room : ltb next 254 ≡ true = lt→ltb next 254 (omega arith) in
    let sum : next + 1 + length ss ≡ next + suc (length ss) = omega arith in
    rw room (
      n ∙ ap (λ (k : ℕ). some k) sum,
      ap (λ (l : List ℕ). (next + 1) ∷ l) i,
      ap (λ (l : List (List ℕ)). s.text ∷ l) t,
    )

number_strings-none :
    (next : ℕ) (ss : List UsbString)
    → next ≤ 254
    → 254 < next + length ss
    → (number_strings next ss).0 ≡ none
unfolding number_strings
number_strings-none next [] k h = absurd (omega arith)
number_strings-none next (s ∷ ss) k h =
    if_each (λ (x : Option ℕ × List UsbString). x.0 ≡ none) (ltb next 254)
      (λ e.
        let below = ltb→lt next 254 e in
        number_strings-none (next + 1) ss (omega (arith, below)) (omega arith))
      (λ e. refl)

-- A table of strings is numbered where all its strings get a number of at most 254: they are the numbers
-- after the last one given out, in the order of the strings, whose texts stay. Otherwise it fails with -ENODEV, and no number
-- counts as given out.
pub string_ids_tab_lem :
    (next : ℕ) (ss : List UsbString)
    → next ≤ 254
    → let out = string_ids_tab next ss in
      ((next + length ss ≤ 254)
        × (out.2 ≡ none)
        × (out.0 ≡ next + length ss)
        × (map (λ (s : UsbString). s.id) out.1 ≡ numbers next ss)
        × (map (λ (s : UsbString). s.text) out.1 ≡ map (λ (s : UsbString). s.text) ss))
      ⊎ (254 < next + length ss) × (out.2 ≡ some Errno.enodev) × (out.0 ≡ next)
unfolding string_ids_tab
string_ids_tab_lem next ss k =
    let numbered = (number_strings next ss).1 in
    let answer : Option ℕ → ℕ × List UsbString × Code = λ o. elim o [
      | none ↦ (next, numbered, some Errno.enodev)
      | some last ↦ (last, numbered, none)
    ] in
    elim (lt_or_le 254 (next + length ss)) [
      | inl h ↦
          let e = ap answer (number_strings-none next ss k h) in
          inr (h, ap (λ x. x.2) e, ap (λ x. x.0) e)
      | inr h ↦
          let (n, i, t) = number_strings_all next ss h in
          let e = ap answer n in
          inl (
            h,
            ap (λ x. x.2) e,
            ap (λ x. x.0) e,
            ap (λ x. map (λ (s : UsbString). s.id) x.1) e ∙ i,
            ap (λ x. map (λ (s : UsbString). s.text) x.1) e ∙ t,
          )
    ]
