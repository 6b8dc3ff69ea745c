-- ===== src/Gadget/Strings/Languages.antt =====
-- The languages that a device tells its host.
use unisoc_usb.Prelude.{
  ℕ, zero, suc, ◌+◌, ◌*◌, ◌%◌, ◌^◌, Errno, Result, ok, err, ◌≡◌, ◌≢◌, ◌≤◌, ◌<◌, inl, inr, refl,
  List, [], ◌∷◌, ◌++◌, length, replicate, ◌==◌, if◌then◌else◌, arith, if_both, ap, ◌∙◌, All,
  ==_false, Bool-cases, subst, sym,
}
use unisoc_usb.Gadget.Strings.{
  Table, Tables, put_lang, collect_langs, used_words, concat, word_bytes, write, get_langs,
}

-- A reference: a language is put at the end unless it is there.
abbrev pub add_new : List ℕ → ℕ → List ℕ
add_new [] l = l ∷ []
add_new (w ∷ ws) l = if w == l then w ∷ ws else w ∷ add_new ws l

abbrev pub add_all : List ℕ → List Table → List ℕ
add_all ls [] = ls
add_all ls (s ∷ sp) = add_all (add_new ls s.language) sp

-- The words of the descriptor with these languages.
abbrev pub padded : ℕ → List ℕ → List ℕ
padded spare ls = ls ++ replicate spare 0

put_lang_lem :
    (ls : List ℕ) (room spare l : ℕ)
    → All (λ (w : ℕ). w ≢ 0) ls
    → length ls ≤ room
    → (n : ℕ) × (put_lang room (padded (suc spare) ls) l ≡ padded n (add_new ls l))
      × (n + length (add_new ls l) ≡ suc spare + length ls)
unfolding put_lang
put_lang_lem [] zero spare l a h = (spare, refl, omega arith)
put_lang_lem [] (suc room) spare l a h = (spare, refl, omega arith)
put_lang_lem (w ∷ ws) zero spare l a h = absurd (omega arith)
put_lang_lem (w ∷ ws) (suc room) spare l a h =
    let used = ==_false w 0 a.0 in
    elim (Bool-cases (w == l)) [
      | inl e ↦ (suc spare, rw (used, e) refl, rw e (omega arith))
      | inr e ↦
          let (n, p, q) = put_lang_lem ws room spare l a.1 (omega arith) in
          (n, rw (used, e) (ap (λ (x : List ℕ). w ∷ x) p), rw e (omega (arith, q)))
    ]

-- Neither the languages nor those to come are 0, and there is room for all.
add_new-All :
    (ls : List ℕ) (l : ℕ)
    → All (λ (w : ℕ). w ≢ 0) ls
    → l ≢ 0
    → All (λ (w : ℕ). w ≢ 0) (add_new ls l)
add_new-All [] l a n = (n, tt)
add_new-All (w ∷ ws) l a n =
    if_both (λ (x : List ℕ). All (λ (w : ℕ). w ≢ 0) x) (w == l) a (a.0, add_new-All ws l a.1 n)

length-add_new : (ls : List ℕ) (l : ℕ) → length ls ≤ length (add_new ls l)
length-add_new [] l = omega arith
length-add_new (w ∷ ws) l =
    if_both (λ (x : List ℕ). suc (length ws) ≤ length x) (w == l) (omega arith)
      (omega (arith, length-add_new ws l))

length-add_all : (ls : List ℕ) (sp : List Table) → length ls ≤ length (add_all ls sp)
length-add_all ls [] = omega arith
length-add_all ls (s ∷ sp) =
    omega (arith, length-add_new ls s.language, length-add_all (add_new ls s.language) sp)

-- The words of a descriptor are these languages, with room for one more.
pub record IsHeld (words ls : List ℕ) : Type 0 where
  pub spare : ℕ
  pub laid : words ≡ padded spare ls
  pub whole : spare + length ls ≡ 127
  pub named : All (λ (w : ℕ). w ≢ 0) ls

put_padded-IsHeld :
    (spare : ℕ) (ls : List ℕ) (l : ℕ)
    → spare + length ls ≡ 127
    → All (λ (w : ℕ). w ≢ 0) ls
    → l ≢ 0
    → length ls ≤ 126
    → IsHeld (put_lang 126 (padded spare ls) l) (add_new ls l)
put_padded-IsHeld zero ls l e a n k = absurd (omega arith)
put_padded-IsHeld (suc m) ls l e a n k =
    let (r, p, q) = put_lang_lem ls 126 m l a k in
    record { spare = r; laid = p; whole = q ∙ e; named = add_new-All ls l a n }

put_lang-IsHeld :
    (words ls : List ℕ) (l : ℕ)
    → IsHeld words ls
    → l ≢ 0
    → length ls ≤ 126
    → IsHeld (put_lang 126 words l) (add_new ls l)
put_lang-IsHeld words ls l h n k =
    subst (λ (x : List ℕ). IsHeld (put_lang 126 x l) (add_new ls l)) (sym h.laid)
      (put_padded-IsHeld h.spare ls l h.whole h.named n k)

collect_langs-IsHeld :
    (sp : List Table) (words ls : List ℕ)
    → IsHeld words ls
    → All (λ (s : Table). s.language ≢ 0) sp
    → length (add_all ls sp) ≤ 126
    → IsHeld (collect_langs sp words) (add_all ls sp)
unfolding collect_langs
collect_langs-IsHeld [] words ls h a k = h
collect_langs-IsHeld (s ∷ sp) words ls h a k =
    let more = length-add_all (add_new ls s.language) sp in
    let one = length-add_new ls s.language in
    collect_langs-IsHeld sp (put_lang 126 words s.language) (add_new ls s.language)
      (put_lang-IsHeld words ls s.language h a.0 (omega (arith, more, one))) a.1 k

used_words_lem :
    (ls : List ℕ) (n : ℕ) → All (λ (w : ℕ). w ≢ 0) ls → used_words (padded n ls) ≡ length ls
unfolding used_words
used_words_lem [] zero a = refl
used_words_lem [] (suc n) a = refl
used_words_lem (w ∷ ws) n a = rw (==_false w 0 a.0) (ap suc (used_words_lem ws n a.1))

-- The languages of a device, each once, in the order in which its tables are gone through.
abbrev pub languages : Tables → List ℕ
languages t =
    add_all (add_all (add_all [] t.driver) (concat (concat t.configs))) (concat t.gstrings)

-- A table of the language 0 would end the list early.
abbrev pub IsSpoken : List Table → Type 0
IsSpoken sp = All (λ (s : Table). s.language ≢ 0) sp

-- The words of the descriptor hold just the languages, each once, where they are 126 at most.
collected-IsHeld :
    (t : Tables)
    → IsSpoken t.driver
    → IsSpoken (concat (concat t.configs))
    → IsSpoken (concat t.gstrings)
    → length (languages t) ≤ 126
    → IsHeld
        (collect_langs
          (concat t.gstrings)
          (collect_langs (concat (concat t.configs)) (collect_langs t.driver (replicate 127 0))))
        (languages t)
collected-IsHeld t a b c k =
    let first = add_all [] t.driver in
    let second = add_all first (concat (concat t.configs)) in
    let none_yet : IsHeld (replicate 127 0) [] = record {
      spare = 127;
      laid = refl;
      whole = refl;
      named = tt;
    } in
    let two = length-add_all second (concat t.gstrings) in
    let one = length-add_all first (concat (concat t.configs)) in
    let w1 = collect_langs t.driver (replicate 127 0) in
    let h1 =
      collect_langs-IsHeld t.driver (replicate 127 0) [] none_yet a (omega (arith, one, two, k)) in
    let w2 = collect_langs (concat (concat t.configs)) w1 in
    let h2 =
      collect_langs-IsHeld (concat (concat t.configs)) w1 first h1 b (omega (arith, two, k)) in
    collect_langs-IsHeld (concat t.gstrings) w2 second h2 c k

-- A host that asks for the languages is told each language of the device's tables once, in the order of
-- the tables, and the length of just these, where they are 1 to 126 and none is 0.
pub get_langs_lem :
    (t : Tables) (buf : List ℕ)
    → IsSpoken t.driver
    → IsSpoken (concat (concat t.configs))
    → IsSpoken (concat t.gstrings)
    → 0 < length (languages t)
    → length (languages t) ≤ 126
    → (words : List ℕ) × IsHeld words (languages t)
      × (get_langs t buf ≡ (
        write (2 * (length (languages t) + 1) ∷ 3 ∷ word_bytes words) buf,
        ok (2 * (length (languages t) + 1)),
      ))
unfolding get_langs
get_langs_lem t buf a b c z k =
    let words =
      collect_langs (concat t.gstrings)
        (collect_langs (concat (concat t.configs)) (collect_langs t.driver (replicate 127 0))) in
    let h = collected-IsHeld t a b c k in
    let n = length (languages t) in
    let used : used_words words ≡ n =
      ap used_words h.laid ∙ used_words_lem (languages t) h.spare h.named in
    let told : ℕ → List ℕ × Result ℕ =
      λ m. (write ((2 * (m + 1) % 2 ^ 8) ∷ 3 ∷ word_bytes words) buf, ok (2 * (m + 1) % 2 ^ 8)) in
    let body : ℕ → List ℕ × Result ℕ =
      λ m. if m == 0 then (write (0 ∷ 3 ∷ word_bytes words) buf, err Errno.einval) else told m in
    let some_told : body n ≡ told n = rw (==_false n 0 (λ e. ground (arith, e, z))) refl in
    let whole : 2 * (n + 1) % 2 ^ 8 ≡ 2 * (n + 1) = omega (arith, k) in
    let exact = ap (λ (m : ℕ). (write (m ∷ 3 ∷ word_bytes words) buf, ok m)) whole in
    (words, h, ap body used ∙ (some_told ∙ exact))
