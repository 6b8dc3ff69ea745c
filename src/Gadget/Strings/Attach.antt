-- ===== src/Gadget/Strings/Attach.antt =====
-- Attaching tables of strings to a device: `usb_gstrings_attach` and `copy_gadget_strings` of
-- gadget/composite.c.
use unisoc_usb.Prelude.{
  ℕ, zero, suc, ◌+◌, ◌≤◌, ◌≡◌, refl, sym, ap, subst, inl, inr, length-map, ◌∙◌, Bool, true, List,
  [], ◌∷◌, ◌++◌, map, Option, none, some, length, All, if◌then◌else◌, arith,
}
use unisoc_usb.Gadget.Strings.{UsbString, Table, string_ids_tab}
use unisoc_usb.Gadget.Strings.Ids.{numbers, string_ids_tab_lem}

-- The inner loop of `copy_gadget_strings`: `n` strings, of which the one behind the last is empty; none
-- where it reads past that. `unset` is the number in fresh memory.
pub copy_strings : ℕ → ℕ → List UsbString → Option (List UsbString)
copy_strings unset zero ss = some []
copy_strings unset (suc zero) [] = some (record { id = unset; text = [] } ∷ [])
copy_strings unset (suc (suc n)) [] = none
copy_strings unset (suc n) (s ∷ ss) = elim (copy_strings unset n ss) [
  | none ↦ none
  | some rest ↦ some (record s { id = unset } ∷ rest)
]

-- `copy_gadget_strings`, once there is memory.
pub copy_tables : ℕ → ℕ → List Table → Option (List Table)
copy_tables unset n [] = some []
copy_tables unset n (t ∷ ts) = elim (copy_strings unset n t.strings) [
  | none ↦ none
  | some ss ↦ elim (copy_tables unset n ts) [
    | none ↦ none
    | some rest ↦ some (record t { strings = ss } ∷ rest)
  ]
]

-- The numbers of the first table for another one.
pub copy_ids : List UsbString → List UsbString → List UsbString
copy_ids [] ss = ss
copy_ids (m ∷ ms) [] = []
copy_ids (m ∷ ms) (s ∷ ss) = record s { id = m.id } ∷ copy_ids ms ss

abbrev pub numbered_as : List UsbString → Table → Table
numbered_as first t = record t { strings = copy_ids first t.strings }

-- What attaching leaves: the number given out last, the containers, and the strings that are returned,
-- or none for NULL.
pub record Attached : Type 0 where
  pub next_string_id : ℕ
  pub gstrings : List (List Table)
  pub strings : Option (List UsbString)

-- `usb_gstrings_attach` once the tables are copied.
pub number_tables : ℕ → List (List Table) → List Table → Attached
number_tables next gstrings [] = record {
  next_string_id = next;
  gstrings = gstrings;
  strings = none;
}
number_tables next gstrings (t ∷ ts) =
    let out = string_ids_tab next t.strings in
    elim out.2 [
      | some e ↦ record { next_string_id = out.0; gstrings = gstrings; strings = none }
      | none ↦ record {
        next_string_id = out.0;
        gstrings = gstrings ++ ((record t { strings = out.1 } ∷ map (numbered_as out.1) ts) ∷ []);
        strings = some out.1;
      }
    ]

-- `usb_gstrings_attach`, where `memory` says whether a container can be allocated; none where it reads
-- past the end of a table.
pub gstrings_attach : Bool → ℕ → ℕ → List (List Table) → ℕ → List Table → Option Attached
gstrings_attach memory unset next gstrings n sp =
    let nothing : Attached = record {
      next_string_id = next;
      gstrings = gstrings;
      strings = none;
    } in
    elim sp [
      | [] ↦ some nothing
      | t ∷ ts ↦
          if memory
          then (elim (copy_tables unset n (t ∷ ts)) [
            | none ↦ none
            | some copies ↦ some (number_tables next gstrings copies)
          ])
          else some nothing
    ]

abbrev pub texts : List UsbString → List (List ℕ)
texts ss = map (λ (s : UsbString). s.text) ss

abbrev pub string_ids : List UsbString → List ℕ
string_ids ss = map (λ (s : UsbString). s.id) ss

-- Tables with these numbers and, in order, the languages and texts of others.
abbrev pub Translated : List ℕ → List Table → List Table → Type 0
Translated ids [] [] = Unit
Translated ids [] (u ∷ us) = ⊥
Translated ids (t ∷ ts) [] = ⊥
Translated ids (t ∷ ts) (u ∷ us) =
    ((u.language ≡ t.language) × (texts u.strings ≡ texts t.strings) × (string_ids u.strings ≡ ids))
    × Translated ids ts us

copy_strings_all :
    (unset : ℕ) (ss : List UsbString)
    → (copies : List UsbString) × (copy_strings unset (length ss) ss ≡ some copies)
      × (texts copies ≡ texts ss)
      × (length copies ≡ length ss)
unfolding copy_strings
copy_strings_all unset [] = ([], refl, refl, refl)
copy_strings_all unset (s ∷ ss) =
    let (copies, e, t, l) = copy_strings_all unset ss in
    (record s { id = unset } ∷ copies, rw e refl, ap (λ x. s.text ∷ x) t, ap suc l)

copy_ids_lem :
    (ms ss : List UsbString)
    → length ss ≡ length ms
    → (string_ids (copy_ids ms ss) ≡ string_ids ms) × (texts (copy_ids ms ss) ≡ texts ss)
unfolding copy_ids
copy_ids_lem [] [] e = (refl, refl)
copy_ids_lem [] (s ∷ ss) e = absurd (omega (arith, e))
copy_ids_lem (m ∷ ms) [] e = absurd (omega (arith, e))
copy_ids_lem (m ∷ ms) (s ∷ ss) e =
    let (i, t) = copy_ids_lem ms ss (omega (arith, e)) in
    (ap (λ x. m.id ∷ x) i, ap (λ x. s.text ∷ x) t)

numbers_same :
    (next : ℕ) (ss us : List UsbString) → length ss ≡ length us → numbers next ss ≡ numbers next us
numbers_same next [] [] e = refl
numbers_same next [] (u ∷ us) e = absurd (omega (arith, e))
numbers_same next (s ∷ ss) [] e = absurd (omega (arith, e))
numbers_same next (s ∷ ss) (u ∷ us) e =
    ap (λ l. (next + 1) ∷ l) (numbers_same (next + 1) ss us (omega (arith, e)))

length-texts : (ss us : List UsbString) → texts ss ≡ texts us → length ss ≡ length us
length-texts ss us e =
    sym (length-map ss (λ (s : UsbString). s.text))
    ∙ ap length e
    ∙ length-map us (λ (s : UsbString). s.text)

-- Tables of `n` strings each.
abbrev pub Sized : ℕ → List Table → Type 0
Sized n ts = All (λ (t : Table). length t.strings ≡ n) ts

-- Copies of tables: the languages and texts, and as many strings.
abbrev Copied : ℕ → List Table → List Table → Type 0
Copied n [] [] = Unit
Copied n [] (u ∷ us) = ⊥
Copied n (t ∷ ts) [] = ⊥
Copied n (t ∷ ts) (u ∷ us) =
    ((u.language ≡ t.language) × (texts u.strings ≡ texts t.strings) × (length u.strings ≡ n))
    × Copied n ts us

copy_strings_sized :
    (unset n : ℕ) (ss : List UsbString)
    → length ss ≡ n
    → (copies : List UsbString) × (copy_strings unset n ss ≡ some copies)
      × (texts copies ≡ texts ss)
      × (length copies ≡ n)
copy_strings_sized unset n ss e =
    subst
      (λ k.
        (copies : List UsbString) × (copy_strings unset k ss ≡ some copies)
        × (texts copies ≡ texts ss)
        × (length copies ≡ k))
      e (copy_strings_all unset ss)

copy_tables-Copied :
    (unset n : ℕ) (ts : List Table)
    → Sized n ts
    → (copies : List Table) × (copy_tables unset n ts ≡ some copies) × Copied n ts copies
unfolding copy_tables
copy_tables-Copied unset n [] z = ([], refl, tt)
copy_tables-Copied unset n (t ∷ ts) z =
    let (ss, e, x, l) = copy_strings_sized unset n t.strings z.0 in
    let (rest, f, r) = copy_tables-Copied unset n ts z.1 in
    (record t { strings = ss } ∷ rest, rw (copy_tables, e, f) refl, ((refl, x, l), r))

numbered-Translated :
    (first : List UsbString) (n : ℕ) (ts copies : List Table)
    → length first ≡ n
    → Copied n ts copies
    → Translated (string_ids first) ts (map (numbered_as first) copies)
numbered-Translated first n [] [] l c = tt
numbered-Translated first n [] (u ∷ us) l c = c
numbered-Translated first n (t ∷ ts) [] l c = c
numbered-Translated first n (t ∷ ts) (u ∷ us) l c =
    let (i, x) = copy_ids_lem first u.strings (c.0.2 ∙ sym l) in
    ((c.0.0, x ∙ c.0.1, i), numbered-Translated first n ts us l c.1)

-- The tables that were attached last, of which the first one's strings are returned.
abbrev pub IsAttached : ℕ → List (List Table) → List UsbString → List Table → Attached → Type 0
IsAttached next gstrings ss sp out =
    (first : Table) × (others : List Table) × (out.gstrings ≡ gstrings ++ ((first ∷ others) ∷ []))
    × (out.strings ≡ some first.strings)
    × (out.next_string_id ≡ next + length ss)
    × Translated (numbers next ss) sp (first ∷ others)

number_tables-IsAttached :
    (next n : ℕ) (gstrings : List (List Table)) (t : Table) (ts copies : List Table)
    → length t.strings ≡ n
    → next + n ≤ 254
    → Copied n (t ∷ ts) copies
    → IsAttached next gstrings t.strings (t ∷ ts) (number_tables next gstrings copies)
unfolding number_tables
number_tables-IsAttached next n gstrings t ts [] z b c = elim c [ ]
number_tables-IsAttached next n gstrings t ts (u ∷ us) z b c =
    let out = string_ids_tab next u.strings in
    elim (string_ids_tab_lem next u.strings (omega arith)) [
      | inl (k, e, i, m, x) ↦
          let same = c.0.2 ∙ sym z in
          let ids = m ∙ numbers_same next u.strings t.strings same in
          rw (number_tables, e)
            (
              record u { strings = out.1 },
              map (numbered_as out.1) us,
              refl,
              refl,
              i ∙ ap (λ k. next + k) same,
              (
                (c.0.0, x ∙ c.0.1, ids),
                subst (λ l. Translated l ts (map (numbered_as out.1) us)) ids
                    (numbered-Translated out.1 n ts us (length-texts out.1 u.strings x ∙ c.0.2)
                      c.1),
              ),
            )
      | inr (k, e, i) ↦ absurd (omega (arith, k, b, c.0.2))
    ]

-- Attaching tables for some languages, all with the same count of strings, to a device that has numbers
-- for them succeeds where there is memory: the device gets copies of all the tables, in their order,
-- with their languages and texts, and in each one the strings have the numbers after the last one that
-- was given out. The strings of the first copy are returned.
pub gstrings_attach-IsAttached :
    (unset next n : ℕ) (gstrings : List (List Table)) (t : Table) (ts : List Table)
    → Sized n (t ∷ ts)
    → next + n ≤ 254
    → (out : Attached) × (gstrings_attach true unset next gstrings n (t ∷ ts) ≡ some out)
      × IsAttached next gstrings t.strings (t ∷ ts) out
unfolding gstrings_attach
gstrings_attach-IsAttached unset next n gstrings t ts z b =
    let (copies, e, c) = copy_tables-Copied unset n (t ∷ ts) z in
    (
      number_tables next gstrings copies,
      rw (gstrings_attach, e) refl,
      number_tables-IsAttached next n gstrings t ts copies z.0 b c,
    )
