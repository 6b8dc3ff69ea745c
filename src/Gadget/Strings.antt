-- ===== src/Gadget/Strings.antt =====
-- String descriptors and string numbers, from gadget/composite.c.
pub mod Ids
pub mod Languages
pub mod Attach
use unisoc_usb.Prelude.{
  ℕ, zero, suc, ◌+◌, ◌-◌, ◌*◌, ◌/◌, ◌%◌, ◌^◌, Bool, true, false, not, ◌&&◌, ◌||◌, List, [], ◌∷◌,
  ◌++◌, Option, none, some, Errno, Code, Result, ok, err, length, replicate, drop, min, ltb, ◌==◌,
  if◌then◌else◌,
}

-- `struct usb_string`; `text` is the string's bytes before the NUL.
pub record UsbString : Type 0 where
  pub id : ℕ
  pub text : List ℕ

-- `struct usb_gadget_strings`, one language's.
pub record Table : Type 0 where
  pub language : ℕ
  pub strings : List UsbString

-- Bytes written to the start of a buffer.
abbrev pub write : List ℕ → List ℕ → List ℕ
write bs buf = bs ++ drop (length bs) buf

abbrev pub find_string : ℕ → List UsbString → Option UsbString
find_string id [] = none
find_string id (s ∷ ss) = if s.id == id then some s else find_string id ss

-- `usb_gadget_get_string`, for a table with strings: what it leaves in the buffer, and its value. The
-- conversion of the text is commented out, so the buffer gets the first two bytes only.
pub gadget_get_string : Table → ℕ → List ℕ → List ℕ × Result ℕ
gadget_get_string table id buf =
    let lang = 4 ∷ 3 ∷ (table.language % 2 ^ 8) ∷ (table.language / 2 ^ 8 % 2 ^ 8) ∷ [] in
    if id == 0 then (write lang buf, ok 4) else (elim (find_string id table.strings) [
      | none ↦ (buf, err Errno.einval)
      | some s ↦
          let size = (min 126 (length s.text) + 1) * 2 in (write (size ∷ 3 ∷ []) buf, ok size)
    ])

-- `lookup_string`
pub lookup_string : List Table → List ℕ → ℕ → ℕ → List ℕ × Result ℕ
lookup_string [] buf language id = (buf, err Errno.einval)
lookup_string (s ∷ sp) buf language id =
    let found = gadget_get_string s id buf in
    let rest = lookup_string sp buf language id in
    let retry = lookup_string sp found.0 language id in
    if not (s.language == language) then rest else (elim found.1 [
      | ok value ↦ if ltb 0 value then (found.0, ok value) else retry
      | err e ↦ retry
    ])

-- The inner loop of `collect_langs` over the 16-bit words of the descriptor, up to the 126th.
pub put_lang : ℕ → List ℕ → ℕ → List ℕ
put_lang room [] language = []
put_lang zero (w ∷ ws) language = language ∷ ws
put_lang (suc room) (w ∷ ws) language =
    let later = put_lang room ws language in
    if w == 0 then language ∷ ws else (if w == language then w ∷ ws else w ∷ later)

-- `collect_langs`
pub collect_langs : List Table → List ℕ → List ℕ
collect_langs [] words = words
collect_langs (s ∷ sp) words = collect_langs sp (put_lang 126 words s.language)

-- The tables of a device: those attached to it, the driver's, each configuration's with its
-- functions'. A pointer that is NULL is an empty list.
pub record Tables : Type 0 where
  pub gstrings : List (List Table)
  pub driver : List Table
  pub configs : List (List (List Table))

abbrev pub concat {ℓ} : {A : Type ℓ} → List (List A) → List A
concat [] = []
concat (x ∷ xs) = x ++ concat xs

-- How many languages stand before the first word that is 0.
pub used_words : List ℕ → ℕ
used_words [] = 0
used_words (w ∷ ws) = let rest = used_words ws in if w == 0 then 0 else suc rest

-- The words as bytes, low byte first.
abbrev pub word_bytes : List ℕ → List ℕ
word_bytes [] = []
word_bytes (w ∷ ws) = (w % 2 ^ 8) ∷ (w / 2 ^ 8 % 2 ^ 8) ∷ word_bytes ws

-- `get_string` for the string 0: the languages. The descriptor has 127 words; its length is a byte.
pub get_langs : Tables → List ℕ → List ℕ × Result ℕ
get_langs t buf =
    let words =
      collect_langs (concat t.gstrings)
        (collect_langs (concat (concat t.configs)) (collect_langs t.driver (replicate 127 0))) in
    let len = used_words words in
    let size = 2 * (len + 1) % 2 ^ 8 in
    if len == 0
    then (write (0 ∷ 3 ∷ word_bytes words) buf, err Errno.einval)
    else (write (size ∷ 3 ∷ word_bytes words) buf, ok size)

-- `get_string` for any other string, without OS strings: the first table that has it.
pub get_text : List (List Table) → List ℕ → ℕ → ℕ → List ℕ × Result ℕ
get_text [] buf language id = (buf, err Errno.einval)
get_text (sp ∷ sps) buf language id =
    let found = lookup_string sp buf language id in
    let rest = get_text sps found.0 language id in
    elim found.1 [ ok value ↦ if ltb 0 value then (found.0, ok value) else rest | err e ↦ rest ]

-- `get_string` where no OS string is used.
pub get_string : Tables → List ℕ → ℕ → ℕ → List ℕ × Result ℕ
get_string t buf language id =
    if id == 0
    then get_langs t buf
    else get_text (t.gstrings ++ (t.driver ∷ concat t.configs)) buf language id

-- `usb_string_id`, on the number given out last
pub string_id : ℕ → ℕ × Result ℕ
string_id next = if ltb next 254 then (next + 1, ok (next + 1)) else (next, err Errno.enodev)

-- The loop of `usb_string_ids_tab` over a table's strings: the number after it where all got one, and
-- the strings, of which those before a failure are numbered.
pub number_strings : ℕ → List UsbString → Option ℕ × List UsbString
number_strings next [] = (some next, [])
number_strings next (s ∷ ss) =
    let rest = number_strings (next + 1) ss in
    if ltb next 254 then (rest.0, record s { id = next + 1 } ∷ rest.1) else (none, s ∷ ss)

-- `usb_string_ids_tab`: the number given out last, the strings, and the return code.
pub string_ids_tab : ℕ → List UsbString → ℕ × List UsbString × Code
string_ids_tab next ss =
    let out = number_strings next ss in
    elim out.0 [ none ↦ (next, out.1, some Errno.enodev) | some last ↦ (last, out.1, none) ]

-- `usb_string_ids_n`; `next + n` is below 2^32 where it is tested.
pub string_ids_n : ℕ → ℕ → ℕ × Result ℕ
string_ids_n next n =
    if ltb 254 n || ltb 254 (next + n) then (next, err Errno.enodev) else (next + n, ok (next + 1))
