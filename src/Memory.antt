-- ===== src/Memory.antt =====
-- Allocated memory: blocks with numbers, `usb_malloc` and `usb_mem_free` of include/os_interface.h, and
-- who owns what. `SCI_ALLOC` and `SCI_FREE` below them are not in the repository.
use unisoc_usb.Prelude.{
  ℕ, ◌+◌, ◌≡◌, ◌≢◌, refl, sym, subst, append-nil, append_assoc, Bool, true, List, [], ◌∷◌, ◌++◌,
  Option, none, some, ◌==◌, if◌then◌else◌, if_each, arith, ==_apart,
}

-- The blocks that are allocated, how many were asked for so far, and how often one was freed that was
-- not allocated or a pointer was followed that is NULL.
pub record Heap : Type 0 where
  pub live : List ℕ
  pub next : ℕ
  pub faults : ℕ

abbrev pub count : ℕ → List ℕ → ℕ
count i [] = 0
count i (x ∷ xs) = (if i == x then 1 else 0) + count i xs

abbrev pub erase : ℕ → List ℕ → List ℕ
erase i [] = []
erase i (x ∷ xs) = if i == x then xs else x ∷ erase i xs

-- `usb_malloc`: `room` says which attempts succeed.
unfoldable pub malloc : (ℕ → Bool) → Heap → Heap × Option ℕ
malloc room h =
    if room h.next
    then (record h { live = h.next ∷ h.live; next = h.next + 1 }, some h.next)
    else (record h { next = h.next + 1 }, none)

-- `usb_mem_free`
unfoldable pub free : ℕ → Heap → Heap
free i h =
    if count i h.live == 0
    then record h { faults = h.faults + 1 }
    else record h { live = erase i h.live }

-- Freeing one after the other.
unfoldable pub free_all : List ℕ → Heap → Heap
free_all [] h = h
free_all (i ∷ is) h = free_all is (free i h)

-- Compared with `old`, just these blocks are allocated in addition, and nothing was freed wrongly.
pub record Holds (old : Heap) (owned : List ℕ) (h : Heap) : Type 0 where
  pub counted : (i : ℕ) → count i h.live ≡ count i owned + count i old.live
  pub sound : h.faults ≡ old.faults

pub count-append : (i : ℕ) (xs ys : List ℕ) → count i (xs ++ ys) ≡ count i xs + count i ys
count-append i [] ys = omega arith
count-append i (x ∷ xs) ys = omega (arith, count-append i xs ys)

pub count-erase :
    (i x : ℕ) (xs : List ℕ)
    → count x xs ≢ 0
    → count i xs ≡ (if i == x then 1 else 0) + count i (erase x xs)
count-erase i x [] h = absurd (h refl)
count-erase i x (y ∷ ys) h =
    if_each (λ (l : List ℕ). count i (y ∷ ys) ≡ (if i == x then 1 else 0) + count i l) (x == y)
      (λ e. ground (arith, e))
      λ e. ground (arith, e, count-erase i x ys (λ z. h (ground (arith, e, z))))

-- The order of what is owned does not matter.
pub Holds-same :
    (old h : Heap) (xs ys : List ℕ)
    → ((i : ℕ) → count i ys ≡ count i xs)
    → Holds old xs h
    → Holds old ys h
Holds-same old h xs ys e r = record {
  counted = λ i. omega (arith, e i, r.counted i);
  sound = r.sound;
}

pub Holds-swap : (old h : Heap) (xs ys : List ℕ) → Holds old (xs ++ ys) h → Holds old (ys ++ xs) h
Holds-swap old h xs ys =
    Holds-same old h (xs ++ ys) (ys ++ xs)
      λ i. omega (arith, count-append i xs ys, count-append i ys xs)

-- Three lists, the first of which goes behind the others.
pub Holds-rotate :
    (old h : Heap) (xs ys zs : List ℕ)
    → Holds old (xs ++ (ys ++ zs)) h
    → Holds old (ys ++ (zs ++ xs)) h
Holds-rotate old h xs ys zs r =
    subst (λ l. Holds old l h) (append_assoc ys zs xs) (Holds-swap old h xs (ys ++ zs) r)

pub refl-Holds : (h : Heap) → Holds h [] h
refl-Holds h = record { counted = λ i. omega arith; sound = refl }

pub free-Holds :
    (old h : Heap) (x : ℕ) (xs : List ℕ) → Holds old (x ∷ xs) h → Holds old xs (free x h)
unfolding free
free-Holds old h x xs r =
    if_each (Holds old xs) (count x h.live == 0) (λ e. absurd (ground (arith, e, r.counted x)))
      λ e. record {
        counted = λ i.
            ground (arith, count-erase i x h.live (==_apart (count x h.live) 0 e), r.counted i);
        sound = r.sound;
      }

pub free_all-Holds :
    (old h : Heap) (is xs : List ℕ) → Holds old (is ++ xs) h → Holds old xs (free_all is h)
unfolding free_all
free_all-Holds old h [] xs r = r
free_all-Holds old h (i ∷ is) xs r =
    free_all-Holds old (free i h) is xs (free-Holds old h i (is ++ xs) r)

-- What an allocation adds.
abbrev pub with_block : Option ℕ → List ℕ → List ℕ
with_block none xs = xs
with_block (some x) xs = x ∷ xs

pub malloc-Holds :
    (room : ℕ → Bool) (old h : Heap) (xs : List ℕ)
    → Holds old xs h
    → Holds old (with_block (malloc room h).1 xs) (malloc room h).0
unfolding malloc
malloc-Holds room old h xs r =
    if_each (λ (o : Heap × Option ℕ). Holds old (with_block o.1 xs) o.0) (room h.next)
      (λ e. record { counted = λ i. omega (arith, r.counted i); sound = r.sound })
      (λ e. record { counted = r.counted; sound = r.sound })

pub free_only-Holds : (old h : Heap) (is : List ℕ) → Holds old is h → Holds old [] (free_all is h)
free_only-Holds old h is r =
    free_all-Holds old h is [] (subst (λ l. Holds old l h) (sym (append-nil is)) r)

-- Where there is room for every block, each request for memory is met.
pub malloc_there :
    (room : ℕ → Bool) (h : Heap) → ((n : ℕ) → room n ≡ true) → (malloc room h).1 ≢ none
unfolding malloc
malloc_there room h full e = absurd (ground (arith, e, full h.next))
