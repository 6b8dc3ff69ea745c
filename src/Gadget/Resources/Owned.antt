-- ===== src/Gadget/Resources/Owned.antt =====
-- The blocks that a composite device owns while it is bound.
use unisoc_usb.Prelude.{
  ℕ, zero, suc, ◌+◌, ◌≡◌, ◌≢◌, refl, subst, ◌∙◌, Bool, true, List, [], ◌∷◌, ◌++◌, Option, none,
  some, sym, if_both, if◌then◌else◌, option_each, option_both, arith, append_assoc,
}
use unisoc_usb.Memory.{
  Heap, Holds, Holds-same, malloc, malloc-Holds, malloc_there, free, free-Holds, free_all-Holds,
  count, count-append, with_block,
}
use unisoc_usb.Gadget.Resources.{
  CtrlReq, Owner, Prepared, free_ptr, free_req, dev_cleanup, read_driver, unbind, with_buffer,
  with_request, dev_prepare, with_os_buffer, with_os_request, attach,
}

abbrev pub pointed : Option ℕ → List ℕ
pointed none = []
pointed (some i) = i ∷ []

abbrev pub blocks : Option CtrlReq → List ℕ
blocks none = []
blocks (some r) = pointed r.buf ++ (r.block ∷ [])

-- The blocks that a device owns.
abbrev pub owned : Owner → List ℕ
owned c =
    c.gstrings
    ++ (blocks c.os_desc_req ++ (blocks c.req ++ (pointed c.def_manufacturer ++ (c.block ∷ []))))

free_ptr-Holds :
    (old h : Heap) (o : Option ℕ) (xs : List ℕ)
    → Holds old (pointed o ++ xs) h
    → Holds old xs (free_ptr o h)
free_ptr-Holds old h none xs r = r
free_ptr-Holds old h (some i) xs r = free-Holds old h i xs r

free_req-Holds :
    (old h : Heap) (o : Option CtrlReq) (xs : List ℕ)
    → Holds old (blocks o ++ xs) h
    → Holds old xs (free_req o h)
free_req-Holds old h none xs r = r
free_req-Holds old h (some q) xs r = free-Holds old (free_ptr q.buf h) q.block xs (
    free_ptr-Holds old h q.buf (q.block ∷ xs)
      (subst (λ l. Holds old l h) (append_assoc (pointed q.buf) (q.block ∷ []) xs) r))

-- Unbinding frees all that a device with a driver owns.
pub unbind-Holds :
    (old h : Heap) (c : Owner) → c.driver ≡ true → Holds old (owned c) h → Holds old [] (unbind c h)
unfolding unbind dev_cleanup read_driver
unbind-Holds old h c d r =
    let there =
      subst (λ b. Holds old (owned c) (if b then h else record h { faults = h.faults + 1 })) (sym d)
        r in
    let strings = free_all-Holds old _ c.gstrings _ there in
    let os = free_req-Holds old _ c.os_desc_req _ strings in
    let ctrl = free_req-Holds old _ c.req _ os in
    free-Holds old _ c.block [] (free_ptr-Holds old _ c.def_manufacturer (c.block ∷ []) ctrl)

abbrev tally : ℕ → Owner → ℕ
tally i c =
    count i c.gstrings
    + (count i (blocks c.os_desc_req)
        + (count i (blocks c.req)
            + (count i (pointed c.def_manufacturer) + count i (c.block ∷ []))))

pub count-owned : (i : ℕ) (c : Owner) → count i (owned c) ≡ tally i c
count-owned i c =
    let last = c.block ∷ [] in
    let behind = pointed c.def_manufacturer ++ last in
    omega (
      arith,
      count-append i c.gstrings (blocks c.os_desc_req ++ (blocks c.req ++ behind)),
      count-append i (blocks c.os_desc_req) (blocks c.req ++ behind),
      count-append i (blocks c.req) behind,
      count-append i (pointed c.def_manufacturer) last,
    )

-- Blocks that a device gains.
gains :
    (old h : Heap) (c d : Owner) (xs : List ℕ)
    → ((i : ℕ) → tally i d ≡ count i xs + tally i c)
    → Holds old (xs ++ owned c) h
    → Holds old (owned d) h
gains old h c d xs e =
    Holds-same old h (xs ++ owned c) (owned d)
      λ i. omega (arith, e i, count-owned i c, count-owned i d, count-append i xs (owned c))

-- A device that owns what it should.
abbrev pub Owns : Heap → Prepared → Type 0
Owns old p = Holds old (owned p.owner) p.heap

module _ (room : ℕ → Bool) where
  after_block :
      (old h : Heap) (o : Option ℕ) (xs : List ℕ)
      → Holds old xs h
      → (malloc room h).1 ≡ o
      → Holds old (with_block o xs) (malloc room h).0
  after_block old h o xs r e =
      subst (λ b. Holds old (with_block b xs) (malloc room h).0) e (malloc-Holds room old h xs r)

  with_buffer-Owns :
      (old : Heap) (q : ℕ) (c : Owner) (got : Heap × Option ℕ)
      → c.req ≡ none
      → Holds old (with_block got.1 (q ∷ owned c)) got.0
      → Owns old (with_buffer room q c got)
  unfolding with_buffer
  with_buffer-Owns old q c (h, none) e r =
      gains old (free q h) c (record c { req = none }) [] (λ i. ground (arith, e))
        (free-Holds old h q (owned c) r)
  with_buffer-Owns old q c (h, some buf) e r =
      gains old h c (record c { req = some (record { block = q; buf = some buf }); driver = true })
        (buf ∷ q ∷ []) (λ i. ground (arith, e)) r

  with_request-Owns :
      (old : Heap) (c : Owner) (got : Heap × Option ℕ)
      → c.req ≡ none
      → Holds old (with_block got.1 (owned c)) got.0
      → Owns old (with_request room c got)
  unfolding with_request
  with_request-Owns old c (h, none) e r =
      gains old h c (record c { req = none }) [] (λ i. ground (arith, e)) r
  with_request-Owns old c (h, some q) e r =
      with_buffer-Owns old q c (malloc room h) e (malloc-Holds room old h (q ∷ owned c) r)

  pub dev_prepare-Owns :
      (old h : Heap) (c : Owner)
      → c.req ≡ none
      → Holds old (owned c) h
      → Owns old (dev_prepare room c h)
  unfolding dev_prepare
  dev_prepare-Owns old h c e r =
      with_request-Owns old c (malloc room h) e (malloc-Holds room old h (owned c) r)

  pub attach-Owns :
      (n : ℕ) (old h : Heap) (c : Owner)
      → Holds old (owned c) h
      → Holds old (owned (attach room n c h).0) (attach room n c h).1
  unfolding attach
  attach-Owns zero old h c r = r
  attach-Owns (suc n) old h c r =
      option_each (λ (x : Owner × Heap). Holds old (owned x.0) x.1) (malloc room h).1
        (λ e. after_block old h none (owned c) r e)
        λ uc e.
          attach-Owns n old (malloc room h).0 (record c { gstrings = c.gstrings ++ (uc ∷ []) })
            (gains old (malloc room h).0 c (record c { gstrings = c.gstrings ++ (uc ∷ []) })
              (uc ∷ []) (λ i. omega (arith, count-append i c.gstrings (uc ∷ [])))
              (after_block old h (some uc) (owned c) r e))

  -- Where the request for OS descriptors gets a buffer.
  with_os_buffer-Owns :
      (old : Heap) (q : ℕ) (c : Owner) (got : Heap × Option ℕ)
      → c.os_desc_req ≡ none
      → got.1 ≢ none
      → Holds old (with_block got.1 (q ∷ owned c)) got.0
      → Owns old (with_os_buffer room q c got)
  unfolding with_os_buffer
  with_os_buffer-Owns old q c (h, none) e n r = absurd (n refl)
  with_os_buffer-Owns old q c (h, some buf) e n r =
      gains old h c (record c { os_desc_req = some (record { block = q; buf = some buf }) })
        (buf ∷ q ∷ []) (λ i. ground (arith, e)) r

  -- Memory is there for everything.
  abbrev pub HasRoom : Type 0
  HasRoom = (n : ℕ) → room n ≡ true

  pub with_os_request-Owns :
      (old : Heap) (c : Owner) (got : Heap × Option ℕ)
      → HasRoom
      → c.os_desc_req ≡ none
      → Holds old (with_block got.1 (owned c)) got.0
      → Owns old (with_os_request room c got)
  unfolding with_os_request
  with_os_request-Owns old c (h, none) full e r =
      gains old h c (record c { os_desc_req = none }) [] (λ i. ground (arith, e)) r
  with_os_request-Owns old c (h, some q) full e r =
      with_os_buffer-Owns old q c (malloc room h) e (malloc_there room h full)
        (malloc-Holds room old h (q ∷ owned c) r)

  pub attach_keeps :
      (n : ℕ) (h : Heap) (c : Owner)
      → c.os_desc_req ≡ none
      → (attach room n c h).0.os_desc_req ≡ none
  unfolding attach
  attach_keeps zero h c e = e
  attach_keeps (suc n) h c e =
      option_both (λ (x : Owner × Heap). x.0.os_desc_req ≡ none) (malloc room h).1 e
        λ uc. attach_keeps n (malloc room h).0 (record c { gstrings = c.gstrings ++ (uc ∷ []) }) e

  pub attach_driver :
      (n : ℕ) (h : Heap) (c : Owner) → c.driver ≡ true → (attach room n c h).0.driver ≡ true
  unfolding attach
  attach_driver zero h c e = e
  attach_driver (suc n) h c e =
      option_both (λ (x : Owner × Heap). x.0.driver ≡ true) (malloc room h).1 e
        λ uc. attach_driver n (malloc room h).0 (record c { gstrings = c.gstrings ++ (uc ∷ []) }) e

  with_os_buffer_driver :
      (q : ℕ) (c : Owner) (got : Heap × Option ℕ)
      → (with_os_buffer room q c got).owner.driver ≡ c.driver
  unfolding with_os_buffer
  with_os_buffer_driver q c (h, none) = refl
  with_os_buffer_driver q c (h, some buf) = refl

  pub with_os_request_driver :
      (c : Owner) (got : Heap × Option ℕ) → (with_os_request room c got).owner.driver ≡ c.driver
  unfolding with_os_request
  with_os_request_driver c (h, none) = refl
  with_os_request_driver c (h, some q) = with_os_buffer_driver q c (malloc room h)

  -- Memory for the control request and its buffer: the next two attempts succeed.
  abbrev pub HasControl : ℕ → Type 0
  HasControl n = (room n ≡ true) × (room (n + 1) ≡ true)

  pub dev_prepare_driver :
      (h : Heap) (c : Owner) → HasControl h.next → (dev_prepare room c h).owner.driver ≡ true
  unfolding dev_prepare with_request with_buffer malloc
  dev_prepare_driver h c m = rw (m.0, m.1) refl

  pub malloc_next : (h : Heap) → (malloc room h).0.next ≡ h.next + 1
  unfolding malloc
  malloc_next h = if_both (λ (x : Heap × Option ℕ). x.0.next ≡ h.next + 1) (room h.next) refl refl

  with_buffer_keeps :
      (q : ℕ) (c : Owner) (got : Heap × Option ℕ)
      → (with_buffer room q c got).owner.os_desc_req ≡ c.os_desc_req
  unfolding with_buffer
  with_buffer_keeps q c (h, none) = refl
  with_buffer_keeps q c (h, some buf) = refl

  with_request_keeps :
      (c : Owner) (got : Heap × Option ℕ)
      → (with_request room c got).owner.os_desc_req ≡ c.os_desc_req
  unfolding with_request
  with_request_keeps c (h, none) = refl
  with_request_keeps c (h, some q) = with_buffer_keeps q c (malloc room h)

  pub dev_prepare_keeps :
      (h : Heap) (c : Owner)
      → c.os_desc_req ≡ none
      → (dev_prepare room c h).owner.os_desc_req ≡ none
  unfolding dev_prepare
  dev_prepare_keeps h c e = with_request_keeps c (malloc room h) ∙ e
