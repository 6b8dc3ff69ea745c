-- ===== src/Wcn/Requests.antt =====
-- The requests of an endpoint: `gwcn_req_alloc` of gadget/u_wcn_composite.c. A request is the block of
-- memory that it stands in.
use unisoc_usb.Prelude.{
  ℕ, zero, suc, ◌+◌, ◌-◌, ◌≤◌, ◌≡◌, ◌≢◌, refl, ap, subst, Bool, List, [], ◌∷◌, ◌++◌, Option, none,
  some, Code, Errno, ltb, ◌==◌, if◌then◌else◌, if_each, if_both, option_each, option_both, arith,
  length, take, drop, is_empty,
}
use unisoc_usb.Memory.{
  Heap, Holds, Holds-same, malloc, malloc-Holds, free_all, free_all-Holds, count, count-append,
  with_block,
}

-- What `gwcn_req_alloc` leaves: the list of requests, the memory, and the return code.
pub record Alloc : Type 0 where
  pub reqs : List ℕ
  pub heap : Heap
  pub code : Code

-- `room` says which attempts to get memory succeed.
module _ (room : ℕ → Bool) where
  -- The second loop of `gwcn_req_alloc`, with this many requests to go.
  pub top_up : ℕ → List ℕ → Heap → Alloc
  top_up zero reqs h = record { reqs = reqs; heap = h; code = none }
  top_up (suc i) reqs h = elim (malloc room h).1 [
    | none ↦ record {
      reqs = reqs;
      heap = (malloc room h).0;
      code = if is_empty reqs then some Errno.enomem else none;
    }
    | some req ↦ top_up i (req ∷ reqs) (malloc room h).0
  ]

  -- `gwcn_req_alloc`
  pub req_alloc : List ℕ → ℕ → Heap → Alloc
  req_alloc reqs n h =
      let more = top_up (n - length reqs) reqs h in
      if n == 0
      then record { reqs = reqs; heap = h; code = some Errno.enomem }
      else (if ltb n (length reqs)
          then record { reqs = take n reqs; heap = free_all (drop n reqs) h; code = none }
          else more)

-- `DEFAULT_QLEN`, which `qlen` gives whatever the multiplier is.
abbrev pub qlen : ℕ
qlen = 2

-- A list of requests that were asked for: no more than `n`, and some where the code is 0.
pub record IsFilled (n : ℕ) (a : Alloc) : Type 0 where
  pub bounded : length a.reqs ≤ n
  pub some_there : a.code ≡ none → 1 ≤ length a.reqs
  pub none_there : a.code ≢ none → a.reqs ≡ []

length-take : {A : Type 0} (n : ℕ) (xs : List A) → n ≤ length xs → length (take n xs) ≡ n
length-take zero xs h = refl
length-take (suc n) [] h = absurd (omega arith)
length-take (suc n) (x ∷ xs) h = ap suc (length-take n xs (omega arith))

take-drop : {A : Type 0} (n : ℕ) (xs : List A) → take n xs ++ drop n xs ≡ xs
take-drop zero xs = refl
take-drop (suc n) [] = refl
take-drop (suc n) (x ∷ xs) = ap (λ l. x ∷ l) (take-drop n xs)

swapped :
    (i n : ℕ) (xs rest : List ℕ) → count i (drop n xs ++ (take n xs ++ rest)) ≡ count i (xs ++ rest)
swapped i n xs rest = ground (
  arith,
  count-append i (drop n xs) (take n xs ++ rest),
  count-append i (take n xs) rest,
  count-append i xs rest,
  count-append i (take n xs) (drop n xs),
  ap (λ l. count i l) (take-drop n xs),
)

module _ (room : ℕ → Bool) where
  top_up-IsFilled :
      (i n : ℕ) (reqs : List ℕ) (h : Heap)
      → length reqs + i ≡ n
      → 1 ≤ n
      → IsFilled n (top_up room i reqs h)
  unfolding top_up
  top_up-IsFilled zero n reqs h e p = record {
    bounded = omega (arith, e);
    some_there = λ c. omega (arith, e);
    none_there = λ c. absurd (c refl);
  }
  top_up-IsFilled (suc i) n reqs h e p =
      option_both (IsFilled n) (malloc room h).1 (stopped reqs (omega (arith, e)))
        λ req. top_up-IsFilled i n (req ∷ reqs) (malloc room h).0 (omega (arith, e)) p
    where
      stopped :
          (reqs : List ℕ)
          → length reqs ≤ n
          → IsFilled n (record {
            reqs = reqs;
            heap = (malloc room h).0;
            code = if is_empty reqs then some Errno.enomem else none;
          })
      stopped [] b = record {
        bounded = b;
        some_there = λ c. absurd (ground (arith, c));
        none_there = λ c. refl;
      }
      stopped (x ∷ xs) b = record {
        bounded = b;
        some_there = λ c. omega arith;
        none_there = λ c. absurd (c refl);
      }

  -- Asking for one request or more, `n`, of which some may be there already, leaves up to `n` of them on
  -- the list; it succeeds just if there is at least one.
  pub req_alloc-IsFilled :
      (reqs : List ℕ) (n : ℕ) (h : Heap) → 1 ≤ n → IsFilled n (req_alloc room reqs n h)
  unfolding req_alloc
  req_alloc-IsFilled reqs n h p =
      if_each (IsFilled n) (n == 0) (λ e. absurd (ground (arith, e)))
        λ e.
          if_each (IsFilled n) (ltb n (length reqs))
            (λ l. record {
              bounded = omega (arith, length-take n reqs (ground (arith, l)));
              some_there = λ c. omega (arith, length-take n reqs (ground (arith, l)));
              none_there = λ c. absurd (c refl);
            })
            (λ l. top_up-IsFilled (n - length reqs) n reqs h (ground (arith, l)) p)

  -- What a list of requests and other blocks own.
  abbrev pub Keeps : List ℕ → Heap → Alloc → Type 0
  Keeps rest old a = Holds old (a.reqs ++ rest) a.heap

  top_up-Holds :
      (i : ℕ) (reqs rest : List ℕ) (old h : Heap)
      → Holds old (reqs ++ rest) h
      → Holds old ((top_up room i reqs h).reqs ++ rest) (top_up room i reqs h).heap
  unfolding top_up
  top_up-Holds zero reqs rest old h r = r
  top_up-Holds (suc i) reqs rest old h r =
      option_each (Keeps rest old) (malloc room h).1 (λ e. after none e)
        λ req e. top_up-Holds i (req ∷ reqs) rest old (malloc room h).0 (after (some req) e)
    where
      after :
          (o : Option ℕ)
          → (malloc room h).1 ≡ o
          → Holds old (with_block o (reqs ++ rest)) (malloc room h).0
      after o e =
          subst (λ b. Holds old (with_block b (reqs ++ rest)) (malloc room h).0) e
            (malloc-Holds room old h (reqs ++ rest) r)

  -- Whatever is asked for, the requests on the list are all that it owns of the memory.
  pub req_alloc-Holds :
      (reqs : List ℕ) (n : ℕ) (rest : List ℕ) (old h : Heap)
      → Holds old (reqs ++ rest) h
      → Holds old ((req_alloc room reqs n h).reqs ++ rest) (req_alloc room reqs n h).heap
  unfolding req_alloc
  req_alloc-Holds reqs n rest old h r = if_both (Keeps rest old) (n == 0) r (
      if_both (Keeps rest old) (ltb n (length reqs))
        (free_all-Holds old h (drop n reqs) (take n reqs ++ rest) (
          Holds-same old h (reqs ++ rest) (drop n reqs ++ (take n reqs ++ rest))
            (λ i. swapped i n reqs rest) r))
        (top_up-Holds (n - length reqs) reqs rest old h r))
