-- ===== src/Dwc3/Ring/Invariant.antt =====
-- The well-formedness of a TRB ring: where the requests of `req_queued` lie in it.
use unisoc_usb.Prelude.{
  ℕ, zero, suc, ◌+◌, ◌%◌, ◌≤◌, ◌<◌, ◌≡◌, ◌≢◌, true, false, List, [], ◌∷◌, ◌++◌, none, some, All,
  length, arith,
}
use unisoc_usb.Dwc3.Endpoint.{Request, Endpoint, trb_num, buf_num}
use unisoc_usb.Dwc3.Ring.{inc_trb, calc_trbs_left, prev_trb, is_hwo, rounds}

-- How many TRBs a request takes, and how many a list of requests does.
abbrev pub need : Request → ℕ
need r = rounds (buf_num r)

abbrev pub used : List Request → ℕ
used [] = 0
used (r ∷ rs) = need r + used rs

-- The entries of the ring in use are those between `from` and `to`, request by request.
abbrev pub IsLaid : ℕ → List Request → ℕ → Type 0
IsLaid from [] to = from ≡ to
IsLaid from (r ∷ rs) to =
    (r.queued ≡ true)
    × (r.trb ≡ some from)
    × (r.start_slot ≡ from)
    × IsLaid ((from + need r) % 1023) rs to

-- A request that is not in the ring.
abbrev pub IsPending : Request → Type 0
IsPending r = (r.queued ≡ false) × (r.trb ≡ none)

pub record IsValid (dep : Endpoint) : Type 0 where
  pub pool : length dep.trb_pool ≡ trb_num
  pub enqueue_in : dep.trb_enqueue < 1023
  pub dequeue_in : dep.trb_dequeue < 1023
  pub laid : IsLaid dep.trb_dequeue dep.req_queued dep.trb_enqueue
  pub fits : used dep.req_queued ≤ 1023
  pub pending : All IsPending dep.request_list

pub inc_trb-mod : (i : ℕ) → i < 1023 → inc_trb i ≡ (i + 1) % 1023
unfolding inc_trb
inc_trb-mod i h = ground arith

pub inc_trb-lt : (i : ℕ) → i < 1023 → inc_trb i < 1023
unfolding inc_trb
inc_trb-lt i h = ground arith

pub rounds_pos : (n : ℕ) → 0 < rounds n
rounds_pos zero = omega arith
rounds_pos (suc n) = omega arith

-- The request that is laid last ends where the list ends.
pub IsLaid-end :
    (from : ℕ) (rs : List Request) (to : ℕ)
    → from < 1023
    → IsLaid from rs to
    → to ≡ (from + used rs) % 1023
IsLaid-end from [] to h e = omega arith
IsLaid-end from (r ∷ rs) to h l =
    omega (arith, IsLaid-end ((from + need r) % 1023) rs to (omega arith) l.3)

pub IsLaid-snoc :
    (from : ℕ) (rs : List Request) (mid : ℕ) (r : Request)
    → IsLaid from rs mid
    → r.queued ≡ true
    → r.trb ≡ some mid
    → r.start_slot ≡ mid
    → IsLaid from (rs ++ (r ∷ [])) ((mid + need r) % 1023)
IsLaid-snoc from [] mid r e q t s = ground arith
IsLaid-snoc from (x ∷ rs) mid r l q t s =
    (l.0, l.1, l.2, IsLaid-snoc ((from + need x) % 1023) rs mid r l.3 q t s)

pub used-append : (xs ys : List Request) → used (xs ++ ys) ≡ used xs + used ys
used-append [] ys = omega arith
used-append (x ∷ xs) ys = omega (arith, used-append xs ys)

-- The ring is full, and the TRB before the enqueue pointer is still the hardware's.
abbrev pub IsHonest : Endpoint → Type 0
IsHonest dep = used dep.req_queued ≡ 1023 → is_hwo (prev_trb dep dep.trb_enqueue) ≡ true

-- Away from the ambiguous case the computed room is the exact one.
pub calc_trbs_left_exact :
    (dep : Endpoint)
    → IsValid dep
    → dep.trb_enqueue ≢ dep.trb_dequeue
    → calc_trbs_left dep + used dep.req_queued ≡ 1023
unfolding calc_trbs_left
calc_trbs_left_exact dep v ne =
    ground (arith, IsLaid-end dep.trb_dequeue dep.req_queued dep.trb_enqueue v.dequeue_in v.laid)

-- A valid ring, of which the TRB before the enqueue pointer is the hardware's if it is full, never
-- promises more TRBs than are free.
pub calc_trbs_left-le :
    (dep : Endpoint) → IsValid dep → IsHonest dep → calc_trbs_left dep + used dep.req_queued ≤ 1023
unfolding calc_trbs_left
calc_trbs_left-le dep v h =
    ground (arith, IsLaid-end dep.trb_dequeue dep.req_queued dep.trb_enqueue v.dequeue_in v.laid)

-- Honesty depends on the pool, the enqueue pointer and the requests in the ring.
pub IsHonest-of_same :
    (d d' : Endpoint)
    → d'.trb_pool ≡ d.trb_pool
    → d'.trb_enqueue ≡ d.trb_enqueue
    → d'.req_queued ≡ d.req_queued
    → IsHonest d
    → IsHonest d'
unfolding prev_trb
IsHonest-of_same d d' p e q h = rw (p, e, q) h
