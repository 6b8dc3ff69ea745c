-- ===== src/Dwc3/Transfer/Flags.antt =====
-- Endpoints that differ in their flags alone have the same ring.
use unisoc_usb.Prelude.{ℕ, ◌≡◌, ap₂, ◌++◌, map, List}
use unisoc_usb.Dwc3.Endpoint.{Request, Endpoint}
use unisoc_usb.Dwc3.Ring.Invariant.{IsValid}
use unisoc_usb.Dwc3.Ring.Prepare.{line}
use unisoc_usb.Dwc3.Ring.Giveback.{history, rev_append}

pub record SameRing (d d' : Endpoint) : Type 0 where
  pub pool : d'.trb_pool ≡ d.trb_pool
  pub enqueue : d'.trb_enqueue ≡ d.trb_enqueue
  pub dequeue : d'.trb_dequeue ≡ d.trb_dequeue
  pub queue : d'.req_queued ≡ d.req_queued
  pub pending : d'.request_list ≡ d.request_list
  pub completed : d'.completed ≡ d.completed

pub SameRing-IsValid : (d d' : Endpoint) → SameRing d d' → IsValid d → IsValid d'
SameRing-IsValid d d' s v = record {
  pool = rw s.pool v.pool;
  enqueue_in = rw s.enqueue v.enqueue_in;
  dequeue_in = rw s.dequeue v.dequeue_in;
  laid = rw (s.dequeue, s.queue, s.enqueue) v.laid;
  fits = rw s.queue v.fits;
  pending = rw s.pending v.pending;
}

pub SameRing-line : (d d' : Endpoint) → SameRing d d' → line d' ≡ line d
SameRing-line d d' s =
    ap₂ (λ (q p : List Request). map (λ (r : Request). r.id) (q ++ p)) s.queue s.pending

pub SameRing-history : (d d' : Endpoint) → SameRing d d' → history d' ≡ history d
SameRing-history d d' s =
    ap₂ (λ (c : List Request) (l : List ℕ). rev_append (map (λ (r : Request). r.id) c) l)
      s.completed (SameRing-line d d' s)

-- The endpoints wait for the same requests, and a transfer is in flight on both or on neither.
abbrev pub SameWait : Endpoint → Endpoint → Type 0
SameWait d d' =
    (d'.request_list ≡ d.request_list)
    × (d'.busy ≡ d.busy)
    × (d'.pending_request ≡ d.pending_request)
