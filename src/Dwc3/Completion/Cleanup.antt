-- ===== src/Dwc3/Completion/Cleanup.antt =====
-- `dwc3_cleanup_done_reqs`: which requests a transfer event completes.
use unisoc_usb.Prelude.{
  ℕ, zero, suc, ◌+◌, ◌-◌, ◌%◌, ◌≤◌, ◌<◌, ◌≡◌, refl, subst, ◌∙◌, Bool, List, [], ◌∷◌, Code, arith,
  Bool-cases, inl, inr,
}
use unisoc_usb.Dwc3.Endpoint.{Request, Endpoint, buf_num}
use unisoc_usb.Dwc3.Ring.{giveback}
use unisoc_usb.Dwc3.Ring.Invariant.{IsValid, need, used, rounds_pos}
use unisoc_usb.Dwc3.Ring.Giveback.{giveback-IsValid, giveback-history, giveback-desc, history}
use unisoc_usb.Dwc3.Completion.{Depevt, trb_at, cleanup_trb, cleanup_trbs, cleanup_reqs, slot_of}

-- Cleaning up reads, for a request that starts in the ring, its slots in the order in which they are
-- written, round the link TRB.
pub slot_of-mod : (start i : ℕ) → start < 1023 → i < 1023 → slot_of start i ≡ (start + i) % 1023
unfolding slot_of
slot_of-mod start i h k = ground arith

-- All that the TRBs of a request change.
cleanup_trbs_changes :
    (more i : ℕ) (dep : Endpoint) (req : Request) (event : Depevt)
    → (m : Bool) × (a : ℕ) × ((cleanup_trbs more i dep req event).0
        ≡ record dep { missed_isoc = m })
      × ((cleanup_trbs more i dep req event).1 ≡ record req { actual = a })
unfolding cleanup_trbs cleanup_trb
cleanup_trbs_changes zero i dep req event = (_, _, refl, refl)
cleanup_trbs_changes (suc more) i dep req event =
    let out = cleanup_trb dep req (trb_at dep.trb_pool (slot_of req.start_slot i)) event in
    let (m, a, e, f) = cleanup_trbs_changes more (i + 1) out.0 out.1 event in
    elim (Bool-cases out.2) [
      | inl stop ↦ simp stop (out.0.missed_isoc, out.1.actual, refl, refl)
      | inr go ↦ simp go (m, a, e, f)
    ]

-- Giving back the head of the ring after its TRBs are cleaned up.
record Given (dep : Endpoint) (r : Request) (rs : List Request) (status : Code) (d : Endpoint)
    : Type 0 where
  valid : IsValid d
  queue : d.req_queued ≡ rs
  pending : d.request_list ≡ dep.request_list
  order : history d ≡ history dep
  desc : d.desc ≡ dep.desc

given :
    (dep : Endpoint) (r : Request) (rs : List Request) (status : Code) (m : Bool) (a : ℕ)
    → IsValid dep
    → dep.req_queued ≡ r ∷ rs
    → Given dep r rs status
        (giveback (record dep { missed_isoc = m }) (record r { actual = a }) status)
given dep r rs status m a v l =
    let d : Endpoint = record dep { missed_isoc = m } in
    let v' : IsValid d = record {
      pool = v.pool;
      enqueue_in = v.enqueue_in;
      dequeue_in = v.dequeue_in;
      laid = v.laid;
      fits = v.fits;
      pending = v.pending;
    } in
    let (w, q, p, c) = giveback-IsValid d r a rs status v' l in
    record {
      valid = w;
      queue = q;
      pending = p;
      order = giveback-history d r a rs status v' l;
      desc = giveback-desc d (record r { actual = a }) status;
    }

cleaned :
    (dep : Endpoint) (r : Request) (rs : List Request) (event : Depevt) (status : Code)
    → IsValid dep
    → dep.req_queued ≡ r ∷ rs
    → let out = cleanup_trbs (buf_num r - 1) 0 dep r event in
      Given dep r rs status (giveback out.0 out.1 status)
cleaned dep r rs event status v l =
    let (m, a, e, f) = cleanup_trbs_changes (buf_num r - 1) 0 dep r event in
    simp (e, f) (given dep r rs status m a v l)

-- What a cleanup keeps: the ring is valid, requests leave it oldest first and none is lost, and what
-- waits outside the ring goes on waiting.
pub record Cleaned (dep d : Endpoint) : Type 0 where
  pub valid : IsValid d
  pub order : history d ≡ history dep
  pub pending : d.request_list ≡ dep.request_list
  pub desc : d.desc ≡ dep.desc
  pub room : used d.req_queued < 1023

-- Whatever TRBs and event a cleanup of a valid ring meets, the ring stays valid, requests leave it oldest
-- first and none is lost, what waits goes on waiting, and afterwards the ring is not full.
pub cleanup_reqs-Cleaned :
    (rs : List Request) (dep : Endpoint) (event : Depevt) (status : Code)
    → IsValid dep
    → dep.req_queued ≡ rs
    → Cleaned dep (cleanup_reqs rs dep event status).0
unfolding cleanup_reqs
cleanup_reqs-Cleaned [] dep event status v l = record {
  valid = v;
  order = refl;
  pending = refl;
  desc = refl;
  room = rw l (omega arith);
}
cleanup_reqs-Cleaned (r ∷ rs) dep event status v l =
    let out = cleanup_trbs (buf_num r - 1) 0 dep r event in
    let d = giveback out.0 out.1 status in
    let g = cleaned dep r rs event status v l in
    let fits : need r + used rs ≤ 1023 = subst (λ k. used k ≤ 1023) l v.fits in
    let less : used d.req_queued < 1023 = rw g.queue (omega (arith, rounds_pos (buf_num r))) in
    let c = cleanup_reqs-Cleaned rs d event status g.valid g.queue in
    elim (Bool-cases out.2) [
      | inl stop ↦ rw stop (record {
        valid = g.valid;
        order = g.order;
        pending = g.pending;
        desc = g.desc;
        room = less;
      })
      | inr go ↦ rw go (record {
        valid = c.valid;
        order = c.order ∙ g.order;
        pending = c.pending ∙ g.pending;
        desc = c.desc ∙ g.desc;
        room = c.room;
      })
    ]
