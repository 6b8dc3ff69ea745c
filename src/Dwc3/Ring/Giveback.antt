-- ===== src/Dwc3/Ring/Giveback.antt =====
-- `dwc3_gadget_giveback`: how requests leave the ring.
use unisoc_usb.Prelude.{
  ℕ, zero, suc, ◌+◌, ◌%◌, ◌≤◌, ◌<◌, ◌≡◌, refl, ap, subst, ◌∙◌, sym, true, false, List, [], ◌∷◌,
  none, Code, All, arith, if_both, if◌then◌else◌, ==_refl, map,
}
use unisoc_usb.Dwc3.Endpoint.{Request, Endpoint, buf_num, list_del, is_in_progress}
use unisoc_usb.Dwc3.Ring.{inc_deq_times, inc_deq, giveback, giveback_all, rounds}
use unisoc_usb.Dwc3.Ring.Invariant.{IsValid, IsLaid, IsPending, need, used, inc_trb-mod, inc_trb-lt}
use unisoc_usb.Dwc3.Ring.Prepare.{line}

-- The request as its completion callback sees it.
abbrev pub finished : Request → Code → Request
finished r status = record r {
  queued = false;
  trb = none;
  status = if is_in_progress r.status then status else r.status;
}

inc_deq_times-mod :
    (n : ℕ) (dep : Endpoint)
    → dep.trb_dequeue < 1023
    → inc_deq_times n dep ≡ record dep { trb_dequeue = (dep.trb_dequeue + n) % 1023 }
unfolding inc_deq_times inc_deq
inc_deq_times-mod zero dep h = λ i. record dep { trb_dequeue = same i }
  where
    same : dep.trb_dequeue ≡ (dep.trb_dequeue + 0) % 1023
    same = omega arith
inc_deq_times-mod (suc n) dep h =
    inc_deq_times-mod n (inc_deq dep) (inc_trb-lt dep.trb_dequeue h)
    ∙ (λ i. record dep { trb_dequeue = (inc_trb-mod dep.trb_dequeue h i + n) % 1023 })
    ∙ λ i. record dep { trb_dequeue = same i }
  where
    same : ((dep.trb_dequeue + 1) % 1023 + n) % 1023 ≡ (dep.trb_dequeue + suc n) % 1023
    same = omega arith

inc_deq_times-desc : (n : ℕ) (dep : Endpoint) → (inc_deq_times n dep).desc ≡ dep.desc
unfolding inc_deq_times inc_deq
inc_deq_times-desc zero dep = refl
inc_deq_times-desc (suc n) dep = inc_deq_times-desc n (inc_deq dep)

pub giveback-desc :
    (dep : Endpoint) (r : Request) (status : Code) → (giveback dep r status).desc ≡ dep.desc
unfolding giveback inc_deq
giveback-desc dep r status = ground (arith, inc_deq_times-desc (rounds (buf_num r)) dep)

-- Giving back the oldest request in the ring frees exactly its TRBs.
pub giveback_queued :
    (dep : Endpoint) (r : Request) (a : ℕ) (rs : List Request) (status : Code)
    → dep.trb_dequeue < 1023
    → r.queued ≡ true
    → dep.req_queued ≡ r ∷ rs
    → giveback dep (record r { actual = a }) status ≡ record dep {
      trb_dequeue = (dep.trb_dequeue + need r) % 1023;
      req_queued = rs;
      completed = finished (record r { actual = a }) status ∷ dep.completed;
    }
unfolding giveback list_del
giveback_queued dep r a rs status h q l = simp q (λ i. record (inc_deq_times-mod (need r) dep h i) {
  req_queued = removed i;
  completed = finished (record r { actual = a }) status ∷ dep.completed;
})
  where
    removed : list_del r.id dep.req_queued ≡ rs
    removed = rw (l, ==_refl r.id)

pub giveback_pending :
    (dep : Endpoint) (r : Request) (rs : List Request) (status : Code)
    → r.queued ≡ false
    → dep.request_list ≡ r ∷ rs
    → giveback dep r status
      ≡ record dep { request_list = rs; completed = finished r status ∷ dep.completed }
unfolding giveback list_del
giveback_pending dep r rs status q l =
    simp q
      (λ i. record dep { request_list = removed i; completed = finished r status ∷ dep.completed })
  where
    removed : list_del r.id dep.request_list ≡ rs
    removed = rw (l, ==_refl r.id)

-- Giving back the oldest request of a valid ring, whatever length was transferred, leaves a valid ring
-- without it, keeps what waits, and hands it out with the status that is given unless it has its own.
pub giveback-IsValid :
    (dep : Endpoint) (r : Request) (a : ℕ) (rs : List Request) (status : Code)
    → IsValid dep
    → dep.req_queued ≡ r ∷ rs
    → let d = giveback dep (record r { actual = a }) status in
      IsValid d
      × (d.req_queued ≡ rs)
      × (d.request_list ≡ dep.request_list)
      × (d.completed ≡ finished (record r { actual = a }) status ∷ dep.completed)
giveback-IsValid dep r a rs status v l =
    let laid = subst (λ k. IsLaid dep.trb_dequeue k dep.trb_enqueue) l v.laid in
    let fits = subst (λ k. used k ≤ 1023) l v.fits in
    let e = giveback_queued dep r a rs status v.dequeue_in laid.0 l in
    (
      subst IsValid (sym e) (record {
        pool = v.pool;
        enqueue_in = v.enqueue_in;
        dequeue_in = omega arith;
        laid = laid.3;
        fits = omega arith;
        pending = v.pending;
      }),
      ap (λ x. x.req_queued) e,
      ap (λ x. x.request_list) e,
      ap (λ x. x.completed) e,
    )

pub giveback_pending-IsValid :
    (dep : Endpoint) (r : Request) (rs : List Request) (status : Code)
    → IsValid dep
    → dep.request_list ≡ r ∷ rs
    → IsValid (giveback dep r status)
      × ((giveback dep r status).req_queued ≡ dep.req_queued)
      × ((giveback dep r status).request_list ≡ rs)
      × ((giveback dep r status).completed ≡ finished r status ∷ dep.completed)
giveback_pending-IsValid dep r rs status v l =
    let p = subst (All IsPending) l v.pending in
    let e = giveback_pending dep r rs status p.0.0 l in
    (
      subst IsValid (sym e) (record {
        pool = v.pool;
        enqueue_in = v.enqueue_in;
        dequeue_in = v.dequeue_in;
        laid = v.laid;
        fits = v.fits;
        pending = p.1;
      }),
      ap (λ x. x.req_queued) e,
      ap (λ x. x.request_list) e,
      ap (λ x. x.completed) e,
    )

-- The requests of a list as they are handed out one after the other, the last one first.
abbrev pub handed_out : List Request → Code → List Request → List Request
handed_out [] status done = done
handed_out (r ∷ rs) status done = handed_out rs status (finished r status ∷ done)

-- Giving back all of a list empties it, and hands its requests out in their order.
pub giveback_all_queued :
    (rs : List Request) (status : Code) (dep : Endpoint)
    → IsValid dep
    → dep.req_queued ≡ rs
    → let d = giveback_all rs status dep in
      IsValid d
      × (d.req_queued ≡ [])
      × (d.request_list ≡ dep.request_list)
      × (d.completed ≡ handed_out rs status dep.completed)
unfolding giveback_all
giveback_all_queued [] status dep v l = (v, l, refl, refl)
giveback_all_queued (r ∷ rs) status dep v l =
    let (v', q, p, c) = giveback-IsValid dep r r.actual rs status v l in
    let (v'', q', p', c') = giveback_all_queued rs status (giveback dep r status) v' q in
    (v'', q', p' ∙ p, c' ∙ ap (handed_out rs status) c)

pub giveback_all_pending :
    (rs : List Request) (status : Code) (dep : Endpoint)
    → IsValid dep
    → dep.request_list ≡ rs
    → let d = giveback_all rs status dep in
      IsValid d
      × (d.req_queued ≡ dep.req_queued)
      × (d.request_list ≡ [])
      × (d.completed ≡ handed_out rs status dep.completed)
unfolding giveback_all
giveback_all_pending [] status dep v l = (v, refl, l, refl)
giveback_all_pending (r ∷ rs) status dep v l =
    let (v', q, p, c) = giveback_pending-IsValid dep r rs status v l in
    let (v'', q', p', c') = giveback_all_pending rs status (giveback dep r status) v' p in
    (v'', q' ∙ q, p', c' ∙ ap (handed_out rs status) c)

-- Identifiers in the order in which requests were queued: those handed out, then those that wait.
abbrev pub rev_append : List ℕ → List ℕ → List ℕ
rev_append [] later = later
rev_append (i ∷ is) later = rev_append is (i ∷ later)

abbrev pub history : Endpoint → List ℕ
history dep = rev_append (map (λ (r : Request). r.id) dep.completed) (line dep)

pub giveback-history :
    (dep : Endpoint) (r : Request) (a : ℕ) (rs : List Request) (status : Code)
    → IsValid dep
    → dep.req_queued ≡ r ∷ rs
    → history (giveback dep (record r { actual = a }) status) ≡ history dep
giveback-history dep r a rs status v l =
    let (v', q, p, c) = giveback-IsValid dep r a rs status v l in simp (q, p, c, l)

history_pending :
    (dep : Endpoint) (r : Request) (rs : List Request) (status : Code)
    → IsValid dep
    → dep.req_queued ≡ []
    → dep.request_list ≡ r ∷ rs
    → history (giveback dep r status) ≡ history dep
history_pending dep r rs status v e l =
    let (v', q, p, c) = giveback_pending-IsValid dep r rs status v l in simp (q, p, c, l, e)

-- Giving back a request that is not in the ring takes it off the list of those that wait.
pub giveback_unmarked :
    (dep : Endpoint) (r : Request) (status : Code)
    → r.queued ≡ false
    → ((giveback dep r status).request_list ≡ list_del r.id dep.request_list)
      × ((giveback dep r status).busy ≡ dep.busy)
      × ((giveback dep r status).pending_request ≡ dep.pending_request)
unfolding giveback
giveback_unmarked dep r status u = rw u (refl, refl, refl)

inc_deq_times-transfer :
    (n : ℕ) (dep : Endpoint)
    → ((inc_deq_times n dep).busy ≡ dep.busy)
      × ((inc_deq_times n dep).resource_index ≡ dep.resource_index)
      × ((inc_deq_times n dep).number ≡ dep.number)
unfolding inc_deq_times inc_deq
inc_deq_times-transfer zero dep = (refl, refl, refl)
inc_deq_times-transfer (suc n) dep = inc_deq_times-transfer n (inc_deq dep)

-- Giving back is not about the transfer.
pub giveback_transfer :
    (dep : Endpoint) (r : Request) (status : Code)
    → ((giveback dep r status).busy ≡ dep.busy)
      × ((giveback dep r status).resource_index ≡ dep.resource_index)
      × ((giveback dep r status).number ≡ dep.number)
unfolding giveback
giveback_transfer dep r status =
    let k = inc_deq_times-transfer (rounds (buf_num r)) dep in
    if_both
      (λ (d : Endpoint).
        (d.busy ≡ dep.busy) × (d.resource_index ≡ dep.resource_index) × (d.number ≡ dep.number))
      r.queued k (refl, refl, refl)
