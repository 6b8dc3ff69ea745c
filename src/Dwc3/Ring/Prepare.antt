-- ===== src/Dwc3/Ring/Prepare.antt =====
-- `dwc3_prepare_trbs`: which requests it lays out, and where.
use unisoc_usb.Prelude.{◌⊎◌}
use unisoc_usb.Prelude.{
  ℕ, ◌+◌, ◌≤◌, ◌<◌, ◌≡◌, refl, sym, ap, map, map-append, append_assoc, subst, ◌∙◌, true, Bool, List,
  [], ◌∷◌, ◌++◌, All, length, arith, Bool-cases, inl, inr, ltb, ltb→le, ltb→lt, ==_iff, ◌==◌,
}
use unisoc_usb.Dwc3.Endpoint.{Request, Endpoint, Trb, buf_num}
use unisoc_usb.Dwc3.Ring.{mark, prepare_request, prepare_loop, prepare_trbs, calc_trbs_left}
use unisoc_usb.Dwc3.Ring.Invariant.{
  IsValid, IsPending, IsHonest, calc_trbs_left-le, need, used, rounds_pos, IsLaid-snoc, used-append,
}
use unisoc_usb.Dwc3.Ring.Write.{move_on, Writes, Ready, moved, prepare_request-Writes}

-- The requests of an endpoint in the order in which they are served.
abbrev pub line : Endpoint → List ℕ
line dep = map (λ (r : Request). r.id) (dep.req_queued ++ dep.request_list)

-- The request that is next for the ring does not fit beside `total` TRBs.
abbrev pub IsStopped : ℕ → List Request → List Request → Type 0
IsStopped total queue [] = Unit
IsStopped total queue (r ∷ rs) = total < used queue + need r

-- What `dwc3_prepare_trbs` keeps and reaches.
pub record Prepared (dep : Endpoint) (total : ℕ) (dep' : Endpoint) : Type 0 where
  pub valid : IsValid dep'
  pub order : line dep' ≡ line dep
  pub dequeue : dep'.trb_dequeue ≡ dep.trb_dequeue
  pub completed : dep'.completed ≡ dep.completed
  pub stopped : IsStopped total dep'.req_queued dep'.request_list

move_on-IsValid :
    (dep : Endpoint) (req : Request) (rest : List Request) (pool : List Trb)
    → IsValid dep
    → dep.request_list ≡ req ∷ rest
    → length pool ≡ length dep.trb_pool
    → used dep.req_queued + need req ≤ 1023
    → IsValid (move_on (moved dep req rest) pool (need req))
unfolding mark
move_on-IsValid dep req rest pool v l s f = record {
  pool = s ∙ v.pool;
  enqueue_in = omega arith;
  dequeue_in = v.dequeue_in;
  laid =
      IsLaid-snoc dep.trb_dequeue dep.req_queued dep.trb_enqueue (mark dep req) v.laid refl refl
        refl;
  fits = omega (arith, used-append dep.req_queued (mark dep req ∷ []));
  pending = (subst (All IsPending) l v.pending).1;
}

line-moved :
    (dep : Endpoint) (req : Request) (rest : List Request)
    → dep.request_list ≡ req ∷ rest
    → line (moved dep req rest) ≡ line dep
unfolding mark
line-moved dep req rest l = simp (l, map-append, append_assoc)

-- What one request changes.
record Advanced (dep : Endpoint) (rs : List Request) (left : ℕ) (out : Endpoint × ℕ × Bool)
    : Type 0 where
  valid : IsValid out.0
  rest : out.0.request_list ≡ rs
  total : out.1 + used out.0.req_queued ≡ left + used dep.req_queued
  order : line out.0 ≡ line dep
  dequeue : out.0.trb_dequeue ≡ dep.trb_dequeue
  completed : out.0.completed ≡ dep.completed
  cause : out.2 ≡ true → (out.1 ≡ 0) ⊎ (rs ≡ [])

advance :
    (dep : Endpoint) (r : Request) (rs : List Request) (left : ℕ) (out : Endpoint × ℕ × Bool)
    → IsValid dep
    → dep.request_list ≡ r ∷ rs
    → left + used dep.req_queued ≤ 1023
    → need r ≤ left
    → Writes (moved dep r rs) (need r) left out
    → Advanced dep rs left out
unfolding mark
advance dep r rs left out v l t f (pool, s, e, m, c) = record {
  valid = subst IsValid (sym e) (move_on-IsValid dep r rs pool v l s (omega arith));
  rest = ap (λ x. x.request_list) e;
  total =
      subst (λ (x : Endpoint). out.1 + used x.req_queued ≡ left + used dep.req_queued) (sym e)
        (omega (arith, used-append dep.req_queued (mark dep r ∷ [])));
  order = ap line e ∙ line-moved dep r rs l;
  dequeue = ap (λ x. x.trb_dequeue) e;
  completed = ap (λ x. x.completed) e;
  cause = λ b. subst (λ k. (out.1 ≡ 0) ⊎ (k ≡ [])) (ap (λ x. x.request_list) e) (c b);
}

-- Nothing is left to do where no TRB or no request is.
IsStopped-by_cause :
    (total left : ℕ) (queue rs : List Request)
    → left + used queue ≡ total
    → (left ≡ 0) ⊎ (rs ≡ [])
    → IsStopped total queue rs
IsStopped-by_cause total left queue [] t c = tt
IsStopped-by_cause total left queue (r ∷ rs) t c = ground (arith, rounds_pos (buf_num r))

advance-Ready :
    (dep : Endpoint) (r : Request) (rs : List Request) (left : ℕ)
    → IsValid dep
    → dep.request_list ≡ r ∷ rs
    → left + used dep.req_queued ≤ 1023
    → need r ≤ left
    → Ready dep r rs left
advance-Ready dep r rs left v l t f = record {
  first = l;
  fresh = (subst (All IsPending) l v.pending).0.1;
  enqueue_in = v.enqueue_in;
  room = f;
  word = omega arith;
}

Advanced-Prepared :
    (dep : Endpoint) (rs : List Request) (left : ℕ) (out : Endpoint × ℕ × Bool) (dep' : Endpoint)
    → Advanced dep rs left out
    → Prepared out.0 (out.1 + used out.0.req_queued) dep'
    → Prepared dep (left + used dep.req_queued) dep'
Advanced-Prepared dep rs left out dep' a p = record {
  valid = p.valid;
  order = p.order ∙ a.order;
  dequeue = p.dequeue ∙ a.dequeue;
  completed = p.completed ∙ a.completed;
  stopped = subst (λ k. IsStopped k dep'.req_queued dep'.request_list) a.total p.stopped;
}

Advanced-stopped :
    (dep : Endpoint) (rs : List Request) (left : ℕ) (out : Endpoint × ℕ × Bool)
    → Advanced dep rs left out
    → out.2 ≡ true
    → Prepared dep (left + used dep.req_queued) out.0
Advanced-stopped dep rs left out a b = Advanced-Prepared dep rs left out out.0 a (record {
  valid = a.valid;
  order = refl;
  dequeue = refl;
  completed = refl;
  stopped =
      IsStopped-by_cause _ out.1 out.0.req_queued out.0.request_list refl
        (subst (λ k. (out.1 ≡ 0) ⊎ (k ≡ [])) (sym a.rest) (a.cause b));
})

prepare_loop-Prepared :
    (rs : List Request) (left : ℕ) (dep : Endpoint)
    → IsValid dep
    → dep.request_list ≡ rs
    → left + used dep.req_queued ≤ 1023
    → Prepared dep (left + used dep.req_queued) (prepare_loop rs left dep)
unfolding prepare_loop
prepare_loop-Prepared [] left dep v l t = record {
  valid = v;
  order = refl;
  dequeue = refl;
  completed = refl;
  stopped = subst (IsStopped (left + used dep.req_queued) dep.req_queued) (sym l) tt;
}
prepare_loop-Prepared (r ∷ rs) left dep v l t = elim (Bool-cases (ltb left (need r))) [
  | inl short ↦ rw short (record {
    valid = v;
    order = refl;
    dequeue = refl;
    completed = refl;
    stopped =
        subst (IsStopped (left + used dep.req_queued) dep.req_queued) (sym l)
          (omega (arith, ltb→lt left (need r) short));
  })
  | inr fits ↦ rw fits (
      let out = prepare_request dep r r.bufs rs left in
      let f = ltb→le left (need r) fits in
      let a =
        advance dep r rs left out v l t f (
          prepare_request-Writes r.bufs dep r rs left refl (advance-Ready dep r rs left v l t f)) in
      elim (Bool-cases out.2) [
        | inl stop ↦ rw stop (Advanced-stopped dep rs left out a stop)
        | inr go ↦ rw go (
            Advanced-Prepared dep rs left out _ a
              (prepare_loop-Prepared rs out.1 out.0 a.valid a.rest (omega (arith, a.total))))
      ])
]

-- From a valid ring, of which the TRB before the enqueue pointer is the hardware's if it is full,
-- `dwc3_prepare_trbs` leaves a valid ring, with the same requests in the same order in the ring and
-- behind it, and leaves the dequeue pointer and the completed requests alone.
pub prepare_trbs-Prepared :
    (dep : Endpoint)
    → IsValid dep
    → IsHonest dep
    → IsValid (prepare_trbs dep)
      × (line (prepare_trbs dep) ≡ line dep)
      × ((prepare_trbs dep).trb_dequeue ≡ dep.trb_dequeue)
      × ((prepare_trbs dep).completed ≡ dep.completed)
unfolding prepare_trbs
prepare_trbs-Prepared dep v h = elim (Bool-cases (calc_trbs_left dep == 0)) [
  | inl z ↦ rw z (v, refl, refl, refl)
  | inr n ↦ rw n (
      let p =
        prepare_loop-Prepared dep.request_list (calc_trbs_left dep) dep v refl
          (calc_trbs_left-le dep v h) in
      (p.valid, p.order, p.dequeue, p.completed))
]

-- Where a ring is valid and its computed room is exact, the ring is filled: what still waits is nothing, or a request
-- that needs more TRBs than are free.
pub prepare_trbs_fills :
    (dep : Endpoint)
    → IsValid dep
    → calc_trbs_left dep + used dep.req_queued ≡ 1023
    → IsStopped 1023 (prepare_trbs dep).req_queued (prepare_trbs dep).request_list
unfolding prepare_trbs
prepare_trbs_fills dep v e = elim (Bool-cases (calc_trbs_left dep == 0)) [
  | inl z ↦ rw z (
      IsStopped-by_cause 1023 0 dep.req_queued dep.request_list
        (omega (arith, (==_iff (calc_trbs_left dep) 0).0 z)) (inl refl))
  | inr n ↦ rw n (
      let d = prepare_loop dep.request_list (calc_trbs_left dep) dep in
      subst (λ k. IsStopped k d.req_queued d.request_list) e
        (prepare_loop-Prepared dep.request_list (calc_trbs_left dep) dep v refl
          (omega arith)).stopped)
]
