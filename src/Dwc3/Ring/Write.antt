-- ===== src/Dwc3/Ring/Write.antt =====
-- The TRBs of one request: `dwc3_prepare_one_trb` and the loop over the buffers of a request.
use unisoc_usb.Prelude.{◌⊎◌}
use unisoc_usb.Prelude.{
  ℕ, suc, ◌+◌, ◌-◌, ◌%◌, ◌^◌, ◌≤◌, ◌<◌, ◌≡◌, refl, sym, ap, subst, not, ◌∙◌, true, false, Bool,
  List, [], ◌∷◌, ◌++◌, none, some, length, length-set, set, is_empty, arith, if◌then◌else◌, ==_refl,
  ◌==◌, ◌&&◌, ◌||◌,
}
use unisoc_usb.Dwc3.Endpoint.{Request, Endpoint, Cpdu, Trb, buf_num, list_del}
use unisoc_usb.Dwc3.Ring.{
  inc_trb, claim, write_trb, dec, mark, fill_trb, prepare_one_trb, prepare_bufs, prepare_request,
  rounds,
}
use unisoc_usb.Dwc3.Ring.Invariant.{need, inc_trb-mod, inc_trb-lt, rounds_pos}

-- A further TRB of a request that is in the ring already.
one_next :
    (dep : Endpoint) (req : Request) (dma len : ℕ) (last chain : Bool) (node t : ℕ)
    → req.trb ≡ some t
    → prepare_one_trb dep req dma len last chain node ≡ (
      record dep {
        trb_pool = set dep.trb_pool dep.trb_enqueue (fill_trb dep req dma len last chain node);
        trb_enqueue = inc_trb dep.trb_enqueue;
      },
      req,
    )
unfolding prepare_one_trb
one_next dep req dma len last chain node t e =
    ap (write_trb dma len last chain node) (ap (claim dep req) e)

-- The first TRB of the request at the head of `request_list`.
one_first :
    (dep : Endpoint) (req : Request) (rest : List Request) (dma len : ℕ) (last chain : Bool)
    (node : ℕ)
    → req.trb ≡ none
    → dep.request_list ≡ req ∷ rest
    → prepare_one_trb dep req dma len last chain node ≡ (
      record dep {
        trb_pool =
            set dep.trb_pool dep.trb_enqueue (fill_trb dep (mark dep req) dma len last chain node);
        trb_enqueue = inc_trb dep.trb_enqueue;
        request_list = rest;
        req_queued = dep.req_queued ++ (mark dep req ∷ []);
      },
      mark dep req,
    )
unfolding prepare_one_trb list_del fill_trb
one_first dep req rest dma len last chain node e l =
    ap (write_trb dma len last chain node) (ap (claim dep req) e ∙ moved)
  where
    moved : claim dep req none ≡ (
      record dep { request_list = rest; req_queued = dep.req_queued ++ (mark dep req ∷ []) },
      mark dep req,
    )
    moved = λ i. (
      record dep { request_list = removed i; req_queued = dep.req_queued ++ (mark dep req ∷ []) },
      mark dep req,
    )
      where
        removed : list_del req.id dep.request_list ≡ rest
        removed = rw (l, ==_refl req.id)

-- What the loops do to an endpoint: `n` TRBs are written, and the enqueue pointer moves on by `n`.
abbrev pub move_on : Endpoint → List Trb → ℕ → Endpoint
move_on dep pool n = record dep { trb_pool = pool; trb_enqueue = (dep.trb_enqueue + n) % 1023 }

abbrev pub Writes : Endpoint → ℕ → ℕ → Endpoint × ℕ × Bool → Type 0
Writes dep n left out =
    (pool : List Trb) × (length pool ≡ length dep.trb_pool)
    × (out.0 ≡ move_on dep pool n)
    × (out.1 ≡ left - n)
    × (out.2 ≡ true → (out.1 ≡ 0) ⊎ (out.0.request_list ≡ []))

move_on-zero : (dep : Endpoint) → dep.trb_enqueue < 1023 → dep ≡ move_on dep dep.trb_pool 0
move_on-zero dep h = λ i. record dep { trb_enqueue = same i }
  where
    same : dep.trb_enqueue ≡ (dep.trb_enqueue + 0) % 1023
    same = omega arith

move_on-one :
    (dep : Endpoint) (pool : List Trb)
    → dep.trb_enqueue < 1023
    → record dep { trb_pool = pool; trb_enqueue = inc_trb dep.trb_enqueue } ≡ move_on dep pool 1
move_on-one dep pool h =
    λ i. record dep { trb_pool = pool; trb_enqueue = inc_trb-mod dep.trb_enqueue h i }

move_on-move_on :
    (dep : Endpoint) (pool pool' : List Trb) (n : ℕ)
    → move_on (move_on dep pool 1) pool' n ≡ move_on dep pool' (suc n)
move_on-move_on dep pool pool' n = λ i. record dep { trb_pool = pool'; trb_enqueue = same i }
  where
    same : ((dep.trb_enqueue + 1) % 1023 + n) % 1023 ≡ (dep.trb_enqueue + suc n) % 1023
    same = omega arith

-- One round of the loop over buffers, whatever it writes.
round-Writes :
    (dep : Endpoint) (pool : List Trb) (last : Bool) (out : Endpoint × Request) (left left' n : ℕ)
    (more : Endpoint × ℕ × Bool)
    → left' ≡ left - 1
    → length pool ≡ length dep.trb_pool
    → out.0 ≡ move_on dep pool 1
    → (last ≡ true → n ≡ 0)
    → (last ≡ true → (left' ≡ 0) ⊎ (out.0.request_list ≡ []))
    → Writes out.0 n left' more
    → Writes dep (suc n) left (if last then (out.0, left', true) else more)
round-Writes dep pool true out left left' n more d s e z o w =
    (pool, s, e ∙ ap (λ k. move_on dep pool (suc k)) (sym (z refl)), omega (arith, z refl), o)
round-Writes dep pool false out left left' n more d s e z o (pool', s', e', l, o') = (
  pool',
  s' ∙ ap (λ x. length x.trb_pool) e ∙ s,
  e' ∙ ap (λ x. move_on x pool' n) e ∙ move_on-move_on dep pool pool' n,
  omega arith,
  o',
)

-- The loop stops early only at its last buffer.
stop_at_end :
    (bs : List Cpdu) (p : Bool) (left : ℕ)
    → suc (length bs) ≤ left
    → left < 2 ^ 32
    → (is_empty bs && p || dec left == 0) ≡ true
    → length bs ≡ 0
stop_at_end [] p left h w e = refl
stop_at_end (b ∷ bs) p left h w e = ground arith

-- What stops the loop: no TRB is left, or no request is.
stop_cause :
    (bs : List Cpdu) (rs : List Request) (left : ℕ)
    → (is_empty bs && is_empty rs || left == 0) ≡ true
    → (left ≡ 0) ⊎ (rs ≡ [])
stop_cause bs rs left e = ground arith

stop_cause_first :
    (bs : List Cpdu) (rs : List Request) (left : ℕ) {req : Request} {rest : List Request}
    → (is_empty bs && is_empty rs || left == 0) ≡ true
    → rs ≡ req ∷ rest
    → (left ≡ 0) ⊎ (rest ≡ [])
stop_cause_first bs rs left e f = ground arith

stop_cause_single :
    (rest : List Request) (left : ℕ)
    → (left == 0 || is_empty rest) ≡ true
    → (left ≡ 0) ⊎ (rest ≡ [])
stop_cause_single rest left e = ground arith

dec-sub : (left : ℕ) → 0 < left → left < 2 ^ 32 → dec left ≡ left - 1
dec-sub left h w = omega arith

-- The TRBs of a request that is in the ring already.
prepare_bufs-Writes :
    (bs : List Cpdu) (i left : ℕ) (dep : Endpoint) (req : Request) (t : ℕ)
    → req.trb ≡ some t
    → dep.trb_enqueue < 1023
    → length bs ≤ left
    → left < 2 ^ 32
    → Writes dep (length bs) left (prepare_bufs bs i left dep req)
unfolding prepare_bufs
prepare_bufs-Writes [] i left dep req t e h fit w =
    (dep.trb_pool, refl, move_on-zero dep h, omega arith, λ f. cc)
prepare_bufs-Writes (b ∷ bs) i left dep req t e h fit w =
    let last : Bool = is_empty bs && is_empty dep.request_list || dec left == 0 in
    let chain : Bool = not (is_empty bs) && not last in
    let first = one_next dep req b.dma b.len last chain i t e in
    let next : Endpoint = record dep {
      trb_pool = set dep.trb_pool dep.trb_enqueue (fill_trb dep req b.dma b.len last chain i);
      trb_enqueue = inc_trb dep.trb_enqueue;
    } in
    round-Writes dep next.trb_pool last (prepare_one_trb dep req b.dma b.len last chain i) left
      (dec left) (length bs) _ (dec-sub left (omega arith) w)
      (length-set dep.trb_pool dep.trb_enqueue _)
      (ap (λ x. x.0) first ∙ move_on-one dep next.trb_pool h)
      (stop_at_end bs (is_empty dep.request_list) left fit w)
      (λ z.
        subst (λ (o : Endpoint × Request). (dec left ≡ 0) ⊎ (o.0.request_list ≡ [])) (sym first)
          (stop_cause bs dep.request_list (dec left) z))
      (subst
        (λ (o : Endpoint × Request).
          Writes o.0 (length bs) (dec left) (prepare_bufs bs (i + 1) (dec left) o.0 o.1))
        (sym first)
        (prepare_bufs-Writes bs (i + 1) (dec left) next req t e (inc_trb-lt dep.trb_enqueue h)
          (omega arith) (omega arith)))

-- What is known of an endpoint before a request is laid out.
pub record Ready (dep : Endpoint) (req : Request) (rest : List Request) (left : ℕ) : Type 0 where
  pub first : dep.request_list ≡ req ∷ rest
  pub fresh : req.trb ≡ none
  pub enqueue_in : dep.trb_enqueue < 1023
  pub room : need req ≤ left
  pub word : left < 2 ^ 32

-- The endpoint after the request at the head of `request_list` has moved into the ring.
abbrev pub moved : Endpoint → Request → List Request → Endpoint
moved dep req rest = record dep {
  request_list = rest;
  req_queued = dep.req_queued ++ (mark dep req ∷ []);
}

-- One request takes as many TRBs as it has buffers, and one if it has none.
pub prepare_request-Writes :
    (bufs : List Cpdu) (dep : Endpoint) (req : Request) (rest : List Request) (left : ℕ)
    → req.bufs ≡ bufs
    → Ready dep req rest left
    → Writes
        (moved dep req rest)
        (rounds (length bufs))
        left
        (prepare_request dep req bufs rest left)
unfolding prepare_request prepare_bufs mark
prepare_request-Writes [] dep req rest left b r =
    let last : Bool = dec left == 0 || is_empty rest in
    let first = one_first dep req rest req.dma req.length last false 0 r.fresh r.first in
    (
      set dep.trb_pool dep.trb_enqueue
          (fill_trb dep (mark dep req) req.dma req.length last false 0),
      length-set dep.trb_pool dep.trb_enqueue _,
      ap (λ x. x.0) first ∙ move_on-one (moved dep req rest) _ r.enqueue_in,
      dec-sub left (omega (arith, rounds_pos (buf_num req))) r.word,
      λ z.
          subst (λ (o : Endpoint × Request). (dec left ≡ 0) ⊎ (o.0.request_list ≡ [])) (sym first)
            (stop_cause_single rest (dec left) z),
    )
prepare_request-Writes (b ∷ bs) dep req rest left q r =
    let room : suc (length bs) ≤ left = subst (λ l. rounds (length l) ≤ left) q r.room in
    let last : Bool = is_empty bs && is_empty dep.request_list || dec left == 0 in
    let chain : Bool = not (is_empty bs) && not last in
    let first = one_first dep req rest b.dma b.len last chain 0 r.fresh r.first in
    let next : Endpoint = record (moved dep req rest) {
      trb_pool =
          set dep.trb_pool dep.trb_enqueue (fill_trb dep (mark dep req) b.dma b.len last chain 0);
      trb_enqueue = inc_trb dep.trb_enqueue;
    } in
    round-Writes (moved dep req rest) next.trb_pool last
      (prepare_one_trb dep req b.dma b.len last chain 0) left (dec left) (length bs) _
      (dec-sub left (omega arith) r.word) (length-set dep.trb_pool dep.trb_enqueue _)
      (ap (λ x. x.0) first ∙ move_on-one (moved dep req rest) next.trb_pool r.enqueue_in)
      (stop_at_end bs (is_empty dep.request_list) left room r.word)
      (λ z.
        subst (λ (o : Endpoint × Request). (dec left ≡ 0) ⊎ (o.0.request_list ≡ [])) (sym first)
          (stop_cause_first bs dep.request_list (dec left) z r.first))
      (subst
        (λ (o : Endpoint × Request).
          Writes o.0 (length bs) (dec left) (prepare_bufs bs (0 + 1) (dec left) o.0 o.1))
        (sym first)
        (prepare_bufs-Writes bs (0 + 1) (dec left) next (mark dep req) dep.trb_enqueue refl
          (inc_trb-lt dep.trb_enqueue r.enqueue_in) (omega arith) (omega arith)))
