-- ===== src/Wcn/Transmit/Order.antt =====
-- What sending keeps: the requests, and the order of the links.
use unisoc_usb.Prelude.{
  ℕ, ◌+◌, ◌<◌, ◌≡◌, refl, sym, ap, ◌∙◌, not, List, [], ◌∷◌, ◌++◌, map, none, some, Code, if_both,
  arith, append_assoc, append-nil, map-append,
}
use unisoc_usb.Memory.{count, count-append}
use unisoc_usb.Wcn.Transmit.{
  TxReq, Popped, Tx, Sent, addr_to_chn, chn_to_addr, loaded, queue_tx, start_xmit, handed,
  xmit_complete, tx_busy, Step, send, done, run, accepts, accepted_all, ids, uses, links, short,
}

ids-append :
    (i : ℕ) (xs ys : List TxReq) → count i (ids (xs ++ ys)) ≡ count i (ids xs) + count i (ids ys)
ids-append i xs ys =
    ap (count i) (map-append (λ (r : TxReq). r.id) xs ys) ∙ count-append i (ids xs) (ids ys)

-- A step that takes a request from one place to another.
queue_tx-uses :
    (i : ℕ) (code : Code) (r : TxReq) (t : Tx)
    → uses i (queue_tx code r t).0 ≡ count i (r.id ∷ []) + uses i t
unfolding queue_tx
queue_tx-uses i none r t = omega (arith, ids-append i t.flight (r ∷ []))
queue_tx-uses i (some e) r t = omega arith

start_xmit-uses :
    (i : ℕ) (code : Code) (l : Popped) (t : Tx) (pool : List TxReq)
    → t.pool ≡ pool
    → uses i (start_xmit code l t).0 ≡ uses i t
unfolding start_xmit
start_xmit-uses i code l t [] e = ground (arith, e)
start_xmit-uses i code l t (r ∷ rs) e =
    ground (arith, e, queue_tx-uses i code (loaded r l) (record t { pool = rs }))

xmit_complete-uses :
    (i : ℕ) (t : Tx) (flight : List TxReq) → t.flight ≡ flight → uses i (xmit_complete t) ≡ uses i t
unfolding xmit_complete
xmit_complete-uses i t [] e = ground (arith, e)
xmit_complete-uses i t (r ∷ rs) e =
    ground (arith, e, ids-append i t.pool (record r { buf_head = none; buf_num = 0 } ∷ []))

-- A request is always at one place.
run-uses : (i : ℕ) (steps : List Step) (t : Tx) → uses i (run steps t) ≡ uses i t
run-uses i [] t = refl
run-uses i (send code l ∷ later) t =
    run-uses i later (start_xmit code l t).0 ∙ start_xmit-uses i code l t t.pool refl
run-uses i (done ∷ later) t =
    run-uses i later (xmit_complete t) ∙ xmit_complete-uses i t t.flight refl

queue_tx-links :
    (code : Code) (r : TxReq) (l : Popped) (t : Tx)
    → links (queue_tx code (loaded r l) t).0
      ≡ links t ++ map short (accepts (queue_tx code (loaded r l) t).1 l)
unfolding queue_tx
queue_tx-links none r l t =
    ap (λ ls. t.popped ++ ls) (map-append handed t.flight (loaded r l ∷ []))
    ∙ sym (append_assoc t.popped (map handed t.flight) (short l ∷ []))
queue_tx-links (some e) r l t = sym (append-nil (links t))

-- What a step makes of the links.
abbrev Extends : Tx → Popped → Tx × Sent → Type 0
Extends t l out = links out.0 ≡ links t ++ map short (accepts out.1 l)

taken-Extends :
    (code : Code) (l : Popped) (t : Tx) (pool : List TxReq)
    → Extends t l (elim pool [
      | [] ↦ (t, tx_busy)
      | r ∷ rs ↦ queue_tx code (loaded r l) (record t { pool = rs })
    ])
taken-Extends code l t [] = sym (append-nil (links t))
taken-Extends code l t (r ∷ rs) = queue_tx-links code r l (record t { pool = rs })

start_xmit-links : (code : Code) (l : Popped) (t : Tx) → Extends t l (start_xmit code l t)
unfolding start_xmit
start_xmit-links code l t =
    let refused = sym (append-nil (links t)) in
    if_both (Extends t l) (not t.has_ep) refused
      (if_both (Extends t l) (not t.has_reqs) refused (taken-Extends code l t t.pool))

completed-links :
    (t : Tx) (flight : List TxReq)
    → t.flight ≡ flight
    → links (elim flight [
      | [] ↦ t
      | r ∷ rs ↦ record t {
        flight = rs;
        popped = t.popped ++ (handed r ∷ []);
        pool = t.pool ++ (record r { buf_head = none; buf_num = 0 } ∷ []);
      }
    ])
      ≡ t.popped ++ map handed flight
completed-links t [] e = ap (λ fs. t.popped ++ map handed fs) e
completed-links t (r ∷ rs) e = append_assoc t.popped (handed r ∷ []) (map handed rs)

xmit_complete-links : (t : Tx) → links (xmit_complete t) ≡ links t
unfolding xmit_complete
xmit_complete-links t = completed-links t t.flight refl

run-links :
    (steps : List Step) (t : Tx) → links (run steps t) ≡ links t ++ map short (accepted_all steps t)
run-links [] t = sym (append-nil (links t))
run-links (send code l ∷ later) t =
    let now = (start_xmit code l t).0 in
    let mine = accepts (start_xmit code l t).1 l in
    let rest = accepted_all later now in
    run-links later now
    ∙ ap (λ ls. ls ++ map short rest) (start_xmit-links code l t)
    ∙ append_assoc (links t) (map short mine) (map short rest)
    ∙ ap (λ ls. links t ++ ls) (sym (map-append short mine rest))
run-links (done ∷ later) t =
    run-links later (xmit_complete t)
    ∙ ap (λ ls. ls ++ map short (accepted_all later (xmit_complete t))) (xmit_complete-links t)

-- Whatever is sent and completes, links are handed back in the order in which they were accepted, each
-- one once, with its first buffer and its number of buffers, but with the first buffer for the last
-- one too; and each request is on the channel's list, in the endpoint's queue or lost to a queue that
-- refused it as often as before.
pub run_lem :
    (steps : List Step) (t : Tx)
    → (links (run steps t) ≡ links t ++ map short (accepted_all steps t))
      × ((i : ℕ) → uses i (run steps t) ≡ uses i t)
run_lem steps t = (run-links steps t, λ i. run-uses i steps t)

-- A channel's address leads back to it.
addr_to_chn-chn_to_addr : (chn : ℕ) → chn < 144 → addr_to_chn (chn_to_addr chn) ≡ chn
unfolding addr_to_chn chn_to_addr
addr_to_chn-chn_to_addr chn h = omega (arith, h)
