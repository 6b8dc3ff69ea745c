-- ===== src/Dwc3/Ring.antt =====
-- The TRB ring of an endpoint, from udc/dwc3/gadget.c: how many TRBs are free, how requests are laid
-- out in the ring, and how they leave it.
pub mod Invariant
pub mod Write
pub mod Prepare
pub mod Giveback
use unisoc_usb.Prelude.{
  ℕ, zero, suc, ◌+◌, ◌-◌, ◌*◌, ◌/◌, ◌%◌, ◌^◌, Bool, true, false, not, ◌&&◌, ◌||◌, List, [], ◌∷◌,
  ◌++◌, Option, none, some, Code, Errno, length, get_elem?, set, is_empty, ltb, ◌==◌, if◌then◌else◌,
}
use unisoc_usb.Dwc3.Endpoint.{
  XferType, TrbCtrl, Trb, Cpdu, Request, Endpoint, trb_num, buf_num, is_isoc, is_bulk,
  is_in_progress, list_del,
}

-- The index after `index`; the last entry of the pool is the link TRB.
pub inc_trb : ℕ → ℕ
inc_trb index = let next = (index + 1) % 2 ^ 32 in if next == trb_num - 1 then 0 else next

inc_enq : Endpoint → Endpoint
unfolding inc_trb
inc_enq dep = record dep { trb_enqueue = inc_trb dep.trb_enqueue }

inc_deq : Endpoint → Endpoint
unfolding inc_trb
inc_deq dep = record dep { trb_dequeue = inc_trb dep.trb_dequeue }

-- The rounds of `do … while (++i < buf_num)`.
abbrev pub rounds : ℕ → ℕ
rounds zero = 1
rounds (suc n) = suc n

inc_deq_times : ℕ → Endpoint → Endpoint
inc_deq_times zero dep = dep
inc_deq_times (suc n) dep = inc_deq_times n (inc_deq dep)

-- `dwc3_ep_prev_trb`
pub prev_trb : Endpoint → ℕ → Option Trb
prev_trb dep index =
    get_elem? dep.trb_pool (if index == 0 then trb_num - 2 else dep.trb_enqueue - 1)

pub is_hwo : Option Trb → Bool
is_hwo none = false
is_hwo (some t) = t.ctrl.hwo

-- `dwc3_calc_trbs_left`; `&= (DWC3_TRB_NUM - 1)` keeps the low ten bits.
pub calc_trbs_left : Endpoint → ℕ
unfolding prev_trb is_hwo
calc_trbs_left dep =
    if dep.trb_enqueue == dep.trb_dequeue
    then if is_hwo (prev_trb dep dep.trb_enqueue) then 0 else trb_num - 1
    else (let left = (dep.trb_dequeue + 2 ^ 32 - dep.trb_enqueue) % 2 ^ 32 % trb_num in
        if ltb dep.trb_dequeue dep.trb_enqueue then (left + 2 ^ 32 - 1) % 2 ^ 32 else left)

-- The type of the TRB at position `node` of its request.
trb_type : Option XferType → ℕ → ℕ
trb_type none node = 0
trb_type (some XferType.control) node = 2
trb_type (some XferType.isoc) zero = 6
trb_type (some XferType.isoc) (suc node) = 7
trb_type (some XferType.bulk) node = 1
trb_type (some XferType.int) node = 1

-- The control word that `dwc3_prepare_one_trb` writes.
trb_ctrl : Endpoint → Request → Bool → Bool → ℕ → TrbCtrl
unfolding trb_type
trb_ctrl dep req last chain node = record {
  hwo = true;
  lst = not (is_isoc dep.desc) && last;
  chn = chain;
  csp = is_isoc dep.desc;
  isp_imi = is_isoc dep.desc;
  ioc = not req.no_interrupt && not chain;
  trbctl = trb_type dep.desc node;
  sid = if is_bulk dep.desc && dep.stream_capable then req.stream_id % 2 ^ 16 else 0;
}

-- `dwc3_trb_dma_offset`: a TRB takes 16 bytes.
trb_dma_offset : Endpoint → ℕ → ℕ
trb_dma_offset dep index = dep.trb_pool_dma + 16 * index

-- `dwc3_gadget_move_request_queued` and the fields that go with it.
pub mark : Endpoint → Request → Request
unfolding trb_dma_offset
mark dep req = record req {
  queued = true;
  trb = some dep.trb_enqueue;
  trb_dma = trb_dma_offset dep dep.trb_enqueue;
  start_slot = dep.trb_enqueue;
}

-- The first TRB of a request moves it to `req_queued`.
pub claim : Endpoint → Request → Option ℕ → Endpoint × Request
unfolding mark list_del
claim dep req (some t) = (dep, req)
claim dep req none = (
  record dep {
    request_list = list_del req.id dep.request_list;
    req_queued = dep.req_queued ++ (mark dep req ∷ []);
  },
  mark dep req,
)

-- The TRB that `dwc3_prepare_one_trb` writes.
pub fill_trb : Endpoint → Request → ℕ → ℕ → Bool → Bool → ℕ → Trb
unfolding trb_ctrl
fill_trb dep req dma len last chain node = record {
  bpl = dma % 2 ^ 32;
  bph = dma / 2 ^ 32 % 2 ^ 32;
  size = len % 2 ^ 24;
  ctrl = trb_ctrl dep req last chain node;
}

-- The TRB at the enqueue pointer, written for a claimed request, and the pointer moved on.
pub write_trb : ℕ → ℕ → Bool → Bool → ℕ → Endpoint × Request → Endpoint × Request
unfolding inc_enq
write_trb dma len last chain node (dep, req) = (
  record (inc_enq dep) {
    trb_pool = set dep.trb_pool dep.trb_enqueue (fill_trb dep req dma len last chain node);
  },
  req,
)

-- `dwc3_prepare_one_trb`
pub prepare_one_trb : Endpoint → Request → ℕ → ℕ → Bool → Bool → ℕ → Endpoint × Request
unfolding claim write_trb
prepare_one_trb dep req dma len last chain node =
    write_trb dma len last chain node (claim dep req req.trb)

-- The unsigned decrement `trbs_left--`.
abbrev dec : ℕ → ℕ
dec n = (n + 2 ^ 32 - 1) % 2 ^ 32

-- The loop over the buffers of a request, from the `i`-th on: the endpoint, the TRBs left, `last_one`.
pub prepare_bufs : List Cpdu → ℕ → ℕ → Endpoint → Request → Endpoint × ℕ × Bool
prepare_bufs [] i left dep req = (dep, left, false)
prepare_bufs (b ∷ bs) i left dep req =
    let left' = dec left in
    let last = is_empty bs && is_empty dep.request_list || left' == 0 in
    let out = prepare_one_trb dep req b.dma b.len last (not (is_empty bs) && not last) i in
    let more = prepare_bufs bs (i + 1) left' out.0 out.1 in
    if last then (out.0, left', true) else more

-- The body of the loop over `request_list` for one request; `rest` are the entries behind it.
pub prepare_request : Endpoint → Request → List Cpdu → List Request → ℕ → Endpoint × ℕ × Bool
prepare_request dep req (b ∷ bs) rest left = prepare_bufs (b ∷ bs) 0 left dep req
prepare_request dep req [] rest left =
    let left' = dec left in
    let last = left' == 0 || is_empty rest in
    ((prepare_one_trb dep req req.dma req.length last false 0).0, left', last)

prepare_loop : List Request → ℕ → Endpoint → Endpoint
prepare_loop [] left dep = dep
prepare_loop (r ∷ rs) left dep =
    let out = prepare_request dep r r.bufs rs left in
    let more = prepare_loop rs out.1 out.0 in
    if ltb left (rounds (buf_num r)) then dep else (if out.2 then out.0 else more)

-- `dwc3_prepare_trbs`
pub prepare_trbs : Endpoint → Endpoint
prepare_trbs dep =
    let left = calc_trbs_left dep in
    if left == 0 then dep else prepare_loop dep.request_list left dep

-- The part of `dwc3_gadget_giveback` that concerns the endpoint. The flag `queued` tells which list
-- holds the request; the completion callback is the entry in `completed`.
pub giveback : Endpoint → Request → Code → Endpoint
giveback dep req status =
    let req' = record req {
      queued = false;
      trb = none;
      status = if is_in_progress req.status then status else req.status;
    } in
    if req.queued
    then record (inc_deq_times (rounds (buf_num req)) dep) {
      req_queued = list_del req.id dep.req_queued;
      completed = req' ∷ dep.completed;
    }
    else record dep {
      request_list = list_del req.id dep.request_list;
      completed = req' ∷ dep.completed;
    }

-- `while (!list_empty(list)) dwc3_gadget_giveback(dep, next_request(list), status)`
pub giveback_all : List Request → Code → Endpoint → Endpoint
giveback_all [] status dep = dep
giveback_all (r ∷ rs) status dep = giveback_all rs status (giveback dep r status)
