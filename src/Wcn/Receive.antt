-- ===== src/Wcn/Receive.antt =====
-- Receiving on a channel: `usb_wcn_rx_submit` and `usb_wcn_rx_complete` of gadget/u_wcn_composite.c.
pub mod Order
use unisoc_usb.Prelude.{
  ℕ, ◌+◌, ◌-◌, ◌%◌, ◌^◌, ◌≡◌, ◌↔◌, refl, sym, ap, ◌∙◌, Bool, true, false, not, List, [], ◌∷◌, ◌++◌,
  map, Option, none, some, Code, Errno, ◌==◌, if◌then◌else◌, if_both, if_each, option_both, arith,
  is_empty, leb, ltb,
}
use unisoc_usb.Memory.{count, count-append}

-- The link of buffers that `push_link` provides; the request keeps its own where it provides none.
pub record Buffers : Type 0 where
  pub head : Option ℕ
  pub tail : Option ℕ
  pub num : ℕ

pub record RxReq : Type 0 where
  pub id : ℕ
  pub buffers : Buffers

-- `struct rx_buf_node` of the channel `chn`; `buffers` is what its memory holds.
pub record RxNode : Type 0 where
  pub chn : ℕ
  pub buffers : Buffers

-- The receiving side of a channel: the requests on its list and in the endpoint's queue, those that the
-- queue refused, the nodes for the receiving task, by the function that they are for, and how often the
-- task was woken.
pub record Rx : Type 0 where
  pub pool : List RxReq
  pub flight : List RxReq
  pub lost : List RxReq
  pub nodes : List (ℕ × RxNode)
  pub events : ℕ

-- `wcn_chn_to_usb_intf`
pub chn_to_usb_intf : ℕ → ℕ
chn_to_usb_intf chn =
    let c = if ltb 16 chn then chn - 16 else chn in if leb c 2 then 0 else (if c == 3 then 1 else 2)

-- What `usb_wcn_rx_submit` returns: USB_RX_BUSY, or the result of the last `usb_ep_queue`.
pub data Submitted : Type 0 where
  rx_busy : Submitted
  queued : Code → Submitted

-- `push` is what `push_link` leaves in a request, and `queue` what `usb_ep_queue` returns for it.
module _ (push : RxReq → Buffers) (queue : RxReq → Code) where
  abbrev pub filled : RxReq → RxReq
  filled r = record r { buffers = push r }

  -- One request is taken off the list.
  pub submit_one : RxReq → Rx → Rx
  submit_one r x = elim (queue (filled r)) [
    | none ↦ record x { flight = x.flight ++ (filled r ∷ []) }
    | some e ↦ record x { lost = filled r ∷ x.lost }
  ]

  -- The loop of `usb_wcn_rx_submit` over the requests that are still on the list, from a return code
  -- on.
  pub submit_loop : Submitted → List RxReq → Rx → Rx × Submitted
  submit_loop ret [] x = (record x { pool = [] }, ret)
  submit_loop ret (r ∷ rs) x =
      submit_loop (queued (queue (filled r))) rs (submit_one r (record x { pool = rs }))

  -- `usb_wcn_rx_submit`
  pub rx_submit : Rx → Rx × Submitted
  rx_submit x = submit_loop rx_busy x.pool x

-- `IN_EP_ADDR_TO_CHN` of any endpoint's address, as the byte that `wcn_chn_to_usb_intf` takes and as
-- the word that a node keeps.
abbrev pub intf_of : ℕ → ℕ
intf_of addr = chn_to_usb_intf ((addr + 144) % 2 ^ 8)

abbrev pub node_chn : ℕ → ℕ
node_chn addr = (addr + (2 ^ 32 - 112)) % 2 ^ 32

-- The node that `usb_wcn_rx_complete` queues for an endpoint, in the memory that it got.
abbrev pub node_for : ℕ → Bool → Option Buffers → List (ℕ × RxNode)
node_for addr ok none = []
node_for addr ok (some b) =
    if ok then (intf_of addr, record { chn = node_chn addr; buffers = b }) ∷ [] else []

-- `usb_wcn_rx_complete` of the oldest request in the queue of the endpoint with this address: `ok` says
-- that its status is 0, and `node` is what the memory for a node holds, if there is some.
pub rx_complete : ℕ → Bool → Option Buffers → Rx → Rx
rx_complete addr ok node x = elim x.flight [
  | [] ↦ x
  | r ∷ rs ↦ record x {
    flight = rs;
    pool = r ∷ x.pool;
    nodes = x.nodes ++ node_for addr ok node;
    events = x.events + 1;
  }
]

abbrev pub rx_ids : List RxReq → List ℕ
rx_ids rs = map (λ (r : RxReq). r.id) rs

abbrev pub rx_uses : ℕ → Rx → ℕ
rx_uses i x = count i (rx_ids x.pool) + (count i (rx_ids x.flight) + count i (rx_ids x.lost))
