-- ===== src/Wcn/Transmit.antt =====
-- Sending on a channel: `usb_wcn_start_xmit` and `usb_wcn_xmit_complete` of gadget/u_wcn_composite.c.
pub mod Order
use unisoc_usb.Prelude.{
  ℕ, ◌+◌, ◌-◌, ◌%◌, ◌^◌, ◌<◌, ◌≤◌, ◌≡◌, refl, sym, ap, ◌∙◌, Bool, true, false, not, List, [], ◌∷◌,
  ◌++◌, map, Option, none, some, Code, Errno, if◌then◌else◌, if_both, option_both, arith,
  append_assoc, append-nil, map-append,
}
use unisoc_usb.Memory.{count, count-append}

-- `struct usb_request`: `id` stands for its address, the others are the link of buffers that it carries.
pub record TxReq : Type 0 where
  pub id : ℕ
  pub buf_head : Option ℕ
  pub buf_tail : Option ℕ
  pub buf_num : ℕ

-- A call of `bus_hw_pop_link`: the link's first and last buffer, and their number.
pub record Popped : Type 0 where
  pub head : Option ℕ
  pub tail : Option ℕ
  pub num : ℕ

-- The sending side of a channel: whether the tables have an endpoint and a list of requests for it, the
-- requests on the list and those in the endpoint's queue, both with the first one in front, those that
-- are in neither, and the links that were handed back.
pub record Tx : Type 0 where
  pub has_ep : Bool
  pub has_reqs : Bool
  pub pool : List TxReq
  pub flight : List TxReq
  pub lost : List TxReq
  pub popped : List Popped

-- What sending returns: USB_CHN_ERR, USB_TX_BUSY or the result of `usb_ep_queue`.
pub data Sent : Type 0 where
  chn_err tx_busy : Sent
  queued : Code → Sent

-- `IN_CHN_TO_EP_ADDR`, as a byte, and `IN_EP_ADDR_TO_CHN`.
pub chn_to_addr : ℕ → ℕ
chn_to_addr chn = (chn + 112) % 2 ^ 8

pub addr_to_chn : ℕ → ℕ
addr_to_chn addr = addr - 112

abbrev pub loaded : TxReq → Popped → TxReq
loaded r l = record r { buf_head = l.head; buf_tail = l.tail; buf_num = l.num }

-- `usb_wcn_start_xmit` once it has taken a request off the list: `code` is what `usb_ep_queue` returns.
pub queue_tx : Code → TxReq → Tx → Tx × Sent
queue_tx none r t = (record t { flight = t.flight ++ (r ∷ []) }, queued none)
queue_tx (some e) r t = (record t { lost = r ∷ t.lost }, queued (some e))

-- `usb_wcn_start_xmit` of a link of buffers
pub start_xmit : Code → Popped → Tx → Tx × Sent
start_xmit code l t =
    let out : Tx × Sent = elim t.pool [
      | [] ↦ (t, tx_busy)
      | r ∷ rs ↦ queue_tx code (loaded r l) (record t { pool = rs })
    ] in
    if not t.has_ep then (t, chn_err) else (if not t.has_reqs then (t, chn_err) else out)

-- The link that a request hands back, which takes the first buffer for the last one too.
abbrev pub handed : TxReq → Popped
handed r = record { head = r.buf_head; tail = r.buf_head; num = r.buf_num }

-- `usb_wcn_xmit_complete` of the oldest request in the endpoint's queue.
pub xmit_complete : Tx → Tx
xmit_complete t = elim t.flight [
  | [] ↦ t
  | r ∷ rs ↦ record t {
    flight = rs;
    popped = t.popped ++ (handed r ∷ []);
    pool = t.pool ++ (record r { buf_head = none; buf_num = 0 } ∷ []);
  }
]

-- What happens to a channel: a link is sent, where `usb_ep_queue` returns this code, or the oldest
-- request completes.
pub data Step : Type 0 where
  send : Code → Popped → Step
  done : Step

abbrev pub step : Step → Tx → Tx
step (send code l) t = (start_xmit code l t).0
step done t = xmit_complete t

abbrev pub run : List Step → Tx → Tx
run [] t = t
run (s ∷ ss) t = run ss (step s t)

-- The link that a step puts into the endpoint's queue.
abbrev pub accepts : Sent → Popped → List Popped
accepts (queued none) l = l ∷ []
accepts (queued (some e)) l = []
accepts chn_err l = []
accepts tx_busy l = []

abbrev pub accepted : Step → Tx → List Popped
accepted (send code l) t = accepts (start_xmit code l t).1 l
accepted done t = []

abbrev pub accepted_all : List Step → Tx → List Popped
accepted_all [] t = []
accepted_all (s ∷ ss) t = accepted s t ++ accepted_all ss (step s t)

abbrev pub ids : List TxReq → List ℕ
ids rs = map (λ (r : TxReq). r.id) rs

-- How often a request is on the list, in the queue, or lost.
abbrev pub uses : ℕ → Tx → ℕ
uses i t = count i (ids t.pool) + (count i (ids t.flight) + count i (ids t.lost))

-- The links in the order in which they are or will be handed back.
abbrev pub links : Tx → List Popped
links t = t.popped ++ map handed t.flight

-- A link as it is handed back.
abbrev pub short : Popped → Popped
short l = record l { tail = l.head }
