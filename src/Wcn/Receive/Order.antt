-- ===== src/Wcn/Receive/Order.antt =====
-- What receiving does with its requests and nodes.
use unisoc_usb.Prelude.{
  ℕ, ◌+◌, ◌<◌, ◌≡◌, Bool, List, [], ◌∷◌, ◌++◌, map, Option, none, some, Code, arith,
}
use unisoc_usb.Memory.{count}
use unisoc_usb.Wcn.Receive.{
  Buffers, RxReq, Rx, chn_to_usb_intf, Submitted, rx_busy, queued, filled, intf_of, rx_complete,
  rx_ids, rx_uses,
}

-- How often a request is in the queue or lost.
abbrev behind : ℕ → Rx → ℕ
behind i x = count i (rx_ids x.flight) + count i (rx_ids x.lost)

-- The code that the loop ends with.
abbrev last_code : (RxReq → Code) → Submitted → List RxReq → Submitted
last_code queue ret [] = ret
last_code queue ret (r ∷ rs) = last_code queue (queued (queue r)) rs

-- A request if the queue takes it, and if it refuses it.
abbrev pub if_taken : Code → RxReq → List RxReq
if_taken none r = r ∷ []
if_taken (some e) r = []

abbrev pub if_refused : Code → RxReq → List RxReq
if_refused none r = []
if_refused (some e) r = r ∷ []

-- The requests that the queue takes, in their order, and those that it refuses, the last one first.
abbrev pub taken : (RxReq → Code) → List RxReq → List RxReq
taken queue [] = []
taken queue (r ∷ rs) = if_taken (queue r) r ++ taken queue rs

abbrev pub refused : (RxReq → Code) → List RxReq → List RxReq
refused queue [] = []
refused queue (r ∷ rs) = refused queue rs ++ if_refused (queue r) r

-- What a submission leaves: an empty list, the requests that the queue takes behind those in the queue,
-- those that it refuses lost, each request in as many places as before, and the code of the last
-- request, or USB_RX_BUSY if there is none.
pub record IsSubmitted (push : RxReq → Buffers) (queue : RxReq → Code) (x : Rx)
    (out : Rx × Submitted) : Type 0 where
  pub emptied : (out.0).pool ≡ []
  pub sent : (out.0).flight ≡ x.flight ++ taken queue (map (filled push queue) x.pool)
  pub lost : (out.0).lost ≡ refused queue (map (filled push queue) x.pool) ++ x.lost
  pub uses : (i : ℕ) → rx_uses i out.0 ≡ rx_uses i x
  pub code : out.1 ≡ last_code queue rx_busy (map (filled push queue) x.pool)
  pub kept : (out.0).nodes ≡ x.nodes

-- The oldest request of a queue: it is back on the list, first, and the task is woken.
rx_complete-uses :
    (i addr : ℕ) (ok : Bool) (memory : Option Buffers) (x : Rx) (flight : List RxReq)
    → x.flight ≡ flight
    → rx_uses i (rx_complete addr ok memory x) ≡ rx_uses i x
unfolding rx_complete
rx_complete-uses i addr ok memory x [] e = ground (arith, e)
rx_complete-uses i addr ok memory x (r ∷ rs) e = ground (arith, e)

-- Whatever OUT endpoint received it, a node is queued for the third function.
intf_of_out : (addr : ℕ) → addr < 16 → intf_of addr ≡ 2
unfolding chn_to_usb_intf
intf_of_out addr h = ground (arith, h)
