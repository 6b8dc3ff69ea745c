-- ===== src/Wcn/Examples.antt =====
-- Concrete lists of requests, functions and channels.
use unisoc_usb.Prelude.{
  ℕ, ◌+◌, ◌≡◌, refl, true, false, List, [], ◌∷◌, ◌++◌, map, none, some, Code, Errno, ltb, arith,
}
use unisoc_usb.Memory.{Heap, Holds}
use unisoc_usb.Wcn.Requests.{IsFilled, req_alloc, req_alloc-IsFilled}
use unisoc_usb.Wcn.Links.{Pipe, Bt0, Bt1, Wifi, Below, WcnEp}
use unisoc_usb.Wcn.Links.SetAlt.Sessions.{bt0, bt1, session, bt_sessions}
use unisoc_usb.Wcn.Links.WifiLinks.{wifi_connect, wifi_disconnect, reqs_of, wifi_reqs, wifi_session}
use unisoc_usb.Wcn.Transmit.{Popped, Tx, Step, run, accepted_all, uses, links, short}
use unisoc_usb.Wcn.Transmit.Order.{run_lem}
use unisoc_usb.Wcn.Receive.{Buffers, RxReq, Rx}

abbrev empty : Heap
empty = record { live = []; next = 0; faults = 0 }

abbrev below : Below
below = record { room = λ n. ltb n 5; enable = λ ep. none; disable = λ ep. none }

abbrev pipe : ℕ → Pipe
pipe n = record { ep = record { id = n; enabled = false; desc = true }; reqs = [] }

-- Memory for five requests.
req_alloc-IsFilled_example : IsFilled 2 (req_alloc below.room (7 ∷ []) 2 empty)
req_alloc-IsFilled_example = req_alloc-IsFilled below.room (7 ∷ []) 2 empty (omega arith)

abbrev function0 : Bt0
function0 = record { int_in = pipe 1; bulk_out = pipe 2; bulk_in = pipe 3 }

abbrev function1 : Bt1
function1 = record { isoc_out = pipe 4; isoc_in = pipe 5 }

abbrev wlan : Wifi
wlan = record { bulk_in = pipe 6 ∷ []; bulk_out = pipe 7 ∷ pipe 8 ∷ [] }

abbrev configured : WcnEp → Code
configured ep = none

bt_sessions_example :
    Holds empty []
      (session (bt0 below configured) (true ∷ true ∷ false ∷ true ∷ []) function0 empty).heap
    × Holds empty []
        (session (bt1 below configured) (true ∷ true ∷ false ∷ true ∷ []) function1 empty).heap
bt_sessions_example =
    bt_sessions below configured (true ∷ true ∷ false ∷ true ∷ []) empty function0 function1 refl
      refl

wifi_session_example :
    let on = wifi_connect below wlan empty in
    let off = wifi_disconnect below on.link on.heap in
    Holds empty (reqs_of (on.link).bulk_out) off.heap × (wifi_reqs below off.link ≡ [])
wifi_session_example = wifi_session below wlan empty refl

abbrev channel : Tx
channel = record {
  has_ep = true;
  has_reqs = true;
  pool =
      record { id = 1; buf_head = none; buf_tail = none; buf_num = 0 }
      ∷ record { id = 2; buf_head = none; buf_tail = none; buf_num = 0 }
      ∷ [];
  flight = [];
  lost = [];
  popped = [];
}

abbrev link : ℕ → Popped
link n = record { head = some n; tail = some (n + 9); num = 10 }

abbrev traffic : List Step
traffic =
    Step.send none (link 10)
    ∷ Step.send none (link 20)
    ∷ Step.send none (link 30)
    ∷ Step.done
    ∷ Step.send (some Errno.eshutdown) (link 40)
    ∷ []

run_lem_example :
    (links (run traffic channel) ≡ links channel ++ map short (accepted_all traffic channel))
    × ((i : ℕ) → uses i (run traffic channel) ≡ uses i channel)
run_lem_example = run_lem traffic channel

abbrev fresh : RxReq → Buffers
fresh r = record { head = some r.id; tail = some r.id; num = 1 }

abbrev takes : RxReq → Code
takes r = none

abbrev waiting : Rx
waiting = record {
  pool = record { id = 3; buffers = record { head = none; tail = none; num = 0 } } ∷ [];
  flight = [];
  lost = [];
  nodes = [];
  events = 0;
}
