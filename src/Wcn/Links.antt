-- ===== src/Wcn/Links.antt =====
-- Connecting and disconnecting the three functions: gadget/u_wcn_composite.c, with `usb_ep_enable` and
-- `usb_ep_disable` of include/gadget.h.
pub mod SetAlt
pub mod Owned
pub mod WifiLinks
use unisoc_usb.Prelude.{
  ℕ, Bool, true, false, List, [], ◌∷◌, ◌++◌, Option, none, some, Code, Errno, if◌then◌else◌,
}
use unisoc_usb.Memory.{Heap, free_all}
use unisoc_usb.Wcn.Requests.{Alloc, req_alloc, qlen}

-- A `struct usb_ep`; `desc` says whether it has a descriptor.
pub record WcnEp : Type 0 where
  pub id : ℕ
  pub enabled : Bool
  pub desc : Bool

-- An endpoint of a function with the list of its requests.
pub record Pipe : Type 0 where
  pub ep : WcnEp
  pub reqs : List ℕ

-- `struct f_wcn_bt0`, `struct f_wcn_bt1` and `struct f_wcn_wifi`, which has three endpoints one way and
-- seven the other.
pub record Bt0 : Type 0 where
  pub int_in : Pipe
  pub bulk_out : Pipe
  pub bulk_in : Pipe

pub record Bt1 : Type 0 where
  pub isoc_out : Pipe
  pub isoc_in : Pipe

pub record Wifi : Type 0 where
  pub bulk_in : List Pipe
  pub bulk_out : List Pipe

-- What a call leaves: the function, the memory and the return code; -1 is -EPERM.
pub record Out (S : Type 0) : Type 0 where
  pub link : S
  pub heap : Heap
  pub code : Code

-- What this code calls: whether memory is there, and the endpoint operations of the controller driver.
pub record Below : Type 0 where
  pub room : ℕ → Bool
  pub enable : WcnEp → Code
  pub disable : WcnEp → Code

module _ (b : Below) where
  -- `usb_ep_enable`
  pub enable_ep : WcnEp → WcnEp × Code
  enable_ep ep =
      let tried : WcnEp × Code = elim (b.enable ep) [
        | none ↦ (record ep { enabled = true }, none)
        | some e ↦ (ep, some e)
      ] in
      if ep.enabled then (ep, none) else tried

  -- `usb_ep_disable`, whose result its callers drop.
  pub disable_ep : WcnEp → WcnEp
  disable_ep ep =
      let tried : WcnEp = elim (b.disable ep) [
        | none ↦ record ep { enabled = false }
        | some e ↦ ep
      ] in
      if ep.enabled then tried else ep

  abbrev pub enabled : Pipe → Pipe
  enabled p = record p { ep = (enable_ep p.ep).0 }

  abbrev pub enables : Pipe → Code
  enables p = (enable_ep p.ep).1

  abbrev pub disabled : Pipe → Pipe
  disabled p = record p { ep = disable_ep p.ep }

  -- `gwcn_req_alloc` for an endpoint
  abbrev pub alloc : Pipe → Heap → Alloc
  alloc p h = req_alloc b.room p.reqs qlen h

  -- An endpoint that is disconnected: its requests are freed.
  pub drop_pipe : Pipe → Pipe
  drop_pipe p = record { ep = record (disable_ep p.ep) { desc = false }; reqs = [] }

  -- The allocations of `gwcn_bt0_connect`.
  pub bt0_fill : Bt0 → Heap → Out Bt0
  bt0_fill f h =
      let tx = alloc f.int_in h in
      let bulk = alloc f.bulk_in tx.heap in
      let rx = alloc f.bulk_out bulk.heap in
      record {
        link = record {
          int_in = record (f.int_in) { reqs = tx.reqs };
          bulk_out = record (f.bulk_out) { reqs = rx.reqs };
          bulk_in = record (f.bulk_in) { reqs = bulk.reqs };
        };
        heap = rx.heap;
        code = rx.code;
      }

  -- `fail0` of `gwcn_bt0_connect`
  pub bt0_fail : Bt0 → Heap → Out Bt0
  bt0_fail f h = record {
    link = record {
      int_in = disabled f.int_in;
      bulk_out = disabled f.bulk_out;
      bulk_in = disabled f.bulk_in;
    };
    heap = h;
    code = some Errno.eperm;
  }

  -- `gwcn_bt0_connect`
  pub bt0_connect : Bt0 → Heap → Out Bt0
  bt0_connect f h =
      let f1 = record f { int_in = enabled f.int_in } in
      let f2 = record f1 { bulk_out = enabled f.bulk_out } in
      let f3 = record f2 { bulk_in = enabled f.bulk_in } in
      elim (enables f.int_in) [
        | some e ↦ bt0_fail f1 h
        | none ↦ elim (enables f.bulk_out) [
          | some e ↦ bt0_fail f2 h
          | none ↦ elim (enables f.bulk_in) [ some e ↦ bt0_fail f3 h | none ↦ bt0_fill f3 h ]
        ]
      ]

  -- `gwcn_bt0_disconnect`
  pub bt0_disconnect : Bt0 → Heap → Out Bt0
  bt0_disconnect f h = record {
    link = record {
      int_in = drop_pipe f.int_in;
      bulk_out = drop_pipe f.bulk_out;
      bulk_in = drop_pipe f.bulk_in;
    };
    heap = free_all f.bulk_in.reqs (free_all f.bulk_out.reqs (free_all f.int_in.reqs h));
    code = none;
  }

  -- The allocations of `gwcn_bt1_connect`.
  pub bt1_fill : Bt1 → Heap → Out Bt1
  bt1_fill f h =
      let tx = alloc f.isoc_in h in
      let rx = alloc f.isoc_out tx.heap in
      record {
        link = record {
          isoc_out = record (f.isoc_out) { reqs = rx.reqs };
          isoc_in = record (f.isoc_in) { reqs = tx.reqs };
        };
        heap = rx.heap;
        code = rx.code;
      }

  -- `fail0` of `gwcn_bt1_connect`
  pub bt1_fail : Bt1 → Heap → Out Bt1
  bt1_fail f h = record {
    link = record { isoc_out = disabled f.isoc_out; isoc_in = disabled f.isoc_in };
    heap = h;
    code = some Errno.eperm;
  }

  -- `gwcn_bt1_connect`
  pub bt1_connect : Bt1 → Heap → Out Bt1
  bt1_connect f h =
      let f1 = record f { isoc_in = enabled f.isoc_in } in
      let f2 = record f1 { isoc_out = enabled f.isoc_out } in
      elim (enables f.isoc_in) [
        | some e ↦ bt1_fail f1 h
        | none ↦ elim (enables f.isoc_out) [ some e ↦ bt1_fail f2 h | none ↦ bt1_fill f2 h ]
      ]

  -- `gwcn_bt1_disconnect`
  pub bt1_disconnect : Bt1 → Heap → Out Bt1
  bt1_disconnect f h = record {
    link = record { isoc_out = drop_pipe f.isoc_out; isoc_in = drop_pipe f.isoc_in };
    heap = free_all f.isoc_out.reqs (free_all f.isoc_in.reqs h);
    code = none;
  }
