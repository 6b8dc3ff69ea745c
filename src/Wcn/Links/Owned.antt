-- ===== src/Wcn/Links/Owned.antt =====
-- The memory that a connected function holds: its requests, and nothing else.
use unisoc_usb.Prelude.{ℕ, List, [], ◌++◌, none, some, option_both}
use unisoc_usb.Memory.{
  Heap, Holds, Holds-swap, Holds-rotate, free_only-Holds, free_all, free_all-Holds,
}
use unisoc_usb.Wcn.Requests.{qlen, req_alloc-Holds}
use unisoc_usb.Wcn.Links.{
  Bt0, Bt1, Out, Below, bt0_fill, bt0_fail, bt0_connect, bt0_disconnect, bt1_fill, bt1_fail,
  bt1_connect, bt1_disconnect, enabled, enables, alloc,
}

-- The requests on the lists of a function.
abbrev pub bt0_reqs : Bt0 → List ℕ
bt0_reqs f = f.int_in.reqs ++ (f.bulk_out.reqs ++ f.bulk_in.reqs)

abbrev pub bt1_reqs : Bt1 → List ℕ
bt1_reqs f = f.isoc_out.reqs ++ f.isoc_in.reqs

-- What a call leaves is all that the function holds in addition to the memory `old`.
abbrev pub Kept : {S : Type 0} (reqs : S → List ℕ) → Heap → Out S → Type 0
Kept reqs old out = Holds old (reqs out.link) out.heap

module _ (b : Below) where
  bt1_fill-Kept :
      (old h : Heap) (f : Bt1) → Holds old (bt1_reqs f) h → Kept bt1_reqs old (bt1_fill b f h)
  unfolding bt1_fill
  bt1_fill-Kept old h f r =
      let tx = alloc b f.isoc_in h in
      req_alloc-Holds b.room f.isoc_out.reqs qlen tx.reqs old tx.heap (
        Holds-swap old tx.heap tx.reqs f.isoc_out.reqs (
          req_alloc-Holds b.room f.isoc_in.reqs qlen f.isoc_out.reqs old h
            (Holds-swap old h f.isoc_out.reqs f.isoc_in.reqs r)))

  pub bt1_connect-Kept :
      (old h : Heap) (f : Bt1) → Holds old (bt1_reqs f) h → Kept bt1_reqs old (bt1_connect b f h)
  unfolding bt1_connect bt1_fail
  bt1_connect-Kept old h f r =
      option_both (Kept bt1_reqs old) (enables b f.isoc_in)
        {x = elim (enables b f.isoc_out) [ some e ↦ bt1_fail b f2 h | none ↦ bt1_fill b f2 h ]}
        {f = λ e. bt1_fail b (record f { isoc_in = enabled b f.isoc_in }) h}
        (option_both (Kept bt1_reqs old) (enables b f.isoc_out) {f = λ e. bt1_fail b f2 h}
          (bt1_fill-Kept old h f2 r) (λ e. r))
        (λ e. r)
    where
      f2 : Bt1
      f2 = record { isoc_in = enabled b f.isoc_in; isoc_out = enabled b f.isoc_out }

  pub bt1_disconnect-Kept :
      (old h : Heap) (f : Bt1) → Holds old (bt1_reqs f) h → Holds old [] (bt1_disconnect b f h).heap
  unfolding bt1_disconnect
  bt1_disconnect-Kept old h f r = free_only-Holds old (free_all f.isoc_in.reqs h) f.isoc_out.reqs (
      free_all-Holds old h f.isoc_in.reqs f.isoc_out.reqs
        (Holds-swap old h f.isoc_out.reqs f.isoc_in.reqs r))

  -- The lists of the first function, one after the other.
  bt0_fill-Kept :
      (old h : Heap) (f : Bt0) → Holds old (bt0_reqs f) h → Kept bt0_reqs old (bt0_fill b f h)
  unfolding bt0_fill
  bt0_fill-Kept old h f r =
      let ints = f.int_in.reqs in
      let outs = f.bulk_out.reqs in
      let ins = f.bulk_in.reqs in
      let tx = alloc b f.int_in h in
      let bulk = alloc b f.bulk_in tx.heap in
      let rx = alloc b f.bulk_out bulk.heap in
      let first = req_alloc-Holds b.room ints qlen (outs ++ ins) old h r in
      let second = req_alloc-Holds b.room ins qlen (tx.reqs ++ outs) old tx.heap (
        Holds-rotate old tx.heap outs ins tx.reqs
          (Holds-rotate old tx.heap tx.reqs outs ins first)) in
      let third = req_alloc-Holds b.room outs qlen (bulk.reqs ++ tx.reqs) old bulk.heap (
        Holds-rotate old bulk.heap tx.reqs outs bulk.reqs
          (Holds-rotate old bulk.heap bulk.reqs tx.reqs outs second)) in
      Holds-rotate old rx.heap bulk.reqs tx.reqs rx.reqs
        (Holds-rotate old rx.heap rx.reqs bulk.reqs tx.reqs third)

  pub bt0_connect-Kept :
      (old h : Heap) (f : Bt0) → Holds old (bt0_reqs f) h → Kept bt0_reqs old (bt0_connect b f h)
  unfolding bt0_connect bt0_fail
  bt0_connect-Kept old h f r =
      option_both (Kept bt0_reqs old) (enables b f.int_in) {x = after_out}
        {f = λ e. bt0_fail b f1 h}
        (option_both (Kept bt0_reqs old) (enables b f.bulk_out) {x = after_in}
          {f = λ e. bt0_fail b f2 h}
          (option_both (Kept bt0_reqs old) (enables b f.bulk_in) {f = λ e. bt0_fail b f3 h}
            (bt0_fill-Kept old h f3 r) (λ e. r))
          (λ e. r))
        (λ e. r)
    where
      f1 : Bt0
      f1 = record f { int_in = enabled b f.int_in }

      f2 : Bt0
      f2 = record f1 { bulk_out = enabled b f.bulk_out }

      f3 : Bt0
      f3 = record f2 { bulk_in = enabled b f.bulk_in }

      after_in : Out Bt0
      after_in = elim (enables b f.bulk_in) [ some e ↦ bt0_fail b f3 h | none ↦ bt0_fill b f3 h ]

      after_out : Out Bt0
      after_out = elim (enables b f.bulk_out) [ some e ↦ bt0_fail b f2 h | none ↦ after_in ]

  pub bt0_disconnect-Kept :
      (old h : Heap) (f : Bt0) → Holds old (bt0_reqs f) h → Holds old [] (bt0_disconnect b f h).heap
  unfolding bt0_disconnect
  bt0_disconnect-Kept old h f r =
      let after_int = free_all-Holds old h f.int_in.reqs (f.bulk_out.reqs ++ f.bulk_in.reqs) r in
      free_only-Holds old _ f.bulk_in.reqs
        (free_all-Holds old _ f.bulk_out.reqs f.bulk_in.reqs after_int)
