-- ===== src/Dwc3/Transfer/Disable.antt =====
-- `dwc3_gadget_ep_dequeue` of a request in the ring, and `__dwc3_gadget_ep_disable`.
use unisoc_usb.Prelude.{
  ℕ, ◌≡◌, refl, ap, sym, ◌∙◌, subst, Bool, true, false, List, [], ◌∷◌, ◌++◌, none, some, Code,
  Errno, ◌==◌, ==_iff, inl, inr, Bool-cases, arith, if_both, if◌then◌else◌,
}
use unisoc_usb.Dwc3.Endpoint.{Request, Endpoint}
use unisoc_usb.Dwc3.Ring.Invariant.{IsValid}
use unisoc_usb.Dwc3.Ring.Giveback.{finished, giveback_transfer, giveback-IsValid, handed_out}
use unisoc_usb.Dwc3.Command.{Depcmd, Dwc, Cmd, EpCmd, send_ep_cmd-dep, send_ep_cmd-cmds}
use unisoc_usb.Dwc3.Transfer.{
  give, find_request, stop_active_transfer, ep_dequeue, ep_set_halt, remove_requests, ep_disable,
}
use unisoc_usb.Dwc3.Transfer.Flags.{SameRing, SameRing-IsValid}
use unisoc_usb.Dwc3.Transfer.Queue.{stop_active_transfer-SameRing}
use unisoc_usb.Dwc3.Transfer.Remove.{remove_requests_lem}

-- ENDTRANSFER was sent if there was a resource index, and there is none any more.
abbrev pub Ended : Dwc → Dwc → Type 0
Ended dwc out =
    let ended : EpCmd = record {
      ep = dwc.dep.number;
      cmd = Cmd.end_transfer true dwc.dep.resource_index;
      param0 = 0;
      param1 = 0;
    } in
    (out.cmds ≡ (if dwc.dep.resource_index == 0 then dwc.cmds else ended ∷ dwc.cmds))
    × (out.dep.resource_index ≡ 0)
    × ((dwc.dep.resource_index == 0) ≡ false → out.dep.busy ≡ false)

module _ (depcmd : ℕ → Depcmd) where
  give_stopped :
      (dwc : Dwc) (r : Request) (status : Code)
      → Ended dwc (give (stop_active_transfer depcmd dwc true) r status)
  unfolding give stop_active_transfer
  give_stopped dwc r status = elim (Bool-cases (dwc.dep.resource_index == 0)) [
    | inl e ↦
        let (b, i, n) = giveback_transfer dwc.dep r status in
        rw e (refl, i ∙ (==_iff dwc.dep.resource_index 0).0 e, λ f. absurd (ground (arith, f)))
    | inr e ↦
        let cmd = Cmd.end_transfer true dwc.dep.resource_index in
        let stopped : Endpoint = record (dwc.dep) {
          resource_index = 0;
          busy = false;
          cmdcmplt_busy = true;
        } in
        let (b, i, n) = giveback_transfer stopped r status in
        rw e (send_ep_cmd-cmds depcmd dwc cmd 0 0, i, λ f. b)
  ]

  ep_dequeue_found :
      (dwc : Dwc) (r : Request) (rs : List Request)
      → dwc.dep.req_queued ≡ r ∷ rs
      → find_request r.id dwc.dep.request_list ≡ none
      → ep_dequeue depcmd dwc r.id
        ≡ (give (stop_active_transfer depcmd dwc true) r (some Errno.econnreset), none)
  unfolding ep_dequeue
  ep_dequeue_found dwc r rs l n = ground (arith, l, n)

  -- Cancelling the oldest request in a valid ring ends the transfer, if the endpoint has a resource index,
  -- by ENDTRANSFER with that index, forced, and hands the request out with -ECONNRESET unless it has a
  -- status of its own; the ring stays valid, and all else goes on waiting.
  pub ep_dequeue_oldest :
      (dwc : Dwc) (r : Request) (rs : List Request)
      → IsValid dwc.dep
      → dwc.dep.req_queued ≡ r ∷ rs
      → find_request r.id dwc.dep.request_list ≡ none
      → let out = ep_dequeue depcmd dwc r.id in
        (out.1 ≡ none)
        × IsValid out.0.dep
        × (out.0.dep.req_queued ≡ rs)
        × (out.0.dep.request_list ≡ dwc.dep.request_list)
        × (out.0.dep.completed ≡ finished r (some Errno.econnreset) ∷ dwc.dep.completed)
        × Ended dwc out.0
  unfolding give
  ep_dequeue_oldest dwc r rs v l n =
      let stopped = stop_active_transfer depcmd dwc true in
      let s = stop_active_transfer-SameRing depcmd dwc true in
      let (w, q, p, c) =
        giveback-IsValid stopped.dep r r.actual rs (some Errno.econnreset)
          (SameRing-IsValid dwc.dep stopped.dep s v) (s.queue ∙ l) in
      subst
        (λ (out : Dwc × Code).
          (out.1 ≡ none)
          × IsValid out.0.dep
          × (out.0.dep.req_queued ≡ rs)
          × (out.0.dep.request_list ≡ dwc.dep.request_list)
          × (out.0.dep.completed ≡ finished r (some Errno.econnreset) ∷ dwc.dep.completed)
          × Ended dwc out.0)
        (sym (ep_dequeue_found dwc r rs l n))
        (
          refl,
          w,
          q,
          p ∙ s.pending,
          c ∙ ap (λ (k : List Request). finished r (some Errno.econnreset) ∷ k) s.completed,
          give_stopped dwc r (some Errno.econnreset),
        )

  ep_set_halt-SameRing :
      (dwc : Dwc) (value protocol : Bool)
      → SameRing dwc.dep (ep_set_halt depcmd dwc value protocol).0.dep
  unfolding ep_set_halt
  ep_set_halt-SameRing dwc value protocol =
      let set = send_ep_cmd-dep depcmd dwc Cmd.set_stall 0 0 in
      let clear = send_ep_cmd-dep depcmd dwc Cmd.clear_stall 0 0 in
      record {
        pool = ground (arith, ap (λ d. d.trb_pool) set, ap (λ d. d.trb_pool) clear);
        enqueue = ground (arith, ap (λ d. d.trb_enqueue) set, ap (λ d. d.trb_enqueue) clear);
        dequeue = ground (arith, ap (λ d. d.trb_dequeue) set, ap (λ d. d.trb_dequeue) clear);
        queue = ground (arith, ap (λ d. d.req_queued) set, ap (λ d. d.req_queued) clear);
        pending = ground (arith, ap (λ d. d.request_list) set, ap (λ d. d.request_list) clear);
        completed = ground (arith, ap (λ d. d.completed) set, ap (λ d. d.completed) clear);
      }

  -- Disabling an endpoint with a valid ring hands out all its requests, those in the ring first, each list
  -- in its order, with -ESHUTDOWN or, where a request's status is not -EINPROGRESS any more, with that
  -- status; afterwards the endpoint has no descriptor and no request, it is neither enabled nor halted,
  -- and its ring is valid.
  pub ep_disable_lem :
      (dwc : Dwc)
      → IsValid dwc.dep
      → let d = (ep_disable depcmd dwc).0.dep in
        IsValid d
        × (d.req_queued ≡ [])
        × (d.request_list ≡ [])
        × (d.completed
            ≡ handed_out
                (dwc.dep.req_queued ++ dwc.dep.request_list)
                (some Errno.eshutdown)
                dwc.dep.completed)
        × (d.desc ≡ none)
        × (d.enabled ≡ false)
        × (d.stall ≡ false)
  unfolding ep_disable
  ep_disable_lem dwc v =
      let removed = remove_requests depcmd dwc in
      let (w, q, p, c) = remove_requests_lem depcmd dwc v in
      let cleared = (ep_set_halt depcmd removed false false).0 in
      let same : SameRing removed.dep removed.dep = record {
        pool = refl;
        enqueue = refl;
        dequeue = refl;
        queue = refl;
        pending = refl;
        completed = refl;
      } in
      let s =
        if_both (λ (x : Dwc). SameRing removed.dep x.dep) removed.dep.stall {x = cleared}
          {y = removed} (ep_set_halt-SameRing removed false false) same in
      let k =
        SameRing-IsValid removed.dep (if removed.dep.stall then cleared else removed).dep s w in
      (
        record {
          pool = k.pool;
          enqueue_in = k.enqueue_in;
          dequeue_in = k.dequeue_in;
          laid = k.laid;
          fits = k.fits;
          pending = k.pending;
        },
        s.queue ∙ q,
        s.pending ∙ p,
        s.completed ∙ c,
        refl,
        refl,
        refl,
      )
