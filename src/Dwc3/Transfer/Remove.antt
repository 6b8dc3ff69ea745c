-- ===== src/Dwc3/Transfer/Remove.antt =====
-- `dwc3_remove_requests`, `dwc3_gadget_ep_dequeue` and `__dwc3_gadget_ep_set_halt`.
use unisoc_usb.Prelude.{
  ℕ, ◌≡◌, refl, ap, ◌∙◌, sym, subst, ap₂, Bool, true, false, List, [], ◌∷◌, ◌++◌, none, some, Code,
  Errno, is_empty, not, arith, if_each, if_both, option_both, if◌then◌else◌, ◌⊎◌, ◌&&◌, ◌||◌,
}
use unisoc_usb.Dwc3.Endpoint.{Request, Endpoint, is_isoc}
use unisoc_usb.Dwc3.Ring.{giveback_all}
use unisoc_usb.Dwc3.Ring.Invariant.{IsValid}
use unisoc_usb.Dwc3.Ring.Giveback.{handed_out, giveback_all_queued, giveback_all_pending, finished}
use unisoc_usb.Dwc3.Command.{
  Depcmd, Dwc, Cmd, EpCmd, Accepts, send_ep_cmd, send_ep_cmd-cmds, send_ep_cmd-dep,
  send_ep_cmd_accepted,
}
use unisoc_usb.Dwc3.Transfer.{
  remove_queued, remove_requests, stop_active_transfer, find_request, ep_dequeue, ep_set_halt,
}
use unisoc_usb.Dwc3.Transfer.Flags.{SameRing-IsValid, SameWait}
use unisoc_usb.Dwc3.Transfer.Queue.{stop_active_transfer-SameRing}

-- What the first loop leaves: nothing in the ring, and all that waits.
record Drained (dep d : Endpoint) : Type 0 where
  pub valid : IsValid d
  pub queued : d.req_queued ≡ []
  pub pending : d.request_list ≡ dep.request_list
  pub completed : d.completed ≡ handed_out dep.req_queued (some Errno.eshutdown) dep.completed

is_empty_nil : {A : Type 0} (xs : List A) → is_empty xs ≡ true → xs ≡ []
is_empty_nil [] e = refl
is_empty_nil (x ∷ xs) e = ground arith

handed_out-append :
    (rs rs' : List Request) (status : Code) (done : List Request)
    → handed_out rs' status (handed_out rs status done) ≡ handed_out (rs ++ rs') status done
handed_out-append [] rs' status done = refl
handed_out-append (r ∷ rs) rs' status done =
    handed_out-append rs rs' status (finished r status ∷ done)

module _ (depcmd : ℕ → Depcmd) where
  remove_queued-Drained :
      (dwc : Dwc) → IsValid dwc.dep → Drained dwc.dep (remove_queued depcmd dwc).dep
  unfolding remove_queued
  remove_queued-Drained dwc v =
      let stopped = stop_active_transfer depcmd dwc true in
      let s = stop_active_transfer-SameRing depcmd dwc true in
      let (w, q, p, c) =
        giveback_all_queued stopped.dep.req_queued (some Errno.eshutdown) stopped.dep
          (SameRing-IsValid dwc.dep stopped.dep s v) refl in
      if_each (λ (d : Dwc). Drained dwc.dep d.dep) (is_empty dwc.dep.req_queued) {x = dwc}
        {y = record stopped {
          dep = giveback_all stopped.dep.req_queued (some Errno.eshutdown) stopped.dep;
        }}
        (λ e.
          let n = is_empty_nil dwc.dep.req_queued e in
          record {
            valid = v;
            queued = n;
            pending = refl;
            completed = sym (ap (λ l. handed_out l (some Errno.eshutdown) dwc.dep.completed) n);
          })
        (λ e. record {
          valid = w;
          queued = q;
          pending = p ∙ s.pending;
          completed = c ∙ ap₂ (λ l k. handed_out l (some Errno.eshutdown) k) s.queue s.completed;
        })

  -- Removing the requests of an endpoint with a valid ring leaves none in the ring and none waiting;
  -- all of them are handed out with -ESHUTDOWN, those in the ring first, each list in its order.
  pub remove_requests_lem :
      (dwc : Dwc)
      → IsValid dwc.dep
      → let d = (remove_requests depcmd dwc).dep in
        IsValid d
        × (d.req_queued ≡ [])
        × (d.request_list ≡ [])
        × (d.completed
            ≡ handed_out
                (dwc.dep.req_queued ++ dwc.dep.request_list)
                (some Errno.eshutdown)
                dwc.dep.completed)
  unfolding remove_requests
  remove_requests_lem dwc v =
      let left = remove_queued depcmd dwc in
      let r = remove_queued-Drained dwc v in
      let (w, q, p, c) =
        giveback_all_pending left.dep.request_list (some Errno.eshutdown) left.dep r.valid refl in
      (
        w,
        q ∙ r.queued,
        p,
        c
            ∙ ap₂ (λ l k. handed_out l (some Errno.eshutdown) k) r.pending r.completed
            ∙ handed_out-append dwc.dep.req_queued dwc.dep.request_list (some Errno.eshutdown)
                dwc.dep.completed,
      )

  -- A request that is in neither list cannot be cancelled: -EINVAL, and nothing changes.
  pub ep_dequeue_absent :
      (dwc : Dwc) (i : ℕ)
      → find_request i dwc.dep.request_list ≡ none
      → find_request i dwc.dep.req_queued ≡ none
      → ep_dequeue depcmd dwc i ≡ (dwc, some Errno.einval)
  unfolding ep_dequeue
  ep_dequeue_absent dwc i a b = ground (arith, a, b)

  -- Halting an isochronous endpoint is refused with -EINVAL; halting an endpoint that has requests is
  -- refused with -EAGAIN unless the protocol asks for it. Neither changes anything.
  pub ep_set_halt_refused :
      (dwc : Dwc) (value protocol : Bool) (e : Errno)
      → (is_isoc dwc.dep.desc ≡ true) × (e ≡ Errno.einval)
        ⊎ (is_isoc dwc.dep.desc ≡ false)
          × (value ≡ true)
          × (protocol ≡ false)
          × ((is_empty dwc.dep.req_queued ≡ false) ⊎ (is_empty dwc.dep.request_list ≡ false))
          × (e ≡ Errno.eagain)
      → ep_set_halt depcmd dwc value protocol ≡ (dwc, some e)
  unfolding ep_set_halt
  ep_set_halt_refused dwc value protocol e h = ground arith

  -- On a controller that carries out the commands, the protocol halts and resumes every endpoint that
  -- is not isochronous, whatever requests it has; the outcome is recorded in its flags, and a
  -- resumed endpoint is no longer wedged.
  pub ep_set_halt_carried_out :
      (dwc : Dwc) (value : Bool)
      → Accepts depcmd
      → is_isoc dwc.dep.desc ≡ false
      → let out = ep_set_halt depcmd dwc value true in
        (out.1 ≡ none)
        × (out.0.dep.stall ≡ value)
        × (out.0.dep.wedge ≡ (value && dwc.dep.wedge))
        × (out.0.dep.enabled ≡ dwc.dep.enabled)
  unfolding ep_set_halt
  ep_set_halt_carried_out dwc value a i = ground (
    arith,
    send_ep_cmd_accepted depcmd dwc Cmd.set_stall 0 0 a,
    send_ep_cmd_accepted depcmd dwc Cmd.clear_stall 0 0 a,
  )

  send_ep_cmd-SameWait :
      (dwc : Dwc) (cmd : Cmd) → SameWait dwc.dep (send_ep_cmd depcmd dwc cmd 0 0).0.dep
  send_ep_cmd-SameWait dwc cmd =
      subst (λ (x : Endpoint). SameWait dwc.dep x) (sym (send_ep_cmd-dep depcmd dwc cmd 0 0))
        (refl, refl, refl)

  -- Halting and resuming leave the waiting requests and the transfer in flight alone.
  pub ep_set_halt-SameWait :
      (dwc : Dwc) (value protocol : Bool)
      → SameWait dwc.dep (ep_set_halt depcmd dwc value protocol).0.dep
  unfolding ep_set_halt
  ep_set_halt-SameWait dwc value protocol =
      let Same = λ (x : Dwc × Code). SameWait dwc.dep x.0.dep in
      let same : SameWait dwc.dep dwc.dep = (refl, refl, refl) in
      let dep = dwc.dep in
      if_both Same (is_isoc dep.desc) same (
        if_both Same value
          (if_both Same
            (not protocol
              && (dep.direction && dep.busy
                  || (not (is_empty dep.req_queued) || not (is_empty dep.request_list))))
            same
            (option_both Same (send_ep_cmd depcmd dwc Cmd.set_stall 0 0).1 (refl, refl, refl)
              (λ e. send_ep_cmd-SameWait dwc Cmd.set_stall)))
          (option_both Same (send_ep_cmd depcmd dwc Cmd.clear_stall 0 0).1 (refl, refl, refl)
            (λ e. send_ep_cmd-SameWait dwc Cmd.clear_stall)))

  pub ep_set_halt-number :
      (dwc : Dwc) → (ep_set_halt depcmd dwc true false).0.dep.number ≡ dwc.dep.number
  unfolding ep_set_halt
  ep_set_halt-number dwc =
      ground (arith, ap (λ d. d.number) (send_ep_cmd-dep depcmd dwc Cmd.set_stall 0 0))

  -- Halting sends something, if anything, after what was sent before.
  pub ep_set_halt_sent :
      (dwc : Dwc)
      → (sent : List EpCmd) × ((ep_set_halt depcmd dwc true false).0.cmds ≡ sent ++ dwc.cmds)
  unfolding ep_set_halt
  ep_set_halt_sent dwc =
      let Sent = λ (x : Dwc × Code). (sent : List EpCmd) × (x.0.cmds ≡ sent ++ dwc.cmds) in
      let dep = dwc.dep in
      let told : EpCmd = record { ep = dep.number; cmd = Cmd.set_stall; param0 = 0; param1 = 0 } in
      let c = send_ep_cmd-cmds depcmd dwc Cmd.set_stall 0 0 in
      if_both Sent (is_isoc dep.desc) ([], refl)
        (if_both Sent
          (dep.direction && dep.busy
            || (not (is_empty dep.req_queued) || not (is_empty dep.request_list)))
          ([], refl)
          (option_both Sent (send_ep_cmd depcmd dwc Cmd.set_stall 0 0).1 (told ∷ [], c)
            (λ e. (told ∷ [], c))))

  -- A halt that is not the protocol's is sent just where no request waits, on an endpoint OUT with an
  -- empty ring.
  pub ep_set_halt-cmds :
      (dwc : Dwc)
      → is_isoc dwc.dep.desc ≡ false
      → dwc.dep.direction ≡ false
      → dwc.dep.req_queued ≡ []
      → let set : EpCmd = record {
        ep = dwc.dep.number;
        cmd = Cmd.set_stall;
        param0 = 0;
        param1 = 0;
      } in
        (ep_set_halt depcmd dwc true false).0.cmds
        ≡ (if is_empty dwc.dep.request_list then set ∷ dwc.cmds else dwc.cmds)
  unfolding ep_set_halt
  ep_set_halt-cmds dwc i n q =
      ground (arith, i, n, q, send_ep_cmd-cmds depcmd dwc Cmd.set_stall 0 0)
