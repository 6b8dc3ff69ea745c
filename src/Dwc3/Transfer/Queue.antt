-- ===== src/Dwc3/Transfer/Queue.antt =====
-- `dwc3_gadget_ep_queue` and `dwc3_gadget_ep_dequeue`.
use unisoc_usb.Prelude.{
  ℕ, ◌≡◌, ◌≢◌, refl, subst, ◌∙◌, sym, Bool, true, false, not, ◌&&◌, List, [], ◌∷◌, ◌++◌, none, some,
  Code, Errno, All, is_empty, ◌==◌, arith, if_both, ==_iff, ==_false, map-append, append_assoc, ◌⊎◌,
}
use unisoc_usb.Dwc3.Endpoint.{Request, Endpoint, XferType, is_isoc, is_int}
use unisoc_usb.Dwc3.Ring.Invariant.{IsValid, IsHonest, IsHonest-of_same, IsPending}
use unisoc_usb.Dwc3.Ring.Giveback.{history, rev_append}
use unisoc_usb.Dwc3.Command.{Depcmd, Dwc, Accepts}
use unisoc_usb.Dwc3.Transfer.{
  clear_pending, only_enabled, enlisted, queue_started, queue_waiting, queue_running,
  ep_queue_locked, ep_queue, kick_transfer, stop_active_transfer,
}
use unisoc_usb.Dwc3.Transfer.Flags.{SameRing}
use unisoc_usb.Dwc3.Transfer.Kick.{Keeps, Leaves, Keeps-trans, SameRing-Keeps, kick_transfer-Keeps}

clear_pending-SameRing : (o : Dwc × Code) → SameRing o.0.dep (clear_pending o).0.dep
unfolding clear_pending
clear_pending-SameRing (dwc, none) = record {
  pool = refl;
  enqueue = refl;
  dequeue = refl;
  queue = refl;
  pending = refl;
  completed = refl;
}
clear_pending-SameRing (dwc, some e) = record {
  pool = refl;
  enqueue = refl;
  dequeue = refl;
  queue = refl;
  pending = refl;
  completed = refl;
}

pub only_enabled-SameRing : (dep : Endpoint) → SameRing dep (only_enabled dep)
unfolding only_enabled
only_enabled-SameRing dep = record {
  pool = refl;
  enqueue = refl;
  dequeue = refl;
  queue = refl;
  pending = refl;
  completed = refl;
}

rev_append-snoc :
    (done later : List ℕ) (i : ℕ)
    → rev_append done (later ++ (i ∷ [])) ≡ rev_append done later ++ (i ∷ [])
rev_append-snoc [] later i = refl
rev_append-snoc (d ∷ done) later i = rev_append-snoc done (d ∷ later) i

All-snoc :
    (rs : List Request) (r : Request)
    → All IsPending rs
    → IsPending r
    → All IsPending (rs ++ (r ∷ []))
All-snoc [] r h p = (p, tt)
All-snoc (x ∷ rs) r h p = (h.0, All-snoc rs r h.1 p)

enlisted-IsValid :
    (dwc : Dwc) (req : Request)
    → IsValid dwc.dep
    → IsPending req
    → IsValid (enlisted dwc req).dep
      × (history (enlisted dwc req).dep ≡ history dwc.dep ++ (req.id ∷ []))
unfolding enlisted
enlisted-IsValid dwc req v p = (
  record {
    pool = v.pool;
    enqueue_in = v.enqueue_in;
    dequeue_in = v.dequeue_in;
    laid = v.laid;
    fits = v.fits;
    pending = All-snoc dwc.dep.request_list _ v.pending p;
  },
  simp (map-append, ← append_assoc, rev_append-snoc),
)

enlisted-IsHonest : (dwc : Dwc) (req : Request) → IsHonest dwc.dep → IsHonest (enlisted dwc req).dep
unfolding enlisted
enlisted-IsHonest dwc req h = IsHonest-of_same dwc.dep (enlisted dwc req).dep refl refl refl h

module _ (depcmd : ℕ → Depcmd) where
  pub stop_active_transfer-SameRing :
      (dwc : Dwc) (force : Bool) → SameRing dwc.dep (stop_active_transfer depcmd dwc force).dep
  unfolding stop_active_transfer
  stop_active_transfer-SameRing dwc force =
      if_both (λ (d : Dwc). SameRing dwc.dep d.dep) (dwc.dep.resource_index == 0)
        (record {
          pool = refl;
          enqueue = refl;
          dequeue = refl;
          queue = refl;
          pending = refl;
          completed = refl;
        })
        (record {
          pool = refl;
          enqueue = refl;
          dequeue = refl;
          queue = refl;
          pending = refl;
          completed = refl;
        })

  queue_waiting-Leaves :
      (dwc : Dwc)
      → Accepts depcmd
      → IsValid dwc.dep
      → IsHonest dwc.dep
      → Leaves dwc.dep (queue_waiting depcmd dwc)
  unfolding queue_waiting
  queue_waiting-Leaves dwc a v h =
      let same : Keeps dwc.dep dwc.dep = record { valid = v; order = refl } in
      let fresh = kick_transfer depcmd dwc 0 true in
      let kicked = kick_transfer-Keeps depcmd dwc 0 true a v h in
      let cleared =
        Keeps-trans dwc.dep fresh.0.dep (clear_pending fresh).0.dep kicked
          (SameRing-Keeps fresh.0.dep _ (clear_pending-SameRing fresh) kicked.valid) in
      let stopped = stop_active_transfer depcmd dwc true in
      let halted = SameRing-Keeps dwc.dep stopped.dep (stop_active_transfer-SameRing dwc true) v in
      let ended =
        Keeps-trans dwc.dep stopped.dep (only_enabled stopped.dep) halted
          (SameRing-Keeps stopped.dep _ (only_enabled-SameRing stopped.dep) halted.valid) in
      if_both (Leaves dwc.dep) (is_isoc dwc.dep.desc)
        (record {
          kept =
              if_both (λ (d : Dwc). Keeps dwc.dep d.dep) (is_empty dwc.dep.req_queued)
                {x = record stopped { dep = only_enabled stopped.dep }} {y = dwc} ended same;
        })
        (record { kept = cleared })

  queue_running-Leaves :
      (dwc : Dwc) (unset : Code)
      → Accepts depcmd
      → IsValid dwc.dep
      → IsHonest dwc.dep
      → Leaves dwc.dep (queue_running depcmd dwc unset)
  unfolding queue_running
  queue_running-Leaves dwc unset a v h =
      if_both (Leaves dwc.dep) (is_isoc dwc.dep.desc && dwc.dep.busy && not dwc.dep.missed_isoc)
        {x = kick_transfer depcmd dwc dwc.dep.resource_index false}
        (record { kept = kick_transfer-Keeps depcmd dwc dwc.dep.resource_index false a v h })
        (if_both (Leaves dwc.dep) dwc.dep.stream_capable {x = kick_transfer depcmd dwc 0 true}
          {y = (dwc, unset)} (record { kept = kick_transfer-Keeps depcmd dwc 0 true a v h })
          (record { kept = record { valid = v; order = refl } }))

  queue_started-Leaves :
      (dwc : Dwc) (unset : Code)
      → Accepts depcmd
      → IsValid dwc.dep
      → IsHonest dwc.dep
      → Leaves dwc.dep (queue_started depcmd dwc unset)
  unfolding queue_started
  queue_started-Leaves dwc unset a v h =
      if_both (Leaves dwc.dep)
        (not (is_isoc dwc.dep.desc) && not (is_int dwc.dep.desc) && not dwc.dep.busy)
        {x = kick_transfer depcmd dwc 0 true}
        (record { kept = kick_transfer-Keeps depcmd dwc 0 true a v h })
        (if_both (Leaves dwc.dep) dwc.dep.pending_request {x = queue_waiting depcmd dwc}
          {y = queue_running depcmd dwc unset} (queue_waiting-Leaves dwc a v h)
          (queue_running-Leaves dwc unset a v h))

  ep_queue_accepts :
      (dwc : Dwc) (req : Request) (unset : Code) (t : XferType)
      → dwc.dep.desc ≡ some t
      → req.owner ≡ dwc.dep.number
      → dwc.pullups_connected ≡ true
      → ep_queue depcmd dwc req unset ≡ ep_queue_locked depcmd dwc req unset
  unfolding ep_queue
  ep_queue_accepts dwc req unset t d o c =
      let s : (req.owner == dwc.dep.number) ≡ true = (==_iff req.owner dwc.dep.number).1 o in
      ground (arith, d, s, c)

  -- A request that is accepted for an enabled endpoint of a connected gadget takes its place behind
  -- all earlier ones, and the ring stays valid, as long as the controller carries out the commands and
  -- the TRB before a full ring's enqueue pointer is still the hardware's.
  pub ep_queue_lem :
      (dwc : Dwc) (req : Request) (unset : Code) (t : XferType)
      → Accepts depcmd
      → IsValid dwc.dep
      → IsHonest dwc.dep
      → IsPending req
      → dwc.dep.desc ≡ some t
      → req.owner ≡ dwc.dep.number
      → dwc.pullups_connected ≡ true
      → IsValid (ep_queue depcmd dwc req unset).0.dep
        × (history (ep_queue depcmd dwc req unset).0.dep ≡ history dwc.dep ++ (req.id ∷ []))
  unfolding ep_queue_locked
  ep_queue_lem dwc req unset t a v h p d o c =
      let (w, e) = enlisted-IsValid dwc req v p in
      let k =
        (queue_started-Leaves (enlisted dwc req) unset a w (enlisted-IsHonest dwc req h)).kept in
      subst
        (λ (x : Dwc × Code). IsValid x.0.dep × (history x.0.dep ≡ history dwc.dep ++ (req.id ∷ [])))
        (sym (ep_queue_accepts dwc req unset t d o c)) (k.valid, k.order ∙ e)

  -- An endpoint that is disabled, a request of another endpoint and a disconnected gadget are refused
  -- with their own errors, and nothing changes.
  pub ep_queue_refused :
      (dwc : Dwc) (req : Request) (unset : Code) (t : XferType) (e : Errno)
      → (dwc.dep.desc ≡ none) × (e ≡ Errno.eshutdown)
        ⊎ (dwc.dep.desc ≡ some t) × (req.owner ≢ dwc.dep.number) × (e ≡ Errno.einval)
        ⊎ (dwc.dep.desc ≡ some t)
          × (req.owner ≡ dwc.dep.number)
          × (dwc.pullups_connected ≡ false)
          × (e ≡ Errno.eshutdown)
      → ep_queue depcmd dwc req unset ≡ (dwc, some e)
  unfolding ep_queue
  ep_queue_refused dwc req unset t e h =
      ground (arith, ==_false req.owner dwc.dep.number, ==_iff req.owner dwc.dep.number)
