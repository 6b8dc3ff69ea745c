-- ===== src/Dwc3/Completion/Interrupt.antt =====
-- The events of an endpoint other than 0, through `dwc3_endpoint_interrupt`, keep its ring.
use unisoc_usb.Prelude.{
  ℕ, ◌+◌, ◌-◌, ◌*◌, ◌%◌, ◌^◌, ◌<◌, refl, subst, ◌∙◌, sym, Bool, true, false, not, ◌&&◌, ◌||◌, none,
  some, Code, Errno, is_empty, ◌==◌, if◌then◌else◌, arith, if_both, option_both,
}
use unisoc_usb.Dwc3.Endpoint.{Endpoint, is_isoc}
use unisoc_usb.Dwc3.Ring.Invariant.{IsValid, IsHonest, used}
use unisoc_usb.Dwc3.Command.{Depcmd, Dwc, Accepts}
use unisoc_usb.Dwc3.Transfer.{only_enabled, stop_active_transfer, start_isoc_at, kick_transfer}
use unisoc_usb.Dwc3.Transfer.Flags.{SameRing}
use unisoc_usb.Dwc3.Transfer.Kick.{Keeps, Keeps-trans, SameRing-Keeps, kick_transfer-Keeps}
use unisoc_usb.Dwc3.Transfer.Queue.{only_enabled-SameRing, stop_active_transfer-SameRing}
use unisoc_usb.Dwc3.Completion.{
  Depevt, EpEvent, cleanup_reqs, settle_isoc, cleanup_done_reqs, transfer_complete, is_complete,
  start_isoc, endpoint_event, is_cmd_complete, endpoint_interrupt,
}
use unisoc_usb.Dwc3.Completion.Cleanup.{Cleaned, cleanup_reqs-Cleaned}

-- The ring is kept and has room, so that a kick may follow.
record Settled (dep d : Endpoint) : Type 0 where
  kept : Keeps dep d
  room : used d.req_queued < 1023

room-IsHonest : (dep : Endpoint) → used dep.req_queued < 1023 → IsHonest dep
room-IsHonest dep h = λ e. ground arith

Cleaned-Settled : (dep d : Endpoint) → Cleaned dep d → Settled dep d
Cleaned-Settled dep d c = record {
  kept = record { valid = c.valid; order = c.order };
  room = c.room;
}

SameRing-Settled : (dep d d' : Endpoint) → Settled dep d → SameRing d d' → Settled dep d'
SameRing-Settled dep d d' s r = record {
  kept = Keeps-trans dep d d' s.kept (SameRing-Keeps d d' r s.kept.valid);
  room = subst (λ k. used k < 1023) (sym r.queue) s.room;
}

SameRing-trans : (d d' d'' : Endpoint) → SameRing d d' → SameRing d' d'' → SameRing d d''
SameRing-trans d d' d'' r s = record {
  pool = s.pool ∙ r.pool;
  enqueue = s.enqueue ∙ r.enqueue;
  dequeue = s.dequeue ∙ r.dequeue;
  queue = s.queue ∙ r.queue;
  pending = s.pending ∙ r.pending;
  completed = s.completed ∙ r.completed;
}

-- Flags are no part of the ring.
flagged :
    (dep : Endpoint) (busy pending cmdcmplt : Bool) (index : ℕ)
    → SameRing dep (record dep {
      busy = busy;
      pending_request = pending;
      cmdcmplt_busy = cmdcmplt;
      resource_index = index;
    })
flagged dep busy pending cmdcmplt index = record {
  pool = refl;
  enqueue = refl;
  dequeue = refl;
  queue = refl;
  pending = refl;
  completed = refl;
}

module _ (depcmd : ℕ → Depcmd) where
  settle_isoc-SameRing : (dwc : Dwc) → SameRing dwc.dep (settle_isoc depcmd dwc).dep
  unfolding settle_isoc
  settle_isoc-SameRing dwc =
      let stopped = stop_active_transfer depcmd dwc true in
      let waiting : Endpoint = record (only_enabled dwc.dep) {
        enabled = false;
        pending_request = true;
      } in
      if_both (λ (d : Dwc). SameRing dwc.dep d.dep) (is_empty dwc.dep.request_list)
        {x = record dwc { dep = waiting }} {y = record stopped { dep = only_enabled stopped.dep }}
        (SameRing-trans dwc.dep (only_enabled dwc.dep) waiting (only_enabled-SameRing dwc.dep)
          (record {
            pool = refl;
            enqueue = refl;
            dequeue = refl;
            queue = refl;
            pending = refl;
            completed = refl;
          }))
        (SameRing-trans dwc.dep stopped.dep _ (stop_active_transfer-SameRing depcmd dwc true)
          (only_enabled-SameRing stopped.dep))

  cleanup_done_reqs-Settled :
      (dwc : Dwc) (event : Depevt) (status : Code)
      → IsValid dwc.dep
      → Settled dwc.dep (cleanup_done_reqs depcmd dwc event status).dep
  unfolding cleanup_done_reqs
  cleanup_done_reqs-Settled dwc event status v =
      let out = cleanup_reqs dwc.dep.req_queued dwc.dep event status in
      let cleaned : Dwc = record dwc { dep = out.0 } in
      let s =
        Cleaned-Settled dwc.dep out.0
          (cleanup_reqs-Cleaned dwc.dep.req_queued dwc.dep event status v refl) in
      let t = SameRing-Settled dwc.dep out.0 _ s (settle_isoc-SameRing cleaned) in
      if_both (λ (d : Dwc). Settled dwc.dep d.dep) out.1 {x = cleaned} s
        (option_both (λ (d : Dwc). Settled dwc.dep d.dep) out.0.desc {x = cleaned} s
          (λ k.
            if_both (λ (d : Dwc). Settled dwc.dep d.dep)
              (dwc.pullups_connected && (is_isoc (some k) && is_empty out.0.req_queued))
              {x = settle_isoc depcmd cleaned} {y = cleaned} t s))

  transfer_complete-Keeps :
      (dwc : Dwc) (event : Depevt)
      → Accepts depcmd
      → IsValid dwc.dep
      → Keeps dwc.dep (transfer_complete depcmd dwc event).dep
  unfolding transfer_complete
  transfer_complete-Keeps dwc event a v =
      let status = if event.buserr then some Errno.econnreset else none in
      let cleaned = cleanup_done_reqs depcmd dwc event status in
      let s = cleanup_done_reqs-Settled dwc event status v in
      let d = cleaned.dep in
      let idle : Dwc = record cleaned { dep = record d { busy = false } } in
      let i =
        SameRing-Settled dwc.dep d idle.dep s
          (flagged d false d.pending_request d.cmdcmplt_busy d.resource_index) in
      let whole = is_complete event.endpoint_event in
      option_both (λ (x : Dwc). Keeps dwc.dep x.dep) d.desc {x = idle} i.kept
        (λ t.
          let next = if whole || is_isoc (some t) then idle else cleaned in
          let n =
            if_both (λ (x : Dwc). Settled dwc.dep x.dep) (whole || is_isoc (some t)) {x = idle}
              {y = cleaned} i s in
          if_both (λ (x : Dwc). Keeps dwc.dep x.dep)
            (not next.pullups_connected || is_isoc (some t)) {x = next}
            {y = (kick_transfer depcmd next 0 whole).0} n.kept
            (Keeps-trans dwc.dep next.dep _ n.kept (
              kick_transfer-Keeps depcmd next 0 whole a n.kept.valid
                (room-IsHonest next.dep n.room))))

  start_isoc-Keeps :
      (dwc : Dwc) (event : Depevt)
      → Accepts depcmd
      → IsValid dwc.dep
      → IsHonest dwc.dep
      → Keeps dwc.dep (start_isoc depcmd dwc event).dep
  unfolding start_isoc start_isoc_at
  start_isoc-Keeps dwc event a v h =
      let d = dwc.dep in
      let interval = d.interval in
      let cur_uf = if interval == 0 then 0 else event.parameters - event.parameters % interval in
      let uf = (cur_uf + interval * 4) % 2 ^ 32 in
      if_both (λ (x : Dwc). Keeps dwc.dep x.dep) (is_empty dwc.dep.request_list)
        {x = record dwc { dep = record d { pending_request = true } }}
        {y = (kick_transfer depcmd dwc uf true).0}
        (SameRing-Keeps d _ (flagged d d.busy true d.cmdcmplt_busy d.resource_index) v)
        (kick_transfer-Keeps depcmd dwc uf true a v h)

  endpoint_event-Keeps :
      (e : EpEvent) (dwc : Dwc) (event : Depevt)
      → Accepts depcmd
      → IsValid dwc.dep
      → IsHonest dwc.dep
      → Keeps dwc.dep (endpoint_event depcmd e dwc event).dep
  unfolding endpoint_event
  endpoint_event-Keeps EpEvent.xfer_complete dwc event a v h =
      let d = dwc.dep in
      let reset : Dwc = record dwc { dep = record d { resource_index = 0 } } in
      let k = SameRing-Keeps d reset.dep (flagged d d.busy d.pending_request d.cmdcmplt_busy 0) v in
      (if_both (λ (x : Dwc). Keeps dwc.dep x.dep) (is_isoc dwc.dep.desc) {x = reset}
        {y = transfer_complete depcmd reset event} k
        (Keeps-trans d reset.dep _ k (transfer_complete-Keeps reset event a k.valid)))
  endpoint_event-Keeps EpEvent.xfer_in_progress dwc event a v h =
      (transfer_complete-Keeps dwc event a v)
  endpoint_event-Keeps EpEvent.xfer_not_ready dwc event a v h =
      let same : Keeps dwc.dep dwc.dep = record { valid = v; order = refl } in
      (option_both (λ (x : Dwc). Keeps dwc.dep x.dep) dwc.dep.desc {x = dwc} same
        (λ t.
          if_both (λ (x : Dwc). Keeps dwc.dep x.dep) (is_isoc (some t))
            {x = start_isoc depcmd dwc event} {y = (kick_transfer depcmd dwc 0 (not event.lst)).0}
            (start_isoc-Keeps dwc event a v h)
            (kick_transfer-Keeps depcmd dwc 0 (not event.lst) a v h)))
  endpoint_event-Keeps EpEvent.rxtx_fifo dwc event a v h = (record { valid = v; order = refl })
  endpoint_event-Keeps EpEvent.stream_evt dwc event a v h = (record { valid = v; order = refl })
  endpoint_event-Keeps EpEvent.cmd_complete dwc event a v h =
      let d = dwc.dep in
      (SameRing-Keeps d _ (flagged d d.busy d.pending_request false d.resource_index) v)

  -- No event of an endpoint breaks its valid ring, loses a request or changes the order in which
  -- requests are handed out, as long as the controller carries out the commands and the TRB before a full
  -- ring's enqueue pointer is still the hardware's.
  pub endpoint_interrupt-Keeps :
      (dwc : Dwc) (event : Depevt)
      → Accepts depcmd
      → IsValid dwc.dep
      → IsHonest dwc.dep
      → Keeps dwc.dep (endpoint_interrupt depcmd dwc event).dep
  unfolding endpoint_interrupt
  endpoint_interrupt-Keeps dwc event a v h =
      let same : Keeps dwc.dep dwc.dep = record { valid = v; order = refl } in
      let d = dwc.dep in
      let handled = endpoint_event depcmd event.endpoint_event dwc event in
      if_both (λ (x : Dwc). Keeps dwc.dep x.dep) (not d.enabled && not d.cmdcmplt_busy) {x = dwc}
        same
        (if_both (λ (x : Dwc). Keeps dwc.dep x.dep)
          (not d.enabled && d.cmdcmplt_busy && not (is_cmd_complete event.endpoint_event)) {x = dwc}
          {y = handled} same (endpoint_event-Keeps event.endpoint_event dwc event a v h))
