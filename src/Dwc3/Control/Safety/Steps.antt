-- ===== src/Dwc3/Control/Safety/Steps.antt =====
-- Control transfers step by step: the events of endpoint 0, the requests that a gadget driver queues
-- when it likes, and its halting of the endpoint.
use unisoc_usb.Prelude.{ℕ, ◌≡◌, inl, inr, refl, sym, ◌∙◌, subst, Bool, true, false, [], arith}
use unisoc_usb.Dwc3.Endpoint.{Request}
use unisoc_usb.Dwc3.Stage.{Phase, side}
use unisoc_usb.Dwc3.Command.{Depcmd}
use unisoc_usb.Dwc3.Completion.{Depevt, EpEvent}
use unisoc_usb.Dwc3.Ep0.{Ep0, Ctrl, SetupCode, put_ep}
use unisoc_usb.Dwc3.Control.Start.{restart, stall_and_restart}
use unisoc_usb.Dwc3.Control.Queue.{gadget_ep0_queue}
use unisoc_usb.Dwc3.Control.Events.{
  settle, phase_done, xfer_complete, xfernotready, ep0_event, ep0_interrupt, status_bits,
}
use unisoc_usb.Dwc3.Control.Safety.{View, view, NoneBusy, OneBusy, IsSafe}
use unisoc_usb.Dwc3.Control.Safety.Launch.{busy_on}
use unisoc_usb.Dwc3.Control.Safety.Restart.{restart-IsSafe, stall_and_restart-IsSafe}
use unisoc_usb.Dwc3.Control.Safety.Queue.{MayQueue, gadget_ep0_queue-IsSafe}
use unisoc_usb.Dwc3.Control.Safety.Finish.{
  IsOver, IsOver-IsSafe, complete_data-IsSafe, complete_status-IsSafe,
}
use unisoc_usb.Dwc3.Control.Safety.Ready.{xfernotready-IsSafe}
use unisoc_usb.Dwc3.Control.Safety.Setup.{QueuesOnly, inspect_setup-IsSafe}

-- Nothing is marked as busy when the transfer that was is over.
settle-idle :
    (d : Ep0) (b : Bool)
    → IsSafe (view d)
    → busy_on (view d) b ≡ true
    → OneBusy (view d) × NoneBusy (view (settle d (side b)))
unfolding settle put_ep
settle-idle d true s h = elim s.quiet [
  | inl i ↦ absurd (ground (arith, i, h))
  | inr f ↦ (f, ground (arith, f, h))
]
settle-idle d false s h = elim s.quiet [
  | inl i ↦ absurd (ground (arith, i, h))
  | inr f ↦ (f, ground (arith, f, h))
]

settle-IsOver :
    (d : Ep0) (b : Bool)
    → IsSafe (view d)
    → NoneBusy (view (settle d (side b)))
    → IsOver (view (settle d (side b)))
unfolding settle put_ep
settle-IsOver d true s i = record { tame = (s.few, s.unmarked, s.own); idle = i; calm = s.calm }
settle-IsOver d false s i = record { tame = (s.few, s.unmarked, s.own); idle = i; calm = s.calm }

settle_queue : (d : Ep0) (b : Bool) → (view (settle d (side b))).queue ≡ (view d).queue
unfolding settle put_ep
settle_queue d true = refl
settle_queue d false = refl

pub data_side :
    (v : View) (b : Bool)
    → OneBusy v
    → busy_on v b ≡ true
    → v.phase ≡ Phase.data_stage
    → b ≡ v.expect_in
data_side v b (n, k, inl c, t) h p = ground arith
data_side v true (n, k, inr c, t) h p = ground arith
data_side v false (n, k, inr c, t) h p = ground arith

OneBusy-empty : (v : View) → IsSafe v → OneBusy v → v.phase ≡ Phase.setup → v.queue ≡ []
OneBusy-empty v s f p = elim s.fresh [
  | inl n ↦ absurd (n p)
  | inr (inl n) ↦ absurd (n f.0)
  | inr (inr e) ↦ e
]

-- The end of a transfer is reported only on an endpoint that is marked as busy: not that of a transfer that
-- a stall has left running.
abbrev pub IsReported : View → Bool → EpEvent → Type 0
IsReported v b EpEvent.xfer_complete = busy_on v b ≡ true
IsReported v b _ = Unit

module _ (depcmd : ℕ → Depcmd) (setup : Ctrl → Ep0 → Ep0 × SetupCode) where
  phase_done-IsSafe :
      (p : Phase) (d : Ep0) (b : Bool) (ctrl : Ctrl)
      → QueuesOnly depcmd setup
      → d.stage.phase ≡ p
      → IsOver (view d)
      → (p ≡ Phase.setup → (view d).queue ≡ [])
      → (p ≡ Phase.data_stage → b ≡ d.stage.expect_in)
      → IsSafe (view (phase_done depcmd setup p d (side b) ctrl))
  unfolding phase_done
  phase_done-IsSafe Phase.setup d b ctrl q e o n x =
      inspect_setup-IsSafe depcmd setup d ctrl q o (n refl) e
  phase_done-IsSafe Phase.data_stage d b ctrl q e o n x =
      complete_data-IsSafe depcmd d b o e (x refl)
  phase_done-IsSafe Phase.status d b ctrl q e o n x = complete_status-IsSafe depcmd d o
  phase_done-IsSafe Phase.unconnected d b ctrl q e o n x =
      IsOver-IsSafe (view d) o (λ z. ground arith)

  xfer_complete-IsSafe :
      (d : Ep0) (b : Bool) (ctrl : Ctrl)
      → QueuesOnly depcmd setup
      → IsSafe (view d)
      → busy_on (view d) b ≡ true
      → IsSafe (view (xfer_complete depcmd setup d (side b) ctrl))
  unfolding xfer_complete settle put_ep
  xfer_complete-IsSafe d b ctrl q s h =
      let (f, i) = settle-idle d b s h in
      let x : d.stage.phase ≡ Phase.data_stage → b ≡ d.stage.expect_in =
        λ e. data_side (view d) b f h e in
      phase_done-IsSafe d.stage.phase (settle d (side b)) b ctrl q refl (settle-IsOver d b s i)
        (λ p. settle_queue d b ∙ OneBusy-empty (view d) s f p) x

  ep0_event-IsSafe :
      (k : EpEvent) (d : Ep0) (e : Depevt) (b : Bool) (ctrl : Ctrl)
      → QueuesOnly depcmd setup
      → IsSafe (view d)
      → e.endpoint_number ≡ side b
      → IsReported (view d) b k
      → IsSafe (view (ep0_event depcmd setup k d e ctrl))
  unfolding ep0_event
  ep0_event-IsSafe EpEvent.xfer_complete d e b ctrl q s n h =
      subst (λ (i : ℕ). IsSafe (view (xfer_complete depcmd setup d i ctrl))) (sym n)
        (xfer_complete-IsSafe d b ctrl q s h)
  ep0_event-IsSafe EpEvent.xfer_not_ready d e b ctrl q s n h =
      subst (λ (i : ℕ). IsSafe (view (xfernotready depcmd d i (status_bits e)))) (sym n)
        (xfernotready-IsSafe depcmd d b (status_bits e) s)
  ep0_event-IsSafe EpEvent.xfer_in_progress d e b ctrl q s n h = s
  ep0_event-IsSafe EpEvent.rxtx_fifo d e b ctrl q s n h = s
  ep0_event-IsSafe EpEvent.stream_evt d e b ctrl q s n h = s
  ep0_event-IsSafe EpEvent.cmd_complete d e b ctrl q s n h = s

-- The gadget driver's `setup` is one of a family, since it may change its mind from call to call.
module _ (depcmd : ℕ → Depcmd) (setup : ℕ → Ctrl → Ep0 → Ep0 × SetupCode) where
  -- One step of endpoint 0: an event of physical endpoint 0 or 1, with `ctrl` the setup packet that the
  -- controller has written by then, and the `n`th `setup`; a request of the gadget driver; a halt by it.
  pub data Step (d : Ep0) : Ep0 → Type 0 where
    event :
        (n : ℕ) (e : Depevt) (b : Bool) (ctrl : Ctrl)
        → e.endpoint_number ≡ side b
        → IsReported (view d) b e.endpoint_event
        → Step d (ep0_interrupt depcmd (setup n) d e ctrl)
    queue :
        (req : Request)
        → MayQueue (view d)
        → req.queued ≡ false
        → Step d (gadget_ep0_queue depcmd d req).0
    halt : Step d (stall_and_restart depcmd d)

  -- What steps lead to from a state in which `dwc3_gadget_start` awaits the first setup packet.
  pub data Reach (d : Ep0) : Ep0 → Type 0 where
    start : Reach d (restart depcmd d)
    later : {s t : Ep0} → Reach d s → Step s t → Reach d t

  Step-IsSafe :
      (d e : Ep0)
      → ((n : ℕ) → QueuesOnly depcmd (setup n))
      → IsSafe (view d)
      → Step d e
      → IsSafe (view e)
  unfolding ep0_interrupt
  Step-IsSafe d _ q s (Step.event i e b ctrl n r) =
      ep0_event-IsSafe depcmd (setup i) e.endpoint_event d e b ctrl (q i) s n r
  Step-IsSafe d _ q s (Step.queue req m u) = gadget_ep0_queue-IsSafe depcmd d req s m u
  Step-IsSafe d _ q s Step.halt = stall_and_restart-IsSafe depcmd d (s.few, s.unmarked, s.own)

  -- Once the first setup packet is awaited on an idle endpoint 0 without requests, every sequence of
  -- events, queued requests and halts keeps at most one request on it, none while a setup packet is
  -- awaited, and at most one of physical endpoints 0 and 1 marked as busy (DWC3_EP_BUSY), whose event is
  -- awaited then; in the data stage it is the one that the host asked for. The gadget driver's `setup`
  -- only queues requests, it queues others at the times that `MayQueue` names, and the end of a transfer
  -- is reported only on an endpoint marked as busy, not of a transfer that a halt has left running.
  pub Reach-IsSafe :
      (d e : Ep0)
      → ((n : ℕ) → QueuesOnly depcmd (setup n))
      → IsOver (view d)
      → (view d).queue ≡ []
      → Reach d e
      → IsSafe (view e)
  Reach-IsSafe d _ q o n Reach.start = restart-IsSafe depcmd d o.tame n o.idle o.calm
  Reach-IsSafe d e q o n (Reach.later {s} {t} r step) =
      Step-IsSafe s e q (Reach-IsSafe d s q o n r) step
