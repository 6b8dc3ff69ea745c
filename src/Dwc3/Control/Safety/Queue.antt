-- ===== src/Dwc3/Control/Safety/Queue.antt =====
-- Queueing a request on endpoint 0, `dwc3_gadget_ep0_queue`, keeps it safe.
use unisoc_usb.Prelude.{
  ℕ, ◌≡◌, ◌≢◌, ◌⊎◌, inl, inr, refl, sym, ap, subst, true, false, not, List, [], ◌∷◌, ◌++◌, some,
  Code, Errno, is_empty, arith, if_both, if_each, option_both,
}
use unisoc_usb.Dwc3.Endpoint.{Request}
use unisoc_usb.Dwc3.Stage.{Phase, NextEvent, is_status, side}
use unisoc_usb.Dwc3.Command.{Depcmd}
use unisoc_usb.Dwc3.Ep0.{Ep0, DeviceState, put_ep}
use unisoc_usb.Dwc3.Control.Queue.{
  ep0_enlisted, control_data, control_status, queue_delayed, queue_data, ep0_queue,
  gadget_ep0_queue,
}
use unisoc_usb.Dwc3.Control.Safety.{View, view, NoneBusy, OneBusy, IsSafe}
use unisoc_usb.Dwc3.Control.Safety.Launch.{
  IsReady, IsClear, control_data-Launch, control_status-Launch, Launch-IsSafe, Launch-phase,
}

-- When a gadget driver may queue a request: once a setup packet is there, in the data stage, and in a
-- status stage that it has delayed.
abbrev pub MayQueue : View → Type 0
MayQueue v =
    ((v.phase ≡ Phase.setup) × (v.next_event ≢ NextEvent.complete))
    ⊎ (v.phase ≡ Phase.data_stage)
    ⊎ ((v.phase ≡ Phase.status) × (v.delayed ≡ true))

IsClear-of : (v : View) → IsSafe v → MayQueue v → v.delayed ≡ false → IsClear v v.expect_in
IsClear-of v s (inl (p, n)) h = inl (elim s.quiet [ inl i ↦ i | inr f ↦ absurd (n f.0) ])
IsClear-of v s (inr (inl p)) h = elim s.quiet [
  | inl i ↦ inl i
  | inr (n, b, inl c, t) ↦ ground arith
  | inr (n, b, inr c, t) ↦ ground arith
]
IsClear-of v s (inr (inr (p, d))) h = ground arith

fresh_of : (v : View) → MayQueue v → (v.phase ≢ Phase.setup) ⊎ (v.next_event ≢ NextEvent.complete)
fresh_of v (inl (p, n)) = inr n
fresh_of v (inr (inl p)) = inl (λ e. ground arith)
fresh_of v (inr (inr (p, d))) = inl (λ e. ground arith)

NoneBusy-of :
    (v : View) → IsSafe v → MayQueue v → is_status v.phase ≡ true → v.delayed ≡ true → NoneBusy v
NoneBusy-of v s (inl (p, n)) t d = ground arith
NoneBusy-of v s (inr (inl p)) t d = ground arith
NoneBusy-of v s (inr (inr (p, _))) t d = elim s.quiet [
  | inl i ↦ i
  | inr (n, b, c, inl e) ↦ ground arith
  | inr (n, b, c, inr e) ↦ ground arith
]

empty_of : (rs : List Request) → not (is_empty rs) ≡ false → rs ≡ []
empty_of [] h = refl
empty_of (r ∷ rs) h = ground arith

-- The view with one request listed.
abbrev pub listed : View → Request → View
listed v r = record v { queue = r ∷ [] }

undelayed_quiet :
    (v : View) → NoneBusy v ⊎ OneBusy v → NoneBusy v ⊎ OneBusy (record v { delayed = false })
undelayed_quiet v (inl i) = inl i
undelayed_quiet v (inr (n, b, c, t)) = inr (n, b, c, inr refl)

module _ (depcmd : ℕ → Depcmd) where
  -- `e` is the state once the request is listed; `v` is the view before.
  module _ (v : View) (e : Ep0) (r : Request) (s : IsSafe v) (m : MayQueue v) where
    queue_delayed-IsSafe :
        view e ≡ listed v r
        → r.queued ≡ false
        → v.delayed ≡ true
        → IsSafe (view (queue_delayed depcmd e))
    unfolding queue_delayed
    queue_delayed-IsSafe q u d =
        let ended : Ep0 = record e {
          state = DeviceState.configured;
          stage = record (e.stage) { delayed_status = false };
        } in
        let w = record v { queue = r ∷ []; delayed = false } in
        let at : view ended ≡ w = ap (λ (x : View). record x { delayed = false }) q in
        let p : e.stage.phase ≡ v.phase = ap (λ (x : View). x.phase) q in
        let b = not e.stage.expect_in in
        if_each (λ (x : Ep0). IsSafe (view x)) (is_status e.stage.phase)
          (λ t.
            let ready : IsReady w b = record {
              few = omega arith;
              unmarked = (u, tt);
              own = s.own;
              fresh = inl (λ z. ground arith);
              clear = inl (NoneBusy-of v s m (rw (← p) t) d);
              sided = inl (ground arith);
              undelayed = inr refl;
              calm = s.calm;
            } in
            Launch-IsSafe (view ended) b (view (control_status depcmd ended (side b)))
              (subst (λ (x : View). IsReady x b) (sym at) ready)
              (control_status-Launch depcmd ended b))
          (λ t. subst IsSafe (sym at) (record {
            few = omega arith;
            unmarked = (u, tt);
            own = s.own;
            fresh = (elim (fresh_of v m) [ inl z ↦ inl z | inr z ↦ inr (inl z) ]);
            quiet = undelayed_quiet v s.quiet;
            calm = s.calm;
          }))

    queue_data-IsSafe :
        (req : Request)
        → view e ≡ listed v r
        → r.queued ≡ false
        → v.delayed ≡ false
        → IsSafe (view (queue_data depcmd e req))
    unfolding queue_data
    queue_data-IsSafe req q u d =
        let begun : Ep0 = record e { stage = record (e.stage) { phase = Phase.data_stage } } in
        let w = record v { queue = r ∷ []; phase = Phase.data_stage } in
        let at : view begun ≡ w = ap (λ (x : View). record x { phase = Phase.data_stage }) q in
        let b = e.stage.expect_in in
        let same : b ≡ v.expect_in = ap (λ (x : View). x.expect_in) q in
        let ready : IsReady w b = record {
          few = omega arith;
          unmarked = (u, tt);
          own = s.own;
          fresh = inl (λ z. ground arith);
          clear = rw same (IsClear-of v s m d);
          sided = inr same;
          undelayed = inl refl;
          calm = s.calm;
        } in
        Launch-IsSafe (view begun) b (view (control_data depcmd begun (side b) req))
          (subst (λ (x : View). IsReady x b) (sym at) ready)
          (control_data-Launch depcmd begun b req)

    listed-IsSafe : view e ≡ listed v r → r.queued ≡ false → IsSafe (view e)
    listed-IsSafe q u = subst IsSafe (sym q) (record {
      few = omega arith;
      unmarked = (u, tt);
      own = s.own;
      fresh = (elim (fresh_of v m) [ inl z ↦ inl z | inr z ↦ inr (inl z) ]);
      quiet = s.quiet;
      calm = s.calm;
    })

  pub ep0_queue-IsSafe :
      (d : Ep0) (req : Request)
      → IsSafe (view d)
      → MayQueue (view d)
      → req.queued ≡ false
      → (d.eps 0).request_list ≡ []
      → IsSafe (view (ep0_queue depcmd d req))
  unfolding ep0_queue ep0_enlisted put_ep
  ep0_queue-IsSafe d req s m u l =
      let e = ep0_enlisted d req in
      let r = record req {
        actual = 0;
        status = some Errno.einprogress;
        epnum = (d.eps 0).number;
      } in
      let q : view e ≡ listed (view d) r =
        ap (λ (x : List Request). record (view d) { queue = x ++ (r ∷ []) }) l in
      let Good = λ (x : Ep0). IsSafe (view x) in
      if_each Good (d.eps 0).pending_request (λ y. absurd (ground (arith, y, s.calm)))
        (λ z.
          if_each Good d.stage.delayed_status (λ y. queue_delayed-IsSafe (view d) e r s m q u y)
            (λ y.
              if_both Good d.stage.three_stage (queue_data-IsSafe (view d) e r s m req q u y)
                (listed-IsSafe (view d) e r s m q u)))

  -- The gadget driver may queue a request that is not queued yet once a setup packet is there, in the
  -- data stage, and in a status stage that it has delayed.
  pub gadget_ep0_queue-IsSafe :
      (d : Ep0) (req : Request)
      → IsSafe (view d)
      → MayQueue (view d)
      → req.queued ≡ false
      → IsSafe (view (gadget_ep0_queue depcmd d req).0)
  unfolding gadget_ep0_queue
  gadget_ep0_queue-IsSafe d req s m u =
      let Good = λ (x : Ep0 × Code). IsSafe (view x.0) in
      option_both Good (d.eps 0).desc s (λ t.
        if_each Good (not (is_empty (d.eps 0).request_list)) (λ y. s)
          (λ y.
            if_both Good (not d.core.pullups_connected) s
              (ep0_queue-IsSafe d req s m u (empty_of (d.eps 0).request_list y))))

  queue_data-phase :
      (e : Ep0) (req : Request) → (view (queue_data depcmd e req)).phase ≡ Phase.data_stage
  unfolding queue_data
  queue_data-phase e req =
      let begun : Ep0 = record e { stage = record (e.stage) { phase = Phase.data_stage } } in
      let b = e.stage.expect_in in
      Launch-phase (view begun) b (view (control_data depcmd begun (side b) req))
        (control_data-Launch depcmd begun b req)

  queue_delayed-phase :
      (e : Ep0)
      → is_status e.stage.phase ≡ false
      → is_status (view (queue_delayed depcmd e)).phase ≡ false
  unfolding queue_delayed
  queue_delayed-phase e n =
      if_each (λ (x : Ep0). is_status x.stage.phase ≡ false) (is_status e.stage.phase)
        (λ y. absurd (ground (arith, y, n))) (λ y. n)

  ep0_queue-phase :
      (d : Ep0) (req : Request)
      → (view d).pending ≡ false
      → is_status (view d).phase ≡ false
      → is_status (view (ep0_queue depcmd d req)).phase ≡ false
  unfolding ep0_queue ep0_enlisted
  ep0_queue-phase d req c n =
      let e = ep0_enlisted d req in
      let Good = λ (x : Ep0). is_status (view x).phase ≡ false in
      if_each Good (d.eps 0).pending_request (λ y. absurd (ground (arith, y, c)))
        (λ y. if_both Good d.stage.delayed_status (queue_delayed-phase e n) (
          if_both Good d.stage.three_stage
            (ap (λ (p : Phase). is_status p) (queue_data-phase e req)) n))

  -- Queueing a request never begins a status stage.
  pub gadget_ep0_queue-phase :
      (d : Ep0) (req : Request)
      → (view d).pending ≡ false
      → is_status (view d).phase ≡ false
      → is_status (view (gadget_ep0_queue depcmd d req).0).phase ≡ false
  unfolding gadget_ep0_queue
  gadget_ep0_queue-phase d req c n =
      let Good = λ (x : Ep0 × Code). is_status (view x.0).phase ≡ false in
      option_both Good (d.eps 0).desc n (λ t.
        if_both Good (not (is_empty (d.eps 0).request_list)) n
          (if_both Good (not d.core.pullups_connected) n (ep0_queue-phase d req c n)))
