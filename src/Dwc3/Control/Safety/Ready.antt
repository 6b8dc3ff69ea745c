-- ===== src/Dwc3/Control/Safety/Ready.antt =====
-- `dwc3_ep0_xfernotready` keeps endpoint 0 safe, whatever stage the host asks for.
use unisoc_usb.Prelude.{
  ℕ, ◌≡◌, inl, inr, refl, sym, subst, Bool, true, false, is_empty, ◌==◌, arith, if_both, if_each,
}
use unisoc_usb.Dwc3.Stage.{Phase, awaits_status, side}
use unisoc_usb.Dwc3.Command.{Depcmd}
use unisoc_usb.Dwc3.Ep0.{Ep0, DeviceState, put_ep}
use unisoc_usb.Dwc3.Control.Queue.{control_status}
use unisoc_usb.Dwc3.Control.Events.{end_control_data, data_ready, status_ready, xfernotready}
use unisoc_usb.Dwc3.Control.Safety.{View, view, NoneBusy, IsSafe, IsTame}
use unisoc_usb.Dwc3.Control.Safety.Launch.{IsReady, control_status-Launch, Launch-IsSafe}
use unisoc_usb.Dwc3.Control.Safety.Restart.{stall_and_restart-IsSafe}

IsSafe-IsTame : (v : View) → IsSafe v → IsTame v
IsSafe-IsTame v s = (s.few, s.unmarked, s.own)

idle_before_status : (v : View) → IsSafe v → awaits_status v.next_event ≡ true → NoneBusy v
idle_before_status v s a = elim s.quiet [ inl i ↦ i | inr f ↦ absurd (ground (arith, f.0, a)) ]

to_status-IsSafe :
    (v : View) (z : Bool)
    → IsSafe v
    → NoneBusy v
    → IsSafe (record v { phase = Phase.status; delayed = z })
to_status-IsSafe v z s i = record {
  few = s.few;
  unmarked = s.unmarked;
  own = s.own;
  fresh = inl (λ e. ground arith);
  quiet = inl i;
  calm = s.calm;
}

module _ (depcmd : ℕ → Depcmd) where
  -- Ending a transfer clears its resource index alone.
  pub end_control_data-view :
      (d : Ep0) (b : Bool) → view (end_control_data depcmd d (side b)) ≡ view d
  unfolding end_control_data put_ep
  end_control_data-view d true =
      if_both (λ (x : Ep0). view x ≡ view d) ((d.eps 1).resource_index == 0) refl refl
  end_control_data-view d false =
      if_both (λ (x : Ep0). view x ≡ view d) ((d.eps 0).resource_index == 0) refl refl

  data_ready-IsSafe : (d : Ep0) (n : ℕ) → IsSafe (view d) → IsSafe (view (data_ready depcmd d n))
  unfolding data_ready
  data_ready-IsSafe d n s =
      let b = d.stage.expect_in in
      if_both (λ (x : Ep0). IsSafe (view x)) (side b == n) s
        (stall_and_restart-IsSafe depcmd (end_control_data depcmd d (side b))
          (subst IsTame (sym (end_control_data-view d b)) (IsSafe-IsTame (view d) s)))

  -- The status stage begins.
  begin_status-IsSafe :
      (d : Ep0) (b : Bool)
      → IsSafe (view d)
      → NoneBusy (view d)
      → d.stage.phase ≡ Phase.status
      → d.stage.delayed_status ≡ false
      → IsSafe (view (control_status depcmd d (side b)))
  begin_status-IsSafe d b s i p z =
      let ready : IsReady (view d) b = record {
        few = s.few;
        unmarked = s.unmarked;
        own = s.own;
        fresh = inl (λ e. ground arith);
        clear = inl i;
        sided = inl (rw p refl);
        undelayed = inr z;
        calm = s.calm;
      } in
      Launch-IsSafe (view d) b (view (control_status depcmd d (side b))) ready
        (control_status-Launch depcmd d b)

  status_ready-IsSafe :
      (d : Ep0) (b : Bool)
      → IsSafe (view d)
      → NoneBusy (view d)
      → IsSafe (view (status_ready depcmd d (side b)))
  unfolding status_ready
  status_ready-IsSafe d b s i =
      let begun : Ep0 = record d { stage = record (d.stage) { phase = Phase.status } } in
      let ended : Ep0 = record begun {
        state = DeviceState.configured;
        stage = record (begun.stage) { delayed_status = false };
      } in
      let Good = λ (x : Ep0). IsSafe (view x) in
      if_each Good d.stage.delayed_status
        (λ z.
          if_both Good (is_empty (d.eps 0).request_list)
            (to_status-IsSafe (view d) d.stage.delayed_status s i)
            (begin_status-IsSafe ended b (to_status-IsSafe (view d) false s i) i refl refl))
        (λ z.
          begin_status-IsSafe begun b (to_status-IsSafe (view d) d.stage.delayed_status s i) i refl
            z)

  pub xfernotready-IsSafe :
      (d : Ep0) (b : Bool) (status : ℕ)
      → IsSafe (view d)
      → IsSafe (view (xfernotready depcmd d (side b) status))
  unfolding xfernotready
  xfernotready-IsSafe d b status s =
      let pending : Ep0 = record d { stage = record (d.stage) { setup_packet_pending = true } } in
      let Good = λ (x : Ep0). IsSafe (view x) in
      if_both Good (status == 1) (data_ready-IsSafe pending (side b) s) (
        if_both Good (status == 2)
          (if_each Good (awaits_status d.stage.next_event)
            (λ a. status_ready-IsSafe pending b s (idle_before_status (view d) s a)) (λ a. s))
          s)
