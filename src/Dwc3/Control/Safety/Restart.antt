-- ===== src/Dwc3/Control/Safety/Restart.antt =====
-- Starting over, `dwc3_ep0_stall_and_restart`, leaves endpoint 0 safe wherever it stood.
use unisoc_usb.Prelude.{
  ℕ, ◌≡◌, ◌≤◌, inl, inr, refl, sym, ap, ◌∙◌, subst, true, false, List, [], ◌∷◌, some, Code, Errno,
  length, arith, ==_refl,
}
use unisoc_usb.Dwc3.Endpoint.{Request, list_del}
use unisoc_usb.Dwc3.Stage.{Phase, NextEvent}
use unisoc_usb.Dwc3.Command.{Depcmd, Dwc, Accepts}
use unisoc_usb.Dwc3.Ring.Giveback.{giveback_unmarked}
use unisoc_usb.Dwc3.Transfer.Remove.{ep_set_halt-SameWait}
use unisoc_usb.Dwc3.Transfer.{give, only_enabled}
use unisoc_usb.Dwc3.Ep0.{Ep0, put_ep}
use unisoc_usb.Dwc3.Control.Start.{
  at_ep, back, give_oldest, out_start, stall_both, restart, stall_and_restart,
}
use unisoc_usb.Dwc3.Control.Safety.{View, view, NoneBusy, IsSafe, IsTame, Unmarked}
use unisoc_usb.Dwc3.Control.Safety.Launch.{
  IsReady, start_trans-Launch, start_trans-begun, Launch-IsSafe,
}

-- The view once no request is left.
abbrev pub emptied : View → View
emptied v = record v { queue = [] }

give_unmarked :
    (dwc : Dwc) (r : Request) (status : Code)
    → r.queued ≡ false
    → dwc.dep.request_list ≡ r ∷ []
    → (give dwc r status).dep.request_list ≡ []
unfolding give list_del
give_unmarked dwc r status u e =
    (giveback_unmarked dwc.dep r status u).0 ∙ rw (e, ==_refl r.id) refl

-- Giving back the only request empties the list and changes nothing else of the view.
pub give_oldest-emptied :
    (d : Ep0) (rs : List Request) (status : Code)
    → (d.eps 0).request_list ≡ rs
    → length rs ≤ 1
    → Unmarked rs
    → view (give_oldest rs d status) ≡ emptied (view d)
unfolding give_oldest back put_ep give
give_oldest-emptied d [] status e n u = ap (λ (q : List Request). record (view d) { queue = q }) e
give_oldest-emptied d (r ∷ []) status e n u =
    let (l, b, p) = giveback_unmarked (d.eps 0) r status u.0 in
    rw (give_unmarked (at_ep d 0) r status u.0 e, b, p) refl
give_oldest-emptied d (r ∷ s ∷ rs) status e n u = absurd (omega arith)

-- What stalling and giving back leave before the setup stage begins.
abbrev cleared : View → View
cleared v = record v {
  queue = [];
  delayed = false;
  out_busy = false;
  in_busy = false;
  pending = false;
}

-- The view once the setup packet is awaited.
abbrev pub awaiting : View → View
awaiting v = record v {
  phase = Phase.setup;
  next_event = NextEvent.complete;
  queue = [];
  out_busy = true;
  in_busy = false;
}

module _ (depcmd : ℕ → Depcmd) where
  -- Every transfer is forgotten by the driver, and every delay.
  stall_both-view :
      (d : Ep0)
      → view (stall_both depcmd d)
        ≡ record (view d) { delayed = false; out_busy = false; in_busy = false; pending = false }
  unfolding stall_both back put_ep only_enabled
  stall_both-view d =
      let one : Ep0 = record d { eps = put_ep d.eps 1 (only_enabled (d.eps 1)) } in
      rw (ep_set_halt-SameWait depcmd (at_ep one 0) true false).0 refl

  pub restart-IsSafe :
      (d : Ep0)
      → IsTame (view d)
      → (view d).queue ≡ []
      → NoneBusy (view d)
      → (view d).pending ≡ false
      → IsSafe (view (restart depcmd d))
  unfolding restart out_start
  restart-IsSafe d t e i p =
      let begun : Ep0 = record d { stage = record (d.stage) { phase = Phase.setup } } in
      let ready : IsReady (view begun) false = record {
        few = t.0;
        unmarked = t.1;
        own = t.2;
        fresh = inr e;
        clear = inl i;
        sided = inl refl;
        undelayed = inl refl;
        calm = p;
      } in
      Launch-IsSafe (view begun) false (view (out_start depcmd begun)) ready
        (start_trans-Launch depcmd begun false d.stage.ctrl_req_addr 8 2)

  pub stalled-cleared :
      (d : Ep0)
      → IsTame (view d)
      → let stalled = stall_both depcmd d in
        view (give_oldest (stalled.eps 0).request_list stalled (some Errno.econnreset))
        ≡ cleared (view d)
  stalled-cleared d t =
      let stalled = stall_both depcmd d in
      let s = stall_both-view d in
      let q : (view stalled).queue ≡ (view d).queue = ap (λ (v : View). v.queue) s in
      give_oldest-emptied stalled (stalled.eps 0).request_list (some Errno.econnreset) refl
        (rw q t.0) (rw q t.1)
      ∙ ap emptied s

  -- Whatever is marked as busy, stalling and starting over is safe where at most one request is there.
  pub stall_and_restart-IsSafe :
      (d : Ep0) → IsTame (view d) → IsSafe (view (stall_and_restart depcmd d))
  unfolding stall_and_restart
  stall_and_restart-IsSafe d t =
      let stalled = stall_both depcmd d in
      let left = give_oldest (stalled.eps 0).request_list stalled (some Errno.econnreset) in
      let e = stalled-cleared d t in
      let tame = subst IsTame (sym e) (omega arith, tt, t.2) in
      restart-IsSafe left tame (ap (λ (v : View). v.queue) e) (rw e (refl, refl)) (rw e refl)

  pub restart-awaiting :
      (d : Ep0)
      → Accepts depcmd
      → NoneBusy (view d)
      → (view d).queue ≡ []
      → view (restart depcmd d) ≡ awaiting (view d)
  unfolding restart out_start
  restart-awaiting d a i q =
      let begun : Ep0 = record d { stage = record (d.stage) { phase = Phase.setup } } in
      start_trans-begun depcmd begun false d.stage.ctrl_req_addr 8 2 a i.0 ∙ rw (q, i.1) refl

  -- On a controller that carries out the commands, stalling ends with the setup packet awaited, wherever
  -- the control transfer stood: the driver marks no other transfer as busy, no request is left, and no
  -- delay. At most one request was there, not marked as queued.
  pub stall_and_restart-awaiting :
      (d : Ep0)
      → Accepts depcmd
      → IsTame (view d)
      → view (stall_and_restart depcmd d)
        ≡ awaiting (record (view d) { delayed = false; pending = false })
  unfolding stall_and_restart
  stall_and_restart-awaiting d a t =
      let stalled = stall_both depcmd d in
      let left = give_oldest (stalled.eps 0).request_list stalled (some Errno.econnreset) in
      let e = stalled-cleared d t in
      restart-awaiting left a (rw e (refl, refl)) (ap (λ (v : View). v.queue) e) ∙ ap awaiting e
