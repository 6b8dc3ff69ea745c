-- ===== src/Dwc3/Control/Safety/Finish.antt =====
-- What the driver does when a data or a status stage is over keeps endpoint 0 safe.
use unisoc_usb.Prelude.{
  ℕ, ◌+◌, ◌%◌, ◌/◌, ◌^◌, ◌≡◌, ◌≢◌, inl, inr, refl, sym, ap, ◌∙◌, subst, Bool, false, not, ◌&&◌,
  List, [], ◌∷◌, none, some, Code, Errno, ltb, leb, ◌==◌, arith, if_both, if_each,
}
use unisoc_usb.Dwc3.Endpoint.{Request}
use unisoc_usb.Dwc3.Stage.{Phase, NextEvent, side}
use unisoc_usb.Dwc3.Command.{Depcmd, Accepts}
use unisoc_usb.Dwc3.Completion.{trb_at}
use unisoc_usb.Dwc3.Ep0.{Ep0, put_ep}
use unisoc_usb.Dwc3.Control.Start.{start_trans, give_oldest, restart, stall_and_restart}
use unisoc_usb.Dwc3.Control.Finish.{
  transferred, received, set_test_mode, given_back, complete_request, complete_listed,
  complete_data, status_done, complete_status,
}
use unisoc_usb.Dwc3.Control.Safety.{View, view, NoneBusy, IsSafe, IsTame, Unmarked}
use unisoc_usb.Dwc3.Control.Safety.Launch.{IsReady, start_trans-Launch, Launch-IsSafe}
use unisoc_usb.Dwc3.Control.Safety.Restart.{
  emptied, awaiting, restart-awaiting, give_oldest-emptied, restart-IsSafe,
  stall_and_restart-IsSafe,
}

-- A transfer of a control transfer's stage is over, and none is marked as busy.
pub record IsOver (v : View) : Type 0 where
  pub tame : IsTame v
  pub idle : NoneBusy v
  pub calm : v.pending ≡ false

pub IsOver-IsSafe : (v : View) → IsOver v → v.phase ≢ Phase.setup → IsSafe v
IsOver-IsSafe v o n = record {
  few = o.tame.0;
  unmarked = o.tame.1;
  own = o.tame.2;
  fresh = inl n;
  quiet = inl o.idle;
  calm = o.calm;
}

-- The oldest request is given back, and no other is there.
give_oldest-view :
    (d : Ep0) (status : Code)
    → IsTame (view d)
    → view (give_oldest (d.eps 0).request_list d status) ≡ emptied (view d)
give_oldest-view d status t = give_oldest-emptied d (d.eps 0).request_list status refl t.0 t.1

emptied-IsOver : (v : View) → IsOver v → IsOver (emptied v)
emptied-IsOver v o = record { tame = (omega arith, tt, o.tame.2); idle = o.idle; calm = o.calm }

set_test_mode-view : (d : Ep0) (mode : ℕ) → view (set_test_mode d mode).0 ≡ view d
unfolding set_test_mode
set_test_mode-view d mode =
    if_both (λ (x : Ep0 × Code). view x.0 ≡ view d) (not (mode == 0) && leb mode 5) refl refl

module _ (depcmd : ℕ → Depcmd) where
  given_back-IsSafe :
      (d : Ep0) (b : Bool) (r : Request)
      → IsOver (view d)
      → d.stage.phase ≡ Phase.data_stage
      → b ≡ d.stage.expect_in
      → IsSafe (view (given_back depcmd d (side b) r))
  unfolding given_back
  given_back-IsSafe d b r o p x =
      let given = give_oldest (d.eps 0).request_list d none in
      let e = give_oldest-view d none o.tame in
      let more : Ep0 = record given {
        stage = record (given.stage) { next_event = NextEvent.complete };
      } in
      let at : view more ≡ record (emptied (view d)) { next_event = NextEvent.complete } =
        ap (λ (v : View). record v { next_event = NextEvent.complete }) e in
      let ready : IsReady (record (emptied (view d)) { next_event = NextEvent.complete }) b =
        record {
          few = omega arith;
          unmarked = tt;
          own = o.tame.2;
          fresh = inr refl;
          clear = inl o.idle;
          sided = inr x;
          undelayed = inl (rw p refl);
          calm = o.calm;
        } in
      if_both (λ (y : Ep0). IsSafe (view y))
        (r.length % d.stage.max_packet == 0 && not (r.length == 0) && r.zero)
        (Launch-IsSafe (view more) b
          (view (start_trans depcmd more (side b) d.stage.ctrl_req_addr 0 5 false).0)
          (subst (λ (v : View). IsReady v b) (sym at) ready)
          (start_trans-Launch depcmd more b d.stage.ctrl_req_addr 0 5))
        (subst IsSafe (sym e)
          (IsOver-IsSafe (emptied (view d)) (emptied-IsOver (view d) o) (λ z. ground arith)))

  complete_listed-IsSafe :
      (rs : List Request) (d : Ep0) (b : Bool)
      → (d.eps 0).request_list ≡ rs
      → IsOver (view d)
      → d.stage.phase ≡ Phase.data_stage
      → b ≡ d.stage.expect_in
      → IsSafe (view (complete_listed depcmd rs d (side b)))
  unfolding complete_listed complete_request received put_ep
  complete_listed-IsSafe [] d b e o p x = IsOver-IsSafe (view d) o (λ z. ground arith)
  complete_listed-IsSafe (r ∷ s ∷ rs) d b e o p x = absurd (ground (arith, e, o.tame.0))
  complete_listed-IsSafe (r ∷ []) d b e o p x =
      let u : r.queued ≡ false = (subst Unmarked e o.tame.1).0 in
      let got = received d r [] in
      let over : IsOver (view got) = record {
        tame = (omega arith, (u, tt), o.tame.2);
        idle = o.idle;
        calm = o.calm;
      } in
      let Good = λ (y : Ep0). IsSafe (view y) in
      if_both Good ((trb_at d.stage.trbs 0).size / 2 ^ 28 % 16 == 2)
        (subst IsSafe
          (sym (give_oldest-emptied d (r ∷ []) (some Errno.econnreset) e (omega arith) (u, tt)))
          (IsOver-IsSafe (emptied (view d)) (emptied-IsOver (view d) o) (λ z. ground arith)))
        (if_both Good (side b % 2 == 1 && ltb ((r.actual + transferred d r) % 2 ^ 32) r.length)
          (stall_and_restart-IsSafe depcmd got over.tame) (given_back-IsSafe got b r over p x))

  pub complete_data-IsSafe :
      (d : Ep0) (b : Bool)
      → IsOver (view d)
      → d.stage.phase ≡ Phase.data_stage
      → b ≡ d.stage.expect_in
      → IsSafe (view (complete_data depcmd d (side b)))
  unfolding complete_data
  complete_data-IsSafe d b o p x =
      let next : Ep0 = record d {
        stage = record (d.stage) { next_event = NextEvent.nrdy_status };
      } in
      complete_listed-IsSafe (d.eps 0).request_list next b refl
        (record { tame = o.tame; idle = o.idle; calm = o.calm }) p x

  tested-IsSafe :
      (x : Ep0 × Code)
      → IsOver (view x.0)
      → (view x.0).queue ≡ []
      → IsSafe
          (view (elim x.1 [ some e ↦ stall_and_restart depcmd x.0 | none ↦ restart depcmd x.0 ]))
  tested-IsSafe (d, some c) o e = stall_and_restart-IsSafe depcmd d o.tame
  tested-IsSafe (d, none) o e = restart-IsSafe depcmd d o.tame e o.idle o.calm

  status_done-IsSafe :
      (d : Ep0) → IsOver (view d) → (view d).queue ≡ [] → IsSafe (view (status_done depcmd d))
  unfolding status_done
  status_done-IsSafe d o e =
      let x = set_test_mode d d.test_mode_nr in
      let same : view x.0 ≡ view d = set_test_mode-view d d.test_mode_nr in
      if_both (λ (y : Ep0). IsSafe (view y)) d.test_mode
        (tested-IsSafe x (subst IsOver (sym same) o) (ap (λ (v : View). v.queue) same ∙ e))
        (restart-IsSafe depcmd d o.tame e o.idle o.calm)

  pub complete_status-IsSafe :
      (d : Ep0) → IsOver (view d) → IsSafe (view (complete_status depcmd d))
  unfolding complete_status give_oldest
  complete_status-IsSafe d o =
      let given = give_oldest (d.eps 0).request_list d none in
      let e = give_oldest-view d none o.tame in
      status_done-IsSafe given (subst IsOver (sym e) (emptied-IsOver (view d) o))
        (ap (λ (v : View). v.queue) e)

  status_done-awaiting :
      (d : Ep0)
      → Accepts depcmd
      → NoneBusy (view d)
      → (view d).queue ≡ []
      → d.test_mode ≡ false
      → view (status_done depcmd d) ≡ awaiting (view d)
  unfolding status_done
  status_done-awaiting d a i e m =
      if_each (λ (x : Ep0). view x ≡ awaiting (view d)) d.test_mode
        (λ y. absurd (ground (arith, y, m))) (λ y. restart-awaiting depcmd d a i e)

  -- On a controller that carries out the commands, a status stage without a request ends with the setup
  -- packet awaited, unless a test mode is to begin.
  pub complete_status-awaiting :
      (d : Ep0)
      → Accepts depcmd
      → NoneBusy (view d)
      → (d.eps 0).request_list ≡ []
      → d.test_mode ≡ false
      → view (complete_status depcmd d) ≡ awaiting (view d)
  unfolding complete_status give_oldest
  complete_status-awaiting d a i e m =
      subst
        (λ (rs : List Request).
          view (status_done depcmd (give_oldest rs d none)) ≡ awaiting (view d))
        (sym e) (status_done-awaiting d a i e m)
