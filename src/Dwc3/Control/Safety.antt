-- ===== src/Dwc3/Control/Safety.antt =====
-- What keeps control transfers apart: one request at a time, and one endpoint marked as busy.
pub mod Launch
pub mod Restart
pub mod Queue
pub mod Finish
pub mod Setup
pub mod Ready
pub mod Steps
pub mod Ended
use unisoc_usb.Prelude.{
  ℕ, ◌≡◌, ◌≢◌, ◌≤◌, ◌⊎◌, inl, inr, refl, Bool, true, false, not, List, [], All, length, arith,
}
use unisoc_usb.Dwc3.Endpoint.{Request}
use unisoc_usb.Dwc3.Stage.{Phase, NextEvent, is_data, is_status}
use unisoc_usb.Dwc3.Ep0.{Ep0}

-- The part of the state that the stages of control transfers depend on. `out_busy` and `in_busy` are
-- the flags of physical endpoints 0 and 1, `own` is the mark `queued` of the driver's own request.
pub record View : Type 0 where
  pub phase : Phase
  pub next_event : NextEvent
  pub expect_in : Bool
  pub three_stage : Bool
  pub delayed : Bool
  pub own : Bool
  pub queue : List Request
  pub out_busy : Bool
  pub in_busy : Bool
  pub pending : Bool

abbrev pub view : Ep0 → View
view d = record {
  phase = d.stage.phase;
  next_event = d.stage.next_event;
  expect_in = d.stage.expect_in;
  three_stage = d.stage.three_stage;
  delayed = d.stage.delayed_status;
  own = d.stage.usb_req.queued;
  queue = (d.eps 0).request_list;
  out_busy = (d.eps 0).busy;
  in_busy = (d.eps 1).busy;
  pending = (d.eps 0).pending_request;
}

-- No transfer is marked as busy. A stall clears the marks without ending what the controller runs.
abbrev pub NoneBusy : View → Type 0
NoneBusy v = (v.out_busy ≡ false) × (v.in_busy ≡ false)

-- One transfer is marked as busy, and its end is awaited; in the data stage it goes the way that the host
-- asked for, and in the status stage no delay is asked for.
abbrev pub OneBusy : View → Type 0
OneBusy v =
    (v.next_event ≡ NextEvent.complete)
    × (v.out_busy ≡ not v.in_busy)
    × ((is_data v.phase ≡ false) ⊎ (v.in_busy ≡ v.expect_in))
    × ((is_status v.phase ≡ false) ⊎ (v.delayed ≡ false))

-- Nothing waits in the ring of endpoint 0, whose requests are never marked.
abbrev pub Unmarked : List Request → Type 0
Unmarked rs = All (λ (r : Request). r.queued ≡ false) rs

-- At most one request is there, and neither it nor the driver's own is marked as queued.
abbrev pub IsTame : View → Type 0
IsTame v = (length v.queue ≤ 1) × Unmarked v.queue × (v.own ≡ false)

-- At most one request is there, and none while a setup packet is awaited; at most one transfer
-- is marked as busy.
pub record IsSafe (v : View) : Type 0 where
  pub few : length v.queue ≤ 1
  pub unmarked : Unmarked v.queue
  pub own : v.own ≡ false
  pub fresh : (v.phase ≢ Phase.setup) ⊎ (v.next_event ≢ NextEvent.complete) ⊎ (v.queue ≡ [])
  pub quiet : NoneBusy v ⊎ OneBusy v
  pub calm : v.pending ≡ false
