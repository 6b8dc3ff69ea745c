-- ===== src/Dwc3/Control/Safety/Launch.antt =====
-- `dwc3_ep0_start_trans` marks at most one transfer as busy.
use unisoc_usb.Prelude.{
  ℕ, ◌-◌, ◌/◌, ◌%◌, ◌^◌, ◌≡◌, ◌≢◌, ◌≤◌, ◌⊎◌, inl, inr, refl, sym, ap, ◌∙◌, subst, Bool, true, false,
  not, ◌&&◌, [], none, some, Code, length, ltb, ◌==◌, if◌then◌else◌, arith, if_both, if_each,
}
use unisoc_usb.Dwc3.Endpoint.{Request}
use unisoc_usb.Dwc3.Stage.{Phase, NextEvent, is_data, is_status, side}
use unisoc_usb.Dwc3.Command.{Depcmd, Cmd, Accepts, send_ep_cmd, send_ep_cmd_accepted}
use unisoc_usb.Dwc3.Ep0.{Ep0, put_ep}
use unisoc_usb.Dwc3.Control.Start.{
  at_ep, control_trb, with_trb, started, start_command, start_trans,
}
use unisoc_usb.Dwc3.Control.Queue.{
  bounce_data, control_data, control_status, direct_part, roundup, bounced, bounce_size,
}
use unisoc_usb.Dwc3.Control.Safety.{View, view, NoneBusy, OneBusy, IsSafe, Unmarked}

abbrev pub busy_on : View → Bool → Bool
busy_on v true = v.in_busy
busy_on v false = v.out_busy

-- A transfer begins in a direction.
abbrev pub begun_on : View → Bool → View
begun_on v true = record v { in_busy = true; next_event = NextEvent.complete }
begun_on v false = record v { out_busy = true; next_event = NextEvent.complete }

-- What starting a transfer in a direction may do.
abbrev pub Launch : View → Bool → View → Type 0
Launch v b w = (w ≡ v) ⊎ (busy_on v b ≡ false) × (w ≡ begun_on v b)

-- Nothing else is marked as busy than what goes in this direction already.
abbrev pub IsClear : View → Bool → Type 0
IsClear v b =
    NoneBusy v ⊎ ((v.next_event ≡ NextEvent.complete) × (v.in_busy ≡ b) × (v.out_busy ≡ not b))

-- What has to be so before a transfer is started.
pub record IsReady (v : View) (b : Bool) : Type 0 where
  pub few : length v.queue ≤ 1
  pub unmarked : Unmarked v.queue
  pub own : v.own ≡ false
  pub fresh : (v.phase ≢ Phase.setup) ⊎ (v.queue ≡ [])
  pub clear : IsClear v b
  pub sided : (is_data v.phase ≡ false) ⊎ (b ≡ v.expect_in)
  pub undelayed : (is_status v.phase ≡ false) ⊎ (v.delayed ≡ false)
  pub calm : v.pending ≡ false

quiet_of_clear : (v : View) (b : Bool) → IsReady v b → NoneBusy v ⊎ OneBusy v
quiet_of_clear v true r = ground arith
quiet_of_clear v false r = ground arith

IsReady-IsSafe : (v : View) (b : Bool) → IsReady v b → IsSafe v
IsReady-IsSafe v b r = record {
  few = r.few;
  unmarked = r.unmarked;
  own = r.own;
  fresh = ground arith;
  quiet = quiet_of_clear v b r;
  calm = r.calm;
}

begun-IsSafe : (v : View) (b : Bool) → IsReady v b → busy_on v b ≡ false → IsSafe (begun_on v b)
begun-IsSafe v true r h = record {
  few = r.few;
  unmarked = r.unmarked;
  own = r.own;
  fresh = ground arith;
  quiet = inr (ground arith);
  calm = r.calm;
}
begun-IsSafe v false r h = record {
  few = r.few;
  unmarked = r.unmarked;
  own = r.own;
  fresh = ground arith;
  quiet = inr (ground arith);
  calm = r.calm;
}

pub Launch-IsSafe : (v : View) (b : Bool) (w : View) → IsReady v b → Launch v b w → IsSafe w
Launch-IsSafe v b w r (inl e) = subst IsSafe (sym e) (IsReady-IsSafe v b r)
Launch-IsSafe v b w r (inr (h, e)) = subst IsSafe (sym e) (begun-IsSafe v b r h)

pub Launch-phase : (v : View) (b : Bool) (w : View) → Launch v b w → w.phase ≡ v.phase
Launch-phase v b w (inl e) = ap (λ (x : View). x.phase) e
Launch-phase v true w (inr (h, e)) = ap (λ (x : View). x.phase) e
Launch-phase v false w (inr (h, e)) = ap (λ (x : View). x.phase) e

module _ (depcmd : ℕ → Depcmd) where
  started-Launch :
      (d : Ep0) (b : Bool) (c : Code)
      → busy_on (view d) b ≡ false
      → Launch (view d) b (view (started depcmd (side b) d c).0)
  unfolding started put_ep
  started-Launch d b (some e) h = inl refl
  started-Launch d true none h = inr (h, refl)
  started-Launch d false none h = inr (h, refl)

  start_command-Launch :
      (d : Ep0) (b : Bool)
      → busy_on (view d) b ≡ false
      → Launch (view d) b (view (start_command depcmd (side b) d).0)
  unfolding start_command
  start_command-Launch d b h =
      let addr = d.stage.trb_addr in
      let out =
        send_ep_cmd depcmd (at_ep d (side b)) (Cmd.start_transfer 0) (addr / 2 ^ 32 % 2 ^ 32)
          (addr % 2 ^ 32) in
      started-Launch (record d { core = out.0 }) b out.1 h

  busy_of : (d : Ep0) (b : Bool) → (d.eps (side b)).busy ≡ busy_on (view d) b
  busy_of d true = refl
  busy_of d false = refl

  pub start_trans-Launch :
      (d : Ep0) (b : Bool) (dma len type : ℕ)
      → Launch (view d) b (view (start_trans depcmd d (side b) dma len type false).0)
  unfolding start_trans with_trb
  start_trans-Launch d b dma len type =
      let written = with_trb d (d.eps (side b)).trb_enqueue (control_trb dma len type false) in
      if_each (λ (x : Ep0 × Code). Launch (view d) b (view x.0)) (d.eps (side b)).busy
        (λ e. inl refl) (λ e. start_command-Launch written b (sym (busy_of d b) ∙ e))

  started-begun :
      (d : Ep0) (b : Bool) (c : Code)
      → c ≡ none
      → view (started depcmd (side b) d c).0 ≡ begun_on (view d) b
  unfolding started put_ep
  started-begun d b (some e) h = ground arith
  started-begun d true none h = refl
  started-begun d false none h = refl

  start_command-begun :
      (d : Ep0) (b : Bool)
      → Accepts depcmd
      → view (start_command depcmd (side b) d).0 ≡ begun_on (view d) b
  unfolding start_command
  start_command-begun d b a =
      let addr = d.stage.trb_addr in
      let hi = addr / 2 ^ 32 % 2 ^ 32 in
      let lo = addr % 2 ^ 32 in
      let at = at_ep d (side b) in
      let out = send_ep_cmd depcmd at (Cmd.start_transfer 0) hi lo in
      started-begun (record d { core = out.0 }) b out.1
        (send_ep_cmd_accepted depcmd at (Cmd.start_transfer 0) hi lo a)

  -- A controller that carries out the command makes the driver mark the transfer as busy.
  pub start_trans-begun :
      (d : Ep0) (b : Bool) (dma len type : ℕ)
      → Accepts depcmd
      → busy_on (view d) b ≡ false
      → view (start_trans depcmd d (side b) dma len type false).0 ≡ begun_on (view d) b
  unfolding start_trans with_trb
  start_trans-begun d b dma len type a h =
      let written = with_trb d (d.eps (side b)).trb_enqueue (control_trb dma len type false) in
      if_each (λ (x : Ep0 × Code). view x.0 ≡ begun_on (view d) b) (d.eps (side b)).busy
        (λ e. absurd (ground (arith, sym (busy_of d b) ∙ e, h)))
        (λ e. start_command-begun written b a)

  -- A chained TRB starts nothing.
  pub start_trans-chained :
      (d : Ep0) (b : Bool) (dma len type : ℕ)
      → view (start_trans depcmd d (side b) dma len type true).0 ≡ view d
  unfolding start_trans with_trb put_ep
  start_trans-chained d true dma len type =
      if_both (λ (x : Ep0 × Code). view x.0 ≡ view d) (d.eps 1).busy refl refl
  start_trans-chained d false dma len type =
      if_both (λ (x : Ep0 × Code). view x.0 ≡ view d) (d.eps 0).busy refl refl

  bounce_data-Launch :
      (d : Ep0) (b : Bool) (req : Request)
      → Launch (view d) b (view (bounce_data depcmd d (side b) req))
  unfolding bounce_data
  bounce_data-Launch d b req =
      let packet = d.stage.max_packet in
      let part = direct_part req packet in
      let first = (start_trans depcmd d (side b) req.dma part 5 true).0 in
      let begun = if ltb bounce_size req.length then first else d in
      let same : view begun ≡ view d =
        if_both (λ (x : Ep0). view x ≡ view d) (ltb bounce_size req.length)
          (start_trans-chained d b req.dma part 5) refl in
      subst
        (λ (v : View). Launch v b (
          view
            (start_trans depcmd (bounced begun) (side b) d.stage.bounce_addr
              (roundup (req.length - part) packet) 5 false).0))
        same
        (start_trans-Launch (bounced begun) b d.stage.bounce_addr
          (roundup (req.length - part) packet) 5)

  pub control_data-Launch :
      (d : Ep0) (b : Bool) (req : Request)
      → Launch (view d) b (view (control_data depcmd d (side b) req))
  unfolding control_data
  control_data-Launch d b req =
      let Good = λ (x : Ep0). Launch (view d) b (view x) in
      if_both Good (req.length == 0) (start_trans-Launch d b d.stage.ctrl_req_addr 0 5) (
        if_both Good (not (req.length % d.stage.max_packet == 0) && side b == 0)
          (bounce_data-Launch d b req) (start_trans-Launch d b req.dma req.length 5))

  pub control_status-Launch :
      (d : Ep0) (b : Bool) → Launch (view d) b (view (control_status depcmd d (side b)))
  unfolding control_status
  control_status-Launch d b =
      start_trans-Launch (record d { resize_fifos = false }) b d.stage.ctrl_req_addr 0
        (if d.stage.three_stage then 4 else 3)
