-- ===== src/Dwc3/Control/Stall.antt =====
-- What `dwc3_ep0_stall_and_restart` sends to the controller.
use unisoc_usb.Prelude.{
  ℕ, ◌/◌, ◌%◌, ◌^◌, ◌≡◌, refl, ap, ◌∙◌, false, List, [], ◌∷◌, ◌++◌, none, some, Code, Errno,
  is_empty, arith, if_each, if◌then◌else◌,
}
use unisoc_usb.Dwc3.Endpoint.{Request, is_isoc}
use unisoc_usb.Dwc3.Command.{Depcmd, Cmd, EpCmd, Accepts, send_ep_cmd, send_ep_cmd-cmds}
use unisoc_usb.Dwc3.Ring.Giveback.{giveback_transfer}
use unisoc_usb.Dwc3.Transfer.{give, only_enabled}
use unisoc_usb.Dwc3.Transfer.Remove.{ep_set_halt-cmds, ep_set_halt-number, ep_set_halt_sent}
use unisoc_usb.Dwc3.Stage.{Phase}
use unisoc_usb.Dwc3.Ep0.{Ep0, put_ep}
use unisoc_usb.Dwc3.Control.Start.{
  at_ep, back, control_trb, with_trb, started, start_command, start_trans, out_start, give_oldest,
  stall_both, restart, stall_and_restart,
}
use unisoc_usb.Dwc3.Control.Safety.{View, view, IsTame}
use unisoc_usb.Dwc3.Control.Safety.Restart.{awaiting, stalled-cleared, stall_and_restart-awaiting}

-- The command that starts a transfer of endpoint `n`, with the address of its TRBs.
abbrev pub start_of : Ep0 → ℕ → EpCmd
start_of d n = record {
  ep = (d.eps n).number;
  cmd = Cmd.start_transfer 0;
  param0 = d.stage.trb_addr / 2 ^ 32 % 2 ^ 32;
  param1 = d.stage.trb_addr % 2 ^ 32;
}

module _ (depcmd : ℕ → Depcmd) where
  -- On a control endpoint 0 with nothing in the ring, stalling sends SETSTALL exactly where no request
  -- is on the list: with one still there, the controller is told nothing.
  pub stall_both-cmds :
      (d : Ep0)
      → is_isoc (d.eps 0).desc ≡ false
      → (d.eps 0).direction ≡ false
      → (d.eps 0).req_queued ≡ []
      → let set : EpCmd = record {
        ep = (d.eps 0).number;
        cmd = Cmd.set_stall;
        param0 = 0;
        param1 = 0;
      } in
        (stall_both depcmd d).core.cmds
        ≡ (if is_empty (d.eps 0).request_list then set ∷ d.core.cmds else d.core.cmds)
  unfolding stall_both back put_ep
  stall_both-cmds d i n q = ep_set_halt-cmds depcmd (at_ep d 0) i n q

  started-cmds : (n : ℕ) (d : Ep0) (c : Code) → (started depcmd n d c).0.core.cmds ≡ d.core.cmds
  unfolding started
  started-cmds n d none = refl
  started-cmds n d (some e) = refl

  -- Where the endpoint is not busy, STARTTRANSFER is sent, whatever the controller answers.
  start_trans-cmds :
      (d : Ep0) (n dma len type : ℕ)
      → (d.eps n).busy ≡ false
      → (start_trans depcmd d n dma len type false).0.core.cmds ≡ start_of d n ∷ d.core.cmds
  unfolding start_trans start_command with_trb
  start_trans-cmds d n dma len type h =
      let written = with_trb d (d.eps n).trb_enqueue (control_trb dma len type false) in
      let start = start_of d n in
      let out = send_ep_cmd depcmd (at_ep written n) start.cmd start.param0 start.param1 in
      if_each (λ (x : Ep0 × Code). x.0.core.cmds ≡ start ∷ d.core.cmds) (d.eps n).busy
        (λ e. absurd (ground (arith, e, h)))
        (λ e.
          started-cmds n (record written { core = out.0 }) out.1
          ∙ send_ep_cmd-cmds depcmd (at_ep written n) start.cmd start.param0 start.param1)

  give_oldest-cmds :
      (rs : List Request) (d : Ep0) (status : Code)
      → ((give_oldest rs d status).core.cmds ≡ d.core.cmds)
        × (start_of (give_oldest rs d status) 0 ≡ start_of d 0)
  unfolding give_oldest back give put_ep
  give_oldest-cmds [] d status = (refl, refl)
  give_oldest-cmds (r ∷ rs) d status =
      let (b, i, n) = giveback_transfer (d.eps 0) r status in
      (refl, ap (λ (k : ℕ). record (start_of d 0) { ep = k }) n)

  stall_both-start : (d : Ep0) → start_of (stall_both depcmd d) 0 ≡ start_of d 0
  unfolding stall_both back put_ep only_enabled
  stall_both-start d =
      ap (λ (k : ℕ). record (start_of d 0) { ep = k }) (ep_set_halt-number depcmd (at_ep d 0))

  -- Starting over sends what stalling sends, and starts the transfer of the setup packet.
  pub stall_and_restart-cmds :
      (d : Ep0)
      → IsTame (view d)
      → (stall_and_restart depcmd d).core.cmds ≡ start_of d 0 ∷ (stall_both depcmd d).core.cmds
  unfolding stall_and_restart restart out_start
  stall_and_restart-cmds d t =
      let stalled = stall_both depcmd d in
      let rs = (stalled.eps 0).request_list in
      let left = give_oldest rs stalled (some Errno.econnreset) in
      let begun : Ep0 = record left { stage = record (left.stage) { phase = Phase.setup } } in
      let (k, s) = give_oldest-cmds rs stalled (some Errno.econnreset) in
      start_trans-cmds begun 0 left.stage.ctrl_req_addr 8 2
        (ap (λ (v : View). v.out_busy) (stalled-cleared depcmd d t))
      ∙ ap (λ l. start_of left 0 ∷ l) k
      ∙ ap (λ c. c ∷ stalled.core.cmds) (s ∙ stall_both-start d)

  -- On a controller that carries out the commands, and a control endpoint 0 with nothing in the ring and at
  -- most one request, not marked as queued, `dwc3_ep0_stall_and_restart` leaves the driver awaiting the setup
  -- packet, wherever the control transfer stood: it marks physical endpoint 0 alone as busy, and no
  -- request is left, and no delay. It sends SETSTALL where no request was there, then
  -- STARTTRANSFER for the setup packet, and nothing else: no transfer that was started is ended.
  pub stall_and_restart_lem :
      (d : Ep0)
      → Accepts depcmd
      → IsTame (view d)
      → is_isoc (d.eps 0).desc ≡ false
      → (d.eps 0).direction ≡ false
      → (d.eps 0).req_queued ≡ []
      → let set : EpCmd = record {
        ep = (d.eps 0).number;
        cmd = Cmd.set_stall;
        param0 = 0;
        param1 = 0;
      } in
        let out = stall_and_restart depcmd d in
        (view out ≡ awaiting (record (view d) { delayed = false; pending = false }))
        × (out.core.cmds
            ≡ start_of d 0
              ∷ (if is_empty (d.eps 0).request_list then set ∷ d.core.cmds else d.core.cmds))
  stall_and_restart_lem d a t i n q = (
    stall_and_restart-awaiting depcmd d a t,
    stall_and_restart-cmds d t ∙ ap (λ l. start_of d 0 ∷ l) (stall_both-cmds d i n q),
  )

  -- What stalling sends, whatever it is, comes after what was sent before.
  pub stall_both_sent :
      (d : Ep0) → (sent : List EpCmd) × ((stall_both depcmd d).core.cmds ≡ sent ++ d.core.cmds)
  unfolding stall_both back put_ep
  stall_both_sent d = ep_set_halt_sent depcmd (at_ep d 0)
