-- ===== src/Dwc3/Control/Safety/Ended.antt =====
-- A host that asks for the data stage the wrong way: `dwc3_ep0_end_control_data`.
use unisoc_usb.Prelude.{
  ℕ, ◌≡◌, refl, sym, ap, ◌∙◌, subst, inl, inr, Bool, true, false, not, List, [], ◌∷◌, ◌++◌, ◌==◌,
  arith, if_each,
}
use unisoc_usb.Dwc3.Stage.{Phase, side}
use unisoc_usb.Dwc3.Command.{Depcmd, Cmd, EpCmd, send_ep_cmd-cmds}
use unisoc_usb.Dwc3.Ep0.{Ep0, Ctrl, SetupCode, put_ep}
use unisoc_usb.Dwc3.Control.Start.{at_ep, stall_and_restart}
use unisoc_usb.Dwc3.Control.Stall.{start_of, stall_and_restart-cmds, stall_both_sent}
use unisoc_usb.Dwc3.Control.Events.{end_control_data, data_ready, xfernotready}
use unisoc_usb.Dwc3.Control.Safety.{view, IsSafe, IsTame}
use unisoc_usb.Dwc3.Control.Safety.Launch.{busy_on}
use unisoc_usb.Dwc3.Control.Safety.Finish.{IsOver}
use unisoc_usb.Dwc3.Control.Safety.Setup.{QueuesOnly}
use unisoc_usb.Dwc3.Control.Safety.Ready.{end_control_data-view, xfernotready-IsSafe}
use unisoc_usb.Dwc3.Control.Safety.Steps.{Reach, Reach-IsSafe, data_side}

-- ENDTRANSFER for the transfer of an endpoint.
abbrev pub end_of : Ep0 → ℕ → EpCmd
end_of d n = record {
  ep = (d.eps n).number;
  cmd = Cmd.end_transfer false (d.eps n).resource_index;
  param0 = 0;
  param1 = 0;
}

-- After the commands so far, this transfer is ended first, and the one for the setup packet started last.
abbrev pub EndsFirst : Ep0 → Bool → Ep0 → Type 0
EndsFirst d b out =
    (sent : List EpCmd) × (out.core.cmds
      ≡ start_of d 0 ∷ (sent ++ (end_of d (side b) ∷ d.core.cmds)))

module _ (depcmd : ℕ → Depcmd) where
  end_control_data_lem :
      (d : Ep0) (b : Bool)
      → ((d.eps (side b)).resource_index == 0) ≡ false
      → let out = end_control_data depcmd d (side b) in
        (out.core.cmds ≡ end_of d (side b) ∷ d.core.cmds) × (start_of out 0 ≡ start_of d 0)
  unfolding end_control_data put_ep
  end_control_data_lem d true h =
      rw h (send_ep_cmd-cmds depcmd (at_ep d 1) (end_of d 1).cmd 0 0, refl)
  end_control_data_lem d false h =
      rw h (send_ep_cmd-cmds depcmd (at_ep d 0) (end_of d 0).cmd 0 0, refl)

  restarted-EndsFirst :
      (d : Ep0) (b : Bool)
      → IsTame (view d)
      → ((d.eps (side b)).resource_index == 0) ≡ false
      → EndsFirst d b (stall_and_restart depcmd (end_control_data depcmd d (side b)))
  restarted-EndsFirst d b t h =
      let ended = end_control_data depcmd d (side b) in
      let (k, s) = end_control_data_lem d b h in
      let (sent, e) = stall_both_sent depcmd ended in
      (
        sent,
        stall_and_restart-cmds depcmd ended
              (subst IsTame (sym (end_control_data-view depcmd d b)) t)
            ∙ ap (λ l. start_of ended 0 ∷ l) (e ∙ ap (λ l. sent ++ l) k)
            ∙ ap (λ c. c ∷ (sent ++ (end_of d (side b) ∷ d.core.cmds))) s,
      )

  wrong_way-EndsFirst :
      (d : Ep0) (b : Bool)
      → IsTame (view d)
      → b ≡ d.stage.expect_in
      → ((d.eps (side b)).resource_index == 0) ≡ false
      → EndsFirst d b (xfernotready depcmd d (side (not b)) 1)
  unfolding xfernotready data_ready
  wrong_way-EndsFirst d b t x h =
      let pending : Ep0 = record d { stage = record (d.stage) { setup_packet_pending = true } } in
      let c = d.stage.expect_in in
      if_each (EndsFirst d b) (side c == side (not b)) (λ e. absurd (ground (arith, e, x)))
        (λ e.
          subst
            (λ y.
              EndsFirst d b (stall_and_restart depcmd (end_control_data depcmd pending (side y))))
            x (restarted-EndsFirst pending b t h))

  module _ (setup : ℕ → Ctrl → Ep0 → Ep0 × SetupCode) where
    -- Whatever steps of `Reach` led there from an idle endpoint 0 without requests that awaits the first
    -- setup packet: where the transfer of a data stage is marked as busy and has a resource index, and the
    -- host asks for the data the other way, that transfer is ended by ENDTRANSFER with its index before any
    -- other command, the transfer of a setup packet is started after all others, and endpoint 0 is safe.
    -- The gadget driver's `setup` only queues requests, and the steps have the conditions of `Step`.
    pub Reach-EndsFirst :
        (d e : Ep0) (b : Bool)
        → ((n : ℕ) → QueuesOnly depcmd (setup n))
        → IsOver (view d)
        → (view d).queue ≡ []
        → Reach depcmd setup d e
        → e.stage.phase ≡ Phase.data_stage
        → busy_on (view e) b ≡ true
        → ((e.eps (side b)).resource_index == 0) ≡ false
        → let out = xfernotready depcmd e (side (not b)) 1 in EndsFirst e b out × IsSafe (view out)
    Reach-EndsFirst d e b q o n r p h i =
        let s = Reach-IsSafe depcmd setup d e q o n r in
        let x : b ≡ e.stage.expect_in = elim s.quiet [
          | inl z ↦ absurd (ground (arith, z, h))
          | inr f ↦ data_side (view e) b f h p
        ] in
        (
          wrong_way-EndsFirst e b (s.few, s.unmarked, s.own) x i,
          xfernotready-IsSafe depcmd e (not b) 1 s,
        )
