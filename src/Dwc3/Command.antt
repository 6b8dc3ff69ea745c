-- ===== src/Dwc3/Command.antt =====
-- Endpoint commands: `dwc3_send_gadget_ep_cmd` of udc/dwc3/gadget.c. The controller is hardware, so
-- what it answers is a parameter: the value of the register DEPCMD at each read.
use unisoc_usb.Prelude.{
  ℕ, zero, suc, ◌+◌, ◌<◌, ◌≡◌, refl, Bool, true, false, List, ◌∷◌, none, some, Code, Errno, ◌==◌,
  if◌then◌else◌, arith, ◌∙◌, ◌⊎◌, inl, inr, subst, Bool-cases,
}
use unisoc_usb.Dwc3.Endpoint.{Endpoint}

-- DEPCMD as it is read: the bit CMDACT, the command's status, and the resource index.
pub record Depcmd : Type 0 where
  pub cmdact : Bool
  pub status : ℕ
  pub rsc_idx : ℕ

-- The commands that the driver issues, with what DWC3_DEPCMD_PARAM adds to them.
pub data Cmd : Type 0 where
  start_transfer update_transfer : ℕ → Cmd
  end_transfer : Bool → ℕ → Cmd
  set_stall clear_stall : Cmd

-- What is written to an endpoint's command registers.
pub record EpCmd : Type 0 where
  pub ep : ℕ
  pub cmd : Cmd
  pub param0 : ℕ
  pub param1 : ℕ

-- The controller as one endpoint's operations see it: `struct dwc3` with its `eps[number]`. `cmds` are
-- the commands written so far, the last one first, and `now` counts the reads of DEPCMD.
pub record Dwc : Type 0 where
  pub dep : Endpoint
  pub pullups_connected : Bool
  pub ep0_bounced : Bool
  pub cmds : List EpCmd
  pub now : ℕ

-- `timeout` of `dwc3_send_gadget_ep_cmd`
abbrev pub cmd_timeout : ℕ
cmd_timeout = 500

module _ (depcmd : ℕ → Depcmd) where
  -- The loop that waits for CMDACT to clear, from the `now`-th read on: its result and the reads made.
  unfoldable pub poll_cmd : ℕ → ℕ → Code × ℕ
  poll_cmd zero now = (some Errno.etimedout, now)
  poll_cmd (suc timeout) now =
      let r = depcmd now in
      let later = poll_cmd timeout (now + 1) in
      if r.cmdact then later else (if r.status == 0 then none else some Errno.einval, now + 1)

  -- `dwc3_send_gadget_ep_cmd`
  unfoldable pub send_ep_cmd : Dwc → Cmd → ℕ → ℕ → Dwc × Code
  send_ep_cmd dwc cmd param0 param1 =
      let r = poll_cmd cmd_timeout dwc.now in
      let c : EpCmd = record { ep = dwc.dep.number; cmd = cmd; param0 = param0; param1 = param1 } in
      (record dwc { cmds = c ∷ dwc.cmds; now = r.1 }, r.0)

  -- The controller carries out every command at once.
  abbrev pub Accepts : Type 0
  Accepts = (n : ℕ) → ((depcmd n).cmdact ≡ false) × ((depcmd n).status ≡ 0)

  pub send_ep_cmd_accepted :
      (dwc : Dwc) (cmd : Cmd) (param0 param1 : ℕ)
      → Accepts
      → (send_ep_cmd dwc cmd param0 param1).1 ≡ none
  unfolding send_ep_cmd poll_cmd
  send_ep_cmd_accepted dwc cmd param0 param1 a = ground (arith, a dwc.now)

  -- Sending a command changes nothing in the driver's view of the endpoint.
  pub send_ep_cmd-dep :
      (dwc : Dwc) (cmd : Cmd) (param0 param1 : ℕ)
      → (send_ep_cmd dwc cmd param0 param1).0.dep ≡ dwc.dep
  unfolding send_ep_cmd
  send_ep_cmd-dep dwc cmd param0 param1 = refl

  -- A command is sent once, whatever comes of it.
  pub send_ep_cmd-cmds :
      (dwc : Dwc) (cmd : Cmd) (param0 param1 : ℕ)
      → (send_ep_cmd dwc cmd param0 param1).0.cmds
        ≡ record { ep = dwc.dep.number; cmd = cmd; param0 = param0; param1 = param1 } ∷ dwc.cmds
  unfolding send_ep_cmd
  send_ep_cmd-cmds dwc cmd param0 param1 = refl

  -- The controller is busy for `n` reads.
  abbrev pub IsBusyFor : ℕ → ℕ → Type 0
  IsBusyFor now zero = Unit
  IsBusyFor now (suc n) = ((depcmd now).cmdact ≡ true) × IsBusyFor (now + 1) n

  poll_cmd_answers :
      (n timeout now at : ℕ)
      → at ≡ now + n
      → n < timeout
      → IsBusyFor now n
      → (depcmd at).cmdact ≡ false
      → poll_cmd timeout now ≡ (if (depcmd at).status == 0 then none else some Errno.einval, at + 1)
  unfolding poll_cmd
  poll_cmd_answers n zero now at q h b e = elim h [ ]
  poll_cmd_answers zero (suc timeout) now at q h b e =
      let z : at ≡ now = omega arith in rw (← z, e) refl
  poll_cmd_answers (suc n) (suc timeout) now at q h b e =
      rw b.0 (poll_cmd_answers n timeout (now + 1) at (omega arith) (omega arith) b.1 e)

  poll_cmd_times_out :
      (timeout now : ℕ)
      → IsBusyFor now timeout
      → poll_cmd timeout now ≡ (some Errno.etimedout, now + timeout)
  unfolding poll_cmd
  poll_cmd_times_out zero now b = ground arith
  poll_cmd_times_out (suc timeout) now b =
      rw b.0 (poll_cmd_times_out timeout (now + 1) b.1 ∙ ground arith)

  -- What waiting comes to, with the number of the next read: CMDACT clears at one of the first reads, and
  -- the status that is read with it decides; or it stays set at all of them.
  abbrev pub Waited : ℕ → ℕ → Code × ℕ → Type 0
  Waited timeout now r =
      ((n : ℕ) × (n < timeout)
        × IsBusyFor now n
        × ((depcmd (now + n)).cmdact ≡ false)
        × (r ≡ (if (depcmd (now + n)).status == 0 then none else some Errno.einval, now + n + 1)))
      ⊎ IsBusyFor now timeout × (r ≡ (some Errno.etimedout, now + timeout))

  -- The controller answers in time, or is busy all the time.
  answers_or_not :
      (timeout now : ℕ)
      → ((n : ℕ) × (n < timeout) × IsBusyFor now n × ((depcmd (now + n)).cmdact ≡ false))
        ⊎ IsBusyFor now timeout
  answers_or_not zero now = inr tt
  answers_or_not (suc timeout) now = elim (Bool-cases (depcmd now).cmdact) [
    | inl b ↦ elim (answers_or_not timeout (now + 1)) [
      | inl (n, h, busy, e) ↦
          let there : now + 1 + n ≡ now + suc n = omega arith in
          inl (suc n, omega arith, (b, busy), subst (λ k. (depcmd k).cmdact ≡ false) there e)
      | inr busy ↦ inr (b, busy)
    ]
    | inr b ↦
        let here : now ≡ now + 0 = omega arith in
        inl (0, omega arith, tt, subst (λ k. (depcmd k).cmdact ≡ false) here b)
  ]

  poll_cmd-Waited : (timeout now : ℕ) → Waited timeout now (poll_cmd timeout now)
  poll_cmd-Waited timeout now = elim (answers_or_not timeout now) [
    | inl (n, h, b, e) ↦ inl (n, h, b, e, poll_cmd_answers n timeout now (now + n) refl h b e)
    | inr b ↦ inr (b, poll_cmd_times_out timeout now b)
  ]

  -- Whatever the controller answers, the command is written once, with its parameters, to the registers of
  -- the endpoint, of which the driver's view stays, and the waiting ends: at the first of 500
  -- reads at which CMDACT is clear, with 0 where the status that is read with it is 0 and -EINVAL
  -- otherwise, or after exactly 500 reads at which it is set, with -ETIMEDOUT.
  pub send_ep_cmd_lem :
      (dwc : Dwc) (cmd : Cmd) (param0 param1 : ℕ)
      → let out = send_ep_cmd dwc cmd param0 param1 in
        let written : EpCmd = record {
          ep = dwc.dep.number;
          cmd = cmd;
          param0 = param0;
          param1 = param1;
        } in
        (out.0.cmds ≡ written ∷ dwc.cmds)
        × (out.0.dep ≡ dwc.dep)
        × Waited cmd_timeout dwc.now (out.1, out.0.now)
  unfolding send_ep_cmd
  send_ep_cmd_lem dwc cmd param0 param1 = (refl, refl, poll_cmd-Waited cmd_timeout dwc.now)
