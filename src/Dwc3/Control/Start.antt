-- ===== src/Dwc3/Control/Start.antt =====
-- Starting a stage, and starting over: `dwc3_ep0_start_trans`, `dwc3_ep0_out_start` and
-- `dwc3_ep0_stall_and_restart`.
use unisoc_usb.Prelude.{
  ℕ, ◌+◌, ◌/◌, ◌%◌, ◌^◌, Bool, true, false, not, List, [], ◌∷◌, set, none, some, Code, Errno,
  if◌then◌else◌,
}
use unisoc_usb.Dwc3.Endpoint.{Trb, Request}
use unisoc_usb.Dwc3.Stage.{Phase, NextEvent}
use unisoc_usb.Dwc3.Command.{Depcmd, Cmd, Dwc, send_ep_cmd}
use unisoc_usb.Dwc3.Transfer.{give, only_enabled, ep_set_halt}
use unisoc_usb.Dwc3.Ep0.{Ep0, put_ep}

-- `struct dwc3` with endpoint `n` at hand.
abbrev pub at_ep : Ep0 → ℕ → Dwc
at_ep d n = record (d.core) { dep = d.eps n }

-- What an operation on endpoint `n` leaves.
unfoldable pub back : Ep0 → ℕ → Dwc → Ep0
back d n w = record d { eps = put_ep d.eps n w.dep; core = w }

-- The TRB that `dwc3_ep0_start_trans` writes.
unfoldable pub control_trb : ℕ → ℕ → ℕ → Bool → Trb
control_trb dma len type chain = record {
  bpl = dma % 2 ^ 32;
  bph = dma / 2 ^ 32 % 2 ^ 32;
  size = len;
  ctrl = record {
    hwo = true;
    lst = not chain;
    chn = chain;
    csp = false;
    isp_imi = true;
    ioc = not chain;
    trbctl = type;
    sid = 0;
  };
}

unfoldable pub with_trb : Ep0 → ℕ → Trb → Ep0
with_trb d i t = record d { stage = record (d.stage) { trbs = set d.stage.trbs i t } }

-- Taking the oldest request off endpoint 0, `dwc3_gadget_giveback(ep0, next_request(..), status)`.
unfoldable pub give_oldest : List Request → Ep0 → Code → Ep0
give_oldest [] d status = d
give_oldest (r ∷ rs) d status = back d 0 (give (at_ep d 0) r status)

module _ (depcmd : ℕ → Depcmd) where
  -- `dwc3_ep0_start_trans` once the command is answered.
  unfoldable pub started : ℕ → Ep0 → Code → Ep0 × Code
  started n d (some e) = (d, some e)
  started n d none =
      let dep = record (d.eps n) { busy = true; resource_index = (depcmd d.core.now).rsc_idx } in
      (
        record d {
          eps = put_ep d.eps n dep;
          core = record (d.core) { now = d.core.now + 1 };
          stage = record (d.stage) { next_event = NextEvent.complete };
        },
        none,
      )

  -- `dwc3_ep0_start_trans` from the command on.
  unfoldable pub start_command : ℕ → Ep0 → Ep0 × Code
  start_command n d =
      let addr = d.stage.trb_addr in
      let out =
        send_ep_cmd depcmd (at_ep d n) (Cmd.start_transfer 0) (addr / 2 ^ 32 % 2 ^ 32)
          (addr % 2 ^ 32) in
      started n (record d { core = out.0 }) out.1

  -- `dwc3_ep0_start_trans`
  unfoldable pub start_trans : Ep0 → ℕ → ℕ → ℕ → ℕ → Bool → Ep0 × Code
  start_trans d n dma len type chain =
      let dep = d.eps n in
      let written = with_trb d dep.trb_enqueue (control_trb dma len type chain) in
      let chained = record written {
        eps = put_ep d.eps n (record dep { trb_enqueue = dep.trb_enqueue + 1 });
      } in
      if dep.busy then (d, none) else (if chain then (chained, none) else start_command n written)

  -- `dwc3_ep0_out_start`
  unfoldable pub out_start : Ep0 → Ep0
  out_start d = (start_trans d 0 d.stage.ctrl_req_addr 8 2 false).0

  -- The start of `dwc3_ep0_stall_and_restart`: both endpoints keep the flag ENABLED alone.
  unfoldable pub stall_both : Ep0 → Ep0
  stall_both d =
      let one = record d { eps = put_ep d.eps 1 (only_enabled (d.eps 1)) } in
      let out = ep_set_halt depcmd (at_ep one 0) true false in
      let zero = back one 0 (record (out.0) { dep = only_enabled out.0.dep }) in
      record zero { stage = record (d.stage) { delayed_status = false; dir_in = false } }

  -- Back to the setup stage.
  unfoldable pub restart : Ep0 → Ep0
  restart d = out_start (record d { stage = record (d.stage) { phase = Phase.setup } })

  -- `dwc3_ep0_stall_and_restart`
  unfoldable pub stall_and_restart : Ep0 → Ep0
  stall_and_restart d =
      let stalled = stall_both d in
      restart (give_oldest (stalled.eps 0).request_list stalled (some Errno.econnreset))
