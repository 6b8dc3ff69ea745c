-- ===== src/Dwc3/Control/Events.antt =====
-- `dwc3_ep0_interrupt`: the events of endpoint 0.
use unisoc_usb.Prelude.{ℕ, ◌+◌, true, false, is_empty, ◌==◌, if◌then◌else◌}
use unisoc_usb.Dwc3.Stage.{Phase, awaits_status, side}
use unisoc_usb.Dwc3.Command.{Depcmd, Cmd, send_ep_cmd}
use unisoc_usb.Dwc3.Completion.{Depevt, EpEvent}
use unisoc_usb.Dwc3.Ep0.{Ep0, Ctrl, SetupCode, DeviceState, put_ep}
use unisoc_usb.Dwc3.Control.Start.{at_ep, stall_and_restart}
use unisoc_usb.Dwc3.Control.Queue.{control_status}
use unisoc_usb.Dwc3.Control.Finish.{inspect_setup, complete_data, complete_status}

-- `event->status`
abbrev pub status_bits : Depevt → ℕ
status_bits e =
    (if e.buserr then 1 else 0)
    + (if e.short then 2 else 0)
    + (if e.ioc then 4 else 0)
    + (if e.lst then 8 else 0)

-- The transfer of endpoint `n` is over.
unfoldable pub settle : Ep0 → ℕ → Ep0
settle d n = record d {
  eps = put_ep d.eps n (record (d.eps n) { busy = false; resource_index = 0 });
  stage = record (d.stage) { setup_packet_pending = false };
}

module _ (depcmd : ℕ → Depcmd) where
  -- `dwc3_ep0_end_control_data`
  unfoldable pub end_control_data : Ep0 → ℕ → Ep0
  end_control_data d n =
      let dep = d.eps n in
      let out = send_ep_cmd depcmd (at_ep d n) (Cmd.end_transfer false dep.resource_index) 0 0 in
      if dep.resource_index == 0
      then d
      else record d { eps = put_ep d.eps n (record dep { resource_index = 0 }); core = out.0 }

  -- `dwc3_ep0_xfernotready` for the data stage.
  unfoldable pub data_ready : Ep0 → ℕ → Ep0
  data_ready d n =
      if side d.stage.expect_in == n
      then d
      else stall_and_restart depcmd (end_control_data d (side d.stage.expect_in))

  -- `dwc3_ep0_xfernotready` for the status stage that was to come.
  unfoldable pub status_ready : Ep0 → ℕ → Ep0
  status_ready d n =
      let begun = record d { stage = record (d.stage) { phase = Phase.status } } in
      let ended = record begun {
        state = DeviceState.configured;
        stage = record (begun.stage) { delayed_status = false };
      } in
      if d.stage.delayed_status
      then (if is_empty (d.eps 0).request_list then begun else control_status depcmd ended n)
      else control_status depcmd begun n

  -- `dwc3_ep0_xfernotready`
  unfoldable pub xfernotready : Ep0 → ℕ → ℕ → Ep0
  xfernotready d n status =
      let pending = record d { stage = record (d.stage) { setup_packet_pending = true } } in
      if status == 1
      then data_ready pending n
      else (if status == 2
          then (if awaits_status d.stage.next_event then status_ready pending n else pending)
          else pending)

  module _ (setup : Ctrl → Ep0 → Ep0 × SetupCode) where
    -- The switch of `dwc3_ep0_xfer_complete`; `ctrl` is what the controller wrote to `ctrl_req`.
    unfoldable pub phase_done : Phase → Ep0 → ℕ → Ctrl → Ep0
    phase_done Phase.setup d n ctrl = inspect_setup depcmd setup d ctrl
    phase_done Phase.data_stage d n ctrl = complete_data depcmd d n
    phase_done Phase.status d n ctrl = complete_status depcmd d
    phase_done Phase.unconnected d n ctrl = d

    -- `dwc3_ep0_xfer_complete`
    unfoldable pub xfer_complete : Ep0 → ℕ → Ctrl → Ep0
    xfer_complete d n ctrl = phase_done d.stage.phase (settle d n) n ctrl

    -- The switch of `dwc3_ep0_interrupt`.
    unfoldable pub ep0_event : EpEvent → Ep0 → Depevt → Ctrl → Ep0
    ep0_event EpEvent.xfer_complete d event ctrl = xfer_complete d event.endpoint_number ctrl
    ep0_event EpEvent.xfer_not_ready d event ctrl =
        xfernotready d event.endpoint_number (status_bits event)
    ep0_event EpEvent.xfer_in_progress d event ctrl = d
    ep0_event EpEvent.rxtx_fifo d event ctrl = d
    ep0_event EpEvent.stream_evt d event ctrl = d
    ep0_event EpEvent.cmd_complete d event ctrl = d

    -- `dwc3_ep0_interrupt`
    unfoldable pub ep0_interrupt : Ep0 → Depevt → Ctrl → Ep0
    ep0_interrupt d event ctrl = ep0_event event.endpoint_event d event ctrl
