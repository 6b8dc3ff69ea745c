-- ===== src/Dwc3/Ep0.antt =====
-- The standard requests that the controller driver answers itself on endpoint 0, from udc/dwc3/ep0.c.
pub mod Address
pub mod Halt
pub mod Stages
use unisoc_usb.Prelude.{
  ℕ, zero, suc, ◌+◌, ◌-◌, ◌*◌, ◌/◌, ◌%◌, ◌^◌, Bool, true, false, not, ◌&&◌, ◌||◌, Option, none,
  some, Code, Errno, Result, ok, err, ltb, ◌==◌, if◌then◌else◌,
}
use unisoc_usb.Dwc3.Endpoint.{Endpoint}
use unisoc_usb.Dwc3.Stage.{Stage}
use unisoc_usb.Dwc3.Command.{Depcmd, Dwc}
use unisoc_usb.Dwc3.Transfer.{ep_set_halt}

-- `enum usb_device_state`
pub data DeviceState : Type 0 where
  removed notattached attached powered reconnecting unauthenticated : DeviceState
  default address configured suspended : DeviceState

-- `struct usb_ctrlrequest`; `type_bits` is `bRequestType`.
pub record Ctrl : Type 0 where
  pub type_bits : ℕ
  pub request : ℕ
  pub value : ℕ
  pub index : ℕ
  pub length : ℕ

-- The part of `struct dwc3` that these requests touch. `address` is DEVADDR of the register DCFG, the
-- four `init` and `accept` flags are bits of DCTL, `super` says that the speed is DWC3_DSTS_SUPERSPEED.
-- `stage` is where the control transfer stands, and `eps` are the physical endpoints; the `dep` of `core` is whichever was used last.
pub record Ep0 : Type 0 where
  pub state : DeviceState
  pub super : Bool
  pub is_selfpowered : Bool
  pub address : ℕ
  pub init_u1 : Bool
  pub init_u2 : Bool
  pub accept_u1_u2 : Bool
  pub test_mode : Bool
  pub test_mode_nr : ℕ
  pub isoch_delay : ℕ
  pub resize_fifos : Bool
  pub eps : ℕ → Endpoint
  pub core : Dwc
  pub stage : Stage

-- What the gadget driver's `setup` returns: `-e`, or a number that is not negative.
pub data SetupCode : Type 0 where
  failed : Errno → SetupCode
  length : ℕ → SetupCode

-- What comes of a request: its return value; the 16-bit word that is queued as the data stage; or a
-- data stage from the host that carries the exit latencies.
pub data Answer : Type 0 where
  returned : SetupCode → Answer
  reply : ℕ → Answer
  receive_sel : Answer

abbrev pub done : Answer
done = Answer.returned (SetupCode.length 0)

abbrev pub refused : Answer
refused = Answer.returned (SetupCode.failed Errno.einval)

-- `dwc->eps[i] = d`
unfoldable pub put_ep : (ℕ → Endpoint) → ℕ → Endpoint → ℕ → Endpoint
put_ep eps i d j = if j == i then d else eps j

-- The physical endpoint that a `wIndex` names: bit 7 is the direction.
pub physical_of : ℕ → ℕ
physical_of windex = windex % 16 * 2 + windex / 2 ^ 7 % 2

-- `dwc3_wIndex_to_dep`
pub windex_to_dep : Ep0 → ℕ → Option Endpoint
windex_to_dep d windex =
    let dep = d.eps (physical_of windex) in if dep.enabled then some dep else none

-- `dwc3_ep0_handle_status` up to the word that it queues.
pub status_word : Ep0 → Ctrl → Option ℕ
status_word d ctrl =
    let recip = ctrl.type_bits % 32 in
    let latency = (if d.init_u1 then 4 else 0) + (if d.init_u2 then 8 else 0) in
    if recip == 0
    then some ((if d.is_selfpowered then 1 else 0) + (if d.super then latency else 0))
    else (if recip == 1
        then some 0
        else (if recip == 2
            then (elim (windex_to_dep d ctrl.index) [
              | none ↦ none
              | some dep ↦ some (if dep.stall then 1 else 0)
            ])
            else none))

abbrev pub reply_or_refuse : Option ℕ → Answer
reply_or_refuse none = refused
reply_or_refuse (some w) = Answer.reply w

-- The features of the device that `dwc3_ep0_handle_feature` sets and clears.
pub device_feature : Ep0 → Ctrl → Bool → Option Ep0
device_feature d ctrl set =
    let ready = (elim d.state [ DeviceState.configured ↦ true | _ ↦ false ]) && d.super in
    if ctrl.value == 1
    then some d
    else (if ctrl.value == 48
        then (if ready then some (record d { init_u1 = set }) else none)
        else (if ctrl.value == 49
            then (if ready then some (record d { init_u2 = set }) else none)
            else (if ctrl.value == 2 && ctrl.index % 2 ^ 8 == 0 && set
                then some (record d { test_mode_nr = ctrl.index / 2 ^ 8; test_mode = true })
                else none)))

-- `dwc3_ep0_set_address`
pub set_address : Ep0 → Ctrl → Ep0 × Answer
set_address d ctrl =
    let addr = ctrl.value in
    let moved = record d {
      address = addr;
      state = if addr == 0 then DeviceState.default else DeviceState.address;
    } in
    if ltb 127 addr
    then (d, refused)
    else (elim d.state [ DeviceState.configured ↦ (d, refused) | _ ↦ (moved, done) ])

-- `dwc3_ep0_set_isoch_delay`
pub set_isoch_delay : Ep0 → Ctrl → Ep0 × Answer
set_isoch_delay d ctrl =
    if not (ctrl.index == 0) || not (ctrl.length == 0)
    then (d, refused)
    else (record d { isoch_delay = ctrl.value }, done)

-- `dwc3_ep0_set_sel`, whose data stage is not modelled.
pub set_sel : Ep0 → Ctrl → Ep0 × Answer
set_sel d ctrl = elim d.state [
  | DeviceState.default ↦ (d, refused)
  | _ ↦ if ctrl.length == 6 then (d, Answer.receive_sel) else (d, refused)
]

-- USB_GADGET_DELAYED_STATUS
abbrev pub delayed_status : ℕ
delayed_status = 32767

abbrev pub settled : Option Ep0 → Ep0 → Ep0 × Answer
settled none d = (d, refused)
settled (some e) d = (e, done)

module _ (depcmd : ℕ → Depcmd) where
  -- `USB_ENDPOINT_HALT` of `dwc3_ep0_handle_feature` on an enabled endpoint.
  pub halt_feature : Ep0 → ℕ → Endpoint → Bool → Ep0 × Answer
  halt_feature d i dep set =
      let out = ep_set_halt depcmd (record (d.core) { dep = dep }) set true in
      let written = record d { eps = put_ep d.eps i out.0.dep; core = out.0 } in
      if not set && dep.wedge
      then (d, done)
      else (elim out.1 [ none ↦ (written, done) | some e ↦ (written, refused) ])

  -- `dwc3_ep0_handle_feature`
  pub handle_feature : Ep0 → Ctrl → Bool → Ep0 × Answer
  handle_feature d ctrl set =
      let recip = ctrl.type_bits % 32 in
      if recip == 0
      then settled (device_feature d ctrl set) d
      else (if recip == 1
          then (d, if ctrl.value == 0 then done else refused)
          else (if recip == 2 && ctrl.value == 0
              then (elim (windex_to_dep d ctrl.index) [
                | none ↦ (d, refused)
                | some dep ↦ halt_feature d (physical_of ctrl.index) dep set
              ])
              else (d, refused)))

-- `dwc3_ep0_set_config` where the device has an address and the gadget driver has answered.
pub configured_by : ℕ → Ep0 × SetupCode → Ep0 × Answer
configured_by cfg (d, SetupCode.failed e) = (d, Answer.returned (SetupCode.failed e))
configured_by cfg (d, SetupCode.length n) =
    let state = if n == 0 then DeviceState.configured else d.state in
    let up = record d { state = state; accept_u1_u2 = true; resize_fifos = true } in
    (
      if not (cfg == 0) && (n == 0 || n == delayed_status) then up else d,
      Answer.returned (SetupCode.length n),
    )

-- The same where the device is configured.
pub unconfigured_by : ℕ → Ep0 × SetupCode → Ep0 × Answer
unconfigured_by cfg (d, SetupCode.failed e) = (d, Answer.returned (SetupCode.failed e))
unconfigured_by cfg (d, SetupCode.length n) = (
  if cfg == 0 && n == 0 then record d { state = DeviceState.address } else d,
  Answer.returned (SetupCode.length n),
)

-- `setup` is the gadget driver's, which the UDC core installs at run time.
module _ (setup : Ctrl → Ep0 → Ep0 × SetupCode) where
  -- `dwc3_ep0_set_config`
  pub set_config : Ep0 → Ctrl → Ep0 × Answer
  set_config d ctrl = elim d.state [
    | DeviceState.address ↦ configured_by ctrl.value (setup ctrl d)
    | DeviceState.configured ↦ unconfigured_by ctrl.value (setup ctrl d)
    | _ ↦ (d, refused)
  ]

  -- `dwc3_ep0_delegate_req`
  unfoldable pub delegate_req : Ep0 → Ctrl → Ep0 × Answer
  delegate_req d ctrl = let out = setup ctrl d in (out.0, Answer.returned out.1)

  -- `dwc3_ep0_std_request`
  pub std_request : (ℕ → Depcmd) → Ep0 → Ctrl → Ep0 × Answer
  std_request depcmd d ctrl =
      let r = ctrl.request in
      if r == 0
      then (d, reply_or_refuse (status_word d ctrl))
      else (if r == 1
          then handle_feature depcmd d ctrl false
          else (if r == 3
              then handle_feature depcmd d ctrl true
              else (if r == 5
                  then set_address d ctrl
                  else (if r == 9
                      then set_config d ctrl
                      else (if r == 48
                          then set_sel d ctrl
                          else (if r == 49
                              then set_isoch_delay d ctrl
                              else delegate_req d ctrl))))))
