-- ===== src/Dwc3/Ep0/Address.antt =====
-- The device address and the state that goes with it, from `dwc3_ep0_std_request`.
use unisoc_usb.Prelude.{
  ℕ, ◌≡◌, ◌≢◌, ◌<◌, ◌≤◌, ◌⊎◌, ◌↔◌, inl, inr, refl, sym, subst, Bool, true, false, not, ◌&&◌, ◌||◌,
  ◌==◌, if◌then◌else◌, arith, if_both, option_both,
}
use unisoc_usb.Dwc3.Endpoint.{Endpoint}
use unisoc_usb.Dwc3.Command.{Depcmd}
use unisoc_usb.Dwc3.Ep0.{
  DeviceState, Ctrl, Ep0, SetupCode, Answer, done, refused, set_address, set_isoch_delay, set_sel,
  set_config, configured_by, unconfigured_by, delegate_req, handle_feature, halt_feature,
  device_feature, settled, std_request, status_word, windex_to_dep, physical_of, reply_or_refuse,
  delayed_status,
}

-- The default state has address 0; an addressed or configured device has an address of 1 to 127.
abbrev pub Addressed : DeviceState → ℕ → Type 0
Addressed DeviceState.default a = a ≡ 0
Addressed DeviceState.address a = (0 < a) × (a ≤ 127)
Addressed DeviceState.configured a = (0 < a) × (a ≤ 127)
Addressed _ a = Unit

abbrev pub IsAddressed : Ep0 → Type 0
IsAddressed d = Addressed d.state d.address

-- A gadget driver leaves the address alone, and the state too, but that it may configure a device
-- that has an address.
abbrev pub KeepsAddress : (Ctrl → Ep0 → Ep0 × SetupCode) → Type 0
KeepsAddress setup =
    (c : Ctrl) (d : Ep0)
    → ((setup c d).0.address ≡ d.address)
      × (((setup c d).0.state ≡ d.state)
          ⊎ ((d.state ≡ DeviceState.address) ⊎ (d.state ≡ DeviceState.configured))
            × ((setup c d).0.state ≡ DeviceState.configured))

-- SET_ADDRESS succeeds just for an address of at most 127 on a device that is not configured.
pub set_address_iff :
    (d : Ep0) (ctrl : Ctrl)
    → ((set_address d ctrl).1 ≡ done) ↔ (ctrl.value ≤ 127) × (d.state ≢ DeviceState.configured)
unfolding set_address
set_address_iff d ctrl = ground arith

-- An accepted SET_ADDRESS.
pub set_address_accepted :
    (d : Ep0) (ctrl : Ctrl)
    → ctrl.value ≤ 127
    → d.state ≢ DeviceState.configured
    → set_address d ctrl ≡ (
      record d {
        address = ctrl.value;
        state = if ctrl.value == 0 then DeviceState.default else DeviceState.address;
      },
      done,
    )
unfolding set_address
set_address_accepted d ctrl h n = ground (arith, h, n)

set_address-IsAddressed :
    (d : Ep0) (ctrl : Ctrl) → IsAddressed d → IsAddressed (set_address d ctrl).0
unfolding set_address
set_address-IsAddressed d ctrl h = ground arith

set_sel-IsAddressed : (d : Ep0) (ctrl : Ctrl) → IsAddressed d → IsAddressed (set_sel d ctrl).0
unfolding set_sel
set_sel-IsAddressed d ctrl h = ground arith

set_isoch_delay-IsAddressed :
    (d : Ep0) (ctrl : Ctrl) → IsAddressed d → IsAddressed (set_isoch_delay d ctrl).0
unfolding set_isoch_delay
set_isoch_delay-IsAddressed d ctrl h =
    if_both (λ (o : Ep0 × Answer). IsAddressed o.0)
      (not (ctrl.index == 0) || not (ctrl.length == 0)) {x = (d, refused)}
      {y = (record d { isoch_delay = ctrl.value }, done)} h h

configured_by-IsAddressed :
    (cfg : ℕ) (d : Ep0) (c : SetupCode)
    → (0 < d.address) × (d.address ≤ 127)
    → IsAddressed d
    → IsAddressed (configured_by cfg (d, c)).0
unfolding configured_by
configured_by-IsAddressed cfg d (SetupCode.failed e) a h = h
configured_by-IsAddressed cfg d (SetupCode.length n) a h =
    let up : Ep0 = record d {
      state = if n == 0 then DeviceState.configured else d.state;
      accept_u1_u2 = true;
      resize_fifos = true;
    } in
    if_both IsAddressed (not (cfg == 0) && (n == 0 || n == delayed_status)) {x = up} {y = d}
      (if_both (λ (s : DeviceState). Addressed s d.address) (n == 0) {x = DeviceState.configured}
        {y = d.state} a h)
      h

unconfigured_by-IsAddressed :
    (cfg : ℕ) (d : Ep0) (c : SetupCode)
    → (0 < d.address) × (d.address ≤ 127)
    → IsAddressed d
    → IsAddressed (unconfigured_by cfg (d, c)).0
unfolding unconfigured_by
unconfigured_by-IsAddressed cfg d (SetupCode.failed e) a h = h
unconfigured_by-IsAddressed cfg d (SetupCode.length n) a h =
    if_both IsAddressed (cfg == 0 && n == 0) {x = record d { state = DeviceState.address }} {y = d}
      a h

-- What leaves the address and the state alone.
abbrev IsSteady : Ep0 → Ep0 × Answer → Type 0
IsSteady d o = (o.0.state ≡ d.state) × (o.0.address ≡ d.address)

IsSteady-IsAddressed : (d : Ep0) (o : Ep0 × Answer) → IsSteady d o → IsAddressed d → IsAddressed o.0
IsSteady-IsAddressed d o s h =
    subst (λ a. Addressed o.0.state a) (sym s.1) (subst (λ t. Addressed t d.address) (sym s.0) h)

device_feature-IsSteady :
    (d : Ep0) (ctrl : Ctrl) (set : Bool) → IsSteady d (settled (device_feature d ctrl set) d)
unfolding device_feature
device_feature-IsSteady d ctrl set = ground arith

module _ (depcmd : ℕ → Depcmd) where
  halt_feature-IsSteady :
      (d : Ep0) (i : ℕ) (dep : Endpoint) (set : Bool) → IsSteady d (halt_feature depcmd d i dep set)
  unfolding halt_feature
  halt_feature-IsSteady d i dep set = ground arith

  handle_feature-IsSteady :
      (d : Ep0) (ctrl : Ctrl) (set : Bool) → IsSteady d (handle_feature depcmd d ctrl set)
  unfolding handle_feature
  handle_feature-IsSteady d ctrl set =
      let same : IsSteady d (d, refused) = (refl, refl) in
      let halt =
        option_both (IsSteady d) (windex_to_dep d ctrl.index) {x = (d, refused)}
          {f = λ dep. halt_feature depcmd d (physical_of ctrl.index) dep set} same
          (λ dep. halt_feature-IsSteady d (physical_of ctrl.index) dep set) in
      ground (arith, device_feature-IsSteady d ctrl set, halt)

module _ (setup : Ctrl → Ep0 → Ep0 × SetupCode) where
  setup-IsAddressed :
      (c : Ctrl) (d : Ep0) → KeepsAddress setup → IsAddressed d → IsAddressed (setup c d).0
  setup-IsAddressed c d k h =
      let (a, s) = k c d in
      subst (λ x. Addressed (setup c d).0.state x) (sym a)
        (elim s [
          | inl e ↦ subst (λ t. Addressed t d.address) (sym e) h
          | inr (inl e, n) ↦
              subst (λ t. Addressed t d.address) (sym n) (subst (λ t. Addressed t d.address) e h)
          | inr (inr e, n) ↦
              subst (λ t. Addressed t d.address) (sym n) (subst (λ t. Addressed t d.address) e h)
        ])

  in_range :
      (c : Ctrl) (d : Ep0)
      → KeepsAddress setup
      → (0 < d.address) × (d.address ≤ 127)
      → (0 < (setup c d).0.address) × ((setup c d).0.address ≤ 127)
  in_range c d k h = subst (λ a. (0 < a) × (a ≤ 127)) (sym (k c d).0) h

  pub set_config-refused :
      (d : Ep0) (ctrl : Ctrl)
      → d.state ≢ DeviceState.address
      → d.state ≢ DeviceState.configured
      → set_config setup d ctrl ≡ (d, refused)
  unfolding set_config
  set_config-refused d ctrl a c = ground arith

  pub set_config_addressed :
      (d : Ep0) (ctrl : Ctrl)
      → d.state ≡ DeviceState.address
      → set_config setup d ctrl ≡ configured_by ctrl.value (setup ctrl d)
  unfolding set_config
  set_config_addressed d ctrl e = ground (arith, e)

  pub set_config_configured :
      (d : Ep0) (ctrl : Ctrl)
      → d.state ≡ DeviceState.configured
      → set_config setup d ctrl ≡ unconfigured_by ctrl.value (setup ctrl d)
  unfolding set_config
  set_config_configured d ctrl e = ground (arith, e)

  set_config-IsAddressed :
      (d : Ep0) (ctrl : Ctrl) (s : DeviceState)
      → d.state ≡ s
      → KeepsAddress setup
      → IsAddressed d
      → IsAddressed (set_config setup d ctrl).0
  set_config-IsAddressed d ctrl DeviceState.address e k h =
      let o = setup ctrl d in
      let r = in_range ctrl d k (subst (λ t. Addressed t d.address) e h) in
      let a = configured_by-IsAddressed ctrl.value o.0 o.1 r (setup-IsAddressed ctrl d k h) in
      subst (λ (x : Ep0 × Answer). IsAddressed x.0) (sym (set_config_addressed d ctrl e)) a
  set_config-IsAddressed d ctrl DeviceState.configured e k h =
      let o = setup ctrl d in
      let r = in_range ctrl d k (subst (λ t. Addressed t d.address) e h) in
      let a = unconfigured_by-IsAddressed ctrl.value o.0 o.1 r (setup-IsAddressed ctrl d k h) in
      subst (λ (x : Ep0 × Answer). IsAddressed x.0) (sym (set_config_configured d ctrl e)) a
  set_config-IsAddressed d ctrl s e k h =
      let a : d.state ≢ DeviceState.address = ground (arith, e) in
      let c : d.state ≢ DeviceState.configured = ground (arith, e) in
      subst (λ (x : Ep0 × Answer). IsAddressed x.0) (sym (set_config-refused d ctrl a c)) h

  pub std_request-set_address :
      (depcmd : ℕ → Depcmd) (d : Ep0) (ctrl : Ctrl)
      → ctrl.request ≡ 5
      → std_request setup depcmd d ctrl ≡ set_address d ctrl
  unfolding std_request
  std_request-set_address depcmd d ctrl e = rw e refl

  -- Whatever standard request arrives, a device in the default state has address 0, and an addressed or
  -- a configured device an address of 1 to 127, as long as the gadget driver leaves the address alone
  -- and configures only a device that has one.
  pub std_request-IsAddressed :
      (depcmd : ℕ → Depcmd) (d : Ep0) (ctrl : Ctrl)
      → KeepsAddress setup
      → IsAddressed d
      → IsAddressed (std_request setup depcmd d ctrl).0
  unfolding std_request delegate_req
  std_request-IsAddressed depcmd d ctrl k h =
      let r = ctrl.request in
      let P = λ (o : Ep0 × Answer). IsAddressed o.0 in
      let feature = λ (set : Bool).
        IsSteady-IsAddressed d (handle_feature depcmd d ctrl set)
          (handle_feature-IsSteady depcmd d ctrl set) h in
      if_both P (r == 0) {x = (d, reply_or_refuse (status_word d ctrl))} h (
        if_both P (r == 1) {x = handle_feature depcmd d ctrl false} (feature false) (
          if_both P (r == 3) {x = handle_feature depcmd d ctrl true} (feature true) (
            if_both P (r == 5) {x = set_address d ctrl} (set_address-IsAddressed d ctrl h) (
              if_both P (r == 9) {x = set_config setup d ctrl}
                (set_config-IsAddressed d ctrl d.state refl k h)
                (if_both P (r == 48) {x = set_sel d ctrl} (set_sel-IsAddressed d ctrl h) (
                  if_both P (r == 49) {x = set_isoch_delay d ctrl} {y = delegate_req setup d ctrl}
                    (set_isoch_delay-IsAddressed d ctrl h) (setup-IsAddressed ctrl d k h)))))))
