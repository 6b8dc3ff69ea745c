-- ===== src/Dwc3/Ep0/Stages.antt =====
-- The standard requests leave the stage of the control transfer alone.
use unisoc_usb.Prelude.{
  ℕ, ◌%◌, ◌≡◌, ◌≢◌, ◌⊎◌, inl, inr, refl, sym, subst, Bool, true, false, not, ◌&&◌, some, ◌==◌,
  if◌then◌else◌, arith, if_both, if_each, option_both, option_each, ==_iff,
}
use unisoc_usb.Dwc3.Endpoint.{Endpoint}
use unisoc_usb.Dwc3.Command.{Depcmd}
use unisoc_usb.Dwc3.Transfer.{ep_set_halt}
use unisoc_usb.Dwc3.Transfer.Flags.{SameWait}
use unisoc_usb.Dwc3.Transfer.Remove.{ep_set_halt-SameWait}
use unisoc_usb.Dwc3.Ep0.{
  DeviceState, Ctrl, Ep0, SetupCode, Answer, done, refused, set_address, set_isoch_delay, set_sel,
  set_config, configured_by, unconfigured_by, delegate_req, handle_feature, halt_feature,
  device_feature, settled, std_request, status_word, windex_to_dep, physical_of, reply_or_refuse,
  put_ep,
}
use unisoc_usb.Dwc3.Ep0.Address.{set_config-refused, set_config_addressed, set_config_configured}

-- The control transfer stands where it stood.
pub record SameStage (d e : Ep0) : Type 0 where
  pub stage : e.stage ≡ d.stage
  pub eps : (n : ℕ) → SameWait (d.eps n) (e.eps n)

here : (d : Ep0) → SameStage d d
here d = record { stage = refl; eps = λ n. (refl, refl, refl) }

put_ep-SameWait :
    (eps : ℕ → Endpoint) (i : ℕ) (dep : Endpoint)
    → SameWait (eps i) dep
    → (n : ℕ) → SameWait (eps n) (put_ep eps i dep n)
unfolding put_ep
put_ep-SameWait eps i dep w n =
    if_each (SameWait (eps n)) (n == i) {x = dep} {y = eps n}
      (λ e. subst (λ (j : ℕ). SameWait (eps j) dep) (sym ((==_iff n i).0 e)) w)
      (λ e. (refl, refl, refl))

windex_to_dep-eps :
    (d : Ep0) (windex : ℕ) (dep : Endpoint)
    → windex_to_dep d windex ≡ some dep
    → d.eps (physical_of windex) ≡ dep
unfolding windex_to_dep
windex_to_dep-eps d windex dep e = ground (arith, e)

-- Neither the stage nor an endpoint is touched.
abbrev IsApart : Ep0 → Ep0 × Answer → Type 0
IsApart d o = (o.0.stage ≡ d.stage) × (o.0.eps ≡ d.eps)

IsApart-SameStage : (d : Ep0) (o : Ep0 × Answer) → IsApart d o → SameStage d o.0
IsApart-SameStage d o a = record {
  stage = a.0;
  eps = λ n. subst (λ (f : ℕ → Endpoint). SameWait (d.eps n) (f n)) (sym a.1) (refl, refl, refl);
}

device_feature-IsApart :
    (d : Ep0) (c : Ctrl) (set : Bool) → IsApart d (settled (device_feature d c set) d)
unfolding device_feature
device_feature-IsApart d c set = ground arith

set_address-IsApart : (d : Ep0) (c : Ctrl) → IsApart d (set_address d c)
unfolding set_address
set_address-IsApart d c = ground arith

set_sel-IsApart : (d : Ep0) (c : Ctrl) → IsApart d (set_sel d c)
unfolding set_sel
set_sel-IsApart d c = ground arith

set_isoch_delay-IsApart : (d : Ep0) (c : Ctrl) → IsApart d (set_isoch_delay d c)
unfolding set_isoch_delay
set_isoch_delay-IsApart d c = ground arith

configured_by-IsApart : (cfg : ℕ) (x : Ep0 × SetupCode) → IsApart x.0 (configured_by cfg x)
unfolding configured_by
configured_by-IsApart cfg (d, SetupCode.failed e) = (refl, refl)
configured_by-IsApart cfg (d, SetupCode.length n) = ground arith

unconfigured_by-IsApart : (cfg : ℕ) (x : Ep0 × SetupCode) → IsApart x.0 (unconfigured_by cfg x)
unfolding unconfigured_by
unconfigured_by-IsApart cfg (d, SetupCode.failed e) = (refl, refl)
unconfigured_by-IsApart cfg (d, SetupCode.length n) = ground arith

configured_by-returned :
    (cfg : ℕ) (x : Ep0 × SetupCode) → (configured_by cfg x).1 ≡ Answer.returned x.1
unfolding configured_by
configured_by-returned cfg (d, SetupCode.failed e) = refl
configured_by-returned cfg (d, SetupCode.length n) = refl

unconfigured_by-returned :
    (cfg : ℕ) (x : Ep0 × SetupCode) → (unconfigured_by cfg x).1 ≡ Answer.returned x.1
unfolding unconfigured_by
unconfigured_by-returned cfg (d, SetupCode.failed e) = refl
unconfigured_by-returned cfg (d, SetupCode.length n) = refl

-- An answered request leaves the stage as it was, or as the gadget driver does, whose value is then
-- the answer.
abbrev pub SetupStage : Ep0 → Ep0 × SetupCode → Ep0 × Answer → Type 0
SetupStage d x o = SameStage d o.0 ⊎ SameStage x.0 o.0 × (o.1 ≡ Answer.returned x.1)

module _ (depcmd : ℕ → Depcmd) where
  halt_feature-SameStage :
      (d : Ep0) (i : ℕ) (dep : Endpoint) (set : Bool)
      → d.eps i ≡ dep
      → SameStage d (halt_feature depcmd d i dep set).0
  unfolding halt_feature
  halt_feature-SameStage d i dep set e =
      let out = ep_set_halt depcmd (record (d.core) { dep = dep }) set true in
      let same : SameWait (d.eps i) out.0.dep =
        subst (λ (x : Endpoint). SameWait x out.0.dep) (sym e)
          (ep_set_halt-SameWait depcmd (record (d.core) { dep = dep }) set true) in
      let written : Ep0 = record d { eps = put_ep d.eps i out.0.dep; core = out.0 } in
      let there : SameStage d written = record {
        stage = refl;
        eps = put_ep-SameWait d.eps i out.0.dep same;
      } in
      let Same = λ (o : Ep0 × Answer). SameStage d o.0 in
      if_both Same (not set && dep.wedge) {x = (d, done)} (here d) (
        option_both Same out.1 {x = (written, done)} {f = λ e. (written, refused)} there
          (λ e. there))

  handle_feature-SameStage :
      (d : Ep0) (c : Ctrl) (set : Bool) → SameStage d (handle_feature depcmd d c set).0
  unfolding handle_feature
  handle_feature-SameStage d c set =
      let Same = λ (o : Ep0 × Answer). SameStage d o.0 in
      let recip = c.type_bits % 32 in
      if_both Same (recip == 0) {x = settled (device_feature d c set) d}
        (IsApart-SameStage d (settled (device_feature d c set) d) (device_feature-IsApart d c set))
        (if_both Same (recip == 1) {x = (d, if c.value == 0 then done else refused)} (here d) (
          if_both Same (recip == 2 && c.value == 0) {y = (d, refused)}
            (option_each Same (windex_to_dep d c.index) {x = (d, refused)}
              {f = λ dep. halt_feature depcmd d (physical_of c.index) dep set} (λ e. here d)
              (λ dep e.
                halt_feature-SameStage d (physical_of c.index) dep set
                  (windex_to_dep-eps d c.index dep e)))
            (here d)))

module _ (setup : Ctrl → Ep0 → Ep0 × SetupCode) where
  set_config-SetupStage :
      (d : Ep0) (c : Ctrl) (s : DeviceState)
      → d.state ≡ s
      → SetupStage d (setup c d) (set_config setup d c)
  set_config-SetupStage d c DeviceState.address e =
      let x = setup c d in
      subst (SetupStage d x) (sym (set_config_addressed setup d c e)) (
        inr (
          IsApart-SameStage x.0 (configured_by c.value x) (configured_by-IsApart c.value x),
          configured_by-returned c.value x,
        ))
  set_config-SetupStage d c DeviceState.configured e =
      let x = setup c d in
      subst (SetupStage d x) (sym (set_config_configured setup d c e)) (
        inr (
          IsApart-SameStage x.0 (unconfigured_by c.value x) (unconfigured_by-IsApart c.value x),
          unconfigured_by-returned c.value x,
        ))
  set_config-SetupStage d c s e =
      let a : d.state ≢ DeviceState.address = ground (arith, e) in
      let n : d.state ≢ DeviceState.configured = ground (arith, e) in
      subst (SetupStage d (setup c d)) (sym (set_config-refused setup d c a n)) (inl (here d))

  pub delegate_req-SetupStage :
      (d : Ep0) (c : Ctrl) → SetupStage d (setup c d) (delegate_req setup d c)
  unfolding delegate_req
  delegate_req-SetupStage d c = inr (here (setup c d).0, refl)

  -- A standard request leaves the stage of the control transfer and the endpoints' requests as they
  -- are, or as the gadget driver leaves them, whose answer is then the answer.
  pub std_request-SetupStage :
      (depcmd : ℕ → Depcmd) (d : Ep0) (c : Ctrl)
      → SetupStage d (setup c d) (std_request setup depcmd d c)
  unfolding std_request delegate_req
  std_request-SetupStage depcmd d c =
      let r = c.request in
      let P = SetupStage d (setup c d) in
      let apart : (o : Ep0 × Answer) → IsApart d o → SetupStage d (setup c d) o =
        λ o a. inl (IsApart-SameStage d o a) in
      if_both P (r == 0) {x = (d, reply_or_refuse (status_word d c))} (inl (here d)) (
        if_both P (r == 1) {x = handle_feature depcmd d c false}
          (inl (handle_feature-SameStage depcmd d c false))
          (if_both P (r == 3) {x = handle_feature depcmd d c true}
            (inl (handle_feature-SameStage depcmd d c true))
            (if_both P (r == 5) {x = set_address d c}
              (apart (set_address d c) (set_address-IsApart d c))
              (if_both P (r == 9) {x = set_config setup d c}
                (set_config-SetupStage d c d.state refl)
                (if_both P (r == 48) {x = set_sel d c} (apart (set_sel d c) (set_sel-IsApart d c)) (
                  if_both P (r == 49) {x = set_isoch_delay d c} {y = delegate_req setup d c}
                    (apart (set_isoch_delay d c) (set_isoch_delay-IsApart d c))
                    (inr (here (setup c d).0, refl))))))))
