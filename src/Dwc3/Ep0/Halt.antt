-- ===== src/Dwc3/Ep0/Halt.antt =====
-- Halting and resuming an endpoint over SET_FEATURE, CLEAR_FEATURE and GET_STATUS.
use unisoc_usb.Prelude.{
  ℕ, ◌%◌, ◌≡◌, refl, sym, ap, ◌∙◌, subst, Bool, true, false, none, some, if◌then◌else◌, arith,
  ==_refl,
}
use unisoc_usb.Dwc3.Endpoint.{Endpoint, is_isoc}
use unisoc_usb.Dwc3.Command.{Depcmd, Accepts}
use unisoc_usb.Dwc3.Transfer.{ep_set_halt}
use unisoc_usb.Dwc3.Transfer.Remove.{ep_set_halt_carried_out}
use unisoc_usb.Dwc3.Ep0.{
  Ctrl, Ep0, Answer, done, handle_feature, halt_feature, status_word, windex_to_dep, physical_of,
  put_ep,
}

-- A request about a feature or the status of an endpoint.
abbrev pub ForEndpoint : Ctrl → Type 0
ForEndpoint c = c.type_bits % 32 ≡ 2

put_ep_at : (eps : ℕ → Endpoint) (i : ℕ) (d : Endpoint) → put_ep eps i d i ≡ d
unfolding put_ep
put_ep_at eps i d = simp (==_refl i) refl

-- The status of an enabled endpoint is its halt.
status_word_endpoint :
    (d : Ep0) (c : Ctrl)
    → ForEndpoint c
    → (d.eps (physical_of c.index)).enabled ≡ true
    → status_word d c ≡ some (if (d.eps (physical_of c.index)).stall then 1 else 0)
unfolding status_word windex_to_dep
status_word_endpoint d c f e = ground (arith, e)

module _ (depcmd : ℕ → Depcmd) where
  handle_feature_endpoint :
      (d : Ep0) (c : Ctrl) (set : Bool)
      → ForEndpoint c
      → c.value ≡ 0
      → (d.eps (physical_of c.index)).enabled ≡ true
      → handle_feature depcmd d c set
        ≡ halt_feature depcmd d (physical_of c.index) (d.eps (physical_of c.index)) set
  unfolding handle_feature windex_to_dep
  handle_feature_endpoint d c set f v e = ground (arith, f, v, e)

  halt_feature_carried_out :
      (d : Ep0) (i : ℕ) (dep : Endpoint) (set : Bool)
      → dep.wedge ≡ false
      → (ep_set_halt depcmd (record (d.core) { dep = dep }) set true).1 ≡ none
      → let out = ep_set_halt depcmd (record (d.core) { dep = dep }) set true in
        halt_feature depcmd d i dep set
        ≡ (record d { eps = put_ep d.eps i out.0.dep; core = out.0 }, done)
  unfolding halt_feature
  halt_feature_carried_out d i dep set w o = ground (arith, w, o)

  -- Halting over SET_FEATURE and resuming over CLEAR_FEATURE an enabled endpoint that is neither
  -- isochronous nor wedged succeeds, and GET_STATUS then tells just that, as long as the controller
  -- carries out the commands.
  pub handle_feature_status :
      (d : Ep0) (c status : Ctrl) (set : Bool)
      → Accepts depcmd
      → ForEndpoint c
      → c.value ≡ 0
      → ForEndpoint status
      → status.index ≡ c.index
      → (d.eps (physical_of c.index)).enabled ≡ true
      → (d.eps (physical_of c.index)).wedge ≡ false
      → is_isoc (d.eps (physical_of c.index)).desc ≡ false
      → ((handle_feature depcmd d c set).1 ≡ done)
        × (status_word (handle_feature depcmd d c set).0 status ≡ some (if set then 1 else 0))
  handle_feature_status d c status set a f v g i e w n =
      let at = physical_of c.index in
      let out = ep_set_halt depcmd (record (d.core) { dep = d.eps at }) set true in
      let (r, s, k, u) =
        ep_set_halt_carried_out depcmd (record (d.core) { dep = d.eps at }) set a n in
      let d' : Ep0 = record d { eps = put_ep d.eps at out.0.dep; core = out.0 } in
      let there : d'.eps (physical_of status.index) ≡ out.0.dep =
        ap (λ (x : ℕ). put_ep d.eps at out.0.dep (physical_of x)) i
        ∙ put_ep_at d.eps at out.0.dep in
      let word =
        status_word_endpoint d' status g (ap (λ (x : Endpoint). x.enabled) there ∙ (u ∙ e))
        ∙ ap (λ (b : Bool). some (if b then 1 else 0)) (ap (λ (x : Endpoint). x.stall) there ∙ s) in
      subst
        (λ (o : Ep0 × Answer).
          (o.1 ≡ done) × (status_word o.0 status ≡ some (if set then 1 else 0)))
        (sym (
          handle_feature_endpoint d c set f v e ∙ halt_feature_carried_out d at (d.eps at) set w r))
        (refl, word)
