-- ===== src/Gadget/Udc/Second.antt =====
-- A second gadget driver that is probed while one is bound.
use unisoc_usb.Prelude.{ℕ, ◌≡◌, refl, sym, subst, ◌∙◌, true, false, ◌∷◌, none, some, Code, Errno}
use unisoc_usb.Gadget.Udc.{
  Call, Udc, called, Platform, gadget_start, remove_driver, after_start, after_bind, bind_to_driver,
  probe_driver, unregister_driver,
}
use unisoc_usb.Gadget.Udc.Life.{IsBound}

module _ (p : Platform) where
  -- What a second driver's probe leaves of the first one.
  pub record IsLost (c : ℕ) (out : Udc × Code) : Type 0 where
    pub refused : out.1 ≡ some Errno.ebusy
    pub forgotten : (out.0).driver ≡ none
    pub kept : (out.0).gadget_driver ≡ some c
    pub unserved : (out.0).irq ≡ false
    pub crashes :
        (d : ℕ) → (p.drivers d).has_unbind ≡ true → unregister_driver p (some d) out.0 ≡ none

  after_bind-IsLost :
      (c d : ℕ) (u : Udc)
      → u.gadget_driver ≡ some c
      → (p.drivers d).has_unbind ≡ true
      → p.isr u.calls ≡ none
      → IsLost c (after_bind p d (u, none))
  unfolding after_bind after_start gadget_start unregister_driver remove_driver
  after_bind-IsLost c d u g w i =
      rw (i, g, w)
        (record {
          refused = refl;
          forgotten = refl;
          kept = refl;
          unserved = refl;
          crashes = λ e h. rw h refl;
        })

  -- Probing a second driver that can bind and unbind, while one is bound and the interrupt's handlers can be
  -- registered again, fails with -EBUSY, but not without harm: the core forgets the first driver while
  -- the controller driver keeps it, its interrupt is served no more, and to unregister it crashes.
  pub probe_driver_second :
      (d : ℕ) (u : Udc) (c : ℕ)
      → IsBound p u
      → u.driver ≡ some c
      → (p.drivers d).has_bind ≡ true
      → (p.drivers d).has_setup ≡ true
      → (p.drivers d).has_unbind ≡ true
      → (p.bind u.calls d u.link).1 ≡ none
      → p.isr (Call.bind d none ∷ u.calls) ≡ none
      → IsLost c (probe_driver p (some d) u)
  unfolding probe_driver bind_to_driver
  probe_driver_second d u c r e b s w n i =
      rw (b, s)
        (subst
          (λ code. IsLost c (
            after_bind p d (
              called (Call.bind d code) (p.bind u.calls d u.link).0 (record u { driver = some d }),
              code,
            )))
          (sym n)
          (after_bind-IsLost c d (called (Call.bind d none) _ (record u { driver = some d }))
            (r.same ∙ e) w i))
