-- ===== src/Gadget/Udc/Life.antt =====
-- The order in which a gadget driver's callbacks are called.
use unisoc_usb.Prelude.{
  ℕ, ◌≡◌, refl, sym, ap, ◌∙◌, subst, Bool, true, false, not, ◌||◌, List, [], ◌∷◌, Option, none,
  some, Code, option_each, if_both, if◌then◌else◌, ◌==◌, ==_refl,
}
use unisoc_usb.Gadget.Connection.{Link}
use unisoc_usb.Gadget.Udc.{
  GadgetDriver, Call, Udc, called, Platform, gadget_start, gadget_stop, add_gadget_udc,
  connect_control, vbus_handler, udc_reset, remove_bound, remove_driver, del_gadget_udc,
  after_start, after_bind, bind_to_driver, probe_driver, unregister_driver,
}

-- What a gadget driver may expect: nobody is bound, one is, or one has been told that it is
-- disconnected.
pub data Life : Type 0 where
  nobody : Life
  bound told : ℕ → Life

-- The life after a call, if the call may come; a crash may not.
abbrev pub live : Call → Life → Option Life
live (Call.bind d none) nobody = some (bound d)
live (Call.bind d (some e)) nobody = some nobody
live (Call.bind d r) (bound c) = none
live (Call.bind d r) (told c) = none
live (Call.reset d) (bound c) = if d == c then some (bound c) else none
live (Call.reset d) nobody = none
live (Call.reset d) (told c) = none
live (Call.disconnect d) (bound c) = if d == c then some (told c) else none
live (Call.disconnect d) nobody = none
live (Call.disconnect d) (told c) = none
live Call.crash l = none
live (Call.unbind d) nobody = none
live (Call.unbind d) (bound c) = if d == c then some nobody else none
live (Call.unbind d) (told c) = if d == c then some nobody else none

-- The life after all calls, of which the last one stands first.
abbrev pub life : List Call → Option Life
life [] = some nobody
life (c ∷ earlier) = elim (life earlier) [ none ↦ none | some l ↦ live c l ]

abbrev pub life_of : Option ℕ → Life
life_of none = nobody
life_of (some d) = bound d

abbrev pub is_some : Option ℕ → Bool
is_some none = false
is_some (some d) = true

-- A gadget driver with the callbacks that are called without a test.
pub record IsWhole (d : GadgetDriver) : Type 0 where
  pub unbind : d.has_unbind ≡ true
  pub disconnect : d.has_disconnect ≡ true
  pub reset : d.has_reset ≡ true

-- The same for a pointer that may be NULL.
abbrev pub Whole : Platform → Option ℕ → Type 0
Whole p none = Unit
Whole p (some d) = IsWhole (p.drivers d)

-- Every call so far might come, none crashed, the driver that is bound is the one that the controller
-- driver has, and its interrupt is served just if there is one.
pub record IsBound (p : Platform) (u : Udc) : Type 0 where
  pub lives : life u.calls ≡ some (life_of u.driver)
  pub same : u.gadget_driver ≡ u.driver
  pub served : u.irq ≡ is_some u.driver
  pub whole : Whole p u.driver

module _ (p : Platform) where
  connect_control-IsBound : (u : Udc) → IsBound p u → IsBound p (connect_control p u)
  unfolding connect_control
  connect_control-IsBound u r = record {
    lives = r.lives;
    same = r.same;
    served = r.served;
    whole = r.whole;
  }

  remove_bound-IsBound :
      (d : ℕ) (u : Udc)
      → life u.calls ≡ some (bound d)
      → IsWhole (p.drivers d)
      → IsBound p (remove_bound p d u)
  unfolding remove_bound gadget_stop
  remove_bound-IsBound d u l w = record {
    lives = rw (w.disconnect, w.unbind, l, ==_refl d, ==_refl d) refl;
    same = refl;
    served = refl;
    whole = tt;
  }

  -- The driver that `gadget_start` found, and what it did.
  after_start-IsBound :
      (d : ℕ) (u : Udc) (code : Code)
      → life u.calls ≡ some (bound d)
      → u.driver ≡ some d
      → u.gadget_driver ≡ none
      → u.irq ≡ false
      → IsWhole (p.drivers d)
      → IsBound p (after_start p d (gadget_start code d u)).0
  unfolding after_start gadget_start connect_control
  after_start-IsBound d u none l m g f w = rw g (record {
    lives = rw m l;
    same = sym m;
    served = rw m refl;
    whole = subst (Whole p) (sym m) w;
  })
  after_start-IsBound d u (some e) l m g f w =
      rw w.unbind (record { lives = rw (l, ==_refl d) refl; same = g; served = f; whole = tt })

  after_bind-IsBound :
      (d : ℕ) (u : Udc) (code : Code)
      → life u.calls ≡ some nobody
      → u.driver ≡ some d
      → u.gadget_driver ≡ none
      → u.irq ≡ false
      → IsWhole (p.drivers d)
      → (l : Link) → IsBound p (after_bind p d (called (Call.bind d code) l u, code)).0
  unfolding after_bind
  after_bind-IsBound d u none l m g f w k =
      after_start-IsBound d (called (Call.bind d none) k u) _ (rw l refl) m g f w
  after_bind-IsBound d u (some e) l m g f w k = record {
    lives = rw l refl;
    same = g;
    served = f;
    whole = tt;
  }

  bind_to_driver-IsBound :
      (d : ℕ) (u : Udc)
      → IsBound p u
      → u.driver ≡ none
      → IsWhole (p.drivers d)
      → IsBound p (bind_to_driver p d u).0
  unfolding bind_to_driver
  bind_to_driver-IsBound d u r n w =
      after_bind-IsBound d (record u { driver = some d }) _ (r.lives ∙ ap (λ o. some (life_of o)) n)
        refl (r.same ∙ n) (r.served ∙ ap is_some n) w _

  -- A call from outside.
  pub data Op : Type 0 where
    add del : Op
    probe unregister : Option ℕ → Op
    vbus : Bool → Op
    reset : Op

  -- The controller has no driver where one is bound, which has the callbacks that are called without a
  -- test, and has one where it is unregistered.
  abbrev pub Ready : Op → Udc → Type 0
  Ready (probe d) u = (u.driver ≡ none) × Whole p d
  Ready (unregister d) u = (c : ℕ) × (u.driver ≡ some c)
  Ready o u = Unit

  abbrev pub first {ℓ} : {A : Type ℓ} → Option (A × Code) → Option A
  first none = none
  first (some r) = some r.0

  -- None where NULL is followed.
  abbrev pub step : Op → Udc → Option Udc
  step add u = some (add_gadget_udc u)
  step del u = some (del_gadget_udc p u)
  step (probe d) u = some (probe_driver p d u).0
  step (unregister d) u = first (unregister_driver p d u)
  step (vbus on) u = some (vbus_handler p on u)
  step reset u = some (udc_reset p u)

  probe_driver-IsBound :
      (d : Option ℕ) (u : Udc)
      → IsBound p u
      → u.driver ≡ none
      → Whole p d
      → IsBound p (probe_driver p d u).0
  unfolding probe_driver
  probe_driver-IsBound none u r n w = r
  probe_driver-IsBound (some d) u r n w =
      if_both (λ (x : Udc × Code). IsBound p x.0)
        (not (p.drivers d).has_bind || not (p.drivers d).has_setup) r
        (bind_to_driver-IsBound d u r n w)

  life-bound : (u : Udc) (c : ℕ) → IsBound p u → u.driver ≡ some c → life u.calls ≡ some (bound c)
  life-bound u c r e = r.lives ∙ ap (λ o. some (life_of o)) e

  driver-IsWhole : (u : Udc) (c : ℕ) → IsBound p u → u.driver ≡ some c → IsWhole (p.drivers c)
  driver-IsWhole u c r e = subst (Whole p) e r.whole

  del_gadget_udc-IsBound : (u : Udc) → IsBound p u → IsBound p (del_gadget_udc p u)
  unfolding del_gadget_udc
  del_gadget_udc-IsBound u r =
      option_each (IsBound p) u.driver (λ n. r)
        λ c e. remove_bound-IsBound c u (life-bound u c r e) (driver-IsWhole u c r e)

  udc_reset-IsBound : (u : Udc) → IsBound p u → IsBound p (udc_reset p u)
  unfolding udc_reset
  udc_reset-IsBound u r =
      option_each (IsBound p) u.gadget_driver (λ n. r)
        λ c e.
          let w = driver-IsWhole u c r (sym r.same ∙ e) in
          rw w.reset (record {
            lives =
                rw (life-bound u c r (sym r.same ∙ e), ==_refl c)
                  (ap (λ o. some (life_of o)) (sym e ∙ r.same));
            same = r.same;
            served = r.served;
            whole = r.whole;
          })

  unregister_driver-IsBound :
      (d : Option ℕ) (u : Udc) (c : ℕ)
      → IsBound p u
      → u.driver ≡ some c
      → (v : Udc) × (first (unregister_driver p d u) ≡ some v) × IsBound p v
  unfolding unregister_driver remove_driver
  unregister_driver-IsBound none u c r e = (u, refl, r)
  unregister_driver-IsBound (some d) u c r e =
      if_both (λ (x : Option (Udc × Code)). (v : Udc) × (first x ≡ some v) × IsBound p v)
        (not (p.drivers d).has_unbind) (u, refl, r)
        (rw e (
          remove_bound p c u,
          refl,
          remove_bound-IsBound c u (life-bound u c r e) (driver-IsWhole u c r e),
        ))

  -- Unless a driver is bound over another one or unregistered where there is none, no call crashes, as
  -- long as the drivers that are probed have `unbind`, `disconnect` and `reset`, and
  -- after it the callbacks of gadget drivers have come in order: a driver is bound first, then it may be
  -- reset, and it is unbound just once, also where the controller does not start; the bound driver is
  -- the one that the controller driver has, and the interrupt is served while there is one.
  pub step-IsBound :
      (o : Op) (u : Udc) → IsBound p u → Ready o u → (v : Udc) × (step o u ≡ some v) × IsBound p v
  unfolding add_gadget_udc vbus_handler
  step-IsBound add u r h = (
    add_gadget_udc u,
    refl,
    record { lives = r.lives; same = r.same; served = r.served; whole = r.whole },
  )
  step-IsBound del u r h = (del_gadget_udc p u, refl, del_gadget_udc-IsBound u r)
  step-IsBound (probe d) u r h = ((probe_driver p d u).0, refl, probe_driver-IsBound d u r h.0 h.1)
  step-IsBound (unregister d) u r h = unregister_driver-IsBound d u h.0 r h.1
  step-IsBound (vbus on) u r h = (
    vbus_handler p on u,
    refl,
    connect_control-IsBound (record u { vbus = on })
        (record { lives = r.lives; same = r.same; served = r.served; whole = r.whole }),
  )
  step-IsBound reset u r h = (udc_reset p u, refl, udc_reset-IsBound u r)
