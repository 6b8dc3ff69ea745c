-- ===== src/Wcn/Links/SetAlt/Sessions.antt =====
-- What choosing settings and disabling make of a function's memory.
use unisoc_usb.Prelude.{
  ℕ, ◌≡◌, refl, sym, subst, Bool, true, false, List, [], ◌∷◌, none, some, Code, if_both, arith,
}
use unisoc_usb.Memory.{Heap, Holds, refl-Holds}
use unisoc_usb.Wcn.Links.{WcnEp, Bt0, Bt1, Out, Below, bt0_disconnect, bt1_disconnect, drop_pipe}
use unisoc_usb.Wcn.Links.SetAlt.{
  bt0_config, bt0_reconnect, bt0_set_alt, bt1_config, bt1_reconnect, bt1_set_alt,
}
use unisoc_usb.Wcn.Links.Owned.{
  bt0_reqs, bt1_reqs, Kept, bt0_connect-Kept, bt0_disconnect-Kept, bt1_connect-Kept,
  bt1_disconnect-Kept,
}

-- A function as the composite framework calls it, and the requests on its lists.
pub record Link : Type 1 where
  pub State : Type 0
  pub owned : State → List ℕ
  pub set_alt : State → Heap → Out State
  pub disable : State → Heap → Out State

-- Choosing a setting keeps track of the requests; disabling gives all of them back.
pub record IsLawful (L : Link) : Type 0 where
  pub set_alt-Kept :
      (old h : Heap) (s : L.State) → Holds old (L.owned s) h → Kept L.owned old (L.set_alt s h)
  pub disable-Kept :
      (old h : Heap) (s : L.State) → Holds old (L.owned s) h → Holds old [] (L.disable s h).heap
  pub disable-none : (h : Heap) (s : L.State) → L.owned (L.disable s h).link ≡ []

-- The function after calls: `true` chooses its setting, `false` disables it.
abbrev pub call : (L : Link) → Bool → L.State → Heap → Out L.State
call L true s h = L.set_alt s h
call L false s h = L.disable s h

abbrev pub calls : (L : Link) → List Bool → L.State → Heap → L.State × Heap
calls L [] s h = (s, h)
calls L (on ∷ later) s h = calls L later (call L on s h).link (call L on s h).heap

-- A lawful function holds its requests only, whatever calls are made.
pub calls-Holds :
    (L : Link) (later : List Bool) (old h : Heap) (s : L.State)
    → IsLawful L
    → Holds old (L.owned s) h
    → Holds old (L.owned (calls L later s h).0) (calls L later s h).1
calls-Holds L [] old h s w r = r
calls-Holds L (true ∷ later) old h s w r =
    calls-Holds L later old (L.set_alt s h).heap (L.set_alt s h).link w (w.set_alt-Kept old h s r)
calls-Holds L (false ∷ later) old h s w r =
    calls-Holds L later old (L.disable s h).heap (L.disable s h).link w (
      subst (λ l. Holds old l (L.disable s h).heap) (sym (w.disable-none h s))
        (w.disable-Kept old h s r))

-- Calls that end with disabling.
abbrev pub session : (L : Link) → List Bool → L.State → Heap → Out L.State
session L later s h = L.disable (calls L later s h).0 (calls L later s h).1

session-Holds :
    (L : Link) (later : List Bool) (h : Heap) (s : L.State)
    → IsLawful L
    → L.owned s ≡ []
    → Holds h [] (session L later s h).heap
session-Holds L later h s w e =
    let last = calls L later s h in
    w.disable-Kept h last.1 last.0
      (calls-Holds L later h h s w (subst (λ l. Holds h l h) (sym e) (refl-Holds h)))

module _ (b : Below) (config : WcnEp → Code) where
  abbrev pub bt0 : Link
  bt0 = record {
    State = Bt0;
    owned = bt0_reqs;
    set_alt = bt0_set_alt b config;
    disable = bt0_disconnect b;
  }

  abbrev pub bt1 : Link
  bt1 = record {
    State = Bt1;
    owned = bt1_reqs;
    set_alt = bt1_set_alt b config;
    disable = bt1_disconnect b;
  }

  -- Configuring endpoints leaves the lists alone.
  bt0_config_reqs : (f : Bt0) → bt0_reqs (bt0_config b config f).0 ≡ bt0_reqs f
  unfolding bt0_config
  bt0_config_reqs f = ground arith

  bt1_config_reqs : (f : Bt1) → bt1_reqs (bt1_config b config f).0 ≡ bt1_reqs f
  unfolding bt1_config
  bt1_config_reqs f = ground arith

  bt0_reconnect-Kept :
      (old h : Heap) (out : Bt0 × Code)
      → Holds old (bt0_reqs out.0) h
      → Kept bt0_reqs old (bt0_reconnect b config out h)
  unfolding bt0_reconnect
  bt0_reconnect-Kept old h (f, none) r = bt0_connect-Kept b old h f r
  bt0_reconnect-Kept old h (f, some e) r = r

  bt1_reconnect-Kept :
      (old h : Heap) (out : Bt1 × Code)
      → Holds old (bt1_reqs out.0) h
      → Kept bt1_reqs old (bt1_reconnect b config out h)
  unfolding bt1_reconnect
  bt1_reconnect-Kept old h (f, none) r = bt1_connect-Kept b old h f r
  bt1_reconnect-Kept old h (f, some e) r = r

  bt0_fresh-Kept :
      (old h : Heap) (f : Bt0)
      → Holds old (bt0_reqs f) h
      → Kept bt0_reqs old (bt0_reconnect b config (bt0_config b config f) h)
  bt0_fresh-Kept old h f r =
      bt0_reconnect-Kept old h (bt0_config b config f)
        (subst (λ l. Holds old l h) (sym (bt0_config_reqs f)) r)

  bt1_fresh-Kept :
      (old h : Heap) (f : Bt1)
      → Holds old (bt1_reqs f) h
      → Kept bt1_reqs old (bt1_reconnect b config (bt1_config b config f) h)
  bt1_fresh-Kept old h f r =
      bt1_reconnect-Kept old h (bt1_config b config f)
        (subst (λ l. Holds old l h) (sym (bt1_config_reqs f)) r)

  bt0-IsLawful : IsLawful bt0
  unfolding bt0_set_alt bt0_disconnect drop_pipe
  bt0-IsLawful = record {
    set_alt-Kept = λ old h f r.
        if_both (Kept bt0_reqs old) f.int_in.ep.enabled
          (bt0_fresh-Kept old _ (bt0_disconnect b f h).link (bt0_disconnect-Kept b old h f r))
          (bt0_fresh-Kept old h f r);
    disable-Kept = λ old h f r. bt0_disconnect-Kept b old h f r;
    disable-none = λ h f. refl;
  }

  bt1-IsLawful : IsLawful bt1
  unfolding bt1_set_alt bt1_disconnect drop_pipe
  bt1-IsLawful = record {
    set_alt-Kept = λ old h f r.
        if_both (Kept bt1_reqs old) f.isoc_in.ep.enabled
          (bt1_fresh-Kept old _ (bt1_disconnect b f h).link (bt1_disconnect-Kept b old h f r))
          (bt1_fresh-Kept old h f r);
    disable-Kept = λ old h f r. bt1_disconnect-Kept b old h f r;
    disable-none = λ h f. refl;
  }

-- After any calls that choose the setting of a Bluetooth function without requests or disable it, the
-- last of which disables it, whatever fails on the way, all memory that it got has been freed, and
-- nothing else or twice.
pub bt_sessions :
    (b : Below) (config : WcnEp → Code) (later : List Bool) (h : Heap) (f : Bt0) (g : Bt1)
    → bt0_reqs f ≡ []
    → bt1_reqs g ≡ []
    → Holds h [] (session (bt0 b config) later f h).heap
      × Holds h [] (session (bt1 b config) later g h).heap
bt_sessions b config later h f g e d = (
  session-Holds (bt0 b config) later h f (bt0-IsLawful b config) e,
  session-Holds (bt1 b config) later h g (bt1-IsLawful b config) d,
)
