-- ===== src/Wcn/Links/WifiLinks.antt =====
-- The WLAN function: `gwcn_wifi_connect` and `gwcn_wifi_disconnect` of gadget/u_wcn_composite.c.
use unisoc_usb.Prelude.{
  ℕ, ◌≡◌, refl, sym, ap, subst, Bool, true, false, List, [], ◌∷◌, ◌++◌, map, none, some, Code,
  Errno, if◌then◌else◌, if_both, option_both, append_assoc,
}
use unisoc_usb.Memory.{Heap, Holds, Holds-swap, refl-Holds, Holds-rotate, free_all, free_all-Holds}
use unisoc_usb.Wcn.Requests.{Alloc, qlen, req_alloc-Holds}
use unisoc_usb.Wcn.Links.{Pipe, Wifi, Out, Below, enabled, enables, disabled, drop_pipe, alloc}

-- What connecting endpoints one after the other leaves: `failed` where one could not be enabled.
pub record Pipes : Type 0 where
  pub pipes : List Pipe
  pub heap : Heap
  pub code : Code
  pub failed : Bool

abbrev pub before : Pipe → Pipes → Pipes
before p ps = record ps { pipes = p ∷ ps.pipes }

module _ (b : Below) where
  -- Either loop of `gwcn_wifi_connect`, from `result` on.
  pub connect_pipes : Code → List Pipe → Heap → Pipes
  connect_pipes result [] h = record { pipes = []; heap = h; code = result; failed = false }
  connect_pipes result (p ∷ ps) h =
      let a = alloc b p h in
      let rest = connect_pipes a.code ps a.heap in
      elim (enables b p) [
        | some e ↦ record { pipes = enabled b p ∷ ps; heap = h; code = some e; failed = true }
        | none ↦ before (record (enabled b p) { reqs = a.reqs }) rest
      ]

  -- An endpoint that is disabled and loses its descriptor.
  abbrev pub cleared : Pipe → Pipe
  cleared p = record p { ep = record ((disabled b p).ep) { desc = false } }

  -- `fail0` of `gwcn_wifi_connect`
  pub wifi_fail : List Pipe → List Pipe → Heap → Out Wifi
  wifi_fail ins outs h = record {
    link = record { bulk_in = map cleared ins; bulk_out = map cleared outs };
    heap = h;
    code = some Errno.eperm;
  }

  -- `gwcn_wifi_connect`
  pub wifi_connect : Wifi → Heap → Out Wifi
  wifi_connect w h =
      let ins = connect_pipes none w.bulk_in h in
      let outs = connect_pipes ins.code w.bulk_out ins.heap in
      if ins.failed
      then wifi_fail ins.pipes w.bulk_out ins.heap
      else (if outs.failed then wifi_fail ins.pipes outs.pipes outs.heap else (record {
        link = record { bulk_in = ins.pipes; bulk_out = outs.pipes };
        heap = outs.heap;
        code = outs.code;
      }))

  -- The first loop of `gwcn_wifi_disconnect`
  pub drop_pipes : List Pipe → Heap → Heap
  drop_pipes [] h = h
  drop_pipes (p ∷ ps) h = drop_pipes ps (free_all p.reqs h)

  -- `gwcn_wifi_disconnect`, whose second loop takes the requests off the lists only.
  pub wifi_disconnect : Wifi → Heap → Out Wifi
  wifi_disconnect w h = record {
    link = record {
      bulk_in = map (drop_pipe b) w.bulk_in;
      bulk_out = map (drop_pipe b) w.bulk_out;
    };
    heap = drop_pipes w.bulk_in h;
    code = none;
  }

-- All requests of endpoints.
abbrev pub reqs_of : List Pipe → List ℕ
reqs_of [] = []
reqs_of (p ∷ ps) = p.reqs ++ reqs_of ps

reqs_of-map : (b : Below) (ps : List Pipe) → reqs_of (map (cleared b) ps) ≡ reqs_of ps
reqs_of-map b [] = refl
reqs_of-map b (p ∷ ps) = ap (λ l. p.reqs ++ l) (reqs_of-map b ps)

reqs_of_dropped : (b : Below) (ps : List Pipe) → reqs_of (map (drop_pipe b) ps) ≡ []
unfolding drop_pipe
reqs_of_dropped b [] = refl
reqs_of_dropped b (p ∷ ps) = reqs_of_dropped b ps

module _ (b : Below) where
  connect_pipes-Holds :
      (result : Code) (ps : List Pipe) (rest : List ℕ) (old h : Heap)
      → Holds old (reqs_of ps ++ rest) h
      → Holds old
          (reqs_of (connect_pipes b result ps h).pipes ++ rest)
          (connect_pipes b result ps h).heap
  unfolding connect_pipes
  connect_pipes-Holds result [] rest old h r = r
  connect_pipes-Holds result (p ∷ ps) rest old h r =
      option_both P (enables b p) {x = before (record (enabled b p) { reqs = a.reqs }) after}
        {f = λ e. record { pipes = enabled b p ∷ ps; heap = h; code = some e; failed = true }}
        (subst (λ l. Holds old l after.heap) (sym (append_assoc a.reqs (reqs_of after.pipes) rest))
          (Holds-rotate old after.heap rest a.reqs (reqs_of after.pipes) (
            Holds-rotate old after.heap (reqs_of after.pipes) rest a.reqs (
              connect_pipes-Holds a.code ps (rest ++ a.reqs) old a.heap (
                Holds-rotate old a.heap a.reqs (reqs_of ps) rest (
                  req_alloc-Holds b.room p.reqs qlen (reqs_of ps ++ rest) old h
                    (subst (λ l. Holds old l h) (append_assoc p.reqs (reqs_of ps) rest) r)))))))
        (λ e. r)
    where
      a : Alloc
      a = alloc b p h

      after : Pipes
      after = connect_pipes b a.code ps a.heap

      P : Pipes → Type 0
      P ps = Holds old (reqs_of ps.pipes ++ rest) ps.heap

  drop_pipes-Holds :
      (ps : List Pipe) (rest : List ℕ) (old h : Heap)
      → Holds old (reqs_of ps ++ rest) h
      → Holds old rest (drop_pipes b ps h)
  unfolding drop_pipes
  drop_pipes-Holds [] rest old h r = r
  drop_pipes-Holds (p ∷ ps) rest old h r = drop_pipes-Holds ps rest old (free_all p.reqs h) (
      free_all-Holds old h p.reqs (reqs_of ps ++ rest)
        (subst (λ l. Holds old l h) (append_assoc p.reqs (reqs_of ps) rest) r))

  abbrev pub wifi_reqs : Wifi → List ℕ
  wifi_reqs w = reqs_of w.bulk_in ++ reqs_of w.bulk_out

  abbrev WifiKept : Heap → Out Wifi → Type 0
  WifiKept old out = Holds old (wifi_reqs out.link) out.heap

  wifi_fail-Holds :
      (ins outs : List Pipe) (old h : Heap)
      → Holds old (reqs_of ins ++ reqs_of outs) h
      → WifiKept old (wifi_fail b ins outs h)
  unfolding wifi_fail
  wifi_fail-Holds ins outs old h r = rw (reqs_of-map b ins, reqs_of-map b outs) r

  wifi_connect-Holds :
      (w : Wifi) (old h : Heap) → Holds old (wifi_reqs w) h → WifiKept old (wifi_connect b w h)
  unfolding wifi_connect
  wifi_connect-Holds w old h r =
      if_both (WifiKept old) ins.failed (wifi_fail-Holds ins.pipes w.bulk_out old ins.heap first) (
        if_both (WifiKept old) outs.failed (wifi_fail-Holds ins.pipes outs.pipes old outs.heap both)
          both)
    where
      ins : Pipes
      ins = connect_pipes b none w.bulk_in h

      outs : Pipes
      outs = connect_pipes b ins.code w.bulk_out ins.heap

      first : Holds old (reqs_of ins.pipes ++ reqs_of w.bulk_out) ins.heap
      first = connect_pipes-Holds none w.bulk_in (reqs_of w.bulk_out) old h r

      both : Holds old (reqs_of ins.pipes ++ reqs_of outs.pipes) outs.heap
      both = Holds-swap old outs.heap (reqs_of outs.pipes) (reqs_of ins.pipes) (
          connect_pipes-Holds ins.code w.bulk_out (reqs_of ins.pipes) old ins.heap
            (Holds-swap old ins.heap (reqs_of ins.pipes) (reqs_of w.bulk_out) first))

-- After the WLAN function is connected without requests, and disconnected again, whatever fails on the
-- way, all memory that it got has been freed but the requests for receiving: these stay allocated and
-- are on no list.
pub wifi_session :
    (b : Below) (w : Wifi) (h : Heap)
    → wifi_reqs b w ≡ []
    → let on = wifi_connect b w h in
      let off = wifi_disconnect b on.link on.heap in
      Holds h (reqs_of (on.link).bulk_out) off.heap × (wifi_reqs b off.link ≡ [])
unfolding wifi_disconnect
wifi_session b w h e =
    let on = wifi_connect b w h in
    (
      drop_pipes-Holds b (on.link).bulk_in (reqs_of (on.link).bulk_out) h on.heap
          (wifi_connect-Holds b w h h (subst (λ l. Holds h l h) (sym e) (refl-Holds h))),
      rw (reqs_of_dropped b (on.link).bulk_in, reqs_of_dropped b (on.link).bulk_out) refl,
    )
