-- ===== src/Dwc3/Control/Safety/Setup.antt =====
-- `dwc3_ep0_inspect_setup` keeps endpoint 0 safe, whatever the host asks for.
use unisoc_usb.Prelude.{
  ℕ, ◌%◌, ◌/◌, ◌^◌, ◌≡◌, ◌≢◌, ◌⊎◌, inl, inr, refl, sym, ap, ◌∙◌, subst, true, false, not, ◌||◌, [],
  ◌==◌, arith, if_both,
}
use unisoc_usb.Dwc3.Endpoint.{Request}
use unisoc_usb.Dwc3.Stage.{Phase, NextEvent, is_status}
use unisoc_usb.Dwc3.Command.{Depcmd}
use unisoc_usb.Dwc3.Ep0.{Ep0, Ctrl, Answer, SetupCode, std_request, delegate_req, delayed_status}
use unisoc_usb.Dwc3.Ep0.Stages.{
  SameStage, SetupStage, std_request-SetupStage, delegate_req-SetupStage,
}
use unisoc_usb.Dwc3.Control.Queue.{ep0_queue, gadget_ep0_queue}
use unisoc_usb.Dwc3.Control.Finish.{staged, answered, inspect_setup}
use unisoc_usb.Dwc3.Control.Safety.{View, view, IsSafe}
use unisoc_usb.Dwc3.Control.Safety.Restart.{stall_and_restart-IsSafe}
use unisoc_usb.Dwc3.Control.Safety.Queue.{
  MayQueue, gadget_ep0_queue-IsSafe, gadget_ep0_queue-phase, ep0_queue-IsSafe,
}
use unisoc_usb.Dwc3.Control.Safety.Finish.{IsOver}

-- The gadget driver's `setup` changes the stages of endpoint 0 by queueing a request only, if at all.
abbrev pub QueuesOnly : (ℕ → Depcmd) → (Ctrl → Ep0 → Ep0 × SetupCode) → Type 0
QueuesOnly depcmd setup =
    (c : Ctrl) (d : Ep0)
    → (view (setup c d).0 ≡ view d)
      ⊎ ((r : Request) × (r.queued ≡ false)
          × (view (setup c d).0 ≡ view (gadget_ep0_queue depcmd d r).0))

-- A setup packet is there, and nothing is queued for it.
pub record IsStaged (v : View) : Type 0 where
  pub safe : IsSafe v
  pub phase : v.phase ≡ Phase.setup
  pub next : v.next_event ≢ NextEvent.complete
  pub empty : v.queue ≡ []

-- What an answer to a setup packet leaves: only the driver's own data stages are still to be queued.
abbrev pub IsAnswered : View → Answer → View → Type 0
IsAnswered v (Answer.returned c) w = IsSafe w × (is_status w.phase ≡ false)
IsAnswered v (Answer.reply n) w = w ≡ v
IsAnswered v Answer.receive_sel w = w ≡ v

unchanged-IsAnswered : (v : View) (a : Answer) (w : View) → IsStaged v → w ≡ v → IsAnswered v a w
unchanged-IsAnswered v (Answer.returned c) w s e =
    (subst IsSafe (sym e) s.safe, rw (e, s.phase) refl)
unchanged-IsAnswered v (Answer.reply n) w s e = e
unchanged-IsAnswered v Answer.receive_sel w s e = e

SameStage-view : (d e : Ep0) → SameStage d e → view e ≡ view d
SameStage-view d e s =
    let (l, b, p) = s.eps 0 in let (m, c, q) = s.eps 1 in rw (s.stage, l, b, p, c) refl

module _ (depcmd : ℕ → Depcmd) where
  setup-IsAnswered :
      (x : Ep0 × SetupCode) (d : Ep0) (w : View)
      → ((view x.0 ≡ view d)
          ⊎ ((r : Request) × (r.queued ≡ false)
              × (view x.0 ≡ view (gadget_ep0_queue depcmd d r).0)))
      → IsStaged (view d)
      → w ≡ view x.0
      → IsAnswered (view d) (Answer.returned x.1) w
  setup-IsAnswered x d w (inl e) s a =
      unchanged-IsAnswered (view d) (Answer.returned x.1) w s (a ∙ e)
  setup-IsAnswered x d w (inr (r, u, e)) s a =
      subst (IsAnswered (view d) (Answer.returned x.1)) (sym (a ∙ e)) (
        gadget_ep0_queue-IsSafe depcmd d r s.safe (inl (s.phase, s.next)) u,
        gadget_ep0_queue-phase depcmd d r s.safe.calm (ap (λ (p : Phase). is_status p) s.phase),
      )

  -- What a request leaves is answered, where the gadget driver only queues.
  stage-IsAnswered :
      (setup : Ctrl → Ep0 → Ep0 × SetupCode) (d : Ep0) (c : Ctrl) (out : Ep0 × Answer)
      → QueuesOnly depcmd setup
      → IsStaged (view d)
      → SetupStage d (setup c d) out
      → IsAnswered (view d) out.1 (view out.0)
  stage-IsAnswered setup d c out q s (inl k) =
      unchanged-IsAnswered (view d) out.1 (view out.0) s (SameStage-view d out.0 k)
  stage-IsAnswered setup d c out q s (inr (k, a)) =
      subst (λ (x : Answer). IsAnswered (view d) x (view out.0)) (sym a)
        (setup-IsAnswered (setup c d) d (view out.0) (q c d) s
          (SameStage-view (setup c d).0 out.0 k))

  -- The driver's own request as the data stage.
  own-IsSafe :
      (d e : Ep0) (n : ℕ)
      → IsStaged (view d)
      → view e ≡ view d
      → IsSafe (view (ep0_queue depcmd e (record (d.stage.usb_req) { length = n })))
  own-IsSafe d e n s q =
      ep0_queue-IsSafe depcmd e (record (d.stage.usb_req) { length = n })
        (subst IsSafe (sym q) s.safe) (subst MayQueue (sym q) (inl (s.phase, s.next))) s.safe.own
        (ap (λ (v : View). v.queue) q ∙ s.empty)

  delayed-IsSafe :
      (v : View) → IsSafe v → is_status v.phase ≡ false → IsSafe (record v { delayed = true })
  delayed-IsSafe v s n = record {
    few = s.few;
    unmarked = s.unmarked;
    own = s.own;
    fresh = s.fresh;
    quiet = (elim s.quiet [ inl i ↦ inl i | inr (c, b, t, u) ↦ inr (c, b, t, inl n) ]);
    calm = s.calm;
  }

  answered-IsSafe :
      (v : View) (x : Ep0 × Answer)
      → IsStaged v
      → IsAnswered v x.1 (view x.0)
      → IsSafe (view (answered depcmd x))
  unfolding answered
  answered-IsSafe v (d, Answer.returned (SetupCode.failed e)) s a =
      stall_and_restart-IsSafe depcmd d (a.0.few, a.0.unmarked, a.0.own)
  answered-IsSafe v (d, Answer.returned (SetupCode.length n)) s a =
      if_both (λ (x : Ep0). IsSafe (view x)) (n == delayed_status) (delayed-IsSafe (view d) a.0 a.1)
        a.0
  answered-IsSafe v (d, Answer.reply w) s a =
      let own : Request = record (d.stage.usb_req) { length = 2 } in
      own-IsSafe d (record d { stage = record (d.stage) { setup_buf = w; usb_req = own } }) 2
        (subst IsStaged (sym a) s) refl
  answered-IsSafe v (d, Answer.receive_sel) s a =
      let own : Request = record (d.stage.usb_req) { length = d.stage.max_packet } in
      own-IsSafe d (record d { stage = record (d.stage) { usb_req = own } }) d.stage.max_packet
        (subst IsStaged (sym a) s) refl

  staged-IsStaged :
      (d : Ep0) (c : Ctrl)
      → IsOver (view d)
      → (view d).queue ≡ []
      → (view d).phase ≡ Phase.setup
      → IsStaged (view (staged d c))
  unfolding staged
  staged-IsStaged d c o e p =
      let n : (view (staged d c)).next_event ≢ NextEvent.complete =
        if_both (λ (x : NextEvent). x ≢ NextEvent.complete) (c.length == 0)
          {x = NextEvent.nrdy_status} {y = NextEvent.nrdy_data} (λ z. ground (arith, z))
          (λ z. ground (arith, z)) in
      record {
        safe = record {
          few = o.tame.0;
          unmarked = o.tame.1;
          own = o.tame.2;
          fresh = inr (inl n);
          quiet = inl o.idle;
          calm = o.calm;
        };
        phase = p;
        next = n;
        empty = e;
      }

  pub inspect_setup-IsSafe :
      (setup : Ctrl → Ep0 → Ep0 × SetupCode) (d : Ep0) (c : Ctrl)
      → QueuesOnly depcmd setup
      → IsOver (view d)
      → (view d).queue ≡ []
      → (view d).phase ≡ Phase.setup
      → IsSafe (view (inspect_setup depcmd setup d c))
  unfolding inspect_setup
  inspect_setup-IsSafe setup d c q o e p =
      let s = staged d c in
      let ready = staged-IsStaged d c o e p in
      let Good = λ (x : Ep0). IsSafe (view x) in
      if_both Good (not d.stage.has_driver || not d.core.pullups_connected)
        (stall_and_restart-IsSafe depcmd d o.tame)
        (if_both Good (c.type_bits / 2 ^ 5 % 4 == 0)
          (answered-IsSafe (view s) (std_request setup depcmd s c) ready (
            stage-IsAnswered setup s c (std_request setup depcmd s c) q ready
              (std_request-SetupStage setup depcmd s c)))
          (answered-IsSafe (view s) (delegate_req setup s c) ready (
            stage-IsAnswered setup s c (delegate_req setup s c) q ready
              (delegate_req-SetupStage setup s c))))
