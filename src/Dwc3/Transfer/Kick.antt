-- ===== src/Dwc3/Transfer/Kick.antt =====
-- `__dwc3_gadget_kick_transfer` keeps the ring.
use unisoc_usb.Prelude.{
  ℕ, ◌≡◌, refl, ◌∙◌, Bool, true, false, not, ◌&&◌, List, [], ◌∷◌, some, Code, Errno, is_empty,
  arith, Bool-cases, inl, inr, ◌⊎◌, ◌/◌, ◌%◌, ◌^◌, if_both,
}
use unisoc_usb.Dwc3.Endpoint.{Request, Endpoint}
use unisoc_usb.Dwc3.Ring.{prepare_trbs}
use unisoc_usb.Dwc3.Ring.Invariant.{IsValid, IsHonest}
use unisoc_usb.Dwc3.Ring.Prepare.{prepare_trbs-Prepared}
use unisoc_usb.Dwc3.Ring.Giveback.{history}
use unisoc_usb.Dwc3.Command.{Depcmd, Dwc, Accepts, send_ep_cmd_accepted}
use unisoc_usb.Dwc3.Transfer.{
  transfer_cmd, transfer_dma, refill, issue_transfer, kick_refilled, kick_transfer,
}
use unisoc_usb.Dwc3.Transfer.Flags.{SameRing, SameRing-IsValid, SameRing-history}

-- What an operation may do to a ring: it stays valid, and no request is lost or overtaken.
pub record Keeps (d d' : Endpoint) : Type 0 where
  pub valid : IsValid d'
  pub order : history d' ≡ history d

-- The same of the outcome of an operation.
pub record Leaves (d : Endpoint) (o : Dwc × Code) : Type 0 where
  pub kept : Keeps d o.0.dep

pub SameRing-Keeps : (d d' : Endpoint) → SameRing d d' → IsValid d → Keeps d d'
SameRing-Keeps d d' s v = record {
  valid = SameRing-IsValid d d' s v;
  order = SameRing-history d d' s;
}

pub Keeps-trans : (d d' d'' : Endpoint) → Keeps d d' → Keeps d' d'' → Keeps d d''
Keeps-trans d d' d'' k l = record { valid = l.valid; order = l.order ∙ k.order }

prepare_trbs-Keeps : (dep : Endpoint) → IsValid dep → IsHonest dep → Keeps dep (prepare_trbs dep)
prepare_trbs-Keeps dep v h =
    let (w, l, q, c) = prepare_trbs-Prepared dep v h in record { valid = w; order = simp (c, l) }

refill-Keeps : (b : Bool) (dep : Endpoint) → IsValid dep → IsHonest dep → Keeps dep (refill b dep)
unfolding refill
refill-Keeps false dep v h = prepare_trbs-Keeps dep v h
refill-Keeps true dep v h = elim (Bool-cases (is_empty dep.req_queued)) [
  | inl e ↦ rw e (prepare_trbs-Keeps dep v h)
  | inr e ↦ rw e (record { valid = v; order = refl })
]

module _ (depcmd : ℕ → Depcmd) where
  issue_transfer-SameRing :
      (dwc : Dwc) (req : Request) (param : ℕ) (start : Bool)
      → Accepts depcmd
      → SameRing dwc.dep (issue_transfer depcmd dwc req param start).0.dep
  unfolding issue_transfer
  issue_transfer-SameRing dwc req param start a =
      let dma = transfer_dma start req in
      ground (
        arith,
        send_ep_cmd_accepted depcmd dwc (transfer_cmd start param) (dma / 2 ^ 32 % 2 ^ 32)
            (dma % 2 ^ 32) a,
      )

  kick_refilled-Keeps :
      (dwc : Dwc) (rs : List Request) (param : ℕ) (start : Bool)
      → Accepts depcmd
      → IsValid dwc.dep
      → Keeps dwc.dep (kick_refilled depcmd dwc rs param start).0.dep
  unfolding kick_refilled
  kick_refilled-Keeps dwc [] param start a v =
      SameRing-Keeps dwc.dep _
        (record {
          pool = refl;
          enqueue = refl;
          dequeue = refl;
          queue = refl;
          pending = refl;
          completed = refl;
        })
        v
  kick_refilled-Keeps dwc (r ∷ rs) param start a v =
      SameRing-Keeps dwc.dep _ (issue_transfer-SameRing dwc r param start a) v

  -- Starting or updating a transfer keeps a valid ring valid, and loses and reorders no request, as long
  -- as the controller carries out the commands and the TRB before a full ring's enqueue pointer is
  -- still the hardware's.
  pub kick_transfer-Keeps :
      (dwc : Dwc) (param : ℕ) (start : Bool)
      → Accepts depcmd
      → IsValid dwc.dep
      → IsHonest dwc.dep
      → Keeps dwc.dep (kick_transfer depcmd dwc param start).0.dep
  unfolding kick_transfer
  kick_transfer-Keeps dwc param start a v h =
      let same : Keeps dwc.dep dwc.dep = record { valid = v; order = refl } in
      let dep = refill start dwc.dep in
      let k = refill-Keeps start dwc.dep v h in
      if_both (λ (o : Dwc × Code). Keeps dwc.dep o.0.dep) (not dwc.pullups_connected) same
        (if_both (λ (o : Dwc × Code). Keeps dwc.dep o.0.dep) (start && dwc.dep.busy) same
          (Keeps-trans dwc.dep dep _ k (
            kick_refilled-Keeps (record dwc { dep = dep }) dep.req_queued (param % 2 ^ 16) start a
              k.valid)))

  -- A transfer is not started twice, and not while the gadget is disconnected; the endpoint is then
  -- left as it was.
  pub kick_transfer_refused :
      (dwc : Dwc) (param : ℕ) (start : Bool) (e : Errno)
      → (dwc.pullups_connected ≡ false) × (e ≡ Errno.eshutdown)
        ⊎ (dwc.pullups_connected ≡ true)
          × (start ≡ true)
          × (dwc.dep.busy ≡ true)
          × (e ≡ Errno.ebusy)
      → kick_transfer depcmd dwc param start ≡ (dwc, some e)
  unfolding kick_transfer
  kick_transfer_refused dwc param start e h = ground arith
