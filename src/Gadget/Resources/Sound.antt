-- ===== src/Gadget/Resources/Sound.antt =====
-- A composite device frees the memory that it got.
use unisoc_usb.Prelude.{
  ℕ, ◌+◌, ◌≡◌, ◌≢◌, refl, sym, subst, ◌∙◌, ◌⊎◌, inl, inr, Bool, true, false, [], ◌∷◌, Option, none,
  some, Code, Errno, if◌then◌else◌, if_each, option_both, arith,
}
use unisoc_usb.Memory.{Heap, Holds, Holds-same, refl-Holds, malloc, malloc-Holds, with_block}
use unisoc_usb.Gadget.Resources.{
  Owner, Prepared, unbind, dev_prepare, os_desc_req_prepare, attach, Bound, failed, concluded,
  after_prepare, after_malloc, composite_bind,
}
use unisoc_usb.Gadget.Resources.Owned.{
  owned, unbind-Holds, Owns, dev_prepare-Owns, attach-Owns, HasRoom, with_os_request-Owns,
  attach_keeps, attach_driver, with_os_request_driver, HasControl, dev_prepare_driver, malloc_next,
  dev_prepare_keeps, count-owned,
}

-- What binding leaves: a device that frees all when it is unbound, or an error with all freed.
abbrev pub IsSound : Heap → Bound → Type 0
IsSound old out = elim out.owner [
  | none ↦ Holds old [] out.heap × (out.code ≢ none)
  | some c ↦ Holds old [] (unbind c out.heap) × (out.code ≡ none)
]

failed-IsSound :
    (old : Heap) (p : Prepared) (e : Errno)
    → p.owner.driver ≡ true
    → Owns old p
    → IsSound old (failed p e)
failed-IsSound old p e d r = (unbind-Holds old p.heap p.owner d r, λ z. absurd (ground (arith, z)))

concluded-IsSound :
    (old : Heap) (p : Prepared) → p.owner.driver ≡ true → Owns old p → IsSound old (concluded p)
concluded-IsSound old p d r =
    option_both (IsSound old) p.code {f = λ e. failed p e}
      (unbind-Holds old p.heap p.owner d r, refl) (λ e. failed-IsSound old p e d r)

module _ (room : ℕ → Bool) (raw : Owner) (strings : ℕ) (code : Code) (use_os : Bool) where
  after_prepare-IsSound :
      (old : Heap) (p : Prepared)
      → (use_os ≡ false) ⊎ HasRoom room
      → p.owner.os_desc_req ≡ none
      → p.owner.driver ≡ true
      → Owns old p
      → IsSound old (after_prepare room raw strings code use_os p)
  unfolding after_prepare os_desc_req_prepare
  after_prepare-IsSound old p full e d r =
      option_both (IsSound old) p.code {x = driver} {f = λ x. failed p x}
        (option_both (IsSound old) code {x = os} {f = λ x. failed driven x}
          (if_each (IsSound old) use_os
            (λ t.
              concluded-IsSound old _
                (with_os_request_driver room attached.0 (malloc room attached.1) ∙ followed)
                (with_os_request-Owns room old attached.0 (malloc room attached.1) (memory t)
                  (attach_keeps room strings p.heap p.owner e)
                  (malloc-Holds room old attached.1 (owned attached.0) owns)))
            (λ t. concluded-IsSound old driven followed owns))
          (λ x. failed-IsSound old driven x followed owns))
        (λ x. failed-IsSound old p x d r)
    where
      attached : Owner × Heap
      attached = attach room strings p.owner p.heap

      driven : Prepared
      driven = record { owner = attached.0; heap = attached.1; code = code }

      os : Bound
      os =
          if use_os
          then concluded (os_desc_req_prepare room attached.0 attached.1)
          else concluded driven

      driver : Bound
      driver = elim code [ some x ↦ failed driven x | none ↦ os ]

      followed : attached.0.driver ≡ true
      followed = attach_driver room strings p.heap p.owner d

      owns : Owns old driven
      owns = attach-Owns room strings old p.heap p.owner r

      memory : use_os ≡ true → HasRoom room
      memory t = elim full [ inl f ↦ absurd (ground (arith, t, f)) | inr m ↦ m ]

  after_malloc-IsSound :
      (old : Heap) (got : Heap × Option ℕ)
      → (use_os ≡ false) ⊎ HasRoom room
      → raw.req ≡ none
      → raw.os_desc_req ≡ none
      → raw.def_manufacturer ≡ none
      → HasControl room got.0.next
      → Holds old (with_block got.1 []) got.0
      → IsSound old (after_malloc room raw strings code use_os got)
  unfolding after_malloc
  after_malloc-IsSound old (h, none) full q o m t r = (r, λ z. absurd (ground (arith, z)))
  after_malloc-IsSound old (h, some block) full q o m t r =
      let c : Owner = record raw { block = block; gstrings = [] } in
      after_prepare-IsSound old (dev_prepare room c h) full (dev_prepare_keeps room h c o)
        (dev_prepare_driver room h c t)
        (dev_prepare-Owns room old h c q (
          Holds-same old h (block ∷ []) (owned c) (λ i. ground (arith, count-owned i c, q, o, m))
            r))

  -- Binding a composite device whose memory starts as zeroes gives a device that frees all the memory
  -- that it got when it is unbound, or fails and has freed it all, nothing twice, and follows no pointer
  -- that is NULL. There is memory for the control request and its buffer; elsewhere it may run out, unless
  -- OS strings are used.
  pub composite_bind-IsSound :
      (h : Heap)
      → (use_os ≡ false) ⊎ HasRoom room
      → raw.req ≡ none
      → raw.os_desc_req ≡ none
      → raw.def_manufacturer ≡ none
      → HasControl room (h.next + 1)
      → IsSound h (composite_bind room raw strings code use_os h)
  unfolding composite_bind
  composite_bind-IsSound h full q o m t =
      after_malloc-IsSound h (malloc room h) full q o m
        (subst (HasControl room) (sym (malloc_next room h)) t)
        (malloc-Holds room h h [] (refl-Holds h))
