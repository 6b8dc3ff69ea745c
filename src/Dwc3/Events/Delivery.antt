-- ===== src/Dwc3/Events/Delivery.antt =====
-- Which events `dwc3_interrupt` hands to the rest of the driver.
use unisoc_usb.Prelude.{
  ℕ, zero, suc, ◌+◌, ◌-◌, ◌*◌, ◌/◌, ◌%◌, ◌^◌, ◌<◌, ◌≤◌, ◌≡◌, ◌≢◌, refl, ap, ap₂, sym, ◌∙◌, subst,
  Bool, true, false, List, [], ◌∷◌, arith, ==_false, ◌==◌, if◌then◌else◌,
}
use unisoc_usb.Dwc3.Events.{
  EventBuf, byte, word_at, fetch, drain, check_event_buf, process_event_buf, interrupt,
}
use unisoc_usb.Dwc3.Events.Copy.{IsReady, fetch_lem, length-fetch}

-- The `n` events that stand in a buffer from a position on, round its end.
abbrev pub events_from : ℕ → ℕ → List ℕ → List ℕ
events_from zero pos mem = []
events_from (suc n) pos mem = word_at mem pos ∷ events_from n ((pos + 4) % 256) mem

-- A state after events in their order.
abbrev pub after_all : {S : Type 0} → (S → ℕ → S) → S → List ℕ → S
after_all handle s [] = s
after_all handle s (e ∷ es) = after_all handle (handle s e) es

add_zero : (n : ℕ) → n + 0 ≡ n
add_zero n = omega arith

-- Aligned words whose bytes agree are equal.
word_at_same :
    (m m' : List ℕ) (pos : ℕ)
    → ((k : ℕ) → k < 4 → byte m (pos + k) ≡ byte m' (pos + k))
    → word_at m pos ≡ word_at m' pos
unfolding word_at
word_at_same m m' pos h =
    let same = λ (j : ℕ). byte m j ≡ byte m' j in
    let at0 : byte m pos ≡ byte m' pos = subst same (add_zero pos) (h 0 (omega arith)) in
    omega (arith, at0, h 1 (omega arith), h 2 (omega arith), h 3 (omega arith))

-- Memories that agree on the bytes of `n` events have the same events there.
events_from_same :
    (n pos : ℕ) (m m' : List ℕ)
    → pos < 256
    → pos % 4 ≡ 0
    → ((k : ℕ) → k < 4 * n → byte m ((pos + k) % 256) ≡ byte m' ((pos + k) % 256))
    → events_from n pos m ≡ events_from n pos m'
events_from_same zero pos m m' i a h = refl
events_from_same (suc n) pos m m' i a h =
    ap₂ (λ (w : ℕ) (ws : List ℕ). w ∷ ws)
      (word_at_same m m' pos (λ k b.
        let e : (pos + k) % 256 ≡ pos + k = omega arith in
        subst (λ j. byte m j ≡ byte m' j) e (h k (omega arith))))
      (events_from_same n ((pos + 4) % 256) m m' (omega arith) (omega arith) (λ k b.
        let e : (pos + (4 + k)) % 256 ≡ ((pos + 4) % 256 + k) % 256 = omega arith in
        subst (λ j. byte m j ≡ byte m' j) e (h (4 + k) (omega arith))))

-- How many events the count register announces.
abbrev pub events_in : ℕ → ℕ
events_in reg = reg % 2 ^ 16 / 4

check_event_buf-some :
    (reg : ℕ) (evt : EventBuf)
    → events_in reg ≢ 0
    → check_event_buf false reg evt ≡ (
      record evt {
        cache = fetch evt (reg % 2 ^ 16 / 4 * 4);
        count = reg % 2 ^ 16 / 4 * 4;
        pending = true;
        masked = true;
        acks = reg % 2 ^ 16 / 4 * 4 ∷ evt.acks;
      },
      true,
    )
unfolding check_event_buf
check_event_buf-some reg evt h =
    let e : (reg % 2 ^ 16 / 4 * 4 == 0) ≡ false = ==_false (reg % 2 ^ 16 / 4 * 4) 0 (omega arith) in
    simp e refl

module _ {S : Type 0} (handle : S → ℕ → S) where
  -- The loop takes the events in their order, and its fuel is enough.
  drain_lem :
      (n fuel : ℕ) (evt : EventBuf) (s : S)
      → n ≤ fuel
      → evt.lpos < 256
      → drain handle fuel (4 * n) evt s ≡ (
        record evt { lpos = (evt.lpos + 4 * n) % 256 },
        after_all handle s (events_from n evt.lpos evt.cache),
      )
  unfolding drain
  drain_lem zero zero evt s h i = ap (λ p. (record evt { lpos = p }, s)) (omega arith)
  drain_lem zero (suc fuel) evt s h i = ap (λ p. (record evt { lpos = p }, s)) (omega arith)
  drain_lem (suc n) zero evt s h i = absurd (omega arith)
  drain_lem (suc n) (suc fuel) evt s h i =
      let evt' : EventBuf = record evt { lpos = (evt.lpos + 4) % 256 } in
      let s' = handle s (word_at evt.cache evt.lpos) in
      let left : 4 * suc n - 4 ≡ 4 * n = omega arith in
      let more : (4 * suc n == 0) ≡ false = ==_false (4 * suc n) 0 (omega arith) in
      let there : (evt'.lpos + 4 * n) % 256 ≡ (evt.lpos + 4 * suc n) % 256 = omega arith in
      simp (more, left)
        (drain_lem n fuel evt' s' (omega arith) (omega arith)
          ∙ ap
              (λ p.
                (record evt { lpos = p }, after_all handle s' (events_from n evt'.lpos evt.cache)))
              there)

  -- The events that the register announces are handled, and the buffer is ready again.
  abbrev pub Delivered : ℕ → EventBuf → S → EventBuf × S → Type 0
  Delivered reg evt s out =
      let n = events_in reg in
      (out.1 ≡ after_all handle s (events_from n evt.lpos evt.buf))
      × (out.0.acks ≡ 4 * n ∷ evt.acks)
      × (out.0.lpos ≡ (evt.lpos + 4 * n) % 256)
      × IsReady out.0
      × (out.0.pending ≡ false)
      × (out.0.masked ≡ false)

  interrupt-Delivered :
      (reg : ℕ) (evt : EventBuf) (s : S)
      → IsReady evt
      → events_in reg ≢ 0
      → 4 * events_in reg ≤ 256
      → Delivered reg evt s (interrupt handle false reg evt s)
  unfolding interrupt process_event_buf
  interrupt-Delivered reg evt s r h c =
      let n = events_in reg in
      let count = reg % 2 ^ 16 / 4 * 4 in
      let four : count ≡ 4 * n = omega arith in
      let fetched : EventBuf = record evt {
        cache = fetch evt count;
        count = count;
        pending = true;
        masked = true;
        acks = count ∷ evt.acks;
      } in
      let got =
        events_from_same n evt.lpos (fetch evt count) evt.buf r.inside r.aligned
          (λ k b. fetch_lem evt count k r (omega arith) (omega arith)) in
      let drained : EventBuf × S = (
        record fetched { lpos = (evt.lpos + 4 * n) % 256 },
        after_all handle s (events_from n evt.lpos (fetch evt count)),
      ) in
      let ran =
        subst (λ l. drain handle count l fetched s ≡ drained) (sym four)
          (drain_lem n count fetched s (omega arith) r.inside) in
      let seen =
        ap (λ (o : EventBuf × Bool). if o.1 then process_event_buf handle o.0 s else (o.0, s))
          (check_event_buf-some reg evt h) in
      let done =
        ap
          (λ (o : EventBuf × S). (record (o.0) { count = 0; pending = false; masked = false }, o.1))
          ran in
      subst (Delivered reg evt s) (sym (seen ∙ done)) (
        ap (after_all handle s) got,
        ap (λ k. k ∷ evt.acks) four,
        refl,
        record {
          whole = r.whole;
          cached = length-fetch evt count ∙ r.cached;
          inside = omega arith;
          aligned = omega (arith, r.aligned);
        },
        refl,
        refl,
      )

  -- An interrupt whose count register announces at least one event of 4 bytes, and no more than the buffer
  -- holds, hands exactly these events to the handler, while the gadget is not suspended, in the order in
  -- which they stand in the buffer, round its end; it acknowledges them once, moves the position behind
  -- them, and leaves the buffer ready for the next interrupt, with nothing pending and the interrupt
  -- unmasked. While the gadget is suspended, the same events are acknowledged and lost: nothing is handled,
  -- and the buffer stays as it was, also its position.
  pub interrupt_lem :
      (reg : ℕ) (evt : EventBuf) (s : S)
      → IsReady evt
      → events_in reg ≢ 0
      → 4 * events_in reg ≤ 256
      → Delivered reg evt s (interrupt handle false reg evt s)
        × (interrupt handle true reg evt s ≡ (record evt { acks = reg ∷ evt.acks }, s))
  unfolding interrupt check_event_buf
  interrupt_lem reg evt s r h c =
      let some_there : (reg == 0) ≡ false = ==_false reg 0 (λ z. h (rw z refl)) in
      (interrupt-Delivered reg evt s r h c, rw some_there refl)
