-- ===== src/Dwc3/Events.antt =====
-- The event buffer that the controller fills and the interrupt handler drains, from
-- udc/dwc3/gadget.c: buffer 0, which is the only one of a controller with one interrupter.
pub mod Copy
pub mod Delivery
use unisoc_usb.Prelude.{
  ℕ, zero, suc, ◌+◌, ◌-◌, ◌*◌, ◌/◌, ◌%◌, ◌^◌, Bool, true, false, not, List, [], ◌∷◌, min, set, ltb,
  ◌==◌, if◌then◌else◌,
}

-- DWC3_EVENT_BUFFERS_SIZE
abbrev pub buffers_size : ℕ
buffers_size = 256

-- `struct dwc3_event_buffer`: `buf` is the memory that the controller writes, `cache` the driver's copy,
-- byte by byte; `pending` is DWC3_EVENT_PENDING. `masked` is DWC3_GEVNTSIZ_INTMASK of the register
-- GEVNTSIZ, and `acks` are the values written to the register GEVNTCOUNT, newest first.
pub record EventBuf : Type 0 where
  pub buf : List ℕ
  pub cache : List ℕ
  pub length : ℕ
  pub lpos : ℕ
  pub count : ℕ
  pub pending : Bool
  pub masked : Bool
  pub acks : List ℕ

-- A byte of a buffer; the memory behind a buffer is not modelled, and read as 0.
pub byte : List ℕ → ℕ → ℕ
byte [] i = 0
byte (x ∷ xs) zero = x
byte (x ∷ xs) (suc i) = byte xs i

-- `memcpy(dst + off, src + off, n)`
pub copy_bytes : ℕ → ℕ → List ℕ → List ℕ → List ℕ
copy_bytes zero off src dst = dst
copy_bytes (suc n) off src dst = copy_bytes n (off + 1) src (set dst off (byte src off))

-- `*(u32 *) (mem + i)` on a little-endian processor
pub word_at : List ℕ → ℕ → ℕ
word_at mem i =
    byte mem i + 256 * byte mem (i + 1) + 65536 * byte mem (i + 2) + 16777216 * byte mem (i + 3)

-- The two copies of `dwc3_check_event_buf`.
pub fetch : EventBuf → ℕ → List ℕ
fetch evt count =
    let amount = min count ((evt.length + 2 ^ 32 - evt.lpos) % 2 ^ 32) in
    let first = copy_bytes amount evt.lpos evt.buf evt.cache in
    if ltb amount count then copy_bytes (count - amount) 0 evt.buf first else first

-- `dwc3_check_event_buf` on the value `reg` that GEVNTCOUNT reads; the Boolean is CALL_HISR.
pub check_event_buf : Bool → ℕ → EventBuf → EventBuf × Bool
check_event_buf suspended reg evt =
    let count = reg % 2 ^ 16 / 4 * 4 in
    let acked = record evt { acks = reg ∷ evt.acks } in
    let fetched = record evt {
      cache = fetch evt count;
      count = count;
      pending = true;
      masked = true;
      acks = count ∷ evt.acks;
    } in
    if suspended
    then (if reg == 0 then evt else acked, false)
    else (if count == 0 then (evt, false) else (fetched, true))

-- `handle` is `dwc3_process_event_entry` on the state `S` of the controller.
module _ {S : Type 0} (handle : S → ℕ → S) where
  -- The loop of `dwc3_process_event_buf`; `fuel` bounds its rounds.
  pub drain : ℕ → ℕ → EventBuf → S → EventBuf × S
  drain zero left evt s = (evt, s)
  drain (suc fuel) left evt s =
      let next =
        drain fuel (left - 4) (record evt { lpos = (evt.lpos + 4) % buffers_size })
          (handle s (word_at evt.cache evt.lpos)) in
      if left == 0 then (evt, s) else next

  -- `dwc3_process_event_buf`; a round takes at least one byte off `count`, which is the fuel.
  pub process_event_buf : EventBuf → S → EventBuf × S
  process_event_buf evt s =
      let out = drain evt.count evt.count evt s in
      if not evt.pending
      then (evt, s)
      else (record (out.0) { count = 0; pending = false; masked = false }, out.1)

  -- `dwc3_interrupt` with `dwc3_thread_interrupt`, which the first calls at once; `suspended` is
  -- `gadget_suspend`. An entry is a word: the one kind with 12 bytes that the source names counts as three.
  pub interrupt : Bool → ℕ → EventBuf → S → EventBuf × S
  interrupt suspended reg evt s =
      let out = check_event_buf suspended reg evt in
      let done = process_event_buf out.0 s in if out.1 then done else (out.0, s)
