-- ===== src/Gadget/ResourceExamples.antt =====
-- Binding a composite device with and without memory.
use unisoc_usb.Prelude.{ℕ, ◌≡◌, refl, inl, Bool, true, false, not, [], none, ◌==◌}
use unisoc_usb.Memory.{Heap, malloc, free, free_all}
use unisoc_usb.Gadget.Resources.{
  Owner, dev_cleanup, read_driver, unbind, with_buffer, with_request, dev_prepare, with_os_buffer,
  with_os_request, os_desc_req_prepare, attach, after_prepare, after_malloc, composite_bind,
}
use unisoc_usb.Gadget.Resources.Sound.{IsSound, composite_bind-IsSound}

abbrev empty : Heap
empty = record { live = []; next = 0; faults = 0 }

abbrev zeroed : Owner
zeroed = record {
  block = 0;
  driver = false;
  req = none;
  os_desc_req = none;
  gstrings = [];
  def_manufacturer = none;
}

-- The attempt of this number fails.
abbrev all_but : ℕ → ℕ → Bool
all_but i n = not (n == i)

composite_bind-IsSound_example :
    IsSound empty (composite_bind (all_but 4) zeroed 3 none false empty)
composite_bind-IsSound_example =
    composite_bind-IsSound (all_but 4) zeroed 3 none false empty (inl refl) refl refl refl
      (refl, refl)

-- Without memory for the buffer of the request for OS descriptors, that request is freed twice.
freed_twice : (composite_bind (all_but 4) zeroed 0 none true empty).heap.faults ≡ 1
unfolding dev_cleanup read_driver unbind with_buffer with_request dev_prepare with_os_buffer
    with_os_request os_desc_req_prepare attach after_prepare after_malloc composite_bind malloc free
    free_all
freed_twice = refl

-- Without memory for the buffer of the control request, `cdev->driver` is NULL when it is followed.
driver_followed : (composite_bind (all_but 2) zeroed 0 none false empty).heap.faults ≡ 1
unfolding dev_cleanup read_driver unbind with_buffer with_request dev_prepare with_os_buffer
    with_os_request os_desc_req_prepare attach after_prepare after_malloc composite_bind malloc free
    free_all
driver_followed = refl
