-- ===== src/Gadget/Resources.antt =====
-- The memory of a composite device: `composite_bind`, `__composite_unbind` and what they call, of
-- gadget/composite.c.
pub mod Owned
pub mod Sound
use unisoc_usb.Prelude.{
  ℕ, zero, suc, ◌+◌, Bool, true, false, List, [], ◌∷◌, ◌++◌, Option, none, some, Code, Errno,
  if◌then◌else◌,
}
use unisoc_usb.Memory.{Heap, malloc, free, free_all}

-- A `struct usb_request`, by its block, with the block of its buffer, or none for NULL.
pub record CtrlReq : Type 0 where
  pub block : ℕ
  pub buf : Option ℕ

-- What a `struct usb_composite_dev` owns: `gstrings` are the blocks of its string containers. `driver`
-- says whether its pointer `driver` is set.
pub record Owner : Type 0 where
  pub block : ℕ
  pub driver : Bool
  pub req : Option CtrlReq
  pub os_desc_req : Option CtrlReq
  pub gstrings : List ℕ
  pub def_manufacturer : Option ℕ

-- What a call leaves: the device, the memory and the return code.
pub record Prepared : Type 0 where
  pub owner : Owner
  pub heap : Heap
  pub code : Code

-- `usb_mem_free` of a pointer, which does nothing with NULL.
abbrev pub free_ptr : Option ℕ → Heap → Heap
free_ptr none h = h
free_ptr (some i) h = free i h

-- The buffer of a request, then the request.
abbrev pub free_req : Option CtrlReq → Heap → Heap
free_req none h = h
free_req (some r) h = free r.block (free_ptr r.buf h)

-- `composite_dev_cleanup`
unfoldable pub dev_cleanup : Owner → Heap → Heap
dev_cleanup c h = free_req c.req (free_req c.os_desc_req (free_all c.gstrings h))

-- Reading a member of `cdev->driver`.
unfoldable pub read_driver : Owner → Heap → Heap
read_driver c h = if c.driver then h else record h { faults = h.faults + 1 }

-- `__composite_unbind`, without the configurations and the driver's own `unbind`, whose pointer it reads.
unfoldable pub unbind : Owner → Heap → Heap
unbind c h = free c.block (free_ptr c.def_manufacturer (dev_cleanup c (read_driver c h)))

-- `room` says which attempts to get memory succeed.
module _ (room : ℕ → Bool) where
  -- The buffer of `cdev->req`, once that is there.
  unfoldable pub with_buffer : ℕ → Owner → Heap × Option ℕ → Prepared
  with_buffer r c (h, none) = record {
    owner = record c { req = none };
    heap = free r h;
    code = some Errno.enomem;
  }
  with_buffer r c (h, some buf) = record {
    owner = record c { req = some (record { block = r; buf = some buf }); driver = true };
    heap = h;
    code = none;
  }

  unfoldable pub with_request : Owner → Heap × Option ℕ → Prepared
  with_request c (h, none) = record {
    owner = record c { req = none };
    heap = h;
    code = some Errno.enomem;
  }
  with_request c (h, some r) = with_buffer r c (malloc room h)

  -- `composite_dev_prepare`
  unfoldable pub dev_prepare : Owner → Heap → Prepared
  dev_prepare c h = with_request c (malloc room h)

  -- The buffer of `cdev->os_desc_req`: without one the request is freed, but stays in its place.
  unfoldable pub with_os_buffer : ℕ → Owner → Heap × Option ℕ → Prepared
  with_os_buffer r c (h, none) = record {
    owner = record c { os_desc_req = some (record { block = r; buf = none }) };
    heap = free r h;
    code = some Errno.enullpointer;
  }
  with_os_buffer r c (h, some buf) = record {
    owner = record c { os_desc_req = some (record { block = r; buf = some buf }) };
    heap = h;
    code = none;
  }

  unfoldable pub with_os_request : Owner → Heap × Option ℕ → Prepared
  with_os_request c (h, none) = record {
    owner = record c { os_desc_req = none };
    heap = h;
    code = some Errno.enullpointer;
  }
  with_os_request c (h, some r) = with_os_buffer r c (malloc room h)

  -- `composite_os_desc_req_prepare`
  unfoldable pub os_desc_req_prepare : Owner → Heap → Prepared
  os_desc_req_prepare c h = with_os_request c (malloc room h)

  -- What the composite driver's `bind` attaches: this many string containers, as long as there is memory.
  unfoldable pub attach : ℕ → Owner → Heap → Owner × Heap
  attach zero c h = (c, h)
  attach (suc n) c h = elim (malloc room h).1 [
    | none ↦ (c, (malloc room h).0)
    | some uc ↦ attach n (record c { gstrings = c.gstrings ++ (uc ∷ []) }) (malloc room h).0
  ]

-- What binding leaves: the device, if it is bound, the memory and the return code.
pub record Bound : Type 0 where
  pub owner : Option Owner
  pub heap : Heap
  pub code : Code

-- `fail` of `composite_bind`
abbrev pub failed : Prepared → Errno → Bound
failed p e = record { owner = none; heap = unbind p.owner p.heap; code = some e }

-- The end of `composite_bind`
abbrev pub concluded : Prepared → Bound
concluded p = elim p.code [
  | some e ↦ failed p e
  | none ↦ record { owner = some p.owner; heap = p.heap; code = none }
]

-- The driver's `bind` attaches `strings` containers and returns `code`; `use_os` is whether it sets
-- `use_os_string`, and `raw` is what the device's memory holds before anything is set.
module _ (room : ℕ → Bool) (raw : Owner) (strings : ℕ) (code : Code) (use_os : Bool) where
  unfoldable pub after_prepare : Prepared → Bound
  after_prepare p =
      let attached = attach room strings p.owner p.heap in
      let driven : Prepared = record { owner = attached.0; heap = attached.1; code = code } in
      elim p.code [
        | some e ↦ failed p e
        | none ↦ elim code [
          | some e ↦ failed driven e
          | none ↦
              if use_os
              then concluded (os_desc_req_prepare room attached.0 attached.1)
              else concluded driven
        ]
      ]

  unfoldable pub after_malloc : Heap × Option ℕ → Bound
  after_malloc (h, none) = record { owner = none; heap = h; code = some Errno.enomem }
  after_malloc (h, some block) =
      after_prepare (dev_prepare room (record raw { block = block; gstrings = [] }) h)

  -- `composite_bind`
  unfoldable pub composite_bind : Heap → Bound
  composite_bind h = after_malloc (malloc room h)
