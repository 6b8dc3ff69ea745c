-- ===== src/Gadget/Descriptors.antt =====
-- Building configuration descriptors: gadget/config.c, and `config_buf` of gadget/composite.c. A
-- descriptor is its bytes, the first of which is its `bLength`.
pub mod Fill
pub mod Layout
use unisoc_usb.Prelude.{
  ℕ, zero, suc, ◌+◌, ◌-◌, ◌*◌, ◌/◌, ◌%◌, ◌^◌, Bool, true, false, List, [], ◌∷◌, ◌++◌, Option, none,
  some, Errno, Result, ok, err, ◌>>=◌, length, take, ltb, ◌==◌, if◌then◌else◌,
}

-- `(*src)->bLength`
abbrev pub b_length : List ℕ → ℕ
b_length [] = 0
b_length (b ∷ bs) = b

-- `usb_descriptor_fillbuf`: the bytes that it writes. (On an error the buffer holds what was copied
-- before, which no caller reads.)
pub fillbuf : ℕ → List (List ℕ) → Result (List ℕ)
fillbuf buflen [] = ok []
fillbuf buflen (d ∷ ds) =
    let len = b_length d in
    let rest = fillbuf (buflen - len) ds in
    if ltb buflen len then err Errno.einval else (rest >>= λ bs. ok (take len d ++ bs))

-- `enum usb_device_speed`, of which three matter here.
pub data Speed : Type 0 where
  full high super : Speed

-- The descriptors of a `struct usb_function`, by speed.
pub record Function : Type 0 where
  pub fs_descriptors : Option (List (List ℕ))
  pub hs_descriptors : Option (List (List ℕ))
  pub ss_descriptors : Option (List (List ℕ))

-- The part of `struct usb_configuration` that its descriptor shows, with the speeds at which it works.
pub record Config : Type 0 where
  pub configuration_value : ℕ
  pub i_configuration : ℕ
  pub attributes : ℕ
  pub max_power : ℕ
  pub next_interface_id : ℕ
  pub descriptors : Option (List (List ℕ))
  pub functions : List Function
  pub fullspeed : Bool
  pub highspeed : Bool
  pub superspeed : Bool

-- `encode_bMaxPower`, whose result is a byte; CONFIG_USB_GADGET_VBUS_DRAW is 1.
abbrev pub encode_max_power : Speed → Config → ℕ
encode_max_power speed c =
    let val = if c.max_power == 0 then 1 else c.max_power in
    (elim speed [ Speed.super ↦ (val + 7) / 8 | _ ↦ (val + 1) / 2 ]) % 2 ^ 8

abbrev pub at_speed : Speed → Function → Option (List (List ℕ))
at_speed Speed.super f = f.ss_descriptors
at_speed Speed.high f = f.hs_descriptors
at_speed Speed.full f = f.fs_descriptors

-- The descriptors behind a pointer; none behind NULL.
abbrev pub given : Option (List (List ℕ)) → List (List ℕ)
given none = []
given (some ds) = ds

-- The loop of `config_buf` over the functions, with `len` bytes left.
pub fill_functions : ℕ → Speed → List Function → Result (List ℕ)
fill_functions len speed [] = ok []
fill_functions len speed (f ∷ fs) = fillbuf len (given (at_speed speed f)) >>= λ bs.
    (fill_functions (len - length bs) speed fs >>= λ more. ok (bs ++ more))

-- The 9 bytes of `struct usb_config_descriptor`, for `total` bytes in all.
pub config_header : Config → Speed → ℕ → ℕ → List ℕ
config_header c speed type total =
    9
    ∷ type
    ∷ (total % 2 ^ 8)
    ∷ (total / 2 ^ 8 % 2 ^ 8)
    ∷ (c.next_interface_id % 2 ^ 8)
    ∷ c.configuration_value
    ∷ c.i_configuration
    ∷ (128 + c.attributes % 128)
    ∷ encode_max_power speed c
    ∷ []

-- USB_COMP_EP0_BUFSIZ
abbrev pub bufsiz : ℕ
bufsiz = 1024

-- `config_buf`
pub config_buf : Config → Speed → ℕ → Result (List ℕ)
config_buf c speed type = fillbuf (bufsiz - 9) (given c.descriptors) >>= λ bs.
    (fill_functions (bufsiz - 9 - length bs) speed c.functions >>= λ more.
    ok (config_header c speed type (9 + length (bs ++ more)) ++ (bs ++ more)))
