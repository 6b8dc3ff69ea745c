-- ===== src/Gadget/EpSetup.antt =====
-- Configuring an endpoint for the speed: `config_ep_by_speed` of gadget/composite.c. A descriptor is its
-- bytes.
pub mod Found
use unisoc_usb.Prelude.{
  ℕ, ◌+◌, ◌*◌, ◌%◌, ◌^◌, Bool, true, false, ◌&&◌, List, [], ◌∷◌, Option, none, some, Code, Errno,
  get_elem?, ◌==◌, if◌then◌else◌,
}
use unisoc_usb.Gadget.Descriptors.{Speed, Function}
use unisoc_usb.Gadget.Speeds.{Bus}

-- The part of `struct usb_ep` that is configured.
pub record EpConfig : Type 0 where
  pub address : ℕ
  pub maxpacket : ℕ
  pub desc : Option (List ℕ)
  pub comp_desc : Option (List ℕ)
  pub maxburst : ℕ
  pub mult : ℕ

-- A byte of a descriptor.
abbrev pub byte_at : ℕ → List ℕ → ℕ
byte_at i bs = elim (get_elem? bs i) [ none ↦ 0 | some b ↦ b ]

-- USB_DT_ENDPOINT and USB_DT_SS_ENDPOINT_COMP
abbrev pub dt_endpoint : ℕ
dt_endpoint = 5

abbrev pub dt_ss_endpoint_comp : ℕ
dt_ss_endpoint_comp = 48

-- An endpoint's descriptor with this address.
abbrev pub describes : ℕ → List ℕ → Bool
describes address d = (byte_at 1 d == dt_endpoint) && (byte_at 2 d == address)

-- The descriptors for the speed, or none for NULL.
abbrev pub speed_desc : Bus → Function → Option (List (List ℕ))
speed_desc b f = elim b.speed [
  | Speed.super ↦
      if b.is_superspeed
      then f.ss_descriptors
      else (if b.is_dualspeed then f.hs_descriptors else f.fs_descriptors)
  | Speed.high ↦ if b.is_dualspeed then f.hs_descriptors else f.fs_descriptors
  | Speed.full ↦ f.fs_descriptors
]

-- `want_comp_desc`
abbrev pub want_comp_desc : Bus → Bool
want_comp_desc b = elim b.speed [ Speed.super ↦ b.is_superspeed | _ ↦ false ]

-- The loop over the descriptors of endpoints: the one with this address, and those behind it.
pub find_ep_desc : ℕ → List (List ℕ) → Option (List ℕ × List (List ℕ))
find_ep_desc address [] = none
find_ep_desc address (d ∷ ds) =
    let rest = find_ep_desc address ds in if describes address d then some (d, ds) else rest

-- The endpoint once its descriptor is found.
abbrev pub described : List ℕ → EpConfig → EpConfig
described d ep = record ep {
  maxpacket = byte_at 4 d + byte_at 5 d * 2 ^ 8;
  desc = some d;
  comp_desc = none;
  maxburst = 0;
  mult = 0;
}

-- The endpoint with its companion descriptor, at SuperSpeed.
abbrev pub accompanied : List ℕ → List ℕ → EpConfig → EpConfig
accompanied d c ep =
    let type = byte_at 3 d % 2 ^ 2 in
    let bursts = (byte_at 2 c + 1) % 2 ^ 5 in
    let with_comp = record (described d ep) { comp_desc = some c } in
    if type == 1
    then record with_comp { mult = byte_at 3 c % 2 ^ 2; maxburst = bursts }
    else (if type == 0
        then record with_comp { maxburst = 1 }
        else record with_comp { maxburst = bursts })

-- `config_ep_by_speed` from `ep_found` on, where a companion is wanted.
pub add_comp : List ℕ → List (List ℕ) → EpConfig → EpConfig × Code
add_comp d [] ep = (described d ep, some Errno.eio)
add_comp d (c ∷ behind) ep =
    if byte_at 1 c == dt_ss_endpoint_comp
    then (accompanied d c ep, none)
    else (described d ep, some Errno.eio)

-- `config_ep_by_speed`; none where it follows a NULL pointer, for a speed without descriptors.
pub config_ep_by_speed : Bus → Function → EpConfig → Option (EpConfig × Code)
config_ep_by_speed b f ep = elim (speed_desc b f) [
  | none ↦ none
  | some ds ↦ elim (find_ep_desc ep.address ds) [
    | none ↦ some (ep, some Errno.eio)
    | some (d, behind) ↦
        some (if want_comp_desc b then add_comp d behind ep else (described d ep, none))
  ]
]
