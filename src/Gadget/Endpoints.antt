-- ===== src/Gadget/Endpoints.antt =====
-- Choosing endpoints for descriptors: `usb_gadget_ep_match_desc` of gadget/udc-core.c,
-- `dwc3_gadget_match_ep` of udc/dwc3/gadget.c, and gadget/epautoconf.c.
pub mod Match
pub mod Claims
pub mod Numbers
pub mod Hardware
use unisoc_usb.Prelude.{
  ℕ, suc, ◌+◌, ◌*◌, ◌/◌, ◌%◌, ◌^◌, Bool, true, false, not, ◌&&◌, ◌||◌, List, [], ◌∷◌, map, Option,
  none, some, ltb, leb, ◌==◌, if◌then◌else◌, get_elem?, set,
}
use unisoc_usb.Gadget.Speeds.{Bus}

-- The bits of `struct usb_ep_caps` that are read.
pub record Caps : Type 0 where
  pub type_iso : Bool
  pub type_bulk : Bool
  pub type_int : Bool
  pub dir_in : Bool
  pub dir_out : Bool

-- `struct usb_endpoint_descriptor`
pub record EpDesc : Type 0 where
  pub endpoint_address : ℕ
  pub attributes : ℕ
  pub w_max_packet_size : ℕ

-- `struct usb_ep`: `name` is its characters, `comp_desc` the attributes of the companion descriptor.
pub record UsbEp : Type 0 where
  pub name : List ℕ
  pub caps : Caps
  pub claimed : Bool
  pub maxpacket_limit : ℕ
  pub max_streams : ℕ
  pub address : ℕ
  pub desc : Option EpDesc
  pub comp_desc : Option ℕ
  pub driver_data : Option ℕ

-- The part of `struct usb_gadget` that choosing an endpoint uses.
pub record EpGadget : Type 0 where
  pub bus : Bus
  pub ep_list : List UsbEp
  pub in_epnum : ℕ
  pub out_epnum : ℕ

-- USB_ENDPOINT_XFER_*
abbrev pub xfer_control : ℕ
xfer_control = 0

abbrev pub xfer_isoc : ℕ
xfer_isoc = 1

abbrev pub xfer_bulk : ℕ
xfer_bulk = 2

abbrev pub xfer_int : ℕ
xfer_int = 3

-- `usb_endpoint_type`
abbrev pub endpoint_type : EpDesc → ℕ
endpoint_type d = d.attributes % 2 ^ 2

-- `usb_endpoint_dir_in`, whose negation is `usb_endpoint_dir_out`
abbrev pub dir_in : EpDesc → Bool
dir_in d = d.endpoint_address / 2 ^ 7 % 2 == 1

-- The maximum packet size without the bits of a high-bandwidth endpoint.
abbrev pub max_of : EpDesc → ℕ
max_of d = d.w_max_packet_size % 2 ^ 11

-- `usb_endpoint_maxp(desc) & (3<<11)`
abbrev pub extra_packets : EpDesc → ℕ
extra_packets d = d.w_max_packet_size / 2 ^ 11 % 2 ^ 2

-- The streams that the companion descriptor asks for.
abbrev pub streams_of : Bus → Option ℕ → ℕ
streams_of b none = 0
streams_of b (some comp) = if b.is_superspeed then comp % 2 ^ 5 else 0

-- The switch of `usb_gadget_ep_match_desc`, and what follows it.
unfoldable pub match_type : Bus → UsbEp → EpDesc → Option ℕ → Bool
match_type b ep d comp =
    if endpoint_type d == xfer_control
    then false
    else (if endpoint_type d == xfer_isoc
        then (if not ep.caps.type_iso
            then false
            else not (not b.is_dualspeed && ltb 1023 (max_of d)))
        else (if endpoint_type d == xfer_bulk
            then (if not ep.caps.type_bulk
                then false
                else not (ltb ep.max_streams (streams_of b comp)))
            else (if not ep.caps.type_int && not ep.caps.type_bulk
                then false
                else not (not b.is_dualspeed && ltb 64 (max_of d)))))

-- `usb_gadget_ep_match_desc`
unfoldable pub match_desc : Bus → UsbEp → EpDesc → Option ℕ → Bool
match_desc b ep d comp =
    if ep.claimed
    then false
    else (if dir_in d && not ep.caps.dir_in
        then false
        else (if not (dir_in d) && not ep.caps.dir_out
            then false
            else (if ltb ep.maxpacket_limit (max_of d)
                then false
                else (if not b.is_dualspeed && not (extra_packets d == 0)
                    then false
                    else match_type b ep d comp))))

-- Whether the endpoint at this place of the list matches.
abbrev pub matches_at : EpGadget → EpDesc → Option ℕ → ℕ → Bool
matches_at g d comp i = elim (get_elem? g.ep_list i) [
  | none ↦ false
  | some ep ↦ match_desc g.bus ep d comp
]

-- `dwc3_gadget_match_ep`: `unset` is the place of the endpoint to which its uninitialised pointer
-- refers.
unfoldable pub match_ep : ℕ → EpGadget → EpDesc → Option ℕ → Option ℕ
match_ep unset g d comp =
    let tried : Option ℕ = if matches_at g d comp unset then some unset else none in
    if endpoint_type d == xfer_int
    then tried
    else (if endpoint_type d == xfer_bulk && dir_in d then tried else none)

-- The loop over the gadget's endpoints.
unfoldable pub first_match : Bus → List UsbEp → EpDesc → Option ℕ → Option ℕ
first_match b [] d comp = none
first_match b (ep ∷ eps) d comp =
    let later = first_match b eps d comp in
    if match_desc b ep d comp then some 0 else (elim later [ none ↦ none | some i ↦ some (suc i) ])

-- The endpoint that is found, by its place.
unfoldable pub choose : ℕ → EpGadget → EpDesc → Option ℕ → Option ℕ
choose unset g d comp = elim (match_ep unset g d comp) [
  | some i ↦ some i
  | none ↦ first_match g.bus g.ep_list d comp
]

-- `isdigit(ep->name[2])`
abbrev pub named_by_digit : UsbEp → Bool
named_by_digit ep = elim (get_elem? ep.name 2) [ none ↦ false | some c ↦ leb 48 c && leb c 57 ]

-- `desc->bEndpointAddress & USB_DIR_IN`
abbrev pub direction : EpDesc → ℕ
direction d = d.endpoint_address / 2 ^ 7 % 2 * 2 ^ 7

-- The address that is reported, if any. An endpoint named by a digit gets the number 0; another one the
-- next number of its direction, which are counted for the gadget.
unfoldable pub report_address : EpGadget → UsbEp → EpDesc → EpGadget × Option ℕ
report_address g ep d =
    let in_num = (g.in_epnum + 1) % 2 ^ 32 in
    let out_num = (g.out_epnum + 1) % 2 ^ 32 in
    let g_in = record g { in_epnum = in_num } in
    let g_out = record g { out_epnum = out_num } in
    if named_by_digit ep
    then (g, some (direction d))
    else (if dir_in d
        then (if ltb 15 in_num then (g_in, none) else (g_in, some (2 ^ 7 + in_num)))
        else (if ltb 15 out_num then (g_out, none) else (g_out, some (direction d + out_num))))

-- The packet size of a descriptor that leaves it open.
abbrev pub sized : UsbEp → EpDesc → EpDesc
sized ep d =
    if d.w_max_packet_size == 0 then record d { w_max_packet_size = ep.maxpacket_limit } else d

-- The packet size of a bulk endpoint at full speed.
abbrev pub full_speed_size : UsbEp → EpDesc → Option ℕ → EpDesc
full_speed_size ep d (some comp) = d
full_speed_size ep d none =
    if endpoint_type d == xfer_bulk
    then record d {
      w_max_packet_size = if ltb 64 ep.maxpacket_limit then 64 else ep.maxpacket_limit;
    }
    else d

-- What choosing an endpoint leaves: the gadget, the caller's descriptor, and the endpoint's place, or
-- none for NULL.
pub record Choice : Type 0 where
  pub gadget : EpGadget
  pub desc : EpDesc
  pub ep : Option ℕ

-- An endpoint as it is returned.
abbrev pub claimed_as : UsbEp → ℕ → UsbEp
claimed_as ep address = record ep {
  address = address;
  desc = none;
  comp_desc = none;
  claimed = true;
}

-- `usb_ep_autoconfig_ss` from `found_ep` on.
unfoldable pub found_ep : ℕ → UsbEp → EpDesc → Option ℕ → EpGadget × Option ℕ → Choice
found_ep i ep d comp (g, none) = record {
  gadget = g;
  desc = record (sized ep d) { endpoint_address = direction d };
  ep = none;
}
found_ep i ep d comp (g, some address) = record {
  gadget = record g { ep_list = set g.ep_list i (claimed_as ep address) };
  desc = full_speed_size ep (record (sized ep d) { endpoint_address = address }) comp;
  ep = some i;
}

-- `usb_ep_autoconfig_ss`; without a companion descriptor it is `usb_ep_autoconfig`.
unfoldable pub autoconfig_ss : ℕ → EpGadget → EpDesc → Option ℕ → Choice
autoconfig_ss unset g d comp = elim (choose unset g d comp) [
  | none ↦ record { gadget = g; desc = d; ep = none }
  | some i ↦ elim (get_elem? g.ep_list i) [
    | none ↦ record { gadget = g; desc = d; ep = none }
    | some ep ↦ found_ep i ep d comp (report_address g ep d)
  ]
]

-- `usb_ep_autoconfig_release`
pub autoconfig_release : UsbEp → UsbEp
autoconfig_release ep = record ep { claimed = false; driver_data = none }

-- `usb_ep_autoconfig_reset`
pub autoconfig_reset : EpGadget → EpGadget
autoconfig_reset g = record g {
  ep_list = map (λ (ep : UsbEp). record ep { claimed = false; driver_data = none }) g.ep_list;
  in_epnum = 0;
  out_epnum = 0;
}
