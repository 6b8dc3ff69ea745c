-- ===== src/Gadget/EndpointExamples.antt =====
-- Concrete endpoints and descriptors.
use unisoc_usb.Gadget.Descriptors.{Function}
use unisoc_usb.Gadget.EpSetup.{EpConfig, config_ep_by_speed}
use unisoc_usb.Gadget.EpSetup.Found.{Configured, config_ep_by_speed-Configured}
use unisoc_usb.Prelude.{ℕ, ◌≡◌, ◌↔◌, refl, true, false, [], ◌∷◌, Option, none, some, Code, List}
use unisoc_usb.Gadget.Descriptors.{Speed}
use unisoc_usb.Gadget.Speeds.{Bus}
use unisoc_usb.Gadget.Endpoints.{
  EpDesc, UsbEp, EpGadget, match_type, match_desc, match_ep, first_match, choose, report_address,
  found_ep, direction, autoconfig_ss,
}
use unisoc_usb.Gadget.Endpoints.Match.{Suits, match_desc_iff}
use unisoc_usb.Gadget.Endpoints.Claims.{Ask, answer, answers, asked, AreClaimed, asked-AreClaimed}
use unisoc_usb.Gadget.Endpoints.Hardware.{init_hw_endpoint, init_hw_endpoints, init_endpoints}
use unisoc_usb.Gadget.Endpoints.Hardware.Digits.{init_endpoints_numbers}

-- Memory in which nothing is set.
abbrev blank : UsbEp
blank = record {
  name = [];
  caps = record {
    type_iso = false;
    type_bulk = false;
    type_int = false;
    dir_in = false;
    dir_out = false;
  };
  claimed = false;
  maxpacket_limit = 0;
  max_streams = 0;
  address = 0;
  desc = none;
  comp_desc = none;
  driver_data = none;
}

abbrev memory : ℕ → Option UsbEp
memory n = some blank

abbrev pools : ℕ → Code
pools n = none

abbrev superspeed : Bus
superspeed = record { speed = Speed.super; is_dualspeed = true; is_superspeed = true }

-- A controller with three endpoints each way.
abbrev gadget : EpGadget
gadget = record {
  bus = superspeed;
  ep_list = (init_endpoints memory pools 3 3).0;
  in_epnum = 0;
  out_epnum = 0;
}

abbrev bulk_in : EpDesc
bulk_in = record { endpoint_address = 128; attributes = 2; w_max_packet_size = 0 }

abbrev wants : Ask
wants = record { unset = 0; desc = bulk_in; comp = none }

match_desc_iff_example :
    (match_desc superspeed blank bulk_in none ≡ true) ↔ Suits superspeed blank bulk_in none
match_desc_iff_example = match_desc_iff superspeed blank bulk_in none

asked-AreClaimed_example :
    AreClaimed gadget.ep_list
      (asked gadget (wants ∷ wants ∷ wants ∷ [])).ep_list
      (answers gadget (wants ∷ wants ∷ wants ∷ []))
asked-AreClaimed_example = asked-AreClaimed gadget (wants ∷ wants ∷ wants ∷ [])

-- Two endpoints are left for three requests.
three_asked : answers gadget (wants ∷ wants ∷ wants ∷ []) ≡ 2 ∷ 3 ∷ []
unfolding init_endpoints init_hw_endpoints init_hw_endpoint match_type match_desc match_ep
    first_match choose report_address found_ep autoconfig_ss asked answers
three_asked = refl

init_endpoints_numbers_example :
    (answer (asked gadget (wants ∷ [])) wants).desc.endpoint_address ≡ direction bulk_in
unfolding init_endpoints init_hw_endpoints init_hw_endpoint match_type match_desc match_ep
    first_match choose report_address found_ep autoconfig_ss asked answers
init_endpoints_numbers_example =
    init_endpoints_numbers memory pools 3 3 gadget (wants ∷ []) wants 3 refl refl

-- A bulk endpoint at SuperSpeed, between an interface's descriptor and another endpoint's.
abbrev companion_table : List (List ℕ)
companion_table =
    (9 ∷ 4 ∷ 0 ∷ 0 ∷ 1 ∷ [])
    ∷ (7 ∷ 5 ∷ 1 ∷ 2 ∷ 0 ∷ 4 ∷ 0 ∷ [])
    ∷ (6 ∷ 48 ∷ 15 ∷ 0 ∷ 0 ∷ 0 ∷ [])
    ∷ (7 ∷ 5 ∷ 129 ∷ 2 ∷ 0 ∷ 4 ∷ 0 ∷ [])
    ∷ []

abbrev super_only : Function
super_only = record {
  fs_descriptors = none;
  hs_descriptors = none;
  ss_descriptors = some companion_table;
}

abbrev unconfigured : EpConfig
unconfigured = record {
  address = 1;
  maxpacket = 0;
  desc = none;
  comp_desc = none;
  maxburst = 0;
  mult = 0;
}

config_ep_by_speed-Configured_example :
    (out : EpConfig × Code) × (config_ep_by_speed superspeed super_only unconfigured ≡ some out)
    × Configured superspeed companion_table unconfigured out
config_ep_by_speed-Configured_example =
    config_ep_by_speed-Configured superspeed super_only unconfigured companion_table refl
