-- ===== src/Gadget/SetupExamples.antt =====
-- Concrete control requests of a composite device.
use unisoc_usb.Gadget.Strings.Attach.{
  Attached, gstrings_attach, IsAttached, gstrings_attach-IsAttached,
}
use unisoc_usb.Prelude.{
  ok, ℕ, ◌+◌, ◌+◌, ◌≡◌, ◌≤◌, ◌<◌, refl, true, false, List, [], ◌∷◌, none, Code, Errno, ok, err,
  drop, replicate, get_elem?, inl, inr, ◌⊎◌, arith, some,
}
use unisoc_usb.Gadget.Descriptors.{Config, Speed, config_buf}
use unisoc_usb.Gadget.Configs.{AltCode}
use unisoc_usb.Gadget.Speeds.{Bus, dt_device, dt_config, desc_speed, config_desc, count_configs}
use unisoc_usb.Gadget.Speeds.Index.{Announces, working, config_desc_lem}
use unisoc_usb.Gadget.Strings.Languages.{IsHeld, get_langs_lem}
use unisoc_usb.Gadget.Strings.{Table, Tables, get_langs, write, word_bytes, UsbString}
use unisoc_usb.Gadget.Device.{Reply, Device}
use unisoc_usb.Gadget.Setup.{Callbacks, composite_setup}
use unisoc_usb.Gadget.Setup.Bounds.{composite_setup-length}
use unisoc_usb.Gadget.Setup.Current.{
  set_configuration, get_configuration, composite_setup_configuration,
}
use unisoc_usb.Gadget.Examples.{two_descriptors, device}

abbrev high_bus : Bus
high_bus = record { speed = Speed.high; is_dualspeed = true; is_superspeed = false }

config_desc_lem_example :
    ((0 < count_configs high_bus (two_descriptors ∷ []) dt_device)
      × ((c : Config) × (get_elem?
              (working (desc_speed high_bus dt_config) (two_descriptors ∷ []))
              0
            ≡ some c)
          × (config_desc high_bus none (two_descriptors ∷ []) dt_config 0
              ≡ config_buf c (desc_speed high_bus dt_config) dt_config)))
    ⊎ (count_configs high_bus (two_descriptors ∷ []) dt_device ≤ 0)
      × (config_desc high_bus none (two_descriptors ∷ []) dt_config 0 ≡ err Errno.einval)
config_desc_lem_example =
    config_desc_lem high_bus (two_descriptors ∷ []) dt_device dt_config 0 Announces.device
      (λ e. ground (arith, e))

abbrev names : List UsbString
names = record { id = 0; text = 87 ∷ 67 ∷ [] } ∷ record { id = 0; text = 78 ∷ [] } ∷ []

-- Functions that accept every setting and claim no request.
abbrev pub plain : Callbacks
plain = record {
  set_alt = λ f i a. AltCode.ready;
  get_alt = λ f. none;
  func_suspend = λ f. none;
  req_match = λ f c. false;
  setup = λ f. none;
  config_setup = λ v. none;
}

-- A queue that counts.
abbrev accepts_all : Reply → ℕ → ℕ × Code
accepts_all r n = (n + 1, none)

abbrev pub gadget : Device
gadget = record {
  cdev = device;
  bus = high_bus;
  desc = record {
    bcd_usb = 512;
    device_class = 0;
    device_sub_class = 0;
    device_protocol = 0;
    max_packet_size0 = 64;
    id_vendor = 6018;
    id_product = 1;
    bcd_device = 256;
    i_manufacturer = 0;
    i_product = 0;
    i_serial_number = 0;
    num_configurations = 1;
  };
  described = λ v. two_descriptors;
  tables = record { gstrings = []; driver = []; configs = [] };
  os_desc_config = none;
  maxpacket = 64;
  exit_latencies = (1, 500);
  power = 100;
  req = record { buf = replicate 4 0; length = 0; zero = false };
  setup_pending = false;
}

composite_setup-length_example :
    (composite_setup plain accepts_all gadget 0 (get_configuration 0)).0.0.req.length ≤ 0
composite_setup-length_example =
    composite_setup-length plain accepts_all gadget 0 (get_configuration 0)
      (record { setup = λ f. tt; config_setup = λ v. tt }) refl (inl (inr refl))

composite_setup_configuration_example :
    let first = composite_setup plain accepts_all gadget 0 (set_configuration 1) in
    let out = composite_setup plain accepts_all first.0.0 first.0.1 (get_configuration 8) in
    ((e : Errno) × (first.1 ≡ err e))
    ⊎ ((out.1 ≡ ok 0) × (out.0.0.req.length ≡ 1) × (out.0.0.req.buf ≡ 1 ∷ drop 1 first.0.0.req.buf))
composite_setup_configuration_example =
    composite_setup_configuration plain accepts_all gadget 0 1 8 (λ r z. refl) (omega arith)

-- Two languages, one of them twice.
abbrev english : Table
english = record { language = 1033; strings = [] }

abbrev german : Table
german = record { language = 1031; strings = [] }

abbrev spoken : Tables
spoken = record {
  gstrings = [];
  driver = english ∷ [];
  configs = ([] ∷ (german ∷ english ∷ []) ∷ []) ∷ [];
}

get_langs_lem_example :
    (words : List ℕ) × IsHeld words (1033 ∷ 1031 ∷ [])
    × (get_langs spoken [] ≡ (write (6 ∷ 3 ∷ word_bytes words) [], ok 6))
get_langs_lem_example =
    get_langs_lem spoken [] (λ e. ground arith, tt) (λ e. ground arith, (λ e. ground arith, tt)) tt
      (omega arith) (omega arith)

-- A table of two strings.
abbrev words : ℕ → Table
words language = record {
  language = language;
  strings = record { id = 0; text = 72 ∷ 105 ∷ [] } ∷ record { id = 0; text = 79 ∷ 107 ∷ [] } ∷ [];
}

gstrings_attach-IsAttached_example :
    (out : Attached) × (gstrings_attach true 7 3 [] 2 (words 1033 ∷ words 1031 ∷ []) ≡ some out)
    × IsAttached 3 [] (words 1033).strings (words 1033 ∷ words 1031 ∷ []) out
gstrings_attach-IsAttached_example =
    gstrings_attach-IsAttached 7 3 2 [] (words 1033) (words 1031 ∷ []) (refl, (refl, tt))
      (omega arith)
