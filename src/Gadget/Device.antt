-- ===== src/Gadget/Device.antt =====
-- A composite device as control requests see it, from gadget/composite.c, and the descriptors that
-- describe it as a whole.
use unisoc_usb.Prelude.{
  ℕ, ◌/◌, ◌%◌, ◌^◌, Bool, List, [], ◌∷◌, ◌++◌, map, Option, none, some, if◌then◌else◌,
}
use unisoc_usb.Gadget.Descriptors.{Speed, Config}
use unisoc_usb.Gadget.Configs.{Configuration, Cdev}
use unisoc_usb.Gadget.Speeds.{Bus, dt_device_qualifier, dt_device, count_configs}
use unisoc_usb.Gadget.Strings.{Tables, write}

-- `struct usb_device_descriptor`; `bLength` is 18 and `bDescriptorType` 1.
pub record DeviceDescriptor : Type 0 where
  pub bcd_usb : ℕ
  pub device_class : ℕ
  pub device_sub_class : ℕ
  pub device_protocol : ℕ
  pub max_packet_size0 : ℕ
  pub id_vendor : ℕ
  pub id_product : ℕ
  pub bcd_device : ℕ
  pub i_manufacturer : ℕ
  pub i_product : ℕ
  pub i_serial_number : ℕ
  pub num_configurations : ℕ

-- The part of `cdev->req` that the answer goes through.
pub record Reply : Type 0 where
  pub buf : List ℕ
  pub length : ℕ
  pub zero : Bool

-- `struct usb_composite_dev` with its gadget. `described` is what the descriptor of a configuration
-- shows, by the configuration's value, `maxpacket` is endpoint 0's, `os_desc_config` the value of that
-- configuration if there is one, `exit_latencies` what the controller's `get_config_params` tells or
-- the defaults, `power` the current before a configuration is chosen.
pub record Device : Type 0 where
  pub cdev : Cdev
  pub bus : Bus
  pub desc : DeviceDescriptor
  pub described : ℕ → Config
  pub tables : Tables
  pub os_desc_config : Option ℕ
  pub maxpacket : ℕ
  pub exit_latencies : ℕ × ℕ
  pub power : ℕ
  pub req : Reply
  pub setup_pending : Bool

-- The device's configurations as their descriptors show them.
abbrev pub shown : Device → List Config
shown d = map (λ (c : Configuration). d.described c.configuration_value) d.cdev.configs

abbrev pub shown_os : Device → Option Config
shown_os d = elim d.os_desc_config [ none ↦ none | some v ↦ some (d.described v) ]

abbrev pub low : ℕ → ℕ
low w = w % 2 ^ 8

abbrev pub high : ℕ → ℕ
high w = w / 2 ^ 8 % 2 ^ 8

-- The 18 bytes of the device descriptor.
abbrev pub device_bytes : DeviceDescriptor → List ℕ
device_bytes c =
    18
    ∷ 1
    ∷ low c.bcd_usb
    ∷ high c.bcd_usb
    ∷ c.device_class
    ∷ c.device_sub_class
    ∷ c.device_protocol
    ∷ c.max_packet_size0
    ∷ low c.id_vendor
    ∷ high c.id_vendor
    ∷ low c.id_product
    ∷ high c.id_product
    ∷ low c.bcd_device
    ∷ high c.bcd_device
    ∷ c.i_manufacturer
    ∷ c.i_product
    ∷ c.i_serial_number
    ∷ c.num_configurations
    ∷ []

-- The fields of the device descriptor that are set for each request. `bNumConfigurations` is a byte.
pub device_desc : Device → DeviceDescriptor
device_desc d =
    let c = record (d.desc) {
      num_configurations = count_configs d.bus (shown d) dt_device % 2 ^ 8;
      max_packet_size0 = d.maxpacket % 2 ^ 8;
    } in
    if d.bus.is_superspeed
    then (elim d.bus.speed [
      | Speed.super ↦ record c { bcd_usb = 768; max_packet_size0 = 9 }
      | _ ↦ record c { bcd_usb = 528 }
    ])
    else record c { bcd_usb = 512 }

-- `device_qual`
pub device_qual : Device → List ℕ
device_qual d =
    10
    ∷ dt_device_qualifier
    ∷ low d.desc.bcd_usb
    ∷ high d.desc.bcd_usb
    ∷ d.desc.device_class
    ∷ d.desc.device_sub_class
    ∷ d.desc.device_protocol
    ∷ (d.maxpacket % 2 ^ 8)
    ∷ (count_configs d.bus (shown d) dt_device_qualifier % 2 ^ 8)
    ∷ 0
    ∷ []

-- `bos_desc`: the header, the USB 2.0 extension and the SuperSpeed capability.
pub bos_desc : Device → List ℕ
bos_desc d =
    (5 ∷ 15 ∷ 22 ∷ 0 ∷ 2 ∷ [])
    ++ (7 ∷ 16 ∷ 2 ∷ 6 ∷ 0 ∷ 0 ∷ 0 ∷ [])
    ++ (10
        ∷ 16
        ∷ 3
        ∷ 0
        ∷ 15
        ∷ 0
        ∷ 1
        ∷ (d.exit_latencies.0 % 2 ^ 8)
        ∷ low d.exit_latencies.1
        ∷ high d.exit_latencies.1
        ∷ [])

-- The buffer after bytes are written to its start.
abbrev pub filled : Device → List ℕ → Device
filled d bs = record d { req = record (d.req) { buf = write bs d.req.buf } }
