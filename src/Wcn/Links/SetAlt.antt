-- ===== src/Wcn/Links/SetAlt.antt =====
-- Choosing a function's setting: `wcn_set_alt` of gadget/f_wcn_composite.c for the Bluetooth functions.
pub mod Sessions
use unisoc_usb.Prelude.{
  Bool, true, false, not, ◌&&◌, Option, none, some, Code, Errno, if◌then◌else◌,
}
use unisoc_usb.Memory.{Heap}
use unisoc_usb.Wcn.Links.{
  WcnEp, Pipe, Bt0, Bt1, Out, Below, bt0_connect, bt0_disconnect, bt1_connect, bt1_disconnect,
}

abbrev pub with_desc : Bool → Pipe → Pipe
with_desc has p = record p { ep = record (p.ep) { desc = has } }

-- `config` is what `config_ep_by_speed` returns for an endpoint.
module _ (b : Below) (config : WcnEp → Code) where
  -- The endpoints of the first function with descriptors, if all can be configured.
  pub bt0_config : Bt0 → Bt0 × Code
  bt0_config f =
      let refused : Bt0 × Code = (
        record {
          int_in = with_desc false f.int_in;
          bulk_out = with_desc false f.bulk_out;
          bulk_in = with_desc false f.bulk_in;
        },
        some Errno.einval,
      ) in
      let ready : Bt0 × Code = (
        record {
          int_in = with_desc true f.int_in;
          bulk_out = with_desc true f.bulk_out;
          bulk_in = with_desc true f.bulk_in;
        },
        none,
      ) in
      if f.int_in.ep.desc && (f.bulk_in.ep.desc && f.bulk_out.ep.desc)
      then (f, none)
      else (elim (config f.int_in.ep) [
        | some e ↦ refused
        | none ↦ elim (config f.bulk_out.ep) [
          | some e ↦ refused
          | none ↦ elim (config f.bulk_in.ep) [ some e ↦ refused | none ↦ ready ]
        ]
      ])

  -- The end of `wcn_set_alt`, which drops the result of connecting.
  pub bt0_reconnect : Bt0 × Code → Heap → Out Bt0
  bt0_reconnect (f, some e) h = record { link = f; heap = h; code = some e }
  bt0_reconnect (f, none) h = record (bt0_connect b f h) { code = none }

  -- `wcn_set_alt` of the first function
  pub bt0_set_alt : Bt0 → Heap → Out Bt0
  bt0_set_alt f h =
      let off = bt0_disconnect b f h in
      let again = bt0_reconnect (bt0_config off.link) off.heap in
      let fresh = bt0_reconnect (bt0_config f) h in if f.int_in.ep.enabled then again else fresh

  -- The endpoints of the second function; only one of them is asked for its descriptor.
  pub bt1_config : Bt1 → Bt1 × Code
  bt1_config f =
      let refused : Bt1 × Code = (
        record { isoc_out = with_desc false f.isoc_out; isoc_in = with_desc false f.isoc_in },
        some Errno.einval,
      ) in
      let ready : Bt1 × Code = (
        record { isoc_out = with_desc true f.isoc_out; isoc_in = with_desc true f.isoc_in },
        none,
      ) in
      if f.isoc_in.ep.desc then (f, none) else (elim (config f.isoc_out.ep) [
        | some e ↦ refused
        | none ↦ elim (config f.isoc_in.ep) [ some e ↦ refused | none ↦ ready ]
      ])

  pub bt1_reconnect : Bt1 × Code → Heap → Out Bt1
  bt1_reconnect (f, some e) h = record { link = f; heap = h; code = some e }
  bt1_reconnect (f, none) h = record (bt1_connect b f h) { code = none }

  -- `wcn_set_alt` of the second function
  pub bt1_set_alt : Bt1 → Heap → Out Bt1
  bt1_set_alt f h =
      let off = bt1_disconnect b f h in
      let again = bt1_reconnect (bt1_config off.link) off.heap in
      let fresh = bt1_reconnect (bt1_config f) h in if f.isoc_in.ep.enabled then again else fresh
