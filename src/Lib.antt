-- ===== src/Lib.antt =====
-- A model of the USB device driver of usb_device_driver/: the DesignWare USB3 controller driver in
-- udc/dwc3/ and the composite gadget framework above it in gadget/ and include/.
--
-- The program. A host's requests reach the controller, which writes events into a buffer and
-- interrupts. udc/dwc3/gadget.c copies the events out and hands each to the endpoint that it names.
-- A function driver queues requests on an endpoint; the driver lays them out as transfer request
-- blocks (TRBs) in the endpoint's ring and starts the transfer with a command; an event later tells
-- which TRBs are done, and the requests are given back. Endpoint 0 carries control requests:
-- udc/dwc3/ep0.c answers the standard ones that concern the controller, and passes the others to
-- gadget/composite.c, which keeps the device's configurations and builds their descriptors.
--
-- The files.
-- - Prelude: shared names, Boolean tests, lists over native numbers, return codes.
-- - Dwc3/Endpoint: `struct dwc3_trb`, `dwc3_request` and `dwc3_ep`, from udc/dwc3/core.h.
-- - Dwc3/Ring: `dwc3_calc_trbs_left`, `dwc3_prepare_one_trb`, `dwc3_prepare_trbs` and
--   `dwc3_gadget_giveback`. Ring/Invariant says where requests lie in a ring, Ring/Write is about
--   the TRBs of one request, Ring/Prepare about the loop over requests, Ring/Giveback about giving
--   back.
-- - Dwc3/Command: `dwc3_send_gadget_ep_cmd`.
-- - Dwc3/Transfer: `__dwc3_gadget_kick_transfer`, `dwc3_stop_active_transfer`,
--   `dwc3_remove_requests`, `dwc3_gadget_ep_queue`, `dwc3_gadget_ep_dequeue`,
--   `__dwc3_gadget_ep_set_halt` and `__dwc3_gadget_ep_disable`. Its children follow the operations.
-- - Dwc3/Completion: `dwc3_cleanup_done_reqs`, `dwc3_endpoint_transfer_complete` and
--   `dwc3_endpoint_interrupt`.
-- - Dwc3/Events: `dwc3_check_event_buf` and `dwc3_process_event_buf`.
-- - Dwc3/Ep0: `dwc3_ep0_std_request` and the functions below it, from udc/dwc3/ep0.c.
-- - Dwc3/Stage and Dwc3/Control: the stages of control transfers, the rest of udc/dwc3/ep0.c.
--   Control/Start has `dwc3_ep0_start_trans`, `dwc3_ep0_out_start` and
--   `dwc3_ep0_stall_and_restart`, Control/Queue `dwc3_gadget_ep0_queue` and the data and status
--   stages, Control/Finish `dwc3_ep0_inspect_setup`, `dwc3_ep0_complete_data` and
--   `dwc3_ep0_complete_status`, Control/Events `dwc3_ep0_xfer_complete`, `dwc3_ep0_xfernotready`
--   and `dwc3_ep0_interrupt`. Control/Safety has the step relation and what every sequence of steps
--   keeps, Control/SetAddress one whole transfer, Control/Moved the bytes of a data stage,
--   Control/Stall the commands of a stall, Safety/Ended those of a data stage that is asked for the
--   wrong way.
-- - Gadget/Descriptors: `usb_descriptor_fillbuf` of gadget/config.c and `config_buf` of
--   gadget/composite.c.
-- - Gadget/Connection: `usb_gadget_connect`, `usb_gadget_disconnect`, `usb_gadget_deactivate` and
--   `usb_gadget_activate` of include/gadget.h, with `usb_function_deactivate` and
--   `usb_function_activate`.
-- - Gadget/Configs: `usb_interface_id`, `usb_add_config_only`, `usb_add_config`,
--   `usb_remove_config`, `reset_config` and `set_config`.
-- - Attached: the composite driver as the gadget driver of the stages of endpoint 0, which queues
--   its answers there.
-- - Gadget/Functions: gadget/functions.c.
-- - Gadget/Speeds: `config_desc` and `count_configs`. Gadget/Strings: `usb_gadget_get_string`,
--   `get_string`, `usb_string_id`, `usb_string_ids_tab`, `usb_string_ids_n` and
--   `usb_gstrings_attach`. Gadget/Device: the composite device with `device_qual` and `bos_desc`.
--   Gadget/Setup: `composite_setup`. These are of gadget/composite.c.
-- - Gadget/Endpoints: `usb_gadget_ep_match_desc`, gadget/epautoconf.c, and in Endpoints/Hardware
--   `dwc3_gadget_init_endpoints`. Gadget/Udc: gadget/udc-core.c, with `dwc3_gadget_start` and
--   `dwc3_gadget_stop`. Gadget/EpSetup: `config_ep_by_speed`. Gadget/Resources:
--   `composite_bind` and `__composite_unbind` with the memory that they get and free.
-- - Memory: `usb_malloc` and `usb_mem_free` of include/os_interface.h, and what is owned.
-- - Wcn: gadget/u_wcn_composite.c. Wcn/Requests has `gwcn_req_alloc`, Wcn/Links connecting and
--   disconnecting, with `wcn_set_alt` of gadget/f_wcn_composite.c, Wcn/Transmit and Wcn/Receive
--   the two directions of a channel.
-- - Dwc3/Examples, Dwc3/EventExamples, Dwc3/ControlExamples, Dwc3/WrongWayExamples,
--   Gadget/Examples, Gadget/SetupExamples, Gadget/EndpointExamples, Gadget/UdcExamples,
--   Gadget/ResourceExamples, Wcn/Examples and AttachedExamples: concrete inputs.
--
-- State and calls. An operation takes a record and returns the record after it, with the return
-- code where the function has one. `Dwc` is `struct dwc3` as one endpoint's operations see it, with
-- the commands written so far. An intrusive list is a list, a pointer to a request is the request's
-- number, and a TRB's address is its index in the pool. A request that is given back stands in the
-- endpoint's `completed`; the completion callback's own calls are not interleaved. A word whose
-- bits have names is a record of them; other words keep their wrap-around.
--
-- Parameters. What is not in this repository or is installed at run time is an argument: the
-- values that the controller's command register reads, whether the gadget is suspended when it
-- interrupts, whether its pull-up succeeds, the gadget driver's `setup`, the callbacks of functions
-- and configurations, of which a `setup` may queue an answer by itself, the queue of endpoint 0 below
-- `composite_setup`, a function driver's `alloc_func`, whether memory can be allocated and what
-- it holds. The value of a variable that the source leaves uninitialised is an argument too.
--
-- Bounds. The polling loop runs at most 500 times, as in the source. The event loop runs on the
-- count of bytes as fuel, which each round lowers by 4. Other loops are recursion on the list or
-- the count that they run over. A ring has 1024 entries, the last of which is the link TRB.
--
-- What is busy. A transfer that the model calls busy is one that the driver marks with DWC3_EP_BUSY.
-- What the controller itself runs is not part of the state: a stall clears the marks and starts a new
-- transfer without ending the old one, so the end of a transfer that was left running is excluded where
-- the steps of endpoint 0 are considered.
--
-- Not modelled: enabling endpoints, the workaround for controllers before revision 1.83a, reset,
-- suspend, hibernation and link events, which are mostly register writes; OS strings and OS
-- descriptors; adding and removing functions; mapping requests for DMA; the WCN function's
-- binding and receiving task, and the setting of its WLAN part; locks, tracing and the PHY.
pub mod Prelude
pub mod Memory
pub mod Dwc3
pub mod Gadget
pub mod Wcn
pub mod Attached
pub mod AttachedExamples
