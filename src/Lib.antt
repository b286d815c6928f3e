-- ===== src/Lib.antt =====
-- libhid, a user-space access library for USB HID devices, as an executable model with its proofs.
--
-- The program. A caller makes an HIDInterface (src/hid_initialisation.c), opens it on a device that a
-- matcher accepts (src/hid_opening.c), which claims the interface, by force if asked
-- (src/linux.c, src/bsd.c, src/darwin.c), reads its descriptors (src/hid_preparation.c) and has them
-- parsed (src/hid_parsing.c), and then exchanges reports with it (src/hid_exchange.c) until it closes
-- it. Open interfaces are kept on one list of at most twenty.
--
-- The files.
--   Base, Base/*       tests on native numbers, lists, the C int
--   Types              the structs and enums of include/hid.h and hidparser/hidtypes.h, libusb's calls
--   State              the state that the functions share, and the code that they call as a parameter;
--                      Returns: total correctness, Safe: partial correctness, Effect: what a
--                      call leaves alone, Handles: those opened and closed
--   OpenList           open_hid_device_list, add_open_device, remove_open_device; Refine, Members
--   Matching           hid_compare_usb_device; Bits: its mask test, Verdict: its flags
--   Interface          hid_new_HIDInterface, hid_delete_HIDInterface, hid_reset_HIDInterface,
--                      hid_is_opened
--   Initialisation     hid_init, hid_cleanup, hid_is_initialised
--   Printf             the conversions of printf; Fuel
--   FormatPath         hid_format_path; Overrun: the memory that it needs,
--                      Text: what it writes
--   Parsing            the rest of src/hid_parsing.c; Preparing, Paths, Finding; Dump: the dump
--                      in hid_prepare_parser
--   Preparation        src/hid_preparation.c; Success
--   Closing            hid_close; Laws, and Removed: the list without the interface
--   Finding            hid_previously_matched, hid_find_usb_device, hid_get_usb_handle; Listed: the
--                      devices in use, Handles, First, Round and Search: which device is
--                      taken
--   ForceClaim         hid_os_force_claim on each platform; Success
--   Opening            hid_open, hid_force_open; Outcome: what an attempt may leave behind;
--                      Kept: calls that leave an interface open
--   Exchange           src/hid_exchange.c; Interrupt, Idle, Reports, Kinds, Item, Keeps
--   Presentation       hid_write_identification, hid_strerror; Tree: hid_dump_tree; Keeps
--   Debug              src/debug.c, include/debug.h, include/hid_assert.h; Bits, Trace
--   Detach             main of src/libhid-detach-device.c; Ids: its identifiers, Leaving, Main,
--                      Success and Whole: a run that succeeds
--   Session            sequences of calls, and what they keep; Calls: those between opening and
--                      closing, Blocks and Balance: the blocks of memory,
--                      Handles and Holding: the device handles,
--                      Finished and Choice: the device that is opened, Cooperation: a device
--                      that answers every request,
--                      Spec, Refine and Simulation: what a caller relies on
--   Tests              a small world: Runs, Opening, Witnesses, Transfers,
--                      Programs, Search, Sessions
--
-- The model. A function of the program takes and gives the record Library; a result none is undefined
-- behaviour: a dereference of NULL or of an object that is gone, or an access outside of an array. A
-- pointer to an HIDInterface is an address, 0 is NULL. hid_data and hid_parser are owned by one
-- interface, so each stands for its block. What libhid calls and does not define is the parameter Env:
-- libusb, malloc, and the MGE HID parser of hidparser/, another project's code. A call of libusb gives
-- any reply; the calls made are recorded, as are the numbers of blocks allocated and freed, for the
-- theorems only. The elements of a path are 32-bit patterns.
--
-- Bounds and fuel. Loops are structural recursion on what is left to do: the busses and devices
-- that libusb lists, the slots in use, the retries, the depth. The printing of a number has fuel,
-- twenty digits, enough for 64 bits, and so has the loop of hid_dump_tree, which goes on for as long as
-- the HID parser finds objects: any fuel over a measure that the parser makes smaller is enough.
--
-- Not modelled: the calls of the trace macros and of ASSERT inside the other functions, which only
-- print (the macros themselves are in Debug); of the dump in hid_prepare_parser the lines are dropped
-- and the buffers are modelled; the HID parser, the bindings of swig/ and the programs of
-- test/.
pub mod Base
pub mod Types
pub mod OpenList
pub mod State
pub mod Matching
pub mod Interface
pub mod FormatPath
pub mod Parsing
pub mod Closing
pub mod Preparation
pub mod Printf
pub mod Finding
pub mod ForceClaim
pub mod Opening
pub mod Exchange
pub mod Initialisation
pub mod Presentation
pub mod Debug
pub mod Detach
pub mod Session
pub mod Tests
