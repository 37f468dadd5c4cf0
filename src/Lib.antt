-- ===== src/Lib.antt =====
-- The ESP32-S3 debug probe firmware (esp32s3-idf/lib/daplink): the parts that parse firmware
-- images, drive the SWD line, answer the commands of CMSIS-DAP, run code on the target and read
-- its RTT buffers, serve the USB drive, and take commands from the network.
--
-- Parts and files. The host's commands come over USB or WiFi to the CMSIS-DAP processor, which turns
-- them into transfers of the SWD port, which drives two pins; files dropped on the USB drive are
-- parsed as Intel HEX and flashed over the same port, by writes to its flash controller or by
-- code that runs on the target. The RTT reader polls buffers in the target's memory over it.
--
-- Hex (hex_parser.h, hex_parser.cpp): `parse_file` from the characters of the file to the image.
-- Hex/Bytes has the hex digits, Hex/Record one line, Hex/Bounds the invariant of the image,
-- Hex/Merge the merging of segments, Hex/File the loop over the lines, Hex/Format the files that a
-- tool writes, Hex/RoundTrip their parsing, Hex/Finish the sorting. A line is `char line[600]`, with
-- what stands behind its terminating zero; `std::sort` is the parameter `sort`, and what C++ says of
-- it is the record `Sorter`.
--
-- Swd (swd.h, swd.cpp): Swd/Wire has the globals as a record, the pin writes as a trace and the
-- bit-level functions, Swd/Transfer the functions `transfer` and `write_abort`, Swd/Port the
-- functions of the namespace `swd`. The target is a function from the trace so far to the level of
-- SWDIO. Swd/Words, Swd/Request, Swd/Retry, Swd/Keeps and Swd/Outcome hold the proofs.
--
-- Dap (cmsis_dap.cpp): the response buffer, and in Dap/Transfer `handle_transfer`, with one function
-- for each kind of request, in Dap/Block `handle_transfer_block`, in Dap/Sequence
-- `handle_swj_sequence`, in Dap/Config the handlers that configure the port, in Dap/Info
-- `handle_dap_info`, in Dap/Misc the other handlers, and in Dap/Process `on_vendor_data` with its
-- callers. A command is the list of its bytes, and `length` its length. Dap/Bounds, Dap/Block/Bounds,
-- Dap/Block/Reply, Dap/Sequence/Heard, Dap/Config/Effects, Dap/Info/Sized, Dap/Process/Reply,
-- Dap/Process/Echo and Dap/Words hold the proofs.
--
-- Port (swd.h) is the interface of the namespace `swd` to its clients, a record of operations on a
-- state, which the functions of Swd fill. Port/Memory says what a client relies on of the target
-- behind it, that the registers of a MEM-AP, of 32 bits each, give word access to memory. Port/Ideal is
-- a port on which examples run; Port/Chip is a target for the firmware's own port, a chip that decodes
-- the pins, with Port/Chip/Line for the bits on the line, Port/Chip/Reads and Port/Chip/Writes for the
-- transfers, and Port/Chip/Access for the operations of the port.
--
-- Exec (target_exec.h, target_exec.cpp), over a port: Exec/Core has the memory access and the debug
-- registers, Exec/Load `setup` and `upload_data`. A function that returns an error
-- code is an action of Esp/Action; one that waits on the clock is an action of Esp/Run, which counts the
-- readings of the clock, and its waits are those of Esp/Wait. Exec/Call has `call_function`, and
-- Exec/Access, Exec/Words, Exec/Upload, Exec/Stored, Exec/Layout and Exec/Wait hold the proofs.
--
-- Rtt (rtt_reader.h, rtt_reader.cpp), over a port: Rtt/Core has the globals and the memory access,
-- Rtt/Search the search for the control block and the descriptors, Rtt/Poll `poll_up`, Rtt/Down
-- `write_down`. The proofs on `poll_up` are in Rtt/Access, Rtt/Ring, Rtt/Reading, Rtt/Queue, Rtt/Polling
-- and Rtt/Bounds; those on `write_down` in Rtt/Append (a ring that bytes are written to), Rtt/Filling (a
-- word), Rtt/Round (a round of the loop), Rtt/Writing (the loop), Rtt/Pushed and Rtt/Push; those on the
-- search in Rtt/Block and Rtt/Found.
--
-- Flash (flash_algo.h, flash_algo.cpp and the types of target_probe.h): Flash/Select has
-- `select_algorithm`, and `program_target` as the routine that it calls, Flash/Pages the pages that
-- `program_stm32_g0` erases, Flash/G0 that function and its flash controller, Flash/Paged
-- `program_stm32_f1` and `program_cw32`, which are the same code with other constants, Flash/Status the
-- looks at the status registers, Flash/Target `program_target`, Flash/Sectors the sectors that
-- `program_with_flm` erases, Flash/WithFlm that function. Flash/Routing, Flash/Pages/Exact,
-- Flash/Sectors/Cover and the Returning modules hold the proofs.
--
-- Flm (flm_parser.h, flm_parser.cpp): Flm/Elf has the structures and the symbol search, Flm/Parse the
-- parser; Flm/Usable and Flm/Usable/Parsed hold the proofs. An access beyond the code blob is the outcome
-- `overrun`.
--
-- Probe (target_probe.h, target_probe.cpp), over a port: `probe`.
--
-- Volume (usb_msc_volume.h, usb_msc_volume.cpp), over a file system and a USB storage driver that are a
-- parameter: Volume/Names has the extensions of files, Volume/Files the files on the drive, Volume/Start
-- what mounts it, Volume/Scan `scan_and_process_once`, which calls the parsers, the probe and the
-- flash routines; Volume/Quiet holds the proofs.
--
-- Wifi (wifi_debug.cpp), the part that brings commands to the CMSIS-DAP processor: Wifi/Size has
-- `dap_request_size`, Wifi/Batch the loop over the commands of a batch, Wifi/Handlers the functions of
-- elaphureLink and `ws_poll_relay`, Wifi/Relay the client of the TCP relay with its stream of
-- frames. Wifi/Commands has the commands that a host packs; it, Wifi/Packed, Wifi/Relay/Frames, Wifi/Relay/Stream
-- and Wifi/Relay/Ends hold the proofs.
--
-- Base has the shared lists, tests, C integers and laws of bit operations, and Esp the error codes.
-- A Tests module in each part evaluates the definitions, and applies the theorems, at concrete inputs.
--
-- Integers are natural numbers, with the wrap-around of uint8_t, uint16_t and uint32_t written out;
-- size_t has 32 bits on this chip. The line loop of the parser has the length of the file as fuel,
-- since every round takes a character. The retry loop of `transfer` needs no fuel. The match loop of
-- `handle_transfer` has fuel, and a retry count below 0xFFFF needs that count and 2.
--
-- The wait of target_exec has a number of clock readings as fuel, and so has each
-- wait of the flash routines; an erase loop over pages has a number of rounds, of which one for each
-- 512 bytes and four more are enough, and so have the loops of `program_with_flm` over sectors and
-- chunks; the search of rtt_reader has a number of
-- chunks, and its write loop the number of bytes to write, of which every round writes one at least.
-- The loop of the TCP relay has the number of bytes in its buffer.
-- What other tasks do to the port while the search releases the lock is a function that it takes.
--
-- Not modelled: delays, log output, the mutex, the activity state of the LEDs, the USB stack,
-- the sockets, and so far the serial bridge, and of the WiFi server the remote flashing, the hole punch,
-- the WebSocket and the bridges to the serial port and RTT.
pub mod Base
pub mod Esp
pub mod Hex
pub mod Swd
pub mod Dap
pub mod Port
pub mod Exec
pub mod Rtt
pub mod Flash
pub mod Flm
pub mod Probe
pub mod Volume
pub mod Wifi
