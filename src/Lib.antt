-- ===== src/Lib.antt =====
-- The firmware of the ESP32-S3 board with an e-paper display and an EC801E modem: its own logic, as
-- functions, and the theorems on it.
--
-- The parts of the program. The applications draw on the display (src/epd200x200.c), find out which
-- server to talk to (src/serv_addr.c), and exchange a drone's state with a gateway (src/drone.c) in
-- frames (src/bitproto/protocol_utls.c) over a socket (src/bitproto/socket_utls.c), which Zephyr hands
-- to the modem (drivers/ec801e/ec801e_socket_offload.c), which the driver reaches with AT commands over a
-- UART (drivers/ec801e/ec801e.c).
--
-- Base: names that all files share. Base.Int is `int` arithmetic as integers, without a width: the
--   display's coordinates are far from the limits of `int`. Base.Result is the error convention: an
--   `int` that is negative is an error, an action keeps its state when it fails. Base.Result.Ends are
--   the rules that reason on an action step by step, and Base.Result.Keeps those for what it keeps.
-- Epd: src/epd200x200.c. Epd.Frame is `epd_framebuf` and `epd_fb_set_pixel`; Epd.Shapes the lines and
--   rectangles; Epd.Glyph both fonts; Epd.Utf8 `utf8_decode_one`; Epd.Text the layout of a text;
--   Epd.Panel the commands to the panel and `epd200x200_init`; Epd.Show the pictures. The calls of
--   Zephyr's drivers are kept in the state, the latest first, and a parameter answers them from that
--   history.
-- Serv: src/serv_addr.c. Serv.Address is trimming and "host:port"; Serv.Store the record in flash;
--   Serv.Active the static variables, the probe, `serv_addr_init` and `serv_addr_try_promote`. Flash
--   and network are parameters.
-- Link: Link.Socket is src/bitproto/socket_utls.c, Link.Frame src/bitproto/protocol_utls.c and
--   Link.Session src/drone.c. Zephyr's sockets and bitproto's generated codecs are parameters.
-- Offload: drivers/ec801e/ec801e_socket_offload.c. Offload.Socket is the life of the one socket,
--   Offload.Options its options, Offload.Dns name lookup, and Offload.Steps its states as a step
--   relation. The modem is a parameter.
-- Modem: drivers/ec801e/ec801e.c. Modem.Replies is what is read out of a reply, Modem.Line the bytes on
--   the UART and the waits for a reply, Modem.Commands the commands, the probe and the boot,
--   Modem.Network the network and `ec801e_socket_stack_init`, Modem.Sockets the modem's one socket and
--   name lookup, Modem.Trace the trace page, and Modem.Info the module's data. `ec801e_rsp_buf` is the
--   list of the bytes received; the UART, the clock and the EN pin are a parameter, the board.
--   Modem.Offloaded puts Offload's socket on top of the driver.
-- Hosts: src/main_ec801e_hid.c and src/usb.c, the application that shows a disk with the file hosts.txt
--   to a computer. Hosts.Files is the file and `setup_flash_disk`, Hosts.Refresh reads it again after the
--   computer let go of the disk, Hosts.Label is `set_fat_volume_label`, Hosts.Runs is `main`, and
--   Hosts.Usb the callbacks and `setup_usb_msc`. Hosts.Polled is src/main_hid.c, which reads the file every
--   three seconds. Hosts.Followed and Hosts.Chosen hold what both applications share of the reasoning on
--   the active address. The static variables of both files are one record; the file system, the disk and
--   the USB stack are parameters, and so is what other threads do while `main` sleeps.
-- MainEc801e: src/main_ec801e.c, which asks the modem for its data and has a session with a fixed server.
-- Lamp: src/main_chip_info.c, the display's start and the loop that lets the LED breathe.
-- Tests: the theorems at concrete inputs, with simple devices for the parameters.
--
-- Bounds. A loop over coordinates recurs on its rounds, which are computed before it starts. A loop
-- that ends by its data or by the clock recurs on fuel: one round for each byte of a text, one for each
-- 10 ms of a wait for the panel, one for each byte and each 100 ms of a transfer, and one for each entry
-- of the glyph table. A wait for the modem recurs on the board's `rounds`; a round takes a byte or 10 ms,
-- and more rounds than bytes and milliseconds that can be left change nothing. The wait for the
-- registration with the network, whose deadline moves with every restart of the modem, and the taking of
-- stale bytes recur on the same `rounds`. The check sum is taken modulo 2 ^ 32, and the bytes of the frame
-- buffer are numbers below 256.
--
-- The functions of the C library that read numbers (`sscanf`, `strtol`, `atoi`) read them without a limit.
--
-- An endless loop is its first rounds, for any number of them.
--
-- Not modelled: src/chip_info.c, which only prints, and all log output; the glyph table (src/zpix12_font_data.c), which is data, and the copy
-- of the bitproto library with the codecs it generates.
pub mod Base
pub mod Epd
pub mod Hosts
pub mod Lamp
pub mod Link
pub mod MainEc801e
pub mod Modem
pub mod Offload
pub mod Serv
pub mod Tests
