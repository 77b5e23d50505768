-- ===== src/Lib.antt =====
-- A LoRa gateway for a Raspberry Pi: a program of two processes that polls sensor nodes over a radio
-- and serves a client over TCP (main.c, Src/, Inc/), and the kernel drivers of the SX1278 radio
-- (Driver/sx1278.c) and of the SSD1306 display (Driver/ssd1306.c).
--
-- The parent process keeps the list of nodes and the node file. It asks one node after the other for
-- data, waits for the response or for its timeout, and in between serves the requests that the client
-- process posts in shared memory with SIGUSR2. A text for the client goes the other way: the parent
-- process writes it to the shared memory, signals the client process and waits for its acknowledgement.
-- Packets go to the driver through /dev/lora-0; the driver filters what it receives and signals
-- the parent process with SIGUSR1. The parent process shows the last response on the display through
-- /dev/oled; the display's driver prints further lines by itself.
--
-- Base, Text: shared lists, words, bits, options; C strings, sprintf %d, atoi and strtok. A byte is a
--   number below 256, an int its 32-bit pattern.
-- Packet: struct LoRa_packet, format_pkt (Src/lora.c) and the unpacking of handler_rx_data (main.c).
--   Packet/Copy has the copying loop, Packet/RoundTrip packing and unpacking, Packet/Wire what
--   lora_transmit makes of a packed buffer, Packet/Ended the terminator of unpacked data.
-- Lora: lora_transmit and lora_receive of Src/lora.c.
-- Node: struct LoRa_node, struct time_set, LoRa_init, the constants of Inc/gateway.h, the requests of
--   Src/firebase.c, and Platform: what the program takes from its surroundings (float, uninitialised
--   memory, the database key).
-- Registry: newLoRa, node_count and the node file with add_device, remove_device, setup_node and
--   sync_list_to_file of main.c. Registry/Spec has the abstract list of ids. The nodes of the model are
--   those that lie in the block as a whole: what realloc gives back in remove_device is gone, and what
--   reads behind them is `none`; a node of which the block holds a part counts as gone.
-- Gateway: the parent process of main.c. State has its globals and the shared memory, Request the
--   switch on a request, Response handler_rx_data and get_data_from_node, Round the main loop. The other modules below it are
--   about these: Sound, Membership, Commanded and Served about requests, Sender, Received and Heard about
--   responses, Poll about polling, Running and Scan about the scan loop, Stale about its index.
-- Client: the client process of main.c: recv_msg, send_msg, the handler of SIGUSR2, the connections.
-- Radio: Driver/sx1278.c. Registers has the settings, Transfer LoRa_transmit, LoRa_receive and
--   LoRa_init, Device the interrupt handler, the work queue and the file operations, Library the
--   ioctl calls of Src/lora.c. The chip behind
--   the SPI bus is the parameter Bus; Radio/Chip says what is relied on of it. Probe has sx1278_probe,
--   sx1278_remove and the module's start and end, on a ledger of what is held; Unwinding and Lifetime are
--   about these.
-- Oled: Driver/ssd1306.c and Src/oled.c. The root has the commands, the cursor and the characters, Font,
--   Line and Animation the data of Driver/ssd1306.h, Info the lines that are printed, Bitmap the drawing on
--   the buffer, Device the operations on /dev/oled, probe and shutdown. The display behind the I2C bus is
--   the parameter I2c; Painting says what is relied on of it. Cursor, Glyphs, Texts, Rows and Shown are
--   about texts, Pixels, Shifted, Drawn and Picture about pictures, Overflow about a buffer that is too short, Boot
--   about the animations; Emulator is a display for the tests.
-- Sample and the Tests modules: concrete surroundings and runs.
--
-- State is passed explicitly. A result `none` is an access out of bounds, or a loop that does not end;
-- the C result -1 is a value. What is handed to the outside (radio, client, display, database) is
-- collected in lists.
--
-- Bounds and fuel. The decimal printer has fuel for ten digits, which every 32-bit number fits. The scan
-- loop takes its SCAN_DURATION - 1 turns. The driver's wait for channel activity detection is on fuel,
-- which a caller chooses; its wait for TxDone counts the timeout, a
-- uint16_t that comes back to 0 after 65536 rounds. The handler's search with
-- a uint8_t index is on fuel of 257 rounds: an index that has not come to its end by then has been every
-- uint8_t.
--
-- The parent process waits for the acknowledgement of a text for ever where the client process has no
-- thread that sends: that is `none` too, and a field of World says whether there is one. Signals reach the
-- parent process between the turns of the scan loop, a radio signal, a request or both.
--
-- Not modelled: signals that arrive within a turn of the scan loop, and the request flag of such a
-- request, which line 339 of main.c then clears; a client process that stops answering within a scan;
-- the display driver's registration with the kernel, its timer and its locks, libcurl,
-- sockets, fork and shared memory as system calls, and time: delays are left out, and the time of day is
-- an argument. What sprintf, kstrtoint, filp_open and the network stack give the drivers is an argument
-- where it is not plain text.
pub mod Base
pub mod Text
pub mod Lora
pub mod Packet
pub mod Node
pub mod Sample
pub mod Registry
pub mod Gateway
pub mod Client
pub mod Radio
pub mod Oled
