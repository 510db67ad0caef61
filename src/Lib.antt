-- ===== src/Lib.antt =====
-- non-os.lite: a bare-metal runtime for Faraday ARM platforms, with a UDP/IP network stack taken
-- over from U-Boot, which loads a file by TFTP and answers and sends pings.
--
-- The parts and the files that model them. A function of the code is a function here under its name
-- in lower case, and takes and gives back the state that the code keeps in globals.
--   * Prelude: machine words, byte buffers and lists over the native numbers.
--   * Clib: strtoul and strtol (lib/mylibc/stdlib), and the formatter
--     lib/mylibc/stdio/simple_printf.c: Clib.Decimal has its decimal conversion, Clib.Printf the
--     layout of a field, Clib.Printf.Format the reading of a format, and Clib.Printf.Output the
--     buffer, the console and the entry points sprintf, snprintf and prints. A formatted text is
--     the list of the characters added, and goes to the output in one piece; with no buffer that
--     is the console of Uart. Clib.Printf's Fuel,
--     Width, Texts, Hex, Written, Effect and Console, Clib.Roundtrip, Net.Printed and
--     Cli.Memory.Printed hold the proofs.
--   * Net.State: the globals of net/*.c as one record. Net.Clock: lib/timer.c. Net.Eth: the device
--     layer net/eth.c. Net.Header, Net.Cksum, Net.Send, Net.Receive and Net.Loop: net/net_core.c.
--     Net.Text: net/net_utils.c. Net.Arp: net/arp.c. Net.Ping: net/ping.c. Net.Tftp: net/tftp.c.
--   * Net.Keeps says which fields the sending functions leave alone. Net.Deferral, Net.Delivery,
--     Net.Ping.Answer, Net.Cksum.Laws, Net.Text.Laws, Net.Loop.Ends, Net.Loop.Timeouts,
--     Net.Clock.Delay, Net.Eth.Filename and Net.Tftp's Offset, Transfer, Download, File and
--     Duplicate hold the proofs. Net.Quick, Net.Delivery.Link and Net.Loop's Errors, Live,
--     Frames, Steps and Download hold those about whole frames in the rounds of the loop;
--     Net.Untouched and Net.Loop's Keeping, Inert and Entry those about what the loop leaves
--     alone; Net.Loop's Opening, Request, Whole and Called the start of a transfer and its whole run.
--   * Cli: the shell lib/cli.c. Cli.Line: the line editor. Cli.Memory: md and mw. Cli.Exec.Table:
--     the command table. Cli.Exec.Run: cmd_exec, tftpboot, ping and irq. Cli.Exec.Prompt: the
--     shell's loop. Cli.Line.Editing, Cli.Memory.Fill and Cli.Exec's Words, Dispatch, Typing,
--     Session, Boot and Kernel hold the proofs.
--   * Irq: drivers/interrupt/ftintc010.c and the dispatch of lib/traps.c; Irq.Bits,
--     Irq.Controller and Irq.Dispatch hold the proofs.
--   * Ticks: get_ticks of drivers/timer/fttmr010.c. Fttmr: the rest of that file; Fttmr.Lines
--     and Fttmr.Isr hold the proofs.
--   * Uart: drivers/console/ftuart.c; Uart.Lines holds the proofs.
--   * Dma: drivers/dma. Dma.Dmac020 and Dma.Dmac030 have the functions of the files of these names
--     over a bus of 32-bit words, Dma.Channels holds the proofs.
--   * Tests: the theorems at concrete inputs, and runs of the code.
--
-- How they interact: NetLoop polls the device, whose driver hands each frame to NetReceive, which
-- hands it to ARP, ICMP or the UDP handler; these send frames themselves, through the device
-- layer. NetLoop then tests the ARP timeout and the timeout of the command that runs, and looks
-- at the loop state that the handlers set.
--
-- The state. A buffer is a function from offsets to bytes, and so is memory. A pointer into a
-- packet is an offset. The clock is a stream of readings of get_ticks, with the number of
-- readings made; frames that arrive and keys that are pressed are given per round of the loop;
-- frames that are sent are kept in a list, the newest first, each with the buffer's contents at
-- that moment. The memory that store_block copies to is kept apart from the globals and the packet
-- buffers: blocks that a server puts over these change them in the code, and not in the model.
-- Integers are native numbers with the wrap-around of their width written out; a
-- negative int is its bit pattern. An IPaddr_t is the 32-bit word of the little-endian machine.
--
-- Bounds. NetLoop is run over a given list of rounds, since it may go on for ever; the result
-- says whether it returned, is still running, or read through a NULL pointer. put_dec has three
-- rounds of five digits, more than a 32-bit number has. The loop of do_irq has 32 rounds, one for
-- each line. A line is split into at most one token more than it has characters. The formatter
-- takes one round more than the format has characters, and each round takes a character at least;
-- 22 rounds of three bits are a 64-bit number in base 8 or 16. All other loops are structural.
--
-- The configuration is that of the build: no CONFIG_IP_DEFRAG, CONFIG_UDP_CHECKSUM,
-- CONFIG_CMD_RARP, CONFIG_CMD_TFTPPUT, CONFIG_CMD_TFTPSRV or CONFIG_TFTP_TSIZE.
--
-- Not modelled: the conversions f and g (floating point) and n (a store through a pointer) of the
-- formatter, whose result is then not defined, as it is for arguments that do not fit the format;
-- an int that overflows in a width, which is undefined behaviour too; the driver of the static memory controller; the messages
-- that the code prints, but for those of the shell's commands; the copies of other libraries under lib/mylibc and lib/mylibm,
-- of which cmd_exec's strtok and strcmp are parameters; the caches, so that disable_d_cache in
-- tftpboot is not seen. board_eth_init and the Ethernet driver, which are not in the repository,
-- are inputs of the functions that use them.
pub mod Prelude
pub mod Clib
pub mod Net
pub mod Cli
pub mod Irq
pub mod Fttmr
pub mod Uart
pub mod Dma
pub mod Ticks
mod Tests
