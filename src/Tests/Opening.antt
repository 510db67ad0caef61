-- ===== src/Tests/Opening.antt =====
-- A download from its start, at concrete frames: the ARP reply of the server, and a file of two bytes.
use non_os_lite.Prelude.{
  List, [], arith, map, put_be16, refl, some, ℕ, ◌*◌, ◌+◌, ◌^◌, ◌∷◌, ◌≡◌, ◌≤◌,
}
use non_os_lite.Net.State.{Frame, Net, tftpget}
use non_os_lite.Net.Sample.{blank, device, idle, our_addr, our_mac, server_addr}
use non_os_lite.Net.Clock.{elapsed, get_timer, tick_to_time}
use non_os_lite.Net.Arp.{
  arp_accepts, arp_fields, arp_init, arp_raw_request, arp_reply_ip, arp_request,
}
use non_os_lite.Net.Eth.{
  copy_filename, copy_filename_loop, eth_env_init, eth_send, net_send_packet, registers,
}
use non_os_lite.Net.Header.{net_set_ether, net_set_ip_header, net_set_udp_header}
use non_os_lite.Net.Send.{
  net_clear_handlers, net_send_udp_packet, net_set_timeout, net_wait_arp, udp_finish, udp_prepare,
}
use non_os_lite.Net.Tftp.Start.{after_colon, tftp_begin, tftp_start, tftp_target}
use non_os_lite.Net.Tftp.Send.{tftp_send}
use non_os_lite.Net.Tftp.Transfer.{Holds, Loaded}
use non_os_lite.Net.Loop.{net_loop, returned}
use non_os_lite.Net.Loop.Frames.{CanSend, IsWire, Sending, Wire, packet_of, round_of}
use non_os_lite.Net.Loop.Request.{Ready}
use non_os_lite.Net.Loop.Called.{entered, net_loop-download}
use non_os_lite.Net.Text.{string_to_ip, string_to_ip_loop}
use non_os_lite.Clib.Strtoul.{strtoul, strtoul_dec, strtoul_hex}
use non_os_lite.Net.Loop.Whole.{ReplyFrame, opened_wire, reply_round}
use non_os_lite.Net.Eth.{copy_filename, copy_filename_loop, eth_env_init, registers}
use non_os_lite.Net.Tftp.File.{Sends}
use non_os_lite.Net.Loop.Frames.{packet_of}
use non_os_lite.Cli.Exec.Run.{Host, Shell, booted, do_tftpboot, tftpboot_options}
use non_os_lite.Cli.Exec.Kernel.{called, do_tftpboot-download}
use non_os_lite.Clib.Strtoul.{strtoul_hex}
use non_os_lite.Tests.Exec.{host, no_handlers}
use non_os_lite.Prelude.{List, ℕ, some}
use non_os_lite.Tests.Loop.{
  file, our_mac-IsMac, packet, packet-IsBytes, sends, server_mac, server_mac-IsMac, stopped,
}

-- "tftpboot f 8" on a machine with one device.
abbrev command : List (List ℕ)
command = (b'f' ∷ []) ∷ (b'8' ∷ []) ∷ []

abbrev prompt : Shell
prompt = record { net = record idle { ticks = stopped }; handlers = no_handlers; printed = [] }

abbrev board : Net
board = called device (b'f' ∷ []) ((b'8' ∷ []) ∷ []) prompt.net

abbrev starter : Net
starter = entered device board

starter-Ready : Ready starter device 705032
unfolding eth_env_init copy_filename copy_filename_loop tftpboot_options strtoul_hex after_colon
    elapsed tick_to_time tftp_target string_to_ip string_to_ip_loop strtoul strtoul_dec arp_init
    net_clear_handlers net_set_timeout
starter-Ready = record {
  device = refl;
  no_vlan = refl;
  server = (λ e. absurd (omega arith), λ e. absurd (omega arith));
  some_msecs = λ e. absurd (omega arith);
  steady = record { rises = λ k. omega arith; bounded = λ k. omega arith; no_wrap = omega arith };
  long = omega arith;
  no_size = refl;
  going = refl;
}

-- The server's answer.
abbrev answer : Frame
answer = record {
  size = 60;
  bytes =
      put_be16 (put_be16 (arp_fields blank 14 server_mac server_addr our_mac our_addr) 20 2) 12
        0x806;
}

answer-ReplyFrame : ReplyFrame answer server_mac (tftp_start starter)
unfolding eth_env_init copy_filename copy_filename_loop tftpboot_options strtoul_hex after_colon
    arp_accepts arp_reply_ip arp_fields tftp_start tftp_begin tftp_target tftp_send
    net_send_udp_packet udp_prepare udp_finish net_set_ether net_set_udp_header net_set_ip_header
    net_wait_arp arp_request arp_raw_request get_timer net_send_packet eth_send net_set_timeout
    string_to_ip string_to_ip_loop strtoul strtoul_dec arp_init net_clear_handlers
answer-ReplyFrame = record {
  arp = refl;
  long = omega arith;
  reply = record { accepted = refl; op = refl; from = refl; address = refl; known = refl };
}

abbrev begun_line : Wire
begun_line = opened_wire starter device 705032 1069

begun_line-IsWire : IsWire begun_line
unfolding eth_env_init copy_filename copy_filename_loop tftpboot_options strtoul_hex after_colon
    elapsed tick_to_time tftp_begin get_timer net_set_timeout tftp_target string_to_ip
    string_to_ip_loop strtoul strtoul_dec arp_init net_clear_handlers
begun_line-IsWire = record {
  steady = record { rises = λ k. omega arith; bounded = λ k. omega arith; no_wrap = omega arith };
  ip32 = omega arith;
  dport16 = omega arith;
  sport16 = omega arith;
}

abbrev only_block : Sending
only_block = record { machine = sends (packet 1 65); to = our_mac; bytes = 2; size = 64 }

only_block-CanSend : CanSend only_block
only_block-CanSend = record {
  payload = packet-IsBytes 1 65 (omega arith);
  to_mac = our_mac-IsMac;
  from_mac = server_mac-IsMac;
  no_vlan = refl;
  fits = omega arith;
  framed = omega arith;
  short = omega arith;
}

only_body : Holds file (packet 1 65) 46 0 2
only_body i h = ground arith

only_block-Sends : Sends file 512 0 (map packet_of (only_block ∷ [])) 2
only_block-Sends = (record { opcode = refl; number = refl; body = only_body }, omega arith, refl)

starter-room : starter.load_addr + 512 * 1 ≤ 2 ^ 32
unfolding eth_env_init tftpboot_options arp_init net_clear_handlers net_set_timeout strtoul
    strtoul_hex
starter-room = omega arith

net_loop-download_example :
    (m : Net) × ((net_loop tftpget
          (reply_round answer ∷ map (round_of begun_line) (only_block ∷ []))
          board
        ≡ returned 2 m)
      × Loaded file board.ram starter.load_addr m.ram 2)
net_loop-download_example =
    net_loop-download board device 705032 answer server_mac file 1069 2 (only_block ∷ []) refl refl
      starter-Ready answer-ReplyFrame begun_line-IsWire (only_block-CanSend, tt) only_block-Sends
      (omega arith) starter-room

abbrev connected : Host
connected = record host {
  board = registers (some device);
  rounds = reply_round answer ∷ map (round_of begun_line) (only_block ∷ []);
}

do_tftpboot-download_example :
    (m : Net) × ((do_tftpboot connected command prompt ≡ booted 8 (record prompt { net = m }))
      × Loaded file prompt.net.ram 8 m.ram 2)
unfolding strtoul strtoul_hex
do_tftpboot-download_example =
    do_tftpboot-download connected device (b'f' ∷ []) ((b'8' ∷ []) ∷ []) prompt 705032 answer
      server_mac file 1069 2 (only_block ∷ []) refl refl refl starter-Ready answer-ReplyFrame
      begun_line-IsWire (only_block-CanSend, tt) only_block-Sends (omega arith) (omega arith)
      starter-room
