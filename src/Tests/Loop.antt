-- ===== src/Tests/Loop.antt =====
-- The main loop at concrete frames: a download of three bytes, and an error packet.
use non_os_lite.Prelude.{
  Buf, IsBytes, List, [], arith, inl, map, put8, put_be16, refl, ℕ, ◌+◌, ◌<◌, ◌∷◌, ◌≡◌, ◌≤◌,
}
use non_os_lite.Net.State.{Mac, Net, platform_axi, tftp_handler, tftp_timeout, tftpget}
use non_os_lite.Net.Sample.{blank, device, idle, idle_tftp, our_addr, our_mac, server_addr}
use non_os_lite.Net.Clock.{elapsed, tick_to_time}
use non_os_lite.Net.Receive.{net_receive}
use non_os_lite.Net.Tftp.Receive.{tftp_receive}
use non_os_lite.Net.Tftp.Transfer.{Holds, Loaded}
use non_os_lite.Net.Tftp.Download.{Awaiting}
use non_os_lite.Net.Tftp.File.{Sends}
use non_os_lite.Net.Delivery.Link.{IsMac, Linked, frame_to, net_receive-udp_prepare}
use non_os_lite.Net.Loop.{minus_one, net_round, net_rounds, returned, running}
use non_os_lite.Net.Loop.Errors.{net_round-tftp_error}
use non_os_lite.Net.Loop.Frames.{CanSend, IsWire, OnLine, Sending, Wire, packet_of, round_of}
use non_os_lite.Net.Loop.Download.{net_rounds-download}

abbrev pub file : ℕ → ℕ
file i = i + 65

-- Opcode 3, the block number, and the bytes.
abbrev pub packet : ℕ → ℕ → Buf
packet number first = put8 (put8 (put_be16 (put_be16 blank 42 3) 44 number) 46 first) 47 (first + 1)

pub packet-IsBytes : (number first : ℕ) → first < 255 → IsBytes (packet number first)
packet-IsBytes number first h i = ground arith

abbrev pub server_mac : Mac
server_mac = record { m0 = 2; m1 = 0; m2 = 0; m3 = 0; m4 = 0; m5 = 7 }

pub our_mac-IsMac : IsMac our_mac
our_mac-IsMac = record {
  b0 = omega arith;
  b1 = omega arith;
  b2 = omega arith;
  b3 = omega arith;
  b4 = omega arith;
  b5 = omega arith;
}

pub server_mac-IsMac : IsMac server_mac
server_mac-IsMac = record {
  b0 = omega arith;
  b1 = omega arith;
  b2 = omega arith;
  b3 = omega arith;
  b4 = omega arith;
  b5 = omega arith;
}

abbrev pub sends : Buf → Net
sends m = record idle { our_ether = server_mac; our_ip = server_addr; tx = m }

abbrev pub stopped : ℕ → ℕ
stopped k = 50

abbrev client : Net
client = record idle {
  ticks = stopped;
  server_mac = server_mac;
  udp_handler = tftp_handler;
  time_handler = tftp_timeout;
  time_delta = 705032;
  tftp = record idle_tftp {
    blk_size = 2;
    our_port = 2000;
    remote_port = 69;
    remote_ip = server_addr;
  };
}

abbrev line : Wire
line = record {
  platform = platform_axi;
  ticks = stopped;
  start = 0;
  span = 705032;
  device = device;
  ip = our_addr;
  dport = 2000;
  sport = 1069;
}

line-IsWire : IsWire line
unfolding elapsed tick_to_time
line-IsWire = record {
  steady = record { rises = λ k. omega arith; bounded = λ k. omega arith; no_wrap = omega arith };
  ip32 = omega arith;
  dport16 = omega arith;
  sport16 = omega arith;
}

client-OnLine : OnLine line client
unfolding elapsed tick_to_time
client-OnLine = record {
  same_platform = refl;
  same_ticks = refl;
  device = refl;
  address = refl;
  no_vlan = refl;
  handler = refl;
  no_wait = refl;
  known = refl;
  server = (λ e. absurd (omega arith), λ e. absurd (omega arith));
  timer = refl;
  begun = omega arith;
  since = omega arith;
  not_shorter = omega arith;
  some_msecs = λ e. absurd (omega arith);
  long = omega arith;
}

client-Awaiting : Awaiting file client.ram 2 0x2000000 2000 1069 client
client-Awaiting = record {
  asked = inl refl;
  no_size = refl;
  blk_size = refl;
  our_end = refl;
  load_addr = refl;
  untouched = λ a. refl;
}

abbrev sending : ℕ → ℕ → ℕ → Sending
sending number first bytes = record {
  machine = sends (packet number first);
  to = our_mac;
  bytes = bytes;
  size = 64;
}

sending-CanSend :
    (number first bytes : ℕ) → first < 255 → bytes ≤ 2 → CanSend (sending number first bytes)
sending-CanSend number first bytes h few = record {
  payload = packet-IsBytes number first h;
  to_mac = our_mac-IsMac;
  from_mac = server_mac-IsMac;
  no_vlan = refl;
  fits = omega (arith, few);
  framed = omega (arith, few);
  short = omega arith;
}

abbrev all_sending : List Sending
all_sending = sending 1 65 2 ∷ sending 2 67 1 ∷ []

first_body : Holds file (packet 1 65) 46 0 2
first_body i h = ground arith

second_body : Holds file (packet 2 67) 46 2 1
second_body i h = ground arith

all_sending-Sends : Sends file 2 0 (map packet_of all_sending) 3
all_sending-Sends = (
  record { opcode = refl; number = refl; body = first_body },
  refl,
  (record { opcode = refl; number = refl; body = second_body }, omega arith, refl),
)

net_rounds-download_example :
    (m : Net) × ((net_rounds tftpget (map (round_of line) all_sending) (running client)
        ≡ returned 3 m)
      × Loaded file client.ram 0x2000000 m.ram 3)
net_rounds-download_example =
    net_rounds-download line file client.ram 2 0x2000000 3 all_sending client line-IsWire
      (omega arith) client-Awaiting client-OnLine refl
      (
        sending-CanSend 1 65 2 (omega arith) (omega arith),
        (sending-CanSend 2 67 1 (omega arith) (omega arith), tt),
      )
      all_sending-Sends (omega arith) (omega arith)

linked : (m : Buf) → IsBytes m → Linked (sends m) client our_mac 2000 1069 6 64
linked m bytes = record {
  payload = bytes;
  to_mac = our_mac-IsMac;
  from_mac = server_mac-IsMac;
  sender_plain = refl;
  plain = refl;
  address = omega arith;
  to_port = omega arith;
  from_port = omega arith;
  fits = omega arith;
  long = omega arith;
  short = omega arith;
  expects = refl;
}

net_receive-udp_prepare_example :
    (net_receive (frame_to (sends (packet 1 65)) client our_mac 2000 1069 6) 64 client
      ≡ tftp_receive
          (frame_to (sends (packet 1 65)) client our_mac 2000 1069 6)
          42
          2000
          1069
          6
          client)
    × ((i : ℕ)
        → i < 6
        → frame_to (sends (packet 1 65)) client our_mac 2000 1069 6 (42 + i) ≡ packet 1 65 (42 + i))
net_receive-udp_prepare_example =
    net_receive-udp_prepare (sends (packet 1 65)) client our_mac 2000 1069 6 64
      (linked (packet 1 65) (packet-IsBytes 1 65 (omega arith)))

-- Opcode 5, code 1: the file is not there.
abbrev no_file : Buf
no_file = put_be16 (put_be16 blank 42 5) 44 1

no_file-IsBytes : IsBytes no_file
no_file-IsBytes i = ground arith

net_round-tftp_error_example :
    (m : Net) × (net_round
        (record {
          frames =
              record { size = 64; bytes = frame_to (sends no_file) client our_mac 2000 1069 6 }
              ∷ [];
          key = 0;
        })
        client
      ≡ returned minus_one m)
net_round-tftp_error_example =
    net_round-tftp_error (sends no_file) client device our_mac 2000 1069 6 64 0
      (linked no_file no_file-IsBytes) refl refl (inl refl) (omega arith) refl (inl refl)
