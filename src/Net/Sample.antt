-- ===== src/Net/Sample.antt =====
-- A board with a network device, just started, as the tests use it.
use non_os_lite.Prelude.{Buf, [], some, true, ℕ, ◌*◌}
use non_os_lite.Net.State.{
  ArpState, Device, DeviceState, Mac, Net, Tftp, dummy_handler, netloop_continue, no_handler, null,
  null_mac, platform_axi, send_rrq,
}

abbrev pub our_mac : Mac
our_mac = record { m0 = 0; m1 = 0x84; m2 = 0x14; m3 = 0x72; m4 = 0x61; m5 = 0x69 }

abbrev pub all_ones : Mac
all_ones = record { m0 = 255; m1 = 255; m2 = 255; m3 = 255; m4 = 255; m5 = 255 }

abbrev pub device : Device
device = record { enetaddr = our_mac; device_state = DeviceState.init }

abbrev pub blank : Buf
blank a = 0

abbrev pub idle_arp : ArpState
idle_arp = record {
  wait_packet_ip = 0;
  wait_reply_ip = 0;
  wait_packet_mac = null;
  wait_tx_packet_size = 0;
  wait_timer_start = 0;
  wait_try = 0;
  arp_tx = blank;
}

abbrev pub idle_tftp : Tftp
idle_tftp = record {
  timeout_msecs = 5000;
  timeout_count_max = 10;
  rrq_timeout_count_max = 10;
  start_time = 0;
  remote_ip = 0;
  remote_port = 0;
  our_port = 0;
  timeout_count = 0;
  block = 0;
  last_block = 0;
  block_wrap = 0;
  block_wrap_offset = 0;
  state = send_rrq;
  blk_size = 512;
  blk_size_option = 1468;
  filename = [];
}

-- 10.0.0.179 and 10.0.0.128
abbrev pub our_addr : ℕ
our_addr = 0xb300000a

abbrev pub server_addr : ℕ
server_addr = 0x8000000a

abbrev pub idle : Net
idle = record {
  platform = platform_axi;
  ticks = λ k. 50 * k;
  reads = 0;
  our_subnet_mask = 0x00ffffff;
  our_gateway_ip = 0xfe00000a;
  our_ip = our_addr;
  server_ip = server_addr;
  boot_file_xfer_size = 0;
  our_ether = our_mac;
  server_mac = null_mac;
  bcast_mac = all_ones;
  ip_id = 0;
  net_state = netloop_continue;
  our_vlan = 0xffff;
  our_native_vlan = 0xffff;
  boot_file = [];
  first_call = true;
  udp_handler = dummy_handler;
  time_handler = no_handler;
  time_start = 0;
  time_delta = 0;
  tx = blank;
  eth_current = some device;
  sent = [];
  arp = idle_arp;
  tftp = idle_tftp;
  ping_ip = 0;
  ping_seq_no = 0;
  load_addr = 0x2000000;
  ram = blank;
}
