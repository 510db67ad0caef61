-- ===== src/Net/State.antt =====
-- The globals of net/net_core.c, net/arp.c, net/ping.c, net/tftp.c and net/eth.c as one record, and
-- the data types of include/net_core.h. An IPaddr_t is the 32-bit word that the little-endian
-- machine holds, its bytes in network order.
use non_os_lite.Prelude.{Bool, Buf, List, Option, put8, ℕ, ◌&&◌, ◌+◌, ◌==◌}

-- What platform_A320.h, platform_AHB.h and platform_AXI.h fix: CONFIG_SYS_HZ and TIMER_CLOCK.
pub record Platform : Type 0 where
  pub sys_hz : ℕ
  pub timer_clock : ℕ

abbrev pub platform_a320 : Platform
platform_a320 = record { sys_hz = 1000; timer_clock = 32768 }

abbrev pub platform_ahb : Platform
platform_ahb = record { sys_hz = 1000; timer_clock = 37748736 }

abbrev pub platform_axi : Platform
platform_axi = record { sys_hz = 1000000; timer_clock = 50000000 }

-- The six bytes of an Ethernet address.
pub record Mac : Type 0 where
  pub m0 : ℕ
  pub m1 : ℕ
  pub m2 : ℕ
  pub m3 : ℕ
  pub m4 : ℕ
  pub m5 : ℕ

abbrev pub null_mac : Mac
null_mac = record { m0 = 0; m1 = 0; m2 = 0; m3 = 0; m4 = 0; m5 = 0 }

-- `memcmp(a, b, 6) == 0`
abbrev pub mac_eq : Mac → Mac → Bool
mac_eq a b =
    a.m0 == b.m0
    && (a.m1 == b.m1 && (a.m2 == b.m2 && (a.m3 == b.m3 && (a.m4 == b.m4 && a.m5 == b.m5))))

-- `memcpy(p, mac, 6)` into a packet, and out of one.
abbrev pub put_mac : Buf → ℕ → Mac → Buf
put_mac b p m =
    put8
      (put8 (put8 (put8 (put8 (put8 b p m.m0) (p + 1) m.m1) (p + 2) m.m2) (p + 3) m.m3) (p + 4)
        m.m4)
      (p + 5) m.m5

abbrev pub get_mac : Buf → ℕ → Mac
get_mac b p = record {
  m0 = b p;
  m1 = b (p + 1);
  m2 = b (p + 2);
  m3 = b (p + 3);
  m4 = b (p + 4);
  m5 = b (p + 5);
}

-- A pointer to an Ethernet address: NULL, NetServerEther or NetBcastAddr.
pub data MacRef : Type 0 where
  null server_ether bcast_addr : MacRef

pub data LoopState : Type 0 where
  netloop_continue netloop_restart netloop_success netloop_fail : LoopState

-- The UDP handlers and the timeout handlers that the code installs. (The only ARP handler is
-- `dummy_handler`, which does nothing; the pointers are NULL only before the first `net_init`.)
pub data RxHandler : Type 0 where
  dummy_handler tftp_handler : RxHandler

pub data TimeHandler : Type 0 where
  no_handler tftp_timeout ping_timeout : TimeHandler

pub data Proto : Type 0 where
  tftpget tftpput ping : Proto
  other_proto : ℕ → Proto

pub data TftpState : Type 0 where
  send_rrq data_state too_large bad_magic oack recv_wrq send_wrq : TftpState

pub data DeviceState : Type 0 where
  init passive active : DeviceState

-- `struct eth_device`: what the code under net/ reads and writes of it.
pub record Device : Type 0 where
  pub enetaddr : Mac
  pub device_state : DeviceState

-- A frame handed to the driver: its length, and the buffer at that moment.
pub record Frame : Type 0 where
  pub size : ℕ
  pub bytes : Buf

pub record ArpState : Type 0 where
  pub wait_packet_ip : ℕ
  pub wait_reply_ip : ℕ
  pub wait_packet_mac : MacRef
  pub wait_tx_packet_size : ℕ
  pub wait_timer_start : ℕ
  pub wait_try : ℕ
  pub arp_tx : Buf

pub record Tftp : Type 0 where
  pub timeout_msecs : ℕ
  pub timeout_count_max : ℕ
  pub rrq_timeout_count_max : ℕ
  pub start_time : ℕ
  pub remote_ip : ℕ
  pub remote_port : ℕ
  pub our_port : ℕ
  pub timeout_count : ℕ
  pub block : ℕ
  pub last_block : ℕ
  pub block_wrap : ℕ
  pub block_wrap_offset : ℕ
  pub state : TftpState
  pub blk_size : ℕ
  pub blk_size_option : ℕ
  pub filename : List ℕ

pub record Net : Type 0 where
  pub platform : Platform
  -- the value of `get_ticks` at its n-th call, and the number of calls made
  pub ticks : ℕ → ℕ
  pub reads : ℕ
  pub our_subnet_mask : ℕ
  pub our_gateway_ip : ℕ
  pub our_ip : ℕ
  pub server_ip : ℕ
  pub boot_file_xfer_size : ℕ
  pub our_ether : Mac
  pub server_mac : Mac
  pub bcast_mac : Mac
  pub ip_id : ℕ
  pub net_state : LoopState
  pub our_vlan : ℕ
  pub our_native_vlan : ℕ
  pub boot_file : List ℕ
  pub first_call : Bool
  pub udp_handler : RxHandler
  pub time_handler : TimeHandler
  pub time_start : ℕ
  pub time_delta : ℕ
  pub tx : Buf
  pub eth_current : Option Device
  -- the frames handed to the driver, the newest first
  pub sent : List Frame
  pub arp : ArpState
  pub tftp : Tftp
  pub ping_ip : ℕ
  pub ping_seq_no : ℕ
  pub load_addr : ℕ
  pub ram : Buf

-- `*p` for a pointer to an address; NULL is read nowhere.
abbrev pub deref : MacRef → Net → Mac
deref null n = null_mac
deref server_ether n = n.server_mac
deref bcast_addr n = n.bcast_mac
