-- ===== src/Net/Loop/Opening.antt =====
-- How a TFTP transfer opens (net/tftp.c, net/arp.c): `TftpStart` leaves the request waiting for the
-- server's Ethernet address, and the ARP reply sends it.
use mathlib.Core.Path.{subst}
use non_os_lite.Prelude.{
  ap, arith, length, ne→==, refl, sym, u32, ℕ, ◌%◌, ◌*◌, ◌+◌, ◌/◌, ◌∙◌, ◌≡◌, ◌≢◌,
}
use non_os_lite.Net.State.{
  Mac, MacRef, Net, null, null_mac, put_mac, send_rrq, server_ether, tftp_handler, tftp_timeout,
}
use non_os_lite.Net.Send.{net_set_timeout, net_wait_arp, set_wait_mac, udp_finish, udp_prepare}
use non_os_lite.Net.Clock.{get_timer}
use non_os_lite.Net.Eth.{net_send_packet}
use non_os_lite.Net.Arp.{arp_raw_request, arp_request, arp_resolved, store_mac}
use non_os_lite.Net.Quick.{Quick, net_send_packet-Quick, tftp_queue-Quick, udp_prepare-Quick}
use non_os_lite.Net.Keeps.{Keeps, net_send_packet-Keeps}
use non_os_lite.Net.Deferral.{Unicast, deferred, net_send_udp_packet-deferred}
use non_os_lite.Net.Loop.Live.{clock}
use non_os_lite.Net.Tftp.Start.{tftp_begin, tftp_block_size, tftp_target, well_known_port}
use non_os_lite.Net.Tftp.Send.{tftp_payload, tftp_queue, tftp_send}

-- The clock is read `k` times; the timeout and the link stay.
pub record Reads (k : ℕ) (a b : Net) : Type 0 where
  pub same_platform : b.platform ≡ a.platform
  pub same_ticks : b.ticks ≡ a.ticks
  pub some_reads : b.reads ≡ a.reads + k
  pub same_vlan : b.our_vlan ≡ a.our_vlan
  pub same_time_handler : b.time_handler ≡ a.time_handler
  pub same_time_start : b.time_start ≡ a.time_start
  pub same_time_delta : b.time_delta ≡ a.time_delta

Reads-Quick : {a b c : Net} (k : ℕ) → Quick a b → Reads k b c → Reads k a c
Reads-Quick k p q = record {
  same_platform = q.same_platform ∙ p.same_platform;
  same_ticks = q.same_ticks ∙ p.same_ticks;
  some_reads = q.some_reads ∙ ap (λ r. r + k) p.same_reads;
  same_vlan = q.same_vlan ∙ p.same_vlan;
  same_time_handler = q.same_time_handler ∙ p.same_time_handler;
  same_time_start = q.same_time_start ∙ p.same_time_start;
  same_time_delta = q.same_time_delta ∙ p.same_time_delta;
}

Quick-Reads : {b c : Net} (k : ℕ) (a : Net) → Reads k a b → Quick b c → Reads k a c
Quick-Reads k a p q = record {
  same_platform = q.same_platform ∙ p.same_platform;
  same_ticks = q.same_ticks ∙ p.same_ticks;
  some_reads = q.same_reads ∙ p.some_reads;
  same_vlan = q.same_vlan ∙ p.same_vlan;
  same_time_handler = q.same_time_handler ∙ p.same_time_handler;
  same_time_start = q.same_time_start ∙ p.same_time_start;
  same_time_delta = q.same_time_delta ∙ p.same_time_delta;
}

-- Asking for the address reads the clock once.
net_wait_arp-Reads :
    (dest size : ℕ) (n : Net) → Reads 1 n (net_wait_arp dest size (set_wait_mac server_ether n))
unfolding net_wait_arp get_timer arp_request arp_raw_request
net_wait_arp-Reads dest size n =
    Quick-Reads 1 n
      (record {
        same_platform = refl;
        same_ticks = refl;
        some_reads = refl;
        same_vlan = refl;
        same_time_handler = refl;
        same_time_start = refl;
        same_time_delta = refl;
      })
      (net_send_packet-Quick _ _ _)

deferred-Reads :
    (dest dport sport len : ℕ) (n : Net) → Reads 1 n (deferred dest dport sport len n null_mac).1
unfolding deferred udp_finish
deferred-Reads dest dport sport len n =
    Reads-Quick 1 (udp_prepare-Quick null_mac dest dport sport len n)
      (net_wait_arp-Reads dest _ (udp_prepare null_mac dest dport sport len n).1)

pub tftp_send-Reads :
    (n : Net) → Unicast n.tftp.remote_ip → n.server_mac ≡ null_mac → Reads 1 n (tftp_send n)
unfolding tftp_send
tftp_send-Reads n u unknown =
    let len = length (tftp_payload n.tftp) in
    rw
      (net_send_udp_packet-deferred n.tftp.remote_ip n.tftp.remote_port n.tftp.our_port len
        (tftp_queue n) u unknown)
      (Reads-Quick 1 (tftp_queue-Quick n)
        (deferred-Reads n.tftp.remote_ip n.tftp.remote_port n.tftp.our_port len (tftp_queue n)))

-- The reply gives the server its address, and the packet that waited is gone.
pub record Answered (sha : Mac) (a b : Net) : Type 0 where
  pub kept : Keeps a b
  pub same_platform : b.platform ≡ a.platform
  pub same_ticks : b.ticks ≡ a.ticks
  pub same_reads : b.reads ≡ a.reads
  pub same_vlan : b.our_vlan ≡ a.our_vlan
  pub same_time_handler : b.time_handler ≡ a.time_handler
  pub same_time_start : b.time_start ≡ a.time_start
  pub same_time_delta : b.time_delta ≡ a.time_delta
  pub no_wait : b.arp.wait_packet_ip ≡ 0
  pub known : b.server_mac ≡ sha

-- The reply with the pointer to the address given.
resolved : MacRef → Mac → Net → Net
resolved r sha n =
    let n1 = store_mac r sha n in
    let n2 = record n1 { tx = put_mac n1.tx 0 sha } in
    let n3 = net_send_packet n2.tx n2.arp.wait_tx_packet_size n2 in
    record n3 {
      arp = record n3.arp { wait_packet_ip = 0; wait_tx_packet_size = 0; wait_packet_mac = null };
    }

resolved-Answered : (sha : Mac) (n : Net) → Answered sha n (resolved server_ether sha n)
unfolding resolved
resolved-Answered sha n =
    let n2 : Net = record n { server_mac = sha; tx = put_mac n.tx 0 sha } in
    let k = net_send_packet-Keeps n2.tx n.arp.wait_tx_packet_size n2 in
    let q = net_send_packet-Quick n2.tx n.arp.wait_tx_packet_size n2 in
    record {
      kept = record {
        same_tftp = k.same_tftp;
        same_ram = k.same_ram;
        same_size = k.same_size;
        same_load_addr = k.same_load_addr;
        same_net_state = k.same_net_state;
        same_udp_handler = k.same_udp_handler;
        same_eth_current = k.same_eth_current;
        same_our_ip = k.same_our_ip;
      };
      same_platform = q.same_platform;
      same_ticks = q.same_ticks;
      same_reads = q.same_reads;
      same_vlan = q.same_vlan;
      same_time_handler = q.same_time_handler;
      same_time_start = q.same_time_start;
      same_time_delta = q.same_time_delta;
      no_wait = refl;
      known = q.same_server_mac;
    }

pub arp_resolved-Answered :
    (sha : Mac) (n : Net)
    → n.arp.wait_packet_mac ≡ server_ether
    → Answered sha n (arp_resolved sha n)
unfolding arp_resolved resolved
arp_resolved-Answered sha n at_server =
    subst (λ r. Answered sha n (resolved r sha n)) (sym at_server) (resolved-Answered sha n)

-- What `TftpStart` has set when it sends the request.
pub record Begun (n b : Net) : Type 0 where
  pub same_platform : b.platform ≡ n.platform
  pub same_ticks : b.ticks ≡ n.ticks
  pub some_reads : b.reads ≡ n.reads + 3
  pub same_vlan : b.our_vlan ≡ n.our_vlan
  pub same_device : b.eth_current ≡ n.eth_current
  pub same_ip : b.our_ip ≡ n.our_ip
  pub same_size : b.boot_file_xfer_size ≡ n.boot_file_xfer_size
  pub same_load_addr : b.load_addr ≡ n.load_addr
  pub same_ram : b.ram ≡ n.ram
  pub same_net_state : b.net_state ≡ n.net_state
  pub asked : b.tftp.state ≡ send_rrq
  pub blk_size : b.tftp.blk_size ≡ tftp_block_size
  pub target : b.tftp.remote_ip ≡ (tftp_target n).0
  pub same_msecs : b.tftp.timeout_msecs ≡ n.tftp.timeout_msecs
  pub handler : b.udp_handler ≡ tftp_handler
  pub timer : b.time_handler ≡ tftp_timeout
  pub started : b.time_start ≡ clock n.platform n.ticks (n.reads + 1)
  pub delta : b.time_delta ≡ u32 (n.tftp.timeout_msecs * n.platform.sys_hz) / 1000
  pub unknown : b.server_mac ≡ null_mac

-- `TftpStart` in front of `NetSetTimeout`, and behind it.
before_timeout : Net → Net
before_timeout n =
    let (t, n1) = get_timer 0 (record n {
      tftp = record n.tftp {
        remote_ip = (tftp_target n).0;
        filename = (tftp_target n).1;
        state = send_rrq;
      };
    }) in
    record n1 {
      tftp = record n1.tftp { start_time = t; timeout_count_max = n1.tftp.rrq_timeout_count_max };
    }

behind_timeout : Net → Net
behind_timeout n =
    let (port_time, n1) = get_timer 0 (record n { udp_handler = tftp_handler }) in
    record n1 {
      tftp = record n1.tftp {
        remote_port = well_known_port;
        timeout_count = 0;
        our_port = 1024 + port_time % 3072;
        block = 0;
        blk_size = tftp_block_size;
      };
      server_mac = null_mac;
    }

timed : ℕ → Net → Net
timed iv n = record n {
  reads = n.reads + 1;
  time_handler = tftp_timeout;
  time_start = clock n.platform n.ticks n.reads;
  time_delta = u32 (iv * n.platform.sys_hz) / 1000;
}

net_set_timeout-timed : (iv : ℕ) (n : Net) → iv ≢ 0 → net_set_timeout iv tftp_timeout n ≡ timed iv n
unfolding net_set_timeout get_timer timed
net_set_timeout-timed iv n h = rw (ne→== iv 0 h) refl

behind_timeout-Begun :
    (n : Net) → Begun n (behind_timeout (timed n.tftp.timeout_msecs (before_timeout n)))
unfolding behind_timeout timed before_timeout get_timer
behind_timeout-Begun n = record {
  same_platform = refl;
  same_ticks = refl;
  some_reads = omega arith;
  same_vlan = refl;
  same_device = refl;
  same_ip = refl;
  same_size = refl;
  same_load_addr = refl;
  same_ram = refl;
  same_net_state = refl;
  asked = refl;
  blk_size = refl;
  target = refl;
  same_msecs = refl;
  handler = refl;
  timer = refl;
  started = refl;
  delta = refl;
  unknown = refl;
}

tftp_begin-timeout :
    (n : Net)
    → tftp_begin n
      ≡ behind_timeout (net_set_timeout n.tftp.timeout_msecs tftp_timeout (before_timeout n))
unfolding tftp_begin behind_timeout before_timeout get_timer
tftp_begin-timeout n = refl

pub tftp_begin-Begun : (n : Net) → n.tftp.timeout_msecs ≢ 0 → Begun n (tftp_begin n)
tftp_begin-Begun n some_msecs =
    subst (Begun n)
      (sym (
        tftp_begin-timeout n
        ∙ ap behind_timeout
            (net_set_timeout-timed n.tftp.timeout_msecs (before_timeout n) some_msecs)))
      (behind_timeout-Begun n)
