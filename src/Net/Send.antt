-- ===== src/Net/Send.antt =====
-- The timeout handler and the transmission of UDP packets in net/net_core.c.
use non_os_lite.Prelude.{Bool, false, if◌then◌else◌, true, u32, ℕ, ◌*◌, ◌+◌, ◌/◌, ◌==◌}
use non_os_lite.Net.State.{
  Mac, MacRef, Net, TimeHandler, bcast_addr, deref, dummy_handler, mac_eq, no_handler, null_mac,
}
use non_os_lite.Net.Clock.{get_timer}
use non_os_lite.Net.Eth.{net_send_packet}
use non_os_lite.Net.Header.{ip_udp_hdr_size, net_set_ether, net_set_udp_header, prot_ip}
use non_os_lite.Net.Arp.{arp_request}

-- `NetSetTimeout(iv, f)`; `iv * CONFIG_SYS_HZ` is computed in 32 bits.
unfoldable pub net_set_timeout : ℕ → TimeHandler → Net → Net
net_set_timeout iv f n =
    if iv == 0
    then record n { time_handler = no_handler }
    else let (t, n1) = get_timer 0 n in
      record n1 {
        time_handler = f;
        time_start = t;
        time_delta = u32 (iv * n.platform.sys_hz) / 1000;
      }

unfoldable pub net_clear_handlers : Net → Net
net_clear_handlers n = net_set_timeout 0 no_handler (record n { udp_handler = dummy_handler })

-- The packet in NetTxPacket waits until the address is known.
unfoldable pub net_wait_arp : ℕ → ℕ → Net → Net
net_wait_arp dest size n =
    let n1 = record n {
      arp = record n.arp { wait_tx_packet_size = size; wait_try = 1; wait_packet_ip = dest };
    } in
    let (t, n2) = get_timer 0 n1 in
    arp_request (record n2 { arp = record n2.arp { wait_timer_start = t } })

abbrev pub ip_broadcast : ℕ
ip_broadcast = 0xffffffff

-- The broadcast forms of the destination address and of the Ethernet address.
abbrev pub udp_dest : ℕ → ℕ
udp_dest dest = if dest == 0 then ip_broadcast else dest

abbrev pub udp_ether : MacRef → ℕ → MacRef
udp_ether ether dest = if udp_dest dest == ip_broadcast then bcast_addr else ether

-- The headers, written in front of the payload: the size of the Ethernet header, and the new state.
unfoldable pub udp_prepare : Mac → ℕ → ℕ → ℕ → ℕ → Net → ℕ × Net
udp_prepare mac dest dport sport payload_len n =
    let (pkt, eth_hdr_size) = net_set_ether n.tx mac prot_ip n in
    let (pkt', n1) = net_set_udp_header pkt eth_hdr_size dest dport sport payload_len n in
    (eth_hdr_size, record n1 { tx = pkt' })

abbrev pub set_wait_mac : MacRef → Net → Net
set_wait_mac ether n = record n { arp = record n.arp { wait_packet_mac = ether } }

-- `true` if the packet waits for the answer to an ARP request, `false` if it went out.
unfoldable pub udp_finish : Mac → MacRef → ℕ → ℕ → Net → Bool × Net
udp_finish mac ether dest size n =
    if mac_eq mac null_mac
    then (true, net_wait_arp dest size (set_wait_mac ether n))
    else (false, net_send_packet n.tx size n)

unfoldable pub net_send_udp_packet : MacRef → ℕ → ℕ → ℕ → ℕ → Net → Bool × Net
net_send_udp_packet ether dest dport sport payload_len n =
    let mac = deref (udp_ether ether dest) n in
    let (eth_hdr_size, n1) = udp_prepare mac (udp_dest dest) dport sport payload_len n in
    udp_finish mac (udp_ether ether dest) (udp_dest dest)
      (eth_hdr_size + ip_udp_hdr_size + payload_len) n1
