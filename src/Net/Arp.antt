-- ===== src/Net/Arp.antt =====
-- net/arp.c: the ARP request, its retries, and the reception of ARP packets.
use non_os_lite.Prelude.{
  Bool, Buf, bit_and, get_be16, if◌then◌else◌, leb, ltb, not, put8, put_be16, slt32, sub32, ℕ, ◌!=◌,
  ◌&&◌, ◌+◌, ◌==◌,
}
use non_os_lite.Net.State.{
  Mac, MacRef, Net, bcast_addr, get_mac, null, null_mac, put_mac, server_ether,
}
use non_os_lite.Net.Clock.{get_timer}
use non_os_lite.Net.Eth.{net_send_packet}
use non_os_lite.Net.Header.{
  net_copy_ip, net_read_ip, net_set_ether, net_update_ether, net_write_ip, prot_arp, prot_ip,
}

-- Milliseconds before trying ARP again, and the number of timeouts before giving up.
abbrev pub arp_timeout : ℕ
arp_timeout = 5000

abbrev pub arp_timeout_count : ℕ
arp_timeout_count = 5

abbrev pub arp_hdr_size : ℕ
arp_hdr_size = 28

unfoldable pub arp_init : Net → Net
arp_init n = record n {
  arp = record n.arp {
    wait_packet_mac = null;
    wait_packet_ip = 0;
    wait_reply_ip = 0;
    wait_tx_packet_size = 0;
  };
}

-- The ARP packet behind the Ethernet header, from `p` on.
unfoldable pub arp_fields : Buf → ℕ → Mac → ℕ → Mac → ℕ → Buf
arp_fields m p source_ether source_ip target_ether target_ip =
    let m1 = put_be16 (put_be16 m p 1) (p + 2) prot_ip in
    let m2 = put_be16 (put8 (put8 m1 (p + 4) 6) (p + 5) 4) (p + 6) 1 in
    let m3 = net_write_ip (put_mac m2 (p + 8) source_ether) (p + 14) source_ip in
    net_write_ip (put_mac m3 (p + 18) target_ether) (p + 24) target_ip

unfoldable pub arp_raw_request : ℕ → Mac → ℕ → Net → Net
arp_raw_request source_ip target_ether target_ip n =
    let (pkt, eth_hdr_size) = net_set_ether n.arp.arp_tx n.bcast_mac prot_arp n in
    let pkt' = arp_fields pkt eth_hdr_size n.our_ether source_ip target_ether target_ip in
    let n1 = record n { arp = record n.arp { arp_tx = pkt' } } in
    net_send_packet pkt' (eth_hdr_size + arp_hdr_size) n1

-- Whom to ask: the gateway for an address outside the subnet, if there is a gateway.
unfoldable pub arp_reply_ip : Net → ℕ
arp_reply_ip n =
    if bit_and n.arp.wait_packet_ip n.our_subnet_mask != bit_and n.our_ip n.our_subnet_mask
    then (if n.our_gateway_ip == 0 then n.arp.wait_packet_ip else n.our_gateway_ip)
    else n.arp.wait_packet_ip

unfoldable pub arp_request : Net → Net
arp_request n =
    let n1 = record n { arp = record n.arp { wait_reply_ip = arp_reply_ip n } } in
    arp_raw_request n1.our_ip null_mac n1.arp.wait_reply_ip n1

unfoldable pub arp_retry : ℕ → Net → Net
arp_retry t n =
    let wait_try = n.arp.wait_try + 1 in
    if leb arp_timeout_count wait_try
    then record n { arp = record n.arp { wait_try = 0 } }
    else arp_request (record n { arp = record n.arp { wait_try = wait_try; wait_timer_start = t } })

unfoldable pub arp_timeout_check : Net → Net
arp_timeout_check n =
    if n.arp.wait_packet_ip == 0
    then n
    else let (t, n1) = get_timer 0 n in
      if ltb arp_timeout (sub32 t n1.arp.wait_timer_start) then arp_retry t n1 else n1

-- The answer to a request: the received packet, turned round in place.
unfoldable pub arp_answer : Buf → ℕ → Net → Net
arp_answer et p n =
    let (et1, eth_hdr_size) = net_update_ether et (get_mac et 6) prot_arp n in
    let et2 = put_be16 et1 (p + 6) 2 in
    let et3 = put_mac et2 (p + 18) (get_mac et2 (p + 8)) in
    let et4 = net_copy_ip et3 (p + 24) (p + 14) in
    let et5 = put_mac et4 (p + 8) n.our_ether in
    net_send_packet (net_write_ip et5 (p + 14) n.our_ip) (eth_hdr_size + arp_hdr_size) n

-- `memcpy(NetArpWaitPacketMAC, mac, 6)` unless the pointer is NULL.
abbrev pub store_mac : MacRef → Mac → Net → Net
store_mac null mac n = n
store_mac server_ether mac n = record n { server_mac = mac }
store_mac bcast_addr mac n = record n { bcast_mac = mac }

-- The awaited reply: the address is kept, and the packet that waits is sent to it.
unfoldable pub arp_resolved : Mac → Net → Net
arp_resolved sha n =
    let n1 = store_mac n.arp.wait_packet_mac sha n in
    let n2 = record n1 { tx = put_mac n1.tx 0 sha } in
    let n3 = net_send_packet n2.tx n2.arp.wait_tx_packet_size n2 in
    record n3 {
      arp = record n3.arp { wait_packet_ip = 0; wait_tx_packet_size = 0; wait_packet_mac = null };
    }

unfoldable pub arp_reply : Buf → ℕ → Net → Net
arp_reply et p n =
    if n.arp.wait_packet_ip == 0
    then n
    else if net_read_ip et (p + 14) == n.arp.wait_reply_ip
    then arp_resolved (get_mac et (p + 8)) n
    else n

-- The tests on the fixed fields of the packet, and on its target address.
unfoldable pub arp_accepts : Buf → ℕ → ℕ → Net → Bool
arp_accepts et p len n =
    not (slt32 len arp_hdr_size)
    && (get_be16 et p == 1
        && (get_be16 et (p + 2) == prot_ip
            && (et (p + 4) == 6
                && (et (p + 5) == 4 && (n.our_ip != 0 && net_read_ip et (p + 24) == n.our_ip)))))

-- `ArpReceive(et, ip, len)` with `ip` at the offset `p` of the frame.
unfoldable pub arp_receive : Buf → ℕ → ℕ → Net → Net
arp_receive et p len n =
    if arp_accepts et p len n
    then (if get_be16 et (p + 6) == 1
        then arp_answer et p n
        else if get_be16 et (p + 6) == 2
        then arp_reply et p n
        else n)
    else n
