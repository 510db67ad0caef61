-- ===== src/Net/Receive.antt =====
-- `NetReceive` of net/net_core.c, as it is configured: no CONFIG_IP_DEFRAG, CONFIG_UDP_CHECKSUM,
-- CONFIG_CMD_RARP or CONFIG_CMD_TFTPPUT. A length is the bit pattern of an `int`.
use non_os_lite.Prelude.{
  Bool, Buf, Option, bit_and, get_be16, if◌then◌else◌, leb, ltb, none, not, slt32, some, sub32,
  swab16, true, ℕ, ◌!=◌, ◌&&◌, ◌+◌, ◌-◌, ◌==◌, ◌||◌,
}
use non_os_lite.Net.State.{Net, dummy_handler, tftp_handler}
use non_os_lite.Net.Cksum.{net_cksum_ok}
use non_os_lite.Net.Header.{
  e802_hdr_size, ether_hdr_size, ip_hdr_size, ip_udp_hdr_size, ipproto_udp, net_read_ip, prot_arp,
  prot_ip, prot_vlan, udp_hdr_size, vlan_ether_hdr_size, vlan_idmask, vlan_none, vlan_of,
}
use non_os_lite.Net.Arp.{arp_receive}
use non_os_lite.Net.Ping.{icmp_redirect, ipproto_icmp, ping_receive}
use non_os_lite.Net.Tftp.Receive.{tftp_receive}

-- What the Ethernet header says: protocol, offset and length of what follows, and the VLAN.
pub record Link : Type 0 where
  pub proto : ℕ
  pub offset : ℕ
  pub rest : ℕ
  pub vlan : ℕ

unfoldable pub parse_ether : Buf → ℕ → Net → Option Link
parse_ether et len n =
    let eth_proto = get_be16 et 12 in
    if ltb len ether_hdr_size
    then none
    else if ltb eth_proto 1514
    then some (record {
      proto = get_be16 et 20;
      offset = e802_hdr_size;
      rest = sub32 len e802_hdr_size;
      vlan = vlan_none;
    })
    else if eth_proto != prot_vlan
    then some (record {
      proto = eth_proto;
      offset = ether_hdr_size;
      rest = len - ether_hdr_size;
      vlan = vlan_none;
    })
    else if ltb len vlan_ether_hdr_size || bit_and (swab16 n.our_vlan) vlan_idmask == vlan_none
    then none
    else some (record {
      proto = get_be16 et 16;
      offset = vlan_ether_hdr_size;
      rest = len - vlan_ether_hdr_size;
      vlan = bit_and (get_be16 et 14) vlan_idmask;
    })

-- Whether a frame on the given VLAN is for us.
unfoldable pub vlan_accepts : ℕ → Net → Bool
vlan_accepts vlanid n =
    let my = bit_and (vlan_of n.our_vlan) vlan_idmask in
    if my == vlan_none
    then true
    else (if vlanid == vlan_none then bit_and (vlan_of n.our_native_vlan) vlan_idmask else vlanid)
      == my

-- IP_OFFS | IP_FLAGS_MFRAG
abbrev pub frag_mask : ℕ
frag_mask = 0x3fff

-- The checks of the IP header at `p`, up to `NetDefragment`.
unfoldable pub ip_accepts : Buf → ℕ → ℕ → Net → Bool
ip_accepts et p len n =
    not (ltb len ip_udp_hdr_size)
    && (not (slt32 len (get_be16 et (p + 2)))
        && (bit_and (et p) 0xf0 == 0x40
            && (leb (bit_and (et p) 0x0f) 5
                && (net_cksum_ok et p 10
                    && ((n.our_ip == 0
                          || (net_read_ip et (p + 16) == n.our_ip
                              || net_read_ip et (p + 16) == 0xffffffff))
                        && bit_and (get_be16 et (p + 6)) frag_mask == 0)))))

unfoldable pub receive_icmp : Buf → ℕ → ℕ → Net → Net
receive_icmp et p len n =
    if et (p + ip_hdr_size) == icmp_redirect then n else ping_receive et p len n

-- The call of the UDP handler. The length is computed in unsigned arithmetic.
unfoldable pub udp_dispatch : Buf → ℕ → Net → Net
udp_dispatch et p n = elim n.udp_handler [
  | dummy_handler ↦ n
  | tftp_handler ↦
      tftp_receive et (p + ip_udp_hdr_size) (get_be16 et (p + 22)) (get_be16 et (p + 20))
        (sub32 (get_be16 et (p + 24)) udp_hdr_size) n
]

unfoldable pub ip_receive : Buf → ℕ → ℕ → Net → Net
ip_receive et p len n =
    if ip_accepts et p len n
    then (if et (p + 9) == ipproto_icmp
        then receive_icmp et p (get_be16 et (p + 2)) n
        else if et (p + 9) == ipproto_udp
        then udp_dispatch et p n
        else n)
    else n

unfoldable pub link_receive : Buf → Link → Net → Net
link_receive et l n =
    if vlan_accepts l.vlan n
    then (if l.proto == prot_arp
        then arp_receive et l.offset l.rest n
        else if l.proto == prot_ip
        then ip_receive et l.offset l.rest n
        else n)
    else n

unfoldable pub net_receive : Buf → ℕ → Net → Net
net_receive et len n = elim (parse_ether et len n) [ none ↦ n | some l ↦ link_receive et l n ]
