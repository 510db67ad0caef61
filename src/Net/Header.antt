-- ===== src/Net/Header.antt =====
-- The headers that net/net_core.c writes: Ethernet, VLAN, IP and UDP. A header stands at an offset of
-- the packet, and a field at its offset in the struct of include/net_core.h.
use non_os_lite.Prelude.{
  Buf, bit_and, get_be16, if◌then◌else◌, ltb, put8, put_be16, put_le16, swab16, u32, ℕ, ◌%◌, ◌*◌,
  ◌+◌, ◌/◌, ◌==◌, ◌^◌,
}
use non_os_lite.Net.State.{Mac, Net, put_mac}
use non_os_lite.Net.Cksum.{bnot16, net_cksum}

abbrev pub ether_hdr_size : ℕ
ether_hdr_size = 14

abbrev pub e802_hdr_size : ℕ
e802_hdr_size = 22

abbrev pub vlan_ether_hdr_size : ℕ
vlan_ether_hdr_size = 18

abbrev pub ip_hdr_size : ℕ
ip_hdr_size = 20

abbrev pub ip_udp_hdr_size : ℕ
ip_udp_hdr_size = 28

abbrev pub udp_hdr_size : ℕ
udp_hdr_size = 8

abbrev pub prot_ip : ℕ
prot_ip = 0x0800

abbrev pub prot_arp : ℕ
prot_arp = 0x0806

abbrev pub prot_vlan : ℕ
prot_vlan = 0x8100

abbrev pub vlan_none : ℕ
vlan_none = 4095

abbrev pub vlan_idmask : ℕ
vlan_idmask = 0x0fff

-- `ntohs(v)`, with `(ushort)-1` read as VLAN_NONE.
abbrev pub vlan_of : ℕ → ℕ
vlan_of v = if swab16 v == 0xffff then vlan_none else swab16 v

-- NetReadIP, NetWriteIP and NetCopyIP: the four bytes of an address, in memory order.
abbrev pub net_read_ip : Buf → ℕ → ℕ
net_read_ip m p = m p + m (p + 1) * 256 + m (p + 2) * 2 ^ 16 + m (p + 3) * 2 ^ 24

abbrev pub net_write_ip : Buf → ℕ → ℕ → Buf
net_write_ip m p ip =
    put8 (put8 (put8 (put8 m p (ip % 256)) (p + 1) (ip / 256 % 256)) (p + 2) (ip / 2 ^ 16 % 256))
      (p + 3) (ip / 2 ^ 24 % 256)

abbrev pub net_copy_ip : Buf → ℕ → ℕ → Buf
net_copy_ip m to from =
    put8 (put8 (put8 (put8 m to (m from)) (to + 1) (m (from + 1))) (to + 2) (m (from + 2))) (to + 3)
      (m (from + 3))

unfoldable pub net_eth_hdr_size : Net → ℕ
net_eth_hdr_size n =
    if bit_and (vlan_of n.our_vlan) vlan_idmask == vlan_none
    then ether_hdr_size
    else vlan_ether_hdr_size

-- `NetSetEther(xet, addr, prot)`: the packet and the size of its header.
unfoldable pub net_set_ether : Buf → Mac → ℕ → Net → Buf × ℕ
net_set_ether xet addr prot n =
    let myvlanid = vlan_of n.our_vlan in
    let et = put_mac (put_mac xet 0 addr) 6 n.our_ether in
    if bit_and myvlanid vlan_idmask == vlan_none then (put_be16 et 12 prot, ether_hdr_size) else (
      put_be16 (put_be16 (put_be16 et 12 prot_vlan) 14 (bit_and myvlanid vlan_idmask)) 16 prot,
      vlan_ether_hdr_size,
    )

unfoldable pub net_update_ether : Buf → Mac → ℕ → Net → Buf × ℕ
net_update_ether et addr prot n =
    let et1 = put_mac (put_mac et 0 addr) 6 n.our_ether in
    let protlen = get_be16 et1 12 in
    if protlen == prot_vlan
    then (put_be16 et1 16 prot, vlan_ether_hdr_size)
    else if ltb 1514 protlen
    then (put_be16 et1 12 prot, ether_hdr_size)
    else (put_be16 et1 20 prot, e802_hdr_size)

abbrev pub ip_flags_dfrag : ℕ
ip_flags_dfrag = 0x4000

-- The bytes that `net_set_ip_header` writes at `p`.
unfoldable pub ip_header : Buf → ℕ → ℕ → ℕ → ℕ → Buf
ip_header m p ip_id dest source =
    let m1 = put8 (put8 m p 0x45) (p + 1) 0 in
    let m2 = put_be16 m1 (p + 2) ip_hdr_size in
    let m3 = put_be16 m2 (p + 4) ip_id in
    let m4 = put_be16 m3 (p + 6) ip_flags_dfrag in
    let m5 = put_le16 (put8 m4 (p + 8) 255) (p + 10) 0 in
    net_write_ip (net_write_ip m5 (p + 12) source) (p + 16) dest

-- `net_set_ip_header(pkt, dest, source)`, which also counts NetIPID.
unfoldable pub net_set_ip_header : Buf → ℕ → ℕ → ℕ → Net → Buf × Net
net_set_ip_header m p dest source n =
    (ip_header m p n.ip_id dest source, record n { ip_id = u32 (n.ip_id + 1) })

abbrev pub ipproto_udp : ℕ
ipproto_udp = 17

-- `ip->ip_len = htons(len); ip->ip_p = proto; ip->ip_sum = ~NetCksum(ip, IP_HDR_SIZE >> 1);`
unfoldable pub ip_finish : Buf → ℕ → ℕ → ℕ → Buf
ip_finish m p len proto =
    let m1 = put8 (put_be16 m (p + 2) len) (p + 9) proto in
    put_le16 m1 (p + 10) (bnot16 (net_cksum m1 p 10))

unfoldable pub udp_fields : Buf → ℕ → ℕ → ℕ → ℕ → Buf
udp_fields m p dport sport len =
    put_le16
      (put_be16 (put_be16 (put_be16 m (p + 20) sport) (p + 22) dport) (p + 24) (udp_hdr_size + len))
      (p + 26) 0

unfoldable pub net_set_udp_header : Buf → ℕ → ℕ → ℕ → ℕ → ℕ → Net → Buf × Net
net_set_udp_header m p dest dport sport len n =
    let m1 = if len % 2 == 1 then put8 m (p + ip_udp_hdr_size + len) 0 else m in
    let (m2, n1) = net_set_ip_header m1 p dest n.our_ip n in
    (udp_fields (ip_finish m2 p (ip_udp_hdr_size + len) ipproto_udp) p dport sport len, n1)
