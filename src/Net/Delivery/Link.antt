-- ===== src/Net/Delivery/Link.antt =====
-- A UDP packet from one machine's `NetSendUDPPacket` to another's `NetReceive`, on a link without VLANs.
use non_os_lite.Prelude.{
  Buf, IsBytes, arith, get_be16, le→ltb, put_be16, refl, some, true, ℕ, ◌+◌, ◌-◌, ◌<◌, ◌^◌, ◌∙◌,
  ◌≡◌, ◌≤◌,
}
use non_os_lite.Net.State.{Mac, Net, put_mac, tftp_handler}
use non_os_lite.Net.Header.{net_set_ether, net_set_udp_header, prot_ip, vlan_none}
use non_os_lite.Net.Send.{udp_prepare}
use non_os_lite.Net.Receive.{ip_receive, link_receive, net_receive, parse_ether, vlan_accepts}
use non_os_lite.Net.Tftp.Receive.{tftp_receive}
use non_os_lite.Net.Delivery.{ip_receive-net_set_udp_header}
use non_os_lite.Net.Deferral.Frames.{net_set_udp_header-before}

-- The fields of an address are bytes.
pub record IsMac (a : Mac) : Type 0 where
  pub b0 : a.m0 < 256
  pub b1 : a.m1 < 256
  pub b2 : a.m2 < 256
  pub b3 : a.m3 < 256
  pub b4 : a.m4 < 256
  pub b5 : a.m5 < 256

-- The Ethernet header without a VLAN.
untagged_header : Buf → Mac → Mac → Buf
untagged_header m to from = put_be16 (put_mac (put_mac m 0 to) 6 from) 12 prot_ip

net_set_ether-untagged :
    (m : Buf) (to : Mac) (n : Net)
    → n.our_vlan ≡ 0xffff
    → net_set_ether m to prot_ip n ≡ (untagged_header m to n.our_ether, 14)
unfolding net_set_ether untagged_header
net_set_ether-untagged m to n plain = rw plain refl

untagged_header-IsBytes :
    (m : Buf) (to from : Mac)
    → IsBytes m
    → IsMac to
    → IsMac from
    → IsBytes (untagged_header m to from)
unfolding untagged_header
untagged_header-IsBytes m to from h a b i = ground (arith, h i)

untagged_header-proto :
    (m : Buf) (to from : Mac) → get_be16 (untagged_header m to from) 12 ≡ prot_ip
unfolding untagged_header
untagged_header-proto m to from = ground arith

untagged_header-behind :
    (m : Buf) (to from : Mac) (i : ℕ) → 14 ≤ i → untagged_header m to from i ≡ m i
unfolding untagged_header
untagged_header-behind m to from i h = ground arith

parse_ether-untagged :
    (f : Buf) (size : ℕ) (r : Net)
    → get_be16 f 12 ≡ prot_ip
    → 14 ≤ size
    → parse_ether f size r
      ≡ some (record { proto = prot_ip; offset = 14; rest = size - 14; vlan = vlan_none })
unfolding parse_ether
parse_ether-untagged f size r ip long = rw (ip, le→ltb size 14 long) refl

pub vlan_accepts-untagged : (r : Net) → r.our_vlan ≡ 0xffff → vlan_accepts vlan_none r ≡ true
unfolding vlan_accepts
vlan_accepts-untagged r plain = rw plain refl

-- An IP frame without a VLAN goes to the IP layer.
net_receive-untagged :
    (f : Buf) (size : ℕ) (r : Net)
    → r.our_vlan ≡ 0xffff
    → get_be16 f 12 ≡ prot_ip
    → 14 ≤ size
    → net_receive f size r ≡ ip_receive f 14 (size - 14) r
unfolding net_receive link_receive
net_receive-untagged f size r plain ip long =
    rw (parse_ether-untagged f size r ip long, net_receive)
      (rw (vlan_accepts-untagged r plain, link_receive) refl)

-- What the sender built, as the receiver sees it.
built : Buf → Mac → ℕ → ℕ → ℕ → ℕ → Net → Buf
built m to dest dport sport len n =
    (net_set_udp_header (untagged_header m to n.our_ether) 14 dest dport sport len n).0

udp_prepare-built :
    (to : Mac) (dest dport sport len : ℕ) (n : Net)
    → n.our_vlan ≡ 0xffff
    → (udp_prepare to dest dport sport len n).1.tx ≡ built n.tx to dest dport sport len n
unfolding udp_prepare built
udp_prepare-built to dest dport sport len n plain = rw (net_set_ether-untagged n.tx to n plain) refl

-- The machine `s` can send `len` bytes from the port `sport` to the port `dport` of `r` in a frame of
-- `size` bytes: neither uses VLANs, the transmit buffer and the addresses are bytes, the numbers fit
-- their fields, and `r` expects TFTP packets.
pub record Linked (s r : Net) (to : Mac) (dport sport len size : ℕ) : Type 0 where
  pub payload : IsBytes s.tx
  pub to_mac : IsMac to
  pub from_mac : IsMac s.our_ether
  pub sender_plain : s.our_vlan ≡ 0xffff
  pub plain : r.our_vlan ≡ 0xffff
  pub address : r.our_ip < 2 ^ 32
  pub to_port : dport < 2 ^ 16
  pub from_port : sport < 2 ^ 16
  pub fits : 28 + len < 2 ^ 16
  pub long : 42 + len ≤ size
  pub short : size < 2 ^ 31
  pub expects : r.udp_handler ≡ tftp_handler

-- The frame that `s` builds for it.
abbrev pub frame_to : Net → Net → Mac → ℕ → ℕ → ℕ → Buf
frame_to s r to dport sport len = (udp_prepare to r.our_ip dport sport len s).1.tx

-- On a link without VLANs, the frame that a machine builds for a UDP payload of bytes in its transmit
-- buffer makes `NetReceive` of a machine with the destination address, which expects TFTP packets, hand
-- the packet to the TFTP handler with the sender's ports and the payload's length, whatever padding
-- follows; and the payload is intact.
pub net_receive-udp_prepare :
    (s r : Net) (to : Mac) (dport sport len size : ℕ)
    → Linked s r to dport sport len size
    → (net_receive (frame_to s r to dport sport len) size r
        ≡ tftp_receive (frame_to s r to dport sport len) 42 dport sport len r)
      × ((i : ℕ) → i < len → frame_to s r to dport sport len (42 + i) ≡ s.tx (42 + i))
unfolding built
net_receive-udp_prepare s r to dport sport len size k =
    let m = untagged_header s.tx to s.our_ether in
    let f = built s.tx to r.our_ip dport sport len s in
    let low =
      λ (i : ℕ) (l : i < 14). net_set_udp_header-before m 14 r.our_ip dport sport len i s l in
    let ip : get_be16 f 12 ≡ prot_ip = omega (
      arith,
      low 12 (omega arith),
      low (12 + 1) (omega arith),
      untagged_header-proto s.tx to s.our_ether,
    ) in
    let r1 =
      ip_receive-net_set_udp_header m 14 r.our_ip dport sport len (size - 14) s r
        (untagged_header-IsBytes s.tx to s.our_ether k.payload k.to_mac k.from_mac) k.address
        k.to_port k.from_port k.fits (omega (arith, k.long)) (omega (arith, k.short)) refl
        k.expects in
    rw (udp_prepare-built to r.our_ip dport sport len s k.sender_plain) (
      net_receive-untagged f size r k.plain ip (omega (arith, k.long)) ∙ r1.0,
      λ i lt. r1.1 i lt ∙ untagged_header-behind s.tx to s.our_ether (14 + 28 + i) (omega arith),
    )
