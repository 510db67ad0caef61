-- ===== src/Net/Delivery.antt =====
-- What `net_set_udp_header` writes, as `NetReceive` reads it on the other machine.
pub mod Headers
pub mod Link
use non_os_lite.Prelude.{
  Buf, IsBytes, arith, get_be16, refl, sub32, true, ℕ, ◌+◌, ◌<◌, ◌^◌, ◌∙◌, ◌≡◌, ◌≤◌,
}
use non_os_lite.Net.State.{Net, tftp_handler}
use non_os_lite.Net.Cksum.{net_cksum, net_cksum_loop, net_cksum_ok}
use non_os_lite.Net.Cksum.Laws.{net_cksum_ok-fill}
use non_os_lite.Net.Header.{net_read_ip, net_set_udp_header}
use non_os_lite.Net.Tftp.Receive.{tftp_receive}
use non_os_lite.Net.Receive.{ip_accepts, ip_receive, udp_dispatch}
use non_os_lite.Net.Delivery.Headers.{Datagram, net_set_udp_header-Datagram, padded-before}

-- A datagram for us is accepted.
Datagram-accepted :
    (m f : Buf) (p dest source dport sport len size : ℕ) (r : Net)
    → Datagram m p dest source dport sport len f
    → dest < 2 ^ 32
    → 28 + len < 2 ^ 16
    → 28 + len ≤ size
    → size < 2 ^ 31
    → r.our_ip ≡ dest
    → ip_accepts f p size r ≡ true
unfolding ip_accepts
Datagram-accepted m f p dest source dport sport len size r d small fits short long ours =
    let total : get_be16 f (p + 2) ≡ 28 + len = omega (arith, d.header.total) in
    let to : net_read_ip f (p + 16) ≡ r.our_ip = omega (arith, d.header.to) in
    rw (total, to, d.header.version, d.header.fragment, d.checksum) (ground arith)

-- The headers that `net_set_udp_header` writes in front of a payload make `NetReceive` of a machine
-- with the destination address, which expects TFTP packets, hand the packet to the TFTP handler with
-- the sender's ports and the payload's length, whatever padding follows; and the payload is intact.
pub ip_receive-net_set_udp_header :
    (m : Buf) (p dest dport sport len size : ℕ) (n r : Net)
    → IsBytes m
    → dest < 2 ^ 32
    → dport < 2 ^ 16
    → sport < 2 ^ 16
    → 28 + len < 2 ^ 16
    → 28 + len ≤ size
    → size < 2 ^ 31
    → r.our_ip ≡ dest
    → r.udp_handler ≡ tftp_handler
    → (ip_receive (net_set_udp_header m p dest dport sport len n).0 p size r
        ≡ tftp_receive (net_set_udp_header m p dest dport sport len n).0 (p + 28) dport sport len r)
      × ((i : ℕ)
          → i < len
          → (net_set_udp_header m p dest dport sport len n).0 (p + 28 + i) ≡ m (p + 28 + i))
unfolding ip_receive udp_dispatch
ip_receive-net_set_udp_header m p dest dport sport len size n r h small d16 s16 fits short long ours
      expects =
    let f = (net_set_udp_header m p dest dport sport len n).0 in
    let d = net_set_udp_header-Datagram m p dest dport sport len n h in
    let accepted =
      Datagram-accepted m f p dest n.our_ip dport sport len size r d small fits short long ours in
    let from_port : get_be16 f (p + 20) ≡ sport = omega (arith, d.from_port) in
    let to_port : get_be16 f (p + 22) ≡ dport = omega (arith, d.to_port) in
    let rest : sub32 (get_be16 f (p + 24)) 8 ≡ len = omega (arith, d.size) in
    (
      rw (accepted, d.header.protocol, expects, from_port, to_port, rest) refl,
      λ i lt.
          d.header.rest (p + 28 + i) (omega arith)
          ∙ padded-before m p len (p + 28 + i) (omega arith),
    )
