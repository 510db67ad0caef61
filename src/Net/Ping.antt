-- ===== src/Net/Ping.antt =====
-- net/ping.c: the echo request, its reply, and the answer to the requests of others. The ICMP header
-- stands 20 bytes behind the IP header, which stands at the offset `p`.
pub mod Answer
use non_os_lite.Prelude.{
  Buf, if◌then◌else◌, put8, put_be16, put_le16, sub32, u16, ℕ, ◌+◌, ◌/◌, ◌==◌,
}
use non_os_lite.Net.State.{Net, get_mac, netloop_success, null_mac, ping_timeout}
use non_os_lite.Net.Clock.{get_timer}
use non_os_lite.Net.Eth.{net_send_packet}
use non_os_lite.Net.Cksum.{bnot16, net_cksum}
use non_os_lite.Net.Header.{
  ip_finish, ip_hdr_size, net_copy_ip, net_read_ip, net_set_ether, net_set_ip_header,
  net_update_ether, net_write_ip, prot_ip,
}
use non_os_lite.Net.Arp.{arp_request}
use non_os_lite.Net.Send.{net_set_timeout}

abbrev pub icmp_echo_reply : ℕ
icmp_echo_reply = 0

abbrev pub icmp_redirect : ℕ
icmp_redirect = 5

abbrev pub icmp_echo_request : ℕ
icmp_echo_request = 8

abbrev pub ipproto_icmp : ℕ
ipproto_icmp = 1

abbrev pub ip_icmp_hdr_size : ℕ
ip_icmp_hdr_size = 28

-- The ICMP header, its checksum over the four words.
unfoldable pub icmp_header : Buf → ℕ → ℕ → Buf
icmp_header m q seq =
    let m1 = put_le16 (put8 (put8 m q icmp_echo_request) (q + 1) 0) (q + 2) 0 in
    let m2 = put_be16 (put_le16 m1 (q + 4) 0) (q + 6) seq in
    put_le16 m2 (q + 2) (bnot16 (net_cksum m2 q 4))

unfoldable pub set_icmp_header : Buf → ℕ → ℕ → Net → Buf × Net
set_icmp_header m p dest n =
    let (m1, n1) = net_set_ip_header m p dest n.our_ip n in
    let m2 = ip_finish m1 p ip_icmp_hdr_size ipproto_icmp in
    (
      icmp_header m2 (p + ip_hdr_size) n1.ping_seq_no,
      record n1 { ping_seq_no = u16 (n1.ping_seq_no + 1) },
    )

unfoldable pub ping_send : Net → Net
ping_send n =
    let n1 = record n { arp = record n.arp { wait_packet_ip = n.ping_ip } } in
    let (pkt, eth_hdr_size) = net_set_ether n1.tx null_mac prot_ip n1 in
    let (pkt', n2) = set_icmp_header pkt eth_hdr_size n1.ping_ip n1 in
    let (t, n3) = get_timer 0 (record n2 { tx = pkt' }) in
    arp_request (record n3 {
      arp = record n3.arp {
        wait_tx_packet_size = eth_hdr_size + ip_icmp_hdr_size;
        wait_try = 1;
        wait_timer_start = t;
      };
    })

unfoldable pub ping_start : Net → Net
ping_start n = ping_send (net_set_timeout 10000 ping_timeout n)

-- The number of words of the reply's checksum, `(len - IP_HDR_SIZE) >> 1` in unsigned arithmetic.
abbrev pub icmp_words : ℕ → ℕ
icmp_words len = sub32 len ip_hdr_size / 2

-- The request, turned round in place.
unfoldable pub echo_packet : Buf → ℕ → ℕ → Net → Buf
echo_packet et p len n =
    let m1 = put_le16 (put_le16 et (p + 10) 0) (p + 6) 0 in
    let m2 = net_write_ip (net_copy_ip m1 (p + 16) (p + 12)) (p + 12) n.our_ip in
    let m3 = put_le16 m2 (p + 10) (bnot16 (net_cksum m2 p 10)) in
    let q = p + ip_hdr_size in
    let m4 = put_le16 (put8 m3 q icmp_echo_reply) (q + 2) 0 in
    put_le16 m4 (q + 2) (bnot16 (net_cksum m4 q (icmp_words len)))

unfoldable pub echo_answer : Buf → ℕ → ℕ → Net → Net
echo_answer et p len n =
    let (et1, eth_hdr_size) = net_update_ether et (get_mac et 6) prot_ip n in
    net_send_packet (echo_packet et1 p len n) (eth_hdr_size + len) n

unfoldable pub ping_receive : Buf → ℕ → ℕ → Net → Net
ping_receive et p len n =
    let type = et (p + ip_hdr_size) in
    if type == icmp_echo_reply
    then (if net_read_ip et (p + 12) == n.ping_ip
        then record n { net_state = netloop_success }
        else n)
    else if type == icmp_echo_request
    then echo_answer et p len n
    else n
