-- ===== src/Net/Quick.antt =====
-- What the sending functions of net/net_core.c leave alone, besides the fields of Net.Keeps, when the
-- Ethernet address is known: the clock, the timeout, and the state of ARP.
use non_os_lite.Prelude.{Buf, arith, false, length, ℕ, ◌+◌, ◌∙◌, ◌≡◌}
use non_os_lite.Net.State.{Mac, MacRef, Net, mac_eq, null_mac, server_ether}
use non_os_lite.Net.Eth.{eth_send, net_send_packet}
use non_os_lite.Net.Header.{net_set_ip_header, net_set_udp_header}
use non_os_lite.Net.Send.{udp_finish, udp_prepare}
use non_os_lite.Net.Deferral.{Unicast, net_send_udp_packet-Unicast}
use non_os_lite.Net.Tftp.Send.{tftp_payload, tftp_queue, tftp_send}

pub record Quick (a b : Net) : Type 0 where
  pub same_platform : b.platform ≡ a.platform
  pub same_ticks : b.ticks ≡ a.ticks
  pub same_reads : b.reads ≡ a.reads
  pub same_vlan : b.our_vlan ≡ a.our_vlan
  pub same_arp : b.arp ≡ a.arp
  pub same_server_mac : b.server_mac ≡ a.server_mac
  pub same_time_handler : b.time_handler ≡ a.time_handler
  pub same_time_start : b.time_start ≡ a.time_start
  pub same_time_delta : b.time_delta ≡ a.time_delta

Quick-trans : {a b c : Net} → Quick a b → Quick b c → Quick a c
Quick-trans p q = record {
  same_platform = q.same_platform ∙ p.same_platform;
  same_ticks = q.same_ticks ∙ p.same_ticks;
  same_reads = q.same_reads ∙ p.same_reads;
  same_vlan = q.same_vlan ∙ p.same_vlan;
  same_arp = q.same_arp ∙ p.same_arp;
  same_server_mac = q.same_server_mac ∙ p.same_server_mac;
  same_time_handler = q.same_time_handler ∙ p.same_time_handler;
  same_time_start = q.same_time_start ∙ p.same_time_start;
  same_time_delta = q.same_time_delta ∙ p.same_time_delta;
}

pub net_send_packet-Quick : (pkt : Buf) (len : ℕ) (n : Net) → Quick n (net_send_packet pkt len n)
unfolding net_send_packet eth_send
net_send_packet-Quick pkt len n = ground arith

pub udp_prepare-Quick :
    (mac : Mac) (dest dport sport len : ℕ) (n : Net)
    → Quick n (udp_prepare mac dest dport sport len n).1
unfolding udp_prepare net_set_udp_header net_set_ip_header
udp_prepare-Quick mac dest dport sport len n = ground arith

udp_finish-Quick :
    (mac : Mac) (ether : MacRef) (dest size : ℕ) (n : Net)
    → mac_eq mac null_mac ≡ false
    → Quick n (udp_finish mac ether dest size n).1
unfolding udp_finish
udp_finish-Quick mac ether dest size n known = rw known (net_send_packet-Quick n.tx size n)

pub tftp_queue-Quick : (n : Net) → Quick n (tftp_queue n)
tftp_queue-Quick n = ground arith

-- With the server's address known, a TFTP packet goes out at once.
pub tftp_send-Quick :
    (n : Net)
    → Unicast n.tftp.remote_ip
    → mac_eq n.server_mac null_mac ≡ false
    → Quick n (tftp_send n)
unfolding tftp_send
tftp_send-Quick n u known =
    let len = length (tftp_payload n.tftp) in
    let q = tftp_queue n in
    let out =
      net_send_udp_packet-Unicast n.tftp.remote_ip n.tftp.remote_port n.tftp.our_port len q u in
    let p = udp_prepare q.server_mac n.tftp.remote_ip n.tftp.remote_port n.tftp.our_port len q in
    rw (out, tftp_send)
      (Quick-trans (tftp_queue-Quick n) (
        Quick-trans
          (udp_prepare-Quick q.server_mac n.tftp.remote_ip n.tftp.remote_port n.tftp.our_port len q)
          (udp_finish-Quick q.server_mac server_ether n.tftp.remote_ip (p.0 + 28 + len) p.1 known)))
