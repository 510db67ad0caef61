-- ===== src/Net/Keeps.antt =====
-- What the functions that send leave alone: the transfer, memory, and the state of the loop.
use non_os_lite.Prelude.{Bool, Buf, arith, false, if◌then◌else◌, length, true, ℕ, ◌+◌, ◌∙◌, ◌≡◌}
use non_os_lite.Net.State.{Mac, MacRef, Net, TimeHandler, deref, mac_eq, null_mac, server_ether}
use non_os_lite.Net.Clock.{get_timer}
use non_os_lite.Net.Eth.{eth_send, net_send_packet}
use non_os_lite.Net.Header.{ip_udp_hdr_size, net_set_ip_header, net_set_udp_header}
use non_os_lite.Net.Arp.{arp_raw_request, arp_request}
use non_os_lite.Net.Send.{
  net_send_udp_packet, net_set_timeout, net_wait_arp, set_wait_mac, udp_dest, udp_ether, udp_finish,
  udp_prepare,
}
use non_os_lite.Net.Tftp.Send.{tftp_payload, tftp_queue, tftp_send}

pub record Keeps (a b : Net) : Type 0 where
  pub same_tftp : b.tftp ≡ a.tftp
  pub same_ram : b.ram ≡ a.ram
  pub same_size : b.boot_file_xfer_size ≡ a.boot_file_xfer_size
  pub same_load_addr : b.load_addr ≡ a.load_addr
  pub same_net_state : b.net_state ≡ a.net_state
  pub same_udp_handler : b.udp_handler ≡ a.udp_handler
  pub same_eth_current : b.eth_current ≡ a.eth_current
  pub same_our_ip : b.our_ip ≡ a.our_ip

pub Keeps-trans : {a b c : Net} → Keeps a b → Keeps b c → Keeps a c
Keeps-trans p q = record {
  same_tftp = q.same_tftp ∙ p.same_tftp;
  same_ram = q.same_ram ∙ p.same_ram;
  same_size = q.same_size ∙ p.same_size;
  same_load_addr = q.same_load_addr ∙ p.same_load_addr;
  same_net_state = q.same_net_state ∙ p.same_net_state;
  same_udp_handler = q.same_udp_handler ∙ p.same_udp_handler;
  same_eth_current = q.same_eth_current ∙ p.same_eth_current;
  same_our_ip = q.same_our_ip ∙ p.same_our_ip;
}

-- Behind an update of other fields.
pub after : {a b c : Net} → Keeps b c → Keeps a b → Keeps a c
after q p = Keeps-trans p q

if-Keeps :
    (n : Net) (b : Bool) (x y : Bool × Net)
    → Keeps n x.1
    → Keeps n y.1
    → Keeps n (if b then x else y).1
if-Keeps n true x y p q = p
if-Keeps n false x y p q = q

pub eth_send-Keeps : (pkt : Buf) (len : ℕ) (n : Net) → Keeps n (eth_send pkt len n)
unfolding eth_send
eth_send-Keeps pkt len n = ground arith

pub net_send_packet-Keeps : (pkt : Buf) (len : ℕ) (n : Net) → Keeps n (net_send_packet pkt len n)
unfolding net_send_packet
net_send_packet-Keeps pkt len n = eth_send-Keeps pkt _ n

arp_raw_request-Keeps :
    (source_ip : ℕ) (target : Mac) (target_ip : ℕ) (n : Net)
    → Keeps n (arp_raw_request source_ip target target_ip n)
unfolding arp_raw_request
arp_raw_request-Keeps source_ip target target_ip n = grind (arith, net_send_packet-Keeps)

pub arp_request-Keeps : (n : Net) → Keeps n (arp_request n)
unfolding arp_request
arp_request-Keeps n = grind (arith, arp_raw_request-Keeps)

net_wait_arp-Keeps : (dest size : ℕ) (n : Net) → Keeps n (net_wait_arp dest size n)
unfolding net_wait_arp get_timer
net_wait_arp-Keeps dest size n = grind (arith, arp_request-Keeps)

udp_prepare-Keeps :
    (mac : Mac) (dest dport sport len : ℕ) (n : Net)
    → Keeps n (udp_prepare mac dest dport sport len n).1
unfolding udp_prepare net_set_udp_header net_set_ip_header
udp_prepare-Keeps mac dest dport sport len n = ground arith

set_wait_mac-Keeps : (ether : MacRef) (n : Net) → Keeps n (set_wait_mac ether n)
set_wait_mac-Keeps ether n = ground arith

udp_finish-Keeps :
    (mac : Mac) (ether : MacRef) (dest size : ℕ) (n : Net)
    → Keeps n (udp_finish mac ether dest size n).1
unfolding udp_finish
udp_finish-Keeps mac ether dest size n =
    if-Keeps n (mac_eq mac null_mac) (true, net_wait_arp dest size (set_wait_mac ether n))
      (false, net_send_packet n.tx size n)
      (after (net_wait_arp-Keeps dest size (set_wait_mac ether n)) (set_wait_mac-Keeps ether n))
      (net_send_packet-Keeps n.tx size n)

net_send_udp_packet-Keeps :
    (ether : MacRef) (dest dport sport len : ℕ) (n : Net)
    → Keeps n (net_send_udp_packet ether dest dport sport len n).1
unfolding net_send_udp_packet
net_send_udp_packet-Keeps ether dest dport sport len n =
    let mac = deref (udp_ether ether dest) n in
    let step = udp_prepare mac (udp_dest dest) dport sport len n in
    after
      (udp_finish-Keeps mac (udp_ether ether dest) (udp_dest dest) (step.0 + ip_udp_hdr_size + len)
        step.1)
      (udp_prepare-Keeps mac (udp_dest dest) dport sport len n)

pub net_set_timeout-Keeps : (iv : ℕ) (f : TimeHandler) (n : Net) → Keeps n (net_set_timeout iv f n)
unfolding net_set_timeout get_timer
net_set_timeout-Keeps iv f n = ground arith

pub tftp_send-Keeps : (n : Net) → Keeps n (tftp_send n)
unfolding tftp_send
tftp_send-Keeps n =
    after {b = tftp_queue n}
      (net_send_udp_packet-Keeps server_ether n.tftp.remote_ip n.tftp.remote_port n.tftp.our_port
        (length (tftp_payload n.tftp)) (tftp_queue n))
      (ground arith)
