-- ===== src/Net/Deferral.antt =====
-- A UDP packet that waits in NetTxPacket for the answer to an ARP request (net/net_core.c, net/arp.c).
pub mod Frames
use non_os_lite.Prelude.{
  Bool, Buf, Option, [], ap, arith, false, get_be16, if◌then◌else◌, length, ltb, none, refl, some,
  sym, true, ℕ, ◌+◌, ◌∙◌, ◌∷◌, ◌≡◌, ◌≢◌,
}
use non_os_lite.Net.State.{
  Device, Frame, Mac, MacRef, Net, get_mac, mac_eq, null_mac, put_mac, server_ether,
}
use non_os_lite.Net.Clock.{get_timer}
use non_os_lite.Net.Eth.{eth_send, net_send_packet}
use non_os_lite.Net.Arp.{
  arp_accepts, arp_raw_request, arp_receive, arp_reply, arp_request, arp_resolved,
}
use non_os_lite.Net.Send.{
  ip_broadcast, net_send_udp_packet, net_wait_arp, set_wait_mac, udp_dest, udp_ether, udp_finish,
  udp_prepare,
}
use non_os_lite.Net.Header.{
  net_read_ip, net_set_ether, net_set_ip_header, net_set_udp_header, prot_ip,
}
use non_os_lite.Net.Keeps.{net_send_packet-Keeps}
use non_os_lite.Net.Deferral.Frames.{net_set_ether-size, udp_prepare-put_mac}

-- The frame handed to the driver last.
pub last_sent : Net → Option Frame
last_sent n = elim n.sent [ [] ↦ none | f ∷ fs ↦ some f ]

net_send_packet-tx : (pkt : Buf) (len : ℕ) (n : Net) → (net_send_packet pkt len n).tx ≡ n.tx
unfolding net_send_packet eth_send
net_send_packet-tx pkt len n = ground arith

net_send_packet-arp : (pkt : Buf) (len : ℕ) (n : Net) → (net_send_packet pkt len n).arp ≡ n.arp
unfolding net_send_packet eth_send
net_send_packet-arp pkt len n = ground arith

-- What is kept for the packet that waits.
pub record Waits (dest size : ℕ) (ether : MacRef) (a b : Net) : Type 0 where
  pub wait_ip : b.arp.wait_packet_ip ≡ dest
  pub wait_size : b.arp.wait_tx_packet_size ≡ size
  pub wait_mac : b.arp.wait_packet_mac ≡ ether
  pub same_tx : b.tx ≡ a.tx
  pub same_device : b.eth_current ≡ a.eth_current

net_wait_arp-Waits :
    (dest size : ℕ) (ether : MacRef) (n : Net)
    → Waits dest size ether n (net_wait_arp dest size (set_wait_mac ether n))
unfolding net_wait_arp get_timer arp_request arp_raw_request
net_wait_arp-Waits dest size ether n = record {
  wait_ip = ap (λ a. a.wait_packet_ip) (net_send_packet-arp _ _ _);
  wait_size = ap (λ a. a.wait_tx_packet_size) (net_send_packet-arp _ _ _);
  wait_mac = ap (λ a. a.wait_packet_mac) (net_send_packet-arp _ _ _);
  same_tx = net_send_packet-tx _ _ _;
  same_device = (net_send_packet-Keeps _ _ _).same_eth_current;
}

-- A frame of at least 64 bytes goes to the driver.
frame_of : Buf → ℕ → Frame
frame_of pkt len = record { size = if ltb len 64 then 64 else len; bytes = pkt }

last_sent-net_send_packet :
    (pkt : Buf) (len : ℕ) (n : Net) (d : Device)
    → n.eth_current ≡ some d
    → last_sent (net_send_packet pkt len n) ≡ some (frame_of pkt len)
unfolding last_sent net_send_packet eth_send frame_of
last_sent-net_send_packet pkt len n d h = rw h refl

last_sent-arp_resolved :
    (sha : Mac) (n : Net) (d : Device)
    → n.arp.wait_packet_mac ≡ server_ether
    → n.eth_current ≡ some d
    → last_sent (arp_resolved sha n)
      ≡ some (frame_of (put_mac n.tx 0 sha) n.arp.wait_tx_packet_size)
unfolding arp_resolved last_sent
last_sent-arp_resolved sha n d at_server h = rw at_server (last_sent-net_send_packet _ _ _ d h)

-- A destination that is not a broadcast.
abbrev pub Unicast : ℕ → Type 0
Unicast dest = (dest ≢ 0) × (dest ≢ ip_broadcast)

Unicast-dest : (dest : ℕ) → Unicast dest → udp_dest dest ≡ dest
Unicast-dest dest u = ground (arith, u.0)

Unicast-ether : (dest : ℕ) → Unicast dest → udp_ether server_ether dest ≡ server_ether
Unicast-ether dest u = ground (arith, u.0, u.1)

pub net_send_udp_packet-Unicast :
    (dest dport sport len : ℕ) (n : Net)
    → Unicast dest
    → net_send_udp_packet server_ether dest dport sport len n
      ≡ udp_finish n.server_mac server_ether dest
          ((udp_prepare n.server_mac dest dport sport len n).0 + 28 + len)
          (udp_prepare n.server_mac dest dport sport len n).1
unfolding net_send_udp_packet
net_send_udp_packet-Unicast dest dport sport len n u =
    rw (Unicast-ether dest u) (rw (Unicast-dest dest u) refl)

udp_prepare-server_mac :
    (mac x : Mac) (dest dport sport len : ℕ) (n : Net)
    → ((udp_prepare mac dest dport sport len (record n { server_mac = x })).0
        ≡ (udp_prepare mac dest dport sport len n).0)
      × (((udp_prepare mac dest dport sport len (record n { server_mac = x })).1.tx
            ≡ (udp_prepare mac dest dport sport len n).1.tx)
          × ((udp_prepare mac dest dport sport len (record n { server_mac = x })).1.eth_current
              ≡ n.eth_current))
unfolding udp_prepare net_set_ether net_set_udp_header net_set_ip_header
udp_prepare-server_mac mac x dest dport sport len n = (refl, (refl, refl))

udp_prepare-keeps :
    (mac : Mac) (dest dport sport len : ℕ) (n : Net)
    → (udp_prepare mac dest dport sport len n).1.eth_current ≡ n.eth_current
unfolding udp_prepare net_set_udp_header net_set_ip_header
udp_prepare-keeps mac dest dport sport len n = refl

udp_prepare-size :
    (x y : Mac) (dest dport sport len : ℕ) (n : Net)
    → (udp_prepare x dest dport sport len n).0 ≡ (udp_prepare y dest dport sport len n).0
unfolding udp_prepare
udp_prepare-size x y dest dport sport len n = (net_set_ether-size n.tx x y prot_ip n).0

-- With the address known, the packet goes out at once.
last_sent-known :
    (sha : Mac) (dest dport sport len : ℕ) (n : Net) (d : Device)
    → Unicast dest
    → mac_eq sha null_mac ≡ false
    → n.eth_current ≡ some d
    → last_sent
        (net_send_udp_packet server_ether dest dport sport len (record n { server_mac = sha })).1
      ≡ some (
          frame_of
            (udp_prepare sha dest dport sport len n).1.tx
            ((udp_prepare sha dest dport sport len n).0 + 28 + len))
unfolding udp_finish
last_sent-known sha dest dport sport len n d u known h =
    let same = udp_prepare-server_mac sha sha dest dport sport len n in
    rw (net_send_udp_packet-Unicast dest dport sport len (record n { server_mac = sha }) u)
      (rw known (last_sent-net_send_packet _ _ _ d (same.1.1 ∙ h) ∙ rw (same.0, same.1.0) refl))

-- With the address unknown, it waits.
udp_finish-Waits :
    (dest size : ℕ) (n : Net)
    → Waits dest size server_ether n (udp_finish null_mac server_ether dest size n).1
unfolding udp_finish
udp_finish-Waits dest size n = net_wait_arp-Waits dest size server_ether n

-- The packet that is to be sent to a server whose address is taken to be `mac`.
unfoldable pub deferred : ℕ → ℕ → ℕ → ℕ → Net → Mac → Bool × Net
deferred dest dport sport len n mac =
    udp_finish mac server_ether dest ((udp_prepare mac dest dport sport len n).0 + 28 + len)
      (udp_prepare mac dest dport sport len n).1

pub net_send_udp_packet-deferred :
    (dest dport sport len : ℕ) (n : Net)
    → Unicast dest
    → n.server_mac ≡ null_mac
    → (net_send_udp_packet server_ether dest dport sport len n).1
      ≡ (deferred dest dport sport len n null_mac).1
unfolding deferred
net_send_udp_packet-deferred dest dport sport len n u unknown =
    ap (λ r. r.1) (net_send_udp_packet-Unicast dest dport sport len n u)
    ∙ ap (λ mac. (deferred dest dport sport len n mac).1) unknown

pub deferred-Waits :
    (dest dport sport len : ℕ) (n m : Net)
    → Unicast dest
    → n.server_mac ≡ null_mac
    → m ≡ (net_send_udp_packet server_ether dest dport sport len n).1
    → Waits dest
        ((udp_prepare null_mac dest dport sport len n).0 + 28 + len)
        server_ether
        (udp_prepare null_mac dest dport sport len n).1
        m
unfolding deferred
deferred-Waits dest dport sport len n m u unknown sent =
    rw (sent ∙ net_send_udp_packet-deferred dest dport sport len n u unknown)
      (udp_finish-Waits dest _ (udp_prepare null_mac dest dport sport len n).1)

-- The awaited reply is taken.
pub arp_receive-awaited :
    (et : Buf) (p size : ℕ) (m : Net)
    → arp_accepts et p size m ≡ true
    → get_be16 et (p + 6) ≡ 2
    → m.arp.wait_packet_ip ≢ 0
    → net_read_ip et (p + 14) ≡ m.arp.wait_reply_ip
    → arp_receive et p size m ≡ arp_resolved (get_mac et (p + 8)) m
unfolding arp_receive arp_reply
arp_receive-awaited et p size m accepted op waiting from =
    rw (accepted, op) (ground (arith, waiting))

-- A packet to a server whose Ethernet address is not known goes out when the ARP reply that is waited
-- for arrives, and is then byte for byte the frame that would have been sent had the address of the
-- reply been known, with a device present and the destination not a broadcast address.
pub arp_receive-deferred :
    (dest dport sport len : ℕ) (et : Buf) (p size : ℕ) (n m : Net) (d : Device)
    → Unicast dest
    → n.server_mac ≡ null_mac
    → n.eth_current ≡ some d
    → m ≡ (net_send_udp_packet server_ether dest dport sport len n).1
    → arp_accepts et p size m ≡ true
    → get_be16 et (p + 6) ≡ 2
    → net_read_ip et (p + 14) ≡ m.arp.wait_reply_ip
    → mac_eq (get_mac et (p + 8)) null_mac ≡ false
    → last_sent (arp_receive et p size m)
      ≡ last_sent
          (net_send_udp_packet server_ether dest dport sport len
            (record n { server_mac = get_mac et (p + 8) })).1
arp_receive-deferred dest dport sport len et p size n m d u unknown h sent accepted op from known =
    let sha = get_mac et (p + 8) in
    let w = deferred-Waits dest dport sport len n m u unknown sent in
    let waiting : m.arp.wait_packet_ip ≢ 0 = λ z. u.0 (sym w.wait_ip ∙ z) in
    let device = w.same_device ∙ (udp_prepare-keeps null_mac dest dport sport len n ∙ h) in
    let bytes =
      ap (λ b. put_mac b 0 sha) w.same_tx
      ∙ udp_prepare-put_mac sha null_mac dest dport sport len n in
    let length =
      w.wait_size ∙ ap (λ e. e + 28 + len) (udp_prepare-size null_mac sha dest dport sport len n) in
    ap last_sent (arp_receive-awaited et p size m accepted op waiting from)
    ∙ (last_sent-arp_resolved sha m d w.wait_mac device
        ∙ (rw (bytes, length) refl ∙ sym (last_sent-known sha dest dport sport len n d u known h)))
