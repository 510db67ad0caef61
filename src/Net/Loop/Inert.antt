-- ===== src/Net/Loop/Inert.antt =====
-- What `NetLoop` leaves alone: memory in a ping, and the load address always.
use non_os_lite.Prelude.{Buf, List, Option, arith, none, refl, some, ℕ, ◌+◌, ◌∙◌, ◌≡◌}
use non_os_lite.Net.State.{Net, dummy_handler, null_mac, ping, ping_timeout}
use non_os_lite.Net.Keeps.{arp_request-Keeps, net_set_timeout-Keeps}
use non_os_lite.Net.Untouched.{
  Keeps-Untouched, Untouched, Untouched-refl, Untouched-trans, arp_receive-Untouched,
  receive_icmp-Untouched,
}
use non_os_lite.Net.Header.{net_set_ether, net_set_ip_header, prot_ip}
use non_os_lite.Net.Clock.{get_timer}
use non_os_lite.Net.Send.{net_clear_handlers, net_set_timeout}
use non_os_lite.Net.Ping.{ip_icmp_hdr_size, ping_send, ping_start, set_icmp_header}
use non_os_lite.Net.Receive.{Link, ip_receive, link_receive, net_receive, parse_ether, udp_dispatch}
use non_os_lite.Net.Loop.{Outcome, Round, fault, net_loop, protocol_start, returned, running}
use non_os_lite.Net.Loop.Keeping.{Ends, net_loop-keeps}

ping_send-Untouched : (n : Net) → Untouched n (ping_send n)
unfolding ping_send set_icmp_header net_set_ip_header get_timer
ping_send-Untouched n =
    let n1 : Net = record n { arp = record n.arp { wait_packet_ip = n.ping_ip } } in
    let (pkt, eth_hdr_size) = net_set_ether n1.tx null_mac prot_ip n1 in
    let (pkt', n2) = set_icmp_header pkt eth_hdr_size n1.ping_ip n1 in
    let (t, n3) = get_timer 0 (record n2 { tx = pkt' }) in
    let asking : Net = record n3 {
      arp = record n3.arp {
        wait_tx_packet_size = eth_hdr_size + ip_icmp_hdr_size;
        wait_try = 1;
        wait_timer_start = t;
      };
    } in
    let same : Untouched n asking = record {
      same_ram = refl;
      same_load_addr = refl;
      same_udp_handler = refl;
    } in
    Untouched-trans same (Keeps-Untouched (arp_request-Keeps asking))

pub ping_start-Untouched : (n : Net) → Untouched n (ping_start n)
unfolding ping_start
ping_start-Untouched n =
    Untouched-trans (Keeps-Untouched (net_set_timeout-Keeps 10000 ping_timeout n))
      (ping_send-Untouched (net_set_timeout 10000 ping_timeout n))

-- With no handler for UDP, a frame leaves memory alone.
udp_dispatch-dummy :
    (et : Buf) (p : ℕ) (n : Net) → n.udp_handler ≡ dummy_handler → udp_dispatch et p n ≡ n
unfolding udp_dispatch
udp_dispatch-dummy et p n h = ground arith

ip_receive-Untouched :
    (et : Buf) (p len : ℕ) (n : Net)
    → Untouched n (udp_dispatch et p n)
    → Untouched n (ip_receive et p len n)
unfolding ip_receive
ip_receive-Untouched et p len n udp = grind (arith, receive_icmp-Untouched, udp)

link_receive-Untouched :
    (et : Buf) (l : Link) (n : Net)
    → Untouched n (udp_dispatch et l.offset n)
    → Untouched n (link_receive et l n)
unfolding link_receive
link_receive-Untouched et l n udp =
    grind (arith, arp_receive-Untouched, ip_receive-Untouched et l.offset l.rest n udp)

-- Memory and the load address are the given ones, and UDP packets are dropped.
pub record Idle (ram : Buf) (la : ℕ) (n : Net) : Type 0 where
  pub memory : n.ram ≡ ram
  pub address : n.load_addr ≡ la
  pub dropped : n.udp_handler ≡ dummy_handler

module _ (ram : Buf) (la : ℕ) where
  Idle-kept : (n m : Net) → Untouched n m → Idle ram la n → Idle ram la m
  Idle-kept n m u i = record {
    memory = u.same_ram ∙ i.memory;
    address = u.same_load_addr ∙ i.address;
    dropped = u.same_udp_handler ∙ i.dropped;
  }

  Idle-clear : (n : Net) → Idle ram la n → Idle ram la (net_clear_handlers n)
  unfolding net_clear_handlers net_set_timeout
  Idle-clear n i = record { memory = i.memory; address = i.address; dropped = refl }

  Idle-link : (et : Buf) (l : Link) (n : Net) → Idle ram la n → Idle ram la (link_receive et l n)
  Idle-link et l n i =
      let udp : Untouched n (udp_dispatch et l.offset n) =
        rw (udp_dispatch-dummy et l.offset n i.dropped) (Untouched-refl n) in
      Idle-kept n (link_receive et l n) (link_receive-Untouched et l n udp) i

  Idle-receive : (et : Buf) (len : ℕ) (n : Net) → Idle ram la n → Idle ram la (net_receive et len n)
  unfolding net_receive
  Idle-receive et len n i = parsed (parse_ether et len n)
    where
      parsed :
          (o : Option Link)
          → Idle ram la (elim o as (λ x. Net) [ none ↦ n | some l ↦ link_receive et l n ])
      parsed none = i
      parsed (some l) = Idle-link et l n i

  Idle-start : (n : Net) → Idle ram la n → Idle ram la (protocol_start ping n)
  unfolding protocol_start
  Idle-start n i = Idle-kept n (ping_start n) (ping_start-Untouched n) i

-- A call of NetLoop for a ping, with no handler of UDP packets left over, leaves the memory that the
-- model keeps apart from globals and packet buffers, and the load address, as they were, whatever frames arrive and keys are pressed, and however it ends.
pub net_loop-ping_memory :
    (rounds : List Round) (n : Net)
    → n.udp_handler ≡ dummy_handler
    → Ends (λ m. (m.ram ≡ n.ram) × (m.load_addr ≡ n.load_addr)) (net_loop ping rounds n)
net_loop-ping_memory rounds n none_left =
    let start : Idle n.ram n.load_addr n = record {
      memory = refl;
      address = refl;
      dropped = none_left;
    } in
    forget (net_loop ping rounds n) (
      net_loop-keeps ping (Idle n.ram n.load_addr) (Idle-receive n.ram n.load_addr)
        (Idle-kept n.ram n.load_addr) (Idle-clear n.ram n.load_addr) (Idle-start n.ram n.load_addr)
        rounds n start)
  where
    forget :
        (o : Outcome)
        → Ends (Idle n.ram n.load_addr) o
        → Ends (λ m. (m.ram ≡ n.ram) × (m.load_addr ≡ n.load_addr)) o
    forget (returned k m) i = (i.memory, i.address)
    forget (running m) i = (i.memory, i.address)
    forget fault i = tt
