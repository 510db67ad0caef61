-- ===== src/Net/Deferral/Frames.antt =====
-- How the frame that `NetSendUDPPacket` of net/net_core.c builds depends on the Ethernet address.
use non_os_lite.Prelude.{
  Buf, arith, fun_ext, if◌then◌else◌, inl, inr, put8, sym, ℕ, ◌%◌, ◌+◌, ◌/◌, ◌<◌, ◌==◌, ◌∙◌, ◌≡◌,
  ◌≤◌, ◌⊎◌,
}
use non_os_lite.Net.State.{Mac, Net, put_mac}
use non_os_lite.Net.Cksum.Laws.{net_cksum-agree}
use non_os_lite.Net.Header.{
  ip_finish, ip_header, net_set_ether, net_set_ip_header, net_set_udp_header, prot_ip, udp_fields,
}
use non_os_lite.Net.Send.{udp_prepare}

-- Equal from the sixth byte on.
abbrev Alike : Buf → Buf → Type 0
Alike a b = (i : ℕ) → 6 ≤ i → a i ≡ b i

put8-Alike : (a b : Buf) (q v : ℕ) → Alike a b → Alike (put8 a q v) (put8 b q v)
put8-Alike a b q v h i l = ground (arith, h i l)

ip_header-Alike :
    (a b : Buf) (p id dest source : ℕ)
    → Alike a b
    → Alike (ip_header a p id dest source) (ip_header b p id dest source)
unfolding ip_header
ip_header-Alike a b p id dest source h i l = ground (arith, h i l)

ip_finish-Alike :
    (a b : Buf) (p len proto : ℕ)
    → 6 ≤ p
    → Alike a b
    → Alike (ip_finish a p len proto) (ip_finish b p len proto)
unfolding ip_finish
ip_finish-Alike a b p len proto far h =
    let opened =
      put8-Alike _ _ (p + 9) proto
        (put8-Alike _ _ (p + 2 + 1) (len % 256) (put8-Alike a b (p + 2) (len / 256 % 256) h)) in
    let sums = net_cksum-agree _ _ p 10 (λ i l r. opened i (omega arith)) in
    rw sums (put8-Alike _ _ (p + 10 + 1) _ (put8-Alike _ _ (p + 10) _ opened))

udp_fields-Alike :
    (a b : Buf) (p dport sport len : ℕ)
    → Alike a b
    → Alike (udp_fields a p dport sport len) (udp_fields b p dport sport len)
unfolding udp_fields
udp_fields-Alike a b p dport sport len h i l = ground (arith, h i l)

net_set_ether-Alike :
    (m : Buf) (x y : Mac) (prot : ℕ) (n : Net)
    → Alike (net_set_ether m x prot n).0 (net_set_ether m y prot n).0
unfolding net_set_ether
net_set_ether-Alike m x y prot n i l = ground arith

pub net_set_ether-size :
    (m : Buf) (x y : Mac) (prot : ℕ) (n : Net)
    → ((net_set_ether m x prot n).1 ≡ (net_set_ether m y prot n).1)
      × (14 ≤ (net_set_ether m x prot n).1)
unfolding net_set_ether
net_set_ether-size m x y prot n = (ground arith, ground arith)

-- Writing the headers behind the Ethernet header leaves that one alone.
pub net_set_udp_header-before :
    (m : Buf) (p dest dport sport len i : ℕ) (n : Net)
    → i < p
    → (net_set_udp_header m p dest dport sport len n).0 i ≡ m i
unfolding net_set_udp_header net_set_ip_header ip_finish ip_header udp_fields
net_set_udp_header-before m p dest dport sport len i n h = ground arith

padded-Alike :
    (a b : Buf) (p len : ℕ)
    → Alike a b
    → Alike
        (if len % 2 == 1 then put8 a (p + 28 + len) 0 else a)
        (if len % 2 == 1 then put8 b (p + 28 + len) 0 else b)
padded-Alike a b p len h i l = ground (arith, h i l)

net_set_udp_header-Alike :
    (a b : Buf) (p dest dport sport len : ℕ) (n : Net)
    → 6 ≤ p
    → Alike a b
    → Alike
        (net_set_udp_header a p dest dport sport len n).0
        (net_set_udp_header b p dest dport sport len n).0
unfolding net_set_udp_header net_set_ip_header
net_set_udp_header-Alike a b p dest dport sport len n far h =
    udp_fields-Alike _ _ p dport sport len (
      ip_finish-Alike _ _ p (28 + len) 17 far
        (ip_header-Alike _ _ p n.ip_id dest n.our_ip (padded-Alike a b p len h)))

put_mac-low : (a b : Buf) (x : Mac) (i : ℕ) → i < 6 → put_mac a 0 x i ≡ put_mac b 0 x i
put_mac-low a b x i h = ground arith

put_mac-high : (a : Buf) (x : Mac) (i : ℕ) → 6 ≤ i → put_mac a 0 x i ≡ a i
put_mac-high a x i h = ground arith

net_set_ether-low :
    (m : Buf) (x : Mac) (prot : ℕ) (n : Net) (i : ℕ)
    → i < 6
    → (net_set_ether m x prot n).0 i ≡ put_mac m 0 x i
unfolding net_set_ether
net_set_ether-low m x prot n i h = ground arith

-- The frame built for `x` is the frame built for `y`, with `x` written over the first six bytes.
pub udp_prepare-put_mac :
    (x y : Mac) (dest dport sport len : ℕ) (n : Net)
    → put_mac (udp_prepare y dest dport sport len n).1.tx 0 x
      ≡ (udp_prepare x dest dport sport len n).1.tx
unfolding udp_prepare
udp_prepare-put_mac x y dest dport sport len n =
    let size = net_set_ether-size n.tx y x prot_ip n in
    rw size.0 (fun_ext (λ i. at i (omega arith)))
  where
    built : Mac → Buf
    built z =
        (net_set_udp_header (net_set_ether n.tx z prot_ip n).0 (net_set_ether n.tx x prot_ip n).1
          dest dport sport len n).0

    at : (i : ℕ) → (i < 6) ⊎ (6 ≤ i) → put_mac (built y) 0 x i ≡ built x i
    at i (inl l) =
        put_mac-low (built y) n.tx x i l
        ∙ sym (
            net_set_udp_header-before (net_set_ether n.tx x prot_ip n).0
              (net_set_ether n.tx x prot_ip n).1 dest dport sport len i n
              (omega (arith, (net_set_ether-size n.tx x x prot_ip n).1))
            ∙ net_set_ether-low n.tx x prot_ip n i l)
    at i (inr l) =
        put_mac-high (built y) x i l
        ∙ net_set_udp_header-Alike _ _ _ dest dport sport len n
            (omega (arith, (net_set_ether-size n.tx x x prot_ip n).1))
            (net_set_ether-Alike n.tx y x prot_ip n) i l
