-- ===== src/Net/Delivery/Headers.antt =====
-- The headers that `net_set_udp_header` of net/net_core.c writes, field by field.
use non_os_lite.Prelude.{
  Buf, IsBytes, arith, get_be16, get_le16, if◌then◌else◌, inl, inr, put8, put_be16, true, ℕ, ◌%◌,
  ◌+◌, ◌/◌, ◌<◌, ◌==◌, ◌^◌, ◌∙◌, ◌≡◌, ◌≤◌, ◌⊎◌,
}
use non_os_lite.Net.State.{Net}
use non_os_lite.Net.Cksum.{net_cksum_ok}
use non_os_lite.Net.Cksum.Laws.{net_cksum_ok-agree, net_cksum_ok-fill}
use non_os_lite.Net.Header.{
  ip_finish, ip_header, ip_udp_hdr_size, net_read_ip, net_set_ip_header, net_set_udp_header,
  udp_fields,
}

-- The IP header before its checksum is filled in.
open_header : Buf → ℕ → ℕ → ℕ → ℕ → ℕ → ℕ → Buf
open_header m p id dest source len proto =
    put8 (put_be16 (ip_header m p id dest source) (p + 2) len) (p + 9) proto

open_header-IsBytes :
    (m : Buf) (p id dest source len proto : ℕ)
    → IsBytes m
    → proto < 256
    → IsBytes (open_header m p id dest source len proto)
unfolding open_header ip_header
open_header-IsBytes m p id dest source len proto h small a = ground (arith, h a)

open_header-sum :
    (m : Buf) (p id dest source len proto : ℕ)
    → get_le16 (open_header m p id dest source len proto) (p + 10) ≡ 0
unfolding open_header ip_header
open_header-sum m p id dest source len proto = ground arith

-- A finished IP header passes the test of its checksum.
pub net_cksum_ok-ip_finish :
    (m : Buf) (p id dest source len proto : ℕ)
    → IsBytes m
    → proto < 256
    → net_cksum_ok (ip_finish (ip_header m p id dest source) p len proto) p 10 ≡ true
unfolding ip_finish open_header
net_cksum_ok-ip_finish m p id dest source len proto h small =
    net_cksum_ok-fill (open_header m p id dest source len proto) p 10 5
      (open_header-IsBytes m p id dest source len proto h small) (omega arith) (omega arith)
      (open_header-sum m p id dest source len proto)

-- The bytes of the header, and those behind it.
pub record Finished (m : Buf) (p dest source len proto : ℕ) (f : Buf) : Type 0 where
  pub version : f p ≡ 0x45
  pub total : get_be16 f (p + 2) ≡ len % 2 ^ 16
  pub fragment : get_be16 f (p + 6) ≡ 0x4000
  pub protocol : f (p + 9) ≡ proto
  pub from : net_read_ip f (p + 12) ≡ source % 2 ^ 32
  pub to : net_read_ip f (p + 16) ≡ dest % 2 ^ 32
  pub rest : (i : ℕ) → p + 28 ≤ i → f i ≡ m i

net_read_ip-bytes :
    (f : Buf) (q v : ℕ)
    → f q ≡ v % 256
    → f (q + 1) ≡ v / 256 % 256
    → f (q + 2) ≡ v / 2 ^ 16 % 256
    → f (q + 3) ≡ v / 2 ^ 24 % 256
    → net_read_ip f q ≡ v % 2 ^ 32
net_read_ip-bytes f q v a b c d = omega arith

ip_finish-Finished :
    (m : Buf) (p id dest source len proto : ℕ)
    → Finished m p dest source len proto (ip_finish (ip_header m p id dest source) p len proto)
unfolding ip_finish ip_header
ip_finish-Finished m p id dest source len proto =
    let f = ip_finish (ip_header m p id dest source) p len proto in
    record {
      version = ground arith;
      total = ground arith;
      fragment = ground arith;
      protocol = ground arith;
      from =
          net_read_ip-bytes f (p + 12) source (ground arith) (ground arith) (ground arith)
            (ground arith);
      to =
          net_read_ip-bytes f (p + 16) dest (ground arith) (ground arith) (ground arith)
            (ground arith);
      rest = λ i h. ground arith;
    }

-- The UDP header leaves the IP header and the payload alone.
udp_fields-elsewhere :
    (f : Buf) (p dport sport len i : ℕ)
    → (i < p + 20) ⊎ (p + 28 ≤ i)
    → udp_fields f p dport sport len i ≡ f i
unfolding udp_fields
udp_fields-elsewhere f p dport sport len i (inl h) = ground arith
udp_fields-elsewhere f p dport sport len i (inr h) = ground arith

-- The zero byte behind a payload of odd length.
pub padded : Buf → ℕ → ℕ → Buf
padded m p len = if len % 2 == 1 then put8 m (p + ip_udp_hdr_size + len) 0 else m

padded-IsBytes : (m : Buf) (p len : ℕ) → IsBytes m → IsBytes (padded m p len)
unfolding padded
padded-IsBytes m p len h a = ground (arith, h a)

pub padded-before : (m : Buf) (p len i : ℕ) → i < p + 28 + len → padded m p len i ≡ m i
unfolding padded
padded-before m p len i h = ground arith

-- `f` is a UDP packet whose headers `net_set_udp_header` wrote in front of the payload in `m`.
pub record Datagram (m : Buf) (p dest source dport sport len : ℕ) (f : Buf) : Type 0 where
  pub header : Finished (padded m p len) p dest source (28 + len) 17 f
  pub checksum : net_cksum_ok f p 10 ≡ true
  pub from_port : get_be16 f (p + 20) ≡ sport % 2 ^ 16
  pub to_port : get_be16 f (p + 22) ≡ dport % 2 ^ 16
  pub size : get_be16 f (p + 24) ≡ (8 + len) % 2 ^ 16

Finished-udp_fields :
    (m f : Buf) (p dest source total proto dport sport len : ℕ)
    → Finished m p dest source total proto f
    → Finished m p dest source total proto (udp_fields f p dport sport len)
Finished-udp_fields m f p dest source total proto dport sport len fin = record {
  version = below p (omega arith) ∙ fin.version;
  total = omega (arith, fin.total, below (p + 2) (omega arith), below (p + 2 + 1) (omega arith));
  fragment =
      omega (arith, fin.fragment, below (p + 6) (omega arith), below (p + 6 + 1) (omega arith));
  protocol = below (p + 9) (omega arith) ∙ fin.protocol;
  from = word (p + 12) (omega arith) ∙ fin.from;
  to = word (p + 16) (omega arith) ∙ fin.to;
  rest = λ i h. udp_fields-elsewhere f p dport sport len i (inr h) ∙ fin.rest i h;
}
  where
    below : (q : ℕ) → q < p + 20 → udp_fields f p dport sport len q ≡ f q
    below q h = udp_fields-elsewhere f p dport sport len q (inl h)

    word :
        (q : ℕ) → q + 3 < p + 20 → net_read_ip (udp_fields f p dport sport len) q ≡ net_read_ip f q
    word q h = omega (
      arith,
      below q (omega arith),
      below (q + 1) (omega arith),
      below (q + 2) (omega arith),
      below (q + 3) (omega arith),
    )

pub net_set_udp_header-Datagram :
    (m : Buf) (p dest dport sport len : ℕ) (n : Net)
    → IsBytes m
    → Datagram m p dest n.our_ip dport sport len (net_set_udp_header m p dest dport sport len n).0
unfolding net_set_udp_header net_set_ip_header padded udp_fields
net_set_udp_header-Datagram m p dest dport sport len n h =
    let fin = ip_finish-Finished (padded m p len) p n.ip_id dest n.our_ip (28 + len) 17 in
    let checked =
      net_cksum_ok-ip_finish (padded m p len) p n.ip_id dest n.our_ip (28 + len) 17
        (padded-IsBytes m p len h) (omega arith) in
    let g = ip_finish (ip_header (padded m p len) p n.ip_id dest n.our_ip) p (28 + len) 17 in
    record {
      header = Finished-udp_fields _ g p dest n.our_ip (28 + len) 17 dport sport len fin;
      checksum =
          net_cksum_ok-agree (udp_fields g p dport sport len) g p 10
            (λ i l r. udp_fields-elsewhere g p dport sport len i (inl (omega arith)))
          ∙ checked;
      from_port = ground arith;
      to_port = ground arith;
      size = ground arith;
    }
