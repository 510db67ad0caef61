-- ===== src/Net/Ping/Answer.antt =====
-- The answer to an echo request, as `ping_receive` of net/ping.c makes it from the request.
use non_os_lite.Prelude.{
  Buf, IsBytes, arith, get_le16, inl, inr, put8, put_le16, refl, true, ℕ, ◌+◌, ◌-◌, ◌/◌, ◌<◌, ◌^◌,
  ◌∙◌, ◌≡◌, ◌≤◌, ◌⊎◌,
}
use non_os_lite.Net.State.{Net}
use non_os_lite.Net.Cksum.{bnot16, net_cksum, net_cksum_ok}
use non_os_lite.Net.Cksum.Laws.{net_cksum_ok-agree, net_cksum_ok-fill}
use non_os_lite.Net.Header.{net_copy_ip, net_read_ip, net_write_ip}
use non_os_lite.Net.Ping.{echo_packet, icmp_words}

-- The IP header turned round, before its checksum is filled in.
turned : Buf → ℕ → Net → Buf
turned et p n =
    net_write_ip (net_copy_ip (put_le16 (put_le16 et (p + 10) 0) (p + 6) 0) (p + 16) (p + 12))
      (p + 12) n.our_ip

turned-IsBytes : (et : Buf) (p : ℕ) (n : Net) → IsBytes et → IsBytes (turned et p n)
unfolding turned
turned-IsBytes et p n h a =
    ground (arith, h a, h (p + 12), h (p + 12 + 1), h (p + 12 + 2), h (p + 12 + 3))

turned-sum : (et : Buf) (p : ℕ) (n : Net) → get_le16 (turned et p n) (p + 10) ≡ 0
unfolding turned
turned-sum et p n = ground arith

-- A checksum stored into a buffer of bytes.
filled : Buf → ℕ → ℕ → ℕ → Buf
filled m at q words = put_le16 m at (bnot16 (net_cksum m q words))

filled-elsewhere :
    (m : Buf) (at q words i : ℕ) → (i < at) ⊎ (at + 1 < i) → filled m at q words i ≡ m i
unfolding filled
filled-elsewhere m at q words i (inl h) = ground arith
filled-elsewhere m at q words i (inr h) = ground arith

filled-IsBytes : (m : Buf) (at q words : ℕ) → IsBytes m → IsBytes (filled m at q words)
unfolding filled
filled-IsBytes m at q words h a = ground (arith, h a)

-- The ICMP header of the answer, before its checksum is filled in.
echoed : Buf → ℕ → Buf
echoed m q = put_le16 (put8 m q 0) (q + 2) 0

echoed-elsewhere : (m : Buf) (q i : ℕ) → (i < q) ⊎ (q + 3 < i) → echoed m q i ≡ m i
unfolding echoed
echoed-elsewhere m q i (inl h) = ground arith
echoed-elsewhere m q i (inr h) = ground arith

echoed-code : (m : Buf) (q : ℕ) → echoed m q q ≡ 0
unfolding echoed
echoed-code m q = ground arith

echoed-IsBytes : (m : Buf) (q : ℕ) → IsBytes m → IsBytes (echoed m q)
unfolding echoed
echoed-IsBytes m q h a = ground (arith, h a)

echo_parts :
    (et : Buf) (p len : ℕ) (n : Net)
    → echo_packet et p len n
      ≡ filled
          (echoed (filled (turned et p n) (p + 10) p 10) (p + 20))
          (p + 20 + 2)
          (p + 20)
          (icmp_words len)
unfolding echo_packet filled echoed turned
echo_parts et p len n = refl

-- What the requester expects of an answer `f` to its request `et`.
pub record Answers (et : Buf) (p len our_ip : ℕ) (f : Buf) : Type 0 where
  pub ip_checksum : net_cksum_ok f p 10 ≡ true
  pub icmp_checksum : net_cksum_ok f (p + 20) ((len - 20) / 2) ≡ true
  pub reply : f (p + 20) ≡ 0
  pub from : net_read_ip f (p + 12) ≡ our_ip
  pub to : net_read_ip f (p + 16) ≡ net_read_ip et (p + 12)
  pub same_data : (i : ℕ) → p + 24 ≤ i → f i ≡ et i

module _ (et : Buf) (p len : ℕ) (n : Net) (b : IsBytes et) (ip : n.our_ip < 2 ^ 32) where
  ip_part : Buf
  ip_part = filled (turned et p n) (p + 10) p 10

  icmp_part : Buf
  unfolding ip_part
  icmp_part = echoed ip_part (p + 20)

  ip_part-IsBytes : IsBytes ip_part
  unfolding ip_part
  ip_part-IsBytes = filled-IsBytes (turned et p n) (p + 10) p 10 (turned-IsBytes et p n b)

  ip_part-checksum : net_cksum_ok ip_part p 10 ≡ true
  unfolding ip_part filled
  ip_part-checksum =
      net_cksum_ok-fill (turned et p n) p 10 5 (turned-IsBytes et p n b) (omega arith) (omega arith)
        (turned-sum et p n)

  icmp_part-sum : get_le16 icmp_part (p + 20 + 2) ≡ 0
  unfolding icmp_part echoed
  icmp_part-sum = ground arith

  icmp_part-checksum :
      (words : ℕ)
      → 1 < words
      → words ≤ 0xffff
      → net_cksum_ok (filled icmp_part (p + 20 + 2) (p + 20) words) (p + 20) words ≡ true
  unfolding filled icmp_part
  icmp_part-checksum words some_words few =
      net_cksum_ok-fill icmp_part (p + 20) words 1 (echoed-IsBytes ip_part (p + 20) ip_part-IsBytes)
        few some_words icmp_part-sum

  -- Before the ICMP header nothing changes any more.
  before : (words i : ℕ) → i < p + 20 → filled icmp_part (p + 20 + 2) (p + 20) words i ≡ ip_part i
  unfolding icmp_part
  before words i h =
      filled-elsewhere (echoed ip_part (p + 20)) (p + 20 + 2) (p + 20) words i (inl (omega arith))
      ∙ echoed-elsewhere ip_part (p + 20) i (inl h)

  address : (i : ℕ) → p + 12 ≤ i → i < p + 20 → ip_part i ≡ turned et p n i
  unfolding ip_part
  address i l h = filled-elsewhere (turned et p n) (p + 10) p 10 i (inr (omega arith))

  turned-data : (i : ℕ) → p + 24 ≤ i → turned et p n i ≡ et i
  unfolding turned
  turned-data i h = ground arith

  turned-from : net_read_ip (turned et p n) (p + 12) ≡ n.our_ip
  unfolding turned
  turned-from = ground arith

  turned-to : net_read_ip (turned et p n) (p + 16) ≡ net_read_ip et (p + 12)
  unfolding turned
  turned-to = ground arith

  word :
      (words q : ℕ)
      → p + 12 ≤ q
      → q + 3 < p + 20
      → net_read_ip (filled icmp_part (p + 20 + 2) (p + 20) words) q ≡ net_read_ip (turned et p n) q
  word words q l h = omega (
    arith,
    before words q (omega arith),
    before words (q + 1) (omega arith),
    before words (q + 2) (omega arith),
    before words (q + 3) (omega arith),
    address q l (omega arith),
    address (q + 1) (omega arith) (omega arith),
    address (q + 2) (omega arith) (omega arith),
    address (q + 3) (omega arith) (omega arith),
  )

  answer-Answers :
      24 ≤ len
      → len < 2 ^ 16
      → Answers et p len n.our_ip (filled icmp_part (p + 20 + 2) (p + 20) ((len - 20) / 2))
  unfolding icmp_part ip_part
  answer-Answers long short = record {
    ip_checksum =
        net_cksum_ok-agree _ ip_part p 10 (λ i l h. before ((len - 20) / 2) i (omega arith))
        ∙ ip_part-checksum;
    icmp_checksum = icmp_part-checksum ((len - 20) / 2) (omega arith) (omega arith);
    reply =
        filled-elsewhere icmp_part (p + 20 + 2) (p + 20) ((len - 20) / 2) (p + 20)
          (inl (omega arith))
        ∙ echoed-code ip_part (p + 20);
    from = word ((len - 20) / 2) (p + 12) (omega arith) (omega arith) ∙ turned-from;
    to = word ((len - 20) / 2) (p + 16) (omega arith) (omega arith) ∙ turned-to;
    same_data = λ i h.
        filled-elsewhere icmp_part (p + 20 + 2) (p + 20) ((len - 20) / 2) i (inr (omega arith))
        ∙ (echoed-elsewhere ip_part (p + 20) i (inr (omega arith))
            ∙ (filled-elsewhere (turned et p n) (p + 10) p 10 i (inr (omega arith))
                ∙ turned-data i h));
  }

-- The packet that answers an echo request of 24 to 65535 bytes has an IP checksum and an ICMP
-- checksum that verify, the latter over the whole words behind the IP header; it is a reply from our
-- address to the requester's, and it returns the request's bytes from the identifier on unchanged.
pub echo_packet-Answers :
    (et : Buf) (p len : ℕ) (n : Net)
    → IsBytes et
    → n.our_ip < 2 ^ 32
    → 24 ≤ len
    → len < 2 ^ 16
    → Answers et p len n.our_ip (echo_packet et p len n)
unfolding icmp_part ip_part
echo_packet-Answers et p len n b ip long short =
    let words : icmp_words len ≡ (len - 20) / 2 = omega arith in
    rw (echo_parts et p len n, words) (answer-Answers et p len n b ip long short)
