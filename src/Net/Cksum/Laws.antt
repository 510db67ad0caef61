-- ===== src/Net/Cksum/Laws.antt =====
-- The sum behind the Internet checksum of net/net_core.c.
use native.Mathlib.Nat.{zero-add}
use non_os_lite.Prelude.{
  Bool-cases, Buf, IsBytes, ap, arith, bit_and, get_le16, inl, inr, put_le16, refl, suc, true, u32,
  zero, ℕ, ◌%◌, ◌*◌, ◌+◌, ◌/◌, ◌<◌, ◌==◌, ◌^◌, ◌∙◌, ◌≡◌, ◌≤◌,
}
use non_os_lite.Net.Cksum.{bnot16, fold16, net_cksum, net_cksum_loop, net_cksum_ok}

-- The plain sum of the words.
pub word_sum : Buf → ℕ → ℕ → ℕ
word_sum m p zero = 0
word_sum m p (suc len) = get_le16 m p + word_sum m (p + 2) len

word_le : (m : Buf) (p : ℕ) → IsBytes m → get_le16 m p ≤ 0xffff
word_le m p b = omega (arith, b p, b (p + 1))

word_sum-le : (m : Buf) (p len : ℕ) → IsBytes m → word_sum m p len ≤ 0xffff * len
unfolding word_sum
word_sum-le m p zero b = omega arith
word_sum-le m p (suc len) b = omega (arith, word_le m p b, word_sum-le m (p + 2) len b)

-- Within 65536 words the 32-bit sum does not wrap.
net_cksum_loop-word_sum :
    (m : Buf) (p len x : ℕ)
    → IsBytes m
    → x + 0xffff * len < 2 ^ 32
    → net_cksum_loop m p len x ≡ x + word_sum m p len
unfolding net_cksum_loop word_sum
net_cksum_loop-word_sum m p zero x b h = omega arith
net_cksum_loop-word_sum m p (suc len) x b h =
    let same : u32 (x + get_le16 m p) ≡ x + get_le16 m p = omega (arith, word_le m p b) in
    rw same (
      net_cksum_loop-word_sum m (p + 2) len (x + get_le16 m p) b (omega (arith, word_le m p b))
      ∙ omega arith)

-- Folded twice, a 32-bit sum is a 16-bit word, and the same modulo 2 ^ 16 - 1.
abbrev norm : ℕ → ℕ
norm x = fold16 (fold16 x) % 2 ^ 16

fold_mod : (x : ℕ) → fold16 x % 0xffff ≡ x % 0xffff
unfolding fold16
fold_mod x = same_mod x (x / 2 ^ 16) (x % 2 ^ 16 + x / 2 ^ 16) (omega arith)
  where
    same_mod : (a q b : ℕ) → a ≡ 0xffff * q + b → b % 0xffff ≡ a % 0xffff
    same_mod a q b e = omega arith

fold_small : (x : ℕ) → x < 2 ^ 32 → fold16 (fold16 x) < 2 ^ 16
unfolding fold16
fold_small x h = omega arith

norm_mod : (x : ℕ) → x < 2 ^ 32 → (norm x < 2 ^ 16) × (norm x % 0xffff ≡ x % 0xffff)
norm_mod x h =
    let same : norm x ≡ fold16 (fold16 x) = omega (arith, fold_small x h) in
    (omega arith, rw same (fold_mod (fold16 x) ∙ fold_mod x))

word_sum-put_lt :
    (m : Buf) (p v q len : ℕ) → p + 1 < q → word_sum (put_le16 m p v) q len ≡ word_sum m q len
unfolding word_sum
word_sum-put_lt m p v q zero h = refl
word_sum-put_lt m p v q (suc len) h = ground (arith, word_sum-put_lt m p v (q + 2) len)

-- A store into the k-th word changes the sum by the difference.
word_sum-put :
    (m : Buf) (p k len v q : ℕ)
    → q ≡ p + 2 * k
    → k < len
    → v < 2 ^ 16
    → word_sum (put_le16 m q v) p len + get_le16 m q ≡ word_sum m p len + v
unfolding word_sum
word_sum-put m p k zero v q e h small = absurd (omega arith)
word_sum-put m p zero (suc len) v q e h small =
    ground (arith, word_sum-put_lt m q v (p + 2) len (omega arith))
word_sum-put m p (suc k) (suc len) v q e h small =
    ground (arith, word_sum-put m (p + 2) k len v q (omega arith) (omega arith) small)

-- Of the two words that a verified sum can be.
ok_values : (c : ℕ) → c < 2 ^ 16 → c % 0xffff ≡ 0 → (bit_and (c + 1) 0xfffe == 0) ≡ true
ok_values c h z = elim (Bool-cases (c == 0)) [
  | inl e ↦ let e' : c ≡ 0 = ground arith in rw e'
  | inr e ↦ let e' : c ≡ 0xffff = ground arith in rw e'
]

put_le16-IsBytes : (m : Buf) (p v : ℕ) → IsBytes m → IsBytes (put_le16 m p v)
put_le16-IsBytes m p v b a = ground (arith, b a)

module _ (m : Buf) (p len : ℕ) (b : IsBytes m) (short : len ≤ 0xffff) where
  pub net_cksum-word_sum : net_cksum m p len ≡ fold16 (fold16 (word_sum m p len)) % 2 ^ 16
  unfolding net_cksum
  net_cksum-word_sum =
      ap (λ s. fold16 (fold16 s) % 2 ^ 16)
        (net_cksum_loop-word_sum m p len 0 b (omega arith) ∙ zero-add (word_sum m p len))

  sum_fits : word_sum m p len < 2 ^ 32
  sum_fits = omega (arith, word_sum-le m p len b)

  -- The checksum is a 16-bit word that agrees with the sum of the words modulo 2 ^ 16 - 1.
  pub net_cksum_mod :
      (net_cksum m p len < 2 ^ 16) × (net_cksum m p len % 0xffff ≡ word_sum m p len % 0xffff)
  net_cksum_mod = rw net_cksum-word_sum (norm_mod (word_sum m p len) sum_fits)

  -- A packet whose words sum to 0 modulo 2 ^ 16 - 1 passes the check.
  pub net_cksum_ok-word_sum : word_sum m p len % 0xffff ≡ 0 → net_cksum_ok m p len ≡ true
  unfolding net_cksum_ok
  net_cksum_ok-word_sum z = ok_values (net_cksum m p len) net_cksum_mod.0 (net_cksum_mod.1 ∙ z)

-- Where the k-th word is 0, storing the complement of the checksum there makes `NetCksumOk` succeed.
pub net_cksum_ok-fill :
    (m : Buf) (p len k : ℕ)
    → IsBytes m
    → len ≤ 0xffff
    → k < len
    → get_le16 m (p + 2 * k) ≡ 0
    → net_cksum_ok (put_le16 m (p + 2 * k) (bnot16 (net_cksum m p len))) p len ≡ true
net_cksum_ok-fill m p len k b short h zero_word =
    net_cksum_ok-word_sum _ p len (put_le16-IsBytes m (p + 2 * k) _ b) short (
      balance (word_sum m p len) (net_cksum m p len) _ (net_cksum_mod m p len b short).0
        (net_cksum_mod m p len b short).1 total)
  where
    total :
        word_sum (put_le16 m (p + 2 * k) (bnot16 (net_cksum m p len))) p len
        ≡ word_sum m p len + bnot16 (net_cksum m p len)
    total =
        omega (arith, word_sum-put m p k len (bnot16 (net_cksum m p len)) _ refl h (omega arith))

    balance : (s c t : ℕ) → c < 2 ^ 16 → c % 0xffff ≡ s % 0xffff → t ≡ s + bnot16 c → t % 0xffff ≡ 0
    balance s c t small same e = omega arith

-- The checksum reads the words that it sums, and nothing else.
net_cksum_loop-agree :
    (a b : Buf) (q words x : ℕ)
    → ((i : ℕ) → q ≤ i → i < q + 2 * words → a i ≡ b i)
    → net_cksum_loop a q words x ≡ net_cksum_loop b q words x
unfolding net_cksum_loop
net_cksum_loop-agree a b q zero x h = refl
net_cksum_loop-agree a b q (suc words) x h =
    let first : a q ≡ b q = h q (omega arith) (omega arith) in
    let second : a (q + 1) ≡ b (q + 1) = h (q + 1) (omega arith) (omega arith) in
    rw (first, second)
      (net_cksum_loop-agree a b (q + 2) words _ (λ i l r. h i (omega arith) (omega arith)))

pub net_cksum-agree :
    (a b : Buf) (q words : ℕ)
    → ((i : ℕ) → q ≤ i → i < q + 2 * words → a i ≡ b i)
    → net_cksum a q words ≡ net_cksum b q words
unfolding net_cksum
net_cksum-agree a b q words h = rw (net_cksum_loop-agree a b q words 0 h) refl

pub net_cksum_ok-agree :
    (a b : Buf) (q words : ℕ)
    → ((i : ℕ) → q ≤ i → i < q + 2 * words → a i ≡ b i)
    → net_cksum_ok a q words ≡ net_cksum_ok b q words
unfolding net_cksum_ok
net_cksum_ok-agree a b q words h = rw (net_cksum-agree a b q words h) refl
