-- ===== src/Net/Tftp/Offset.antt =====
-- Where a block is stored: the 16-bit block number and the offset that counts its wraparounds give the
-- place of the block in the file.
use non_os_lite.Prelude.{
  ap, arith, sub32, suc, u32, zero, ℕ, ◌%◌, ◌*◌, ◌+◌, ◌/◌, ◌<◌, ◌^◌, ◌≡◌, ◌≢◌, ◌≤◌,
}
use non_os_lite.Net.State.{Net}
use non_os_lite.Net.Tftp.Store.{store_offset, tftp_sequence_size}

-- The wrap offset while `k` blocks are in: so many full rounds of 65536 blocks.
abbrev pub wrap_offset : ℕ → ℕ → ℕ
wrap_offset blk k = blk * tftp_sequence_size * (k / tftp_sequence_size)

-- `x = 65536 w + r`, times the block size.
scaled : (blk w r : ℕ) → blk * (65536 * w + r) ≡ blk * 65536 * w + blk * r
scaled blk w r = grind arith

divided : (k : ℕ) → k ≡ 65536 * (k / 65536) + k % 65536
divided k = omega arith

pub wrap_offset-le : (blk k : ℕ) → wrap_offset blk k ≤ blk * k
wrap_offset-le blk k =
    omega (arith, scaled blk (k / 65536) (k % 65536), ap (λ (t : ℕ). blk * t) (divided k))

-- The offset of block number `b = (k + 1) % 65536`, with the wraparounds counted, is `blk * k`.
offset_of_next :
    (blk w b k : ℕ)
    → suc k ≡ 65536 * w + b
    → b < 65536
    → blk * suc k < 2 ^ 32
    → u32 (u32 (sub32 b 1 * blk) + blk * 65536 * w) ≡ blk * k
offset_of_next blk w zero k e small fits =
    wrapped blk (blk * 65536 * w) (blk * k) total (omega (arith, total))
  where
    total : blk * 65536 * w ≡ blk * k + blk
    total = grind (arith, scaled blk w 0, ap (λ (t : ℕ). blk * t) e)

    wrapped : (x p q : ℕ) → p ≡ q + x → p < 2 ^ 32 → u32 (u32 (4294967295 * x) + p) ≡ q
    wrapped x p q e h = omega arith
offset_of_next blk w (suc b) k e small fits =
    rw below (plain (b * blk) (blk * 65536 * w) (blk * k) total (omega arith))
  where
    below : sub32 (suc b) 1 ≡ b
    below = omega arith

    total : b * blk + blk * 65536 * w ≡ blk * k
    total = grind (arith, scaled blk w (suc b), ap (λ (t : ℕ). blk * t) e)

    plain : (x p q : ℕ) → x + p ≡ q → q < 2 ^ 32 → u32 (u32 x + p) ≡ q
    plain x p q e h = omega arith

-- With `k` blocks in, the next block is stored at `blk * k`.
pub store_offset-next :
    (blk k : ℕ) (n : Net)
    → n.tftp.blk_size ≡ blk
    → n.tftp.block_wrap_offset ≡ wrap_offset blk (suc k)
    → blk * suc k < 2 ^ 32
    → store_offset (sub32 (suc k % 65536) 1) n ≡ blk * k
unfolding store_offset
store_offset-next blk k n size wrap fits =
    rw (size, wrap)
      (offset_of_next blk (suc k / 65536) (suc k % 65536) k (divided (suc k)) (omega arith) fits)

quotient_wraps : (k : ℕ) → suc k % 65536 ≡ 0 → suc k / 65536 ≡ suc (k / 65536)
quotient_wraps k h = omega arith

quotient_stays : (k : ℕ) → suc k % 65536 ≢ 0 → suc k / 65536 ≡ k / 65536
quotient_stays k h = omega arith

-- Counting a wraparound moves the offset on by 65536 blocks.
pub wrap_offset-suc :
    (blk k : ℕ)
    → suc k % 65536 ≡ 0
    → blk * suc k < 2 ^ 32
    → u32 (wrap_offset blk k + u32 (blk * 65536)) ≡ wrap_offset blk (suc k)
wrap_offset-suc blk k z fits = rw (quotient_wraps k z) (add_once (blk * 65536) (k / 65536) below)
  where
    below : blk * 65536 * suc (k / 65536) < 2 ^ 32
    below = rw (← quotient_wraps k z) (omega (arith, wrap_offset-le blk (suc k)))

    add_once : (x w : ℕ) → x * suc w < 2 ^ 32 → u32 (x * w + u32 x) ≡ x * suc w
    add_once x w h = grind arith

pub wrap_offset-same : (blk k : ℕ) → suc k % 65536 ≢ 0 → wrap_offset blk k ≡ wrap_offset blk (suc k)
wrap_offset-same blk k h = rw (quotient_stays k h)
