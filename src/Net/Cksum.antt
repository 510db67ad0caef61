-- ===== src/Net/Cksum.antt =====
-- `NetCksum` and `NetCksumOk` of net/net_core.c.
pub mod Laws
use non_os_lite.Prelude.{
  Bool, Buf, bit_and, get_le16, suc, u32, zero, ℕ, ◌%◌, ◌+◌, ◌-◌, ◌/◌, ◌==◌, ◌^◌,
}

-- `while (len-- > 0) xsum += *p++;` over native 16-bit words.
unfoldable pub net_cksum_loop : Buf → ℕ → ℕ → ℕ → ℕ
net_cksum_loop m p zero xsum = xsum
net_cksum_loop m p (suc len) xsum = net_cksum_loop m (p + 2) len (u32 (xsum + get_le16 m p))

-- `(xsum & 0xffff) + (xsum >> 16)`
unfoldable pub fold16 : ℕ → ℕ
fold16 x = x % 2 ^ 16 + x / 2 ^ 16

unfoldable pub net_cksum : Buf → ℕ → ℕ → ℕ
net_cksum m p len = fold16 (fold16 (net_cksum_loop m p len 0)) % 2 ^ 16

unfoldable pub net_cksum_ok : Buf → ℕ → ℕ → Bool
net_cksum_ok m p len = bit_and (net_cksum m p len + 1) 0xfffe == 0

-- `~x`, stored into a 16-bit field.
abbrev pub bnot16 : ℕ → ℕ
bnot16 x = 0xffff - x % 2 ^ 16
