-- ===== src/Tests/Clib.antt =====
-- The conversions of lib/mylibc and of IP addresses at concrete inputs.
use mathlib.Core.List.{reverse, reverse_aux}
use non_os_lite.Prelude.{
  Buf, IsBytes, [], arith, if◌then◌else◌, put_le16, refl, some, true, ◌*◌, ◌++◌, ◌+◌, ◌==◌, ◌∷◌,
  ◌≡◌,
}
use non_os_lite.Clib.Strtoul.{strtoul, strtoul_auto, strtoul_hex}
use non_os_lite.Clib.Decimal.{decimal, put_dec, put_dec_full, put_dec_trunc}
use non_os_lite.Clib.Decimal.Laws.{AllDigits, dec_value, put_dec_value}
use non_os_lite.Clib.Roundtrip.{strtoul-decimal}
use non_os_lite.Net.Text.{ip_to_string, string_to_ip}
use non_os_lite.Net.Text.Laws.{string_to_ip-ip_to_string}
use non_os_lite.Net.Cksum.{bnot16, fold16, net_cksum, net_cksum_loop, net_cksum_ok}
use non_os_lite.Net.Cksum.Laws.{net_cksum_ok-fill}

put_dec_value_example : (dec_value (put_dec 3 1468) ≡ 1468) × AllDigits (put_dec 3 1468)
put_dec_value_example = put_dec_value 3 1468 (omega arith)

strtoul-decimal_example : strtoul (decimal 1468 ++ (0 ∷ [])) 10 ≡ (1468, 0 ∷ [])
strtoul-decimal_example = strtoul-decimal 1468 (0 ∷ []) (omega arith) refl

string_to_ip-ip_to_string_example : string_to_ip (some (ip_to_string 0xb300000a)) ≡ 0xb300000a
string_to_ip-ip_to_string_example = string_to_ip-ip_to_string 0xb300000a (omega arith)

decimal_runs : decimal 1234567 ≡ b'1' ∷ b'2' ∷ b'3' ∷ b'4' ∷ b'5' ∷ b'6' ∷ b'7' ∷ []
unfolding decimal put_dec put_dec_trunc put_dec_full reverse reverse_aux
decimal_runs = refl

strtoul_runs : strtoul (b'0' ∷ b'x' ∷ b'2' ∷ b'A' ∷ b'g' ∷ []) 0 ≡ (42, b'g' ∷ [])
unfolding strtoul strtoul_auto strtoul_hex
strtoul_runs = refl

-- Words 1, 0, 2.
abbrev words : Buf
words a = if a == 0 then 1 else if a == 4 then 2 else 0

words-IsBytes : IsBytes words
words-IsBytes a = ground arith

net_cksum_ok-fill_example :
    net_cksum_ok (put_le16 words (0 + 2 * 1) (bnot16 (net_cksum words 0 3))) 0 3 ≡ true
net_cksum_ok-fill_example =
    net_cksum_ok-fill words 0 3 1 words-IsBytes (omega arith) (omega arith) refl

cksum_runs : net_cksum words 0 3 ≡ 3
unfolding net_cksum net_cksum_loop fold16
cksum_runs = refl
