-- ===== src/Net/Text/Laws.antt =====
-- The text of an IP address.
use mathlib.Core.List.{append-nil}
use non_os_lite.Prelude.{
  List, [], ap, arith, refl, some, suc, swab32, swab32-swab32, sym, u32, ℕ, ◌%◌, ◌*◌, ◌++◌, ◌+◌,
  ◌/◌, ◌<◌, ◌^◌, ◌∙◌, ◌∷◌, ◌≡◌,
}
use non_os_lite.Clib.Decimal.{decimal}
use non_os_lite.Clib.Roundtrip.{NoDigit, strtoul-decimal}
use non_os_lite.Net.Text.{ip_to_string, skip_one, string_to_ip, string_to_ip_loop}

-- One round of the loop, at a printed number below 256 and what follows it.
string_to_ip_loop-decimal :
    (rounds b : ℕ) (rest : List ℕ) (addr : ℕ)
    → b < 256
    → NoDigit rest
    → string_to_ip_loop (suc rounds) (decimal b ++ rest) addr
      ≡ string_to_ip_loop rounds (skip_one rest) (u32 (addr * 256) + b)
unfolding string_to_ip_loop
string_to_ip_loop-decimal rounds b rest addr h stop =
    let low : b % 256 ≡ b = omega arith in rw (strtoul-decimal b rest (omega arith) stop, low)

-- The last number stands at the end of the text.
string_to_ip_loop-last :
    (d addr : ℕ)
    → d < 256
    → string_to_ip_loop 1 (decimal d) addr ≡ string_to_ip_loop 0 [] (u32 (addr * 256) + d)
string_to_ip_loop-last d addr h =
    ap (λ s. string_to_ip_loop 1 s addr) (sym (append-nil (decimal d)))
    ∙ string_to_ip_loop-decimal 0 d [] addr h tt

dotted :
    (a b c d : ℕ)
    → a < 256
    → b < 256
    → c < 256
    → d < 256
    → string_to_ip_loop 4
        (decimal a ++ (b'.' ∷ (decimal b ++ (b'.' ∷ (decimal c ++ (b'.' ∷ decimal d))))))
        0
      ≡ a * 2 ^ 24 + b * 2 ^ 16 + c * 256 + d
dotted a b c d ha hb hc hd =
    string_to_ip_loop-decimal 3 a _ 0 ha refl
    ∙ (string_to_ip_loop-decimal 2 b _ _ hb refl
        ∙ (string_to_ip_loop-decimal 1 c _ _ hc refl ∙ (string_to_ip_loop-last d _ hd ∙ last)))
  where
    last :
        string_to_ip_loop 0 []
          (u32 ((u32 ((u32 ((u32 (0 * 256) + a) * 256) + b) * 256) + c) * 256) + d)
        ≡ a * 2 ^ 24 + b * 2 ^ 16 + c * 256 + d
    last = unfold string_to_ip_loop in omega arith

-- The text that `ip_to_string` writes for a 32-bit address is read back as the same address.
pub string_to_ip-ip_to_string : (x : ℕ) → x < 2 ^ 32 → string_to_ip (some (ip_to_string x)) ≡ x
unfolding string_to_ip ip_to_string
string_to_ip-ip_to_string x h =
    ap (λ v. swab32 v)
      (dotted _ _ _ _ (omega arith) (omega arith) (omega arith) (omega arith) ∙ whole)
    ∙ swab32-swab32 x h
  where
    whole :
        swab32 x / 2 ^ 24 % 256 * 2 ^ 24
          + swab32 x / 2 ^ 16 % 256 * 2 ^ 16
          + swab32 x / 256 % 256 * 256
          + swab32 x % 256
        ≡ swab32 x
    whole = omega arith
