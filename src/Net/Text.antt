-- ===== src/Net/Text.antt =====
-- IP addresses and VLAN ids as text: net/net_utils.c, and the conversions of net/net_core.c. A C
-- string is the list of its bytes before the NUL.
pub mod Laws
use non_os_lite.Prelude.{
  List, Option, [], bit_and, if◌then◌else◌, ltb, none, some, suc, swab16, swab32, u16, u32, zero, ℕ,
  ◌%◌, ◌*◌, ◌++◌, ◌+◌, ◌/◌, ◌==◌, ◌^◌, ◌||◌, ◌∷◌,
}
use non_os_lite.Clib.Strtoul.{strtoul}
use non_os_lite.Clib.Decimal.{decimal}
use non_os_lite.Net.Header.{vlan_none}

-- `(*e) ? e + 1 : e`
abbrev pub skip_one : List ℕ → List ℕ
skip_one [] = []
skip_one (c ∷ cs) = cs

-- The loop of `string_to_ip`, four rounds. After the shift the low byte of `addr` is 0, so that
-- `addr |= val & 0xff` adds.
unfoldable pub string_to_ip_loop : ℕ → List ℕ → ℕ → ℕ
string_to_ip_loop zero s addr = addr
string_to_ip_loop (suc rounds) s addr =
    let (val, e) = strtoul s 10 in
    string_to_ip_loop rounds (skip_one e) (u32 (addr * 256) + val % 256)

-- `none` is a NULL pointer.
unfoldable pub string_to_ip : Option (List ℕ) → ℕ
string_to_ip none = 0
string_to_ip (some s) = swab32 (string_to_ip_loop 4 s 0)

unfoldable pub ip_to_string : ℕ → List ℕ
ip_to_string x =
    let y = swab32 x in
    decimal (y / 2 ^ 24 % 256)
    ++ (b'.'
        ∷ (decimal (y / 2 ^ 16 % 256)
            ++ (b'.' ∷ (decimal (y / 256 % 256) ++ (b'.' ∷ decimal (y % 256))))))

abbrev pub none_text : List ℕ
none_text = b'n' ∷ b'o' ∷ b'n' ∷ b'e' ∷ []

unfoldable pub vlan_to_string : ℕ → List ℕ
vlan_to_string x =
    let y = if swab16 x == 0xffff then vlan_none else swab16 x in
    if y == vlan_none then none_text else decimal (bit_and y 0x0fff)

-- `*s` of the empty string is its NUL.
unfoldable pub string_to_vlan : Option (List ℕ) → ℕ
string_to_vlan none = swab16 vlan_none
string_to_vlan (some []) = swab16 vlan_none
string_to_vlan (some (c ∷ cs)) =
    if ltb c b'0' || ltb b'9' c then swab16 vlan_none else swab16 (u16 (strtoul (c ∷ cs) 10).0)
