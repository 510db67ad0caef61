-- ===== src/Clib/Strtoul.antt =====
-- lib/mylibc/stdlib/strtoul.c, over the bytes of a C string before its NUL.
use non_os_lite.Prelude.{
  Bool, List, [], if◌then◌else◌, leb, u32, ℕ, ◌&&◌, ◌*◌, ◌+◌, ◌-◌, ◌==◌, ◌||◌, ◌∷◌,
}

abbrev pub isdigit : ℕ → Bool
isdigit c = leb b'0' c && leb c b'9'

abbrev pub isxdigit : ℕ → Bool
isxdigit c = isdigit c || (leb b'a' c && leb c b'f' || leb b'A' c && leb c b'F')

abbrev pub tolower : ℕ → ℕ
tolower c = if leb b'A' c && leb c b'Z' then c + 32 else c

-- The loop for bases up to 10, and the one for base 16: the value and what is left of the string.
unfoldable pub strtoul_dec : List ℕ → ℕ → ℕ × List ℕ
strtoul_dec [] n = (n, [])
strtoul_dec (c ∷ cs) n =
    let more = strtoul_dec cs (u32 (u32 (n * 10) + (c - b'0'))) in
    if isdigit c then more else (n, c ∷ cs)

unfoldable pub strtoul_hex : List ℕ → ℕ → ℕ × List ℕ
strtoul_hex [] n = (n, [])
strtoul_hex (c ∷ cs) n =
    let digit = if isdigit c then c - b'0' else tolower c - b'a' + 10 in
    let more = strtoul_hex cs (u32 (u32 (n * 16) + digit)) in
    if isxdigit c then more else (n, c ∷ cs)

-- Base 0: a leading "0x" is base 16, a leading "0" is skipped.
unfoldable pub strtoul_auto : List ℕ → ℕ × List ℕ
strtoul_auto [] = strtoul_dec [] 0
strtoul_auto (a ∷ []) = if a == b'0' then strtoul_dec [] 0 else strtoul_dec (a ∷ []) 0
strtoul_auto (a ∷ b ∷ cs) =
    if a == b'0'
    then (if tolower b == b'x' then strtoul_hex cs 0 else strtoul_dec (b ∷ cs) 0)
    else strtoul_dec (a ∷ b ∷ cs) 0

-- Another base gives 0; the end pointer is then not written.
unfoldable pub strtoul : List ℕ → ℕ → ℕ × List ℕ
unfolding strtoul_dec strtoul_hex strtoul_auto
strtoul s base =
    if base == 0
    then strtoul_auto s
    else if base == 10
    then strtoul_dec s 0
    else if base == 16
    then strtoul_hex s 0
    else (0, s)
