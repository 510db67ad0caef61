-- ===== src/Prelude/Bytes.antt =====
-- Byte buffers: a buffer maps an offset to the byte that stands there. A field of a packet is read
-- and written at its offset, in network order for `ntohs(*(ushort *)p)` and `*(ushort *)p = htons(x)`,
-- and in the little-endian order of the machine for a plain access.
use Prim.Native.Nat.{ℕ, ◌+◌, ◌-◌, ◌*◌, ◌/◌, ◌%◌, ◌<◌}
use mathlib.Core.Path.{◌≡◌}
use mathlib.Core.Bool.{◌&&◌}
use mathlib.Core.List.{List, [], ◌∷◌}
use non_os_lite.Prelude.Tests.{if◌then◌else◌, leb, ltb, ◌==◌}

abbrev pub Buf : Type 0
Buf = ℕ → ℕ

abbrev pub IsBytes : Buf → Type 0
IsBytes m = (a : ℕ) → m a < 256

abbrev pub put8 : Buf → ℕ → ℕ → Buf
put8 m p v = λ q. if q == p then v else m q

abbrev pub get_be16 : Buf → ℕ → ℕ
get_be16 m p = m p * 256 + m (p + 1)

abbrev pub put_be16 : Buf → ℕ → ℕ → Buf
put_be16 m p v = put8 (put8 m p (v / 256 % 256)) (p + 1) (v % 256)

abbrev pub get_le16 : Buf → ℕ → ℕ
get_le16 m p = m p + m (p + 1) * 256

abbrev pub put_le16 : Buf → ℕ → ℕ → Buf
put_le16 m p v = put8 (put8 m p (v % 256)) (p + 1) (v / 256 % 256)

-- `memcpy(dst + d, src + s, n)` between two buffers.
abbrev pub copy : Buf → ℕ → Buf → ℕ → ℕ → Buf
copy dst d src s n = λ q. if leb d q && ltb q (d + n) then src (s + (q - d)) else dst q

-- The bytes of a list, written from `p` on.
unfoldable pub put_list : Buf → ℕ → List ℕ → Buf
put_list m p [] = m
put_list m p (x ∷ xs) = put_list (put8 m p x) (p + 1) xs

-- The buffer holds the text at `p`, and a NUL behind it.
abbrev pub Spells : Buf → ℕ → List ℕ → Type 0
Spells b p [] = b p ≡ 0
Spells b p (c ∷ cs) = (b p ≡ c) × Spells b (p + 1) cs
