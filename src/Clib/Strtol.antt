-- ===== src/Clib/Strtol.antt =====
-- lib/mylibc/stdlib/strtol.c: the sign, and then the loops that strtoul.c has too. The result is the
-- bit pattern of a `long`.
use non_os_lite.Prelude.{Bool, List, [], false, if◌then◌else◌, sub32, true, ℕ, ◌==◌, ◌∷◌}
use non_os_lite.Clib.Strtoul.{strtoul}

-- Whether a minus sign stands at the start, and what follows the sign.
unfoldable pub sign : List ℕ → Bool × List ℕ
sign [] = (false, [])
sign (c ∷ cs) = if c == b'-' then (true, cs) else if c == b'+' then (false, cs) else (false, c ∷ cs)

unfoldable pub strtol : List ℕ → ℕ → ℕ
strtol nptr base =
    let (negative, a) = sign nptr in let n = (strtoul a base).0 in if negative then sub32 0 n else n
