-- ===== src/Cli/Memory/Printed.antt =====
-- The address column of `md` in lib/cli.c, as the formatter of the C library prints it.
use non_os_lite.Prelude.{List, [], false, refl, ℕ, ◌++◌, ◌<◌, ◌^◌, ◌∙◌, ◌∷◌, ◌≡◌}
use non_os_lite.Clib.Strtoul.{strtoul}
use non_os_lite.Clib.Printf.{number}
use non_os_lite.Clib.Printf.Format.{arg_word, format, formatted}
use non_os_lite.Clib.Printf.Texts.{
  format-end, format-format_loop, format_loop-hex8, format_loop-plain, zero_flags,
}
use non_os_lite.Clib.Printf.Hex.{strtoul-number}

-- FMT_UINT ": "
abbrev pub label_format : List ℕ
label_format = b'%' ∷ b'0' ∷ b'8' ∷ b'X' ∷ b':' ∷ b' ' ∷ []

-- For any address (or word) below 2 ^ 32, "%08X: " prints a text that `strtoul` with base 16 reads as
-- the address, up to the colon.
pub strtoul-label :
    (a : ℕ)
    → a < 2 ^ 32
    → (t : List ℕ) × (format label_format (arg_word a ∷ []) ≡ formatted t)
      × (strtoul t 16 ≡ (a, b':' ∷ b' ' ∷ []))
strtoul-label a h = (
  number a 16 8 0 zero_flags ++ (b':' ∷ b' ' ∷ []),
  format-format_loop label_format (arg_word a ∷ [])
      ∙ format_loop-hex8 6 _ _ (format_loop-plain (b':' ∷ b' ' ∷ []) 4 [] [] refl (format-end 3 []))
          a,
  strtoul-number a 8 false (b':' ∷ b' ' ∷ []) h refl,
)
