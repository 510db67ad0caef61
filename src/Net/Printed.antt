-- ===== src/Net/Printed.antt =====
-- The texts that net/net_core.c and net/tftp.c have the formatter of the C library write.
use mathlib.Core.List.{append-nil}
use non_os_lite.Prelude.{
  List, [], ap, arith, false, get_or, if◌then◌else◌, leb, length, ltb, refl, some, suc, swab32, ℕ,
  ◌%◌, ◌&&◌, ◌++◌, ◌+◌, ◌-◌, ◌/◌, ◌<◌, ◌^◌, ◌∙◌, ◌∷◌, ◌≡◌,
}
use non_os_lite.Clib.Decimal.{decimal}
use non_os_lite.Clib.Printf.Hex.{number-byte}
use non_os_lite.Clib.Printf.Output.{Output, simple_sprintf}
use non_os_lite.Clib.Printf.Effect.{simple_sprintf-byte}
use non_os_lite.Clib.Printf.Format.{Arg, arg_word, format, format_loop, formatted}
use non_os_lite.Clib.Printf.Texts.{
  format-end, format-format_loop, format_loop-c, format_loop-char, format_loop-d, format_loop-hex2,
  format_loop-plain,
}
use non_os_lite.Net.Text.{ip_to_string}
use non_os_lite.Net.Tftp.Send.{blksize_text}
use non_os_lite.Net.Tftp.Start.{default_filename, hex2}

format_loop-dot :
    (n : ℕ)
    → n < 256
    → (rounds : ℕ) (rest : List ℕ) (args : List Arg) {t : List ℕ}
    → format_loop rounds (record { fmt = rest; args = args }) ≡ formatted t
    → format_loop
        (suc (suc rounds))
        (record { fmt = b'%' ∷ b'd' ∷ b'.' ∷ rest; args = arg_word n ∷ args })
      ≡ formatted (decimal n ++ (b'.' ∷ t))
format_loop-dot n h rounds rest args e =
    format_loop-d _ _ _ (format_loop-char rounds rest args e b'.' refl) n (omega arith)

-- `ip_to_string`: the bytes of the address, as the formatter prints them.
abbrev pub dotted_format : List ℕ
dotted_format = b'%' ∷ b'd' ∷ b'.' ∷ b'%' ∷ b'd' ∷ b'.' ∷ b'%' ∷ b'd' ∷ b'.' ∷ b'%' ∷ b'd' ∷ []

dotted-text :
    (a b c d : ℕ)
    → a < 256
    → b < 256
    → c < 256
    → d < 256
    → format dotted_format (arg_word a ∷ arg_word b ∷ arg_word c ∷ arg_word d ∷ [])
      ≡ formatted
          (decimal a ++ (b'.' ∷ (decimal b ++ (b'.' ∷ (decimal c ++ (b'.' ∷ (decimal d ++ [])))))))
dotted-text a b c d ha hb hc hd =
    format-format_loop dotted_format _
    ∙ format_loop-dot a ha _ _ _ (
        format_loop-dot b hb _ _ _
          (format_loop-dot c hc _ _ _ (format_loop-d _ _ _ (format-end 4 _) d (omega arith))))

-- `(int) ((x >> 24) & 0xff), ...` of `x = ntohl(x)`
abbrev pub ip_args : ℕ → List Arg
ip_args x =
    arg_word (swab32 x / 2 ^ 24 % 256)
    ∷ arg_word (swab32 x / 2 ^ 16 % 256)
    ∷ arg_word (swab32 x / 2 ^ 8 % 256)
    ∷ arg_word (swab32 x % 256)
    ∷ []

-- The text that `ip_to_string` is modelled by is what the formatter makes of "%d.%d.%d.%d" and the
-- bytes of the address, for every address.
pub format-ip_to_string : (x : ℕ) → format dotted_format (ip_args x) ≡ formatted (ip_to_string x)
unfolding ip_to_string
format-ip_to_string x =
    dotted-text _ _ _ _ (omega arith) (omega arith) (omega arith) (omega arith) ∙ rw append-nil refl

-- "%02X%02X%02X%02X.img"
abbrev pub filename_format : List ℕ
filename_format =
    b'%' ∷ b'0' ∷ b'2' ∷ b'X' ∷ b'%' ∷ b'0' ∷ b'2' ∷ b'X' ∷ b'%' ∷ b'0' ∷ b'2' ∷ b'X' ∷ b'%' ∷ b'0'
    ∷ b'2' ∷ b'X' ∷ b'.' ∷ b'i' ∷ b'm' ∷ b'g' ∷ []

-- `NetOurIP & 0xFF, (NetOurIP >> 8) & 0xFF, ...`
abbrev pub filename_args : ℕ → List Arg
filename_args ip =
    arg_word (ip % 256)
    ∷ arg_word (ip / 2 ^ 8 % 256)
    ∷ arg_word (ip / 2 ^ 16 % 256)
    ∷ arg_word (ip / 2 ^ 24 % 256)
    ∷ []

format_loop-byte :
    (rounds : ℕ) (rest : List ℕ) (args : List Arg) (n : ℕ) {t : List ℕ}
    → n < 256
    → format_loop rounds (record { fmt = rest; args = args }) ≡ formatted t
    → format_loop
        (suc rounds)
        (record { fmt = b'%' ∷ b'0' ∷ b'2' ∷ b'X' ∷ rest; args = arg_word n ∷ args })
      ≡ formatted (hex2 n t)
format_loop-byte rounds rest args n {t} h e =
    format_loop-hex2 rounds rest args e n ∙ ap (λ d. formatted (d ++ t)) (number-byte n false h)

format-default_filename :
    (ip : ℕ) → format filename_format (filename_args ip) ≡ formatted (default_filename ip)
unfolding default_filename
format-default_filename ip =
    format-format_loop filename_format _
    ∙ format_loop-byte _ _ _ _ (omega arith) (
        format_loop-byte _ _ _ _ (omega arith) (
          format_loop-byte _ _ _ _ (omega arith) (
            format_loop-byte _ _ _ _ (omega arith) (
              format_loop-plain (b'.' ∷ b'i' ∷ b'm' ∷ b'g' ∷ []) 13 [] [] refl
                (format-end 12 [])))))

-- "blksize%c%d%c"
abbrev blksize_format : List ℕ
blksize_format = blksize_text ++ (b'%' ∷ b'c' ∷ b'%' ∷ b'd' ∷ b'%' ∷ b'c' ∷ [])

-- The option of the read request.
format-blksize :
    (n : ℕ)
    → n < 2 ^ 31
    → format blksize_format (arg_word 0 ∷ arg_word n ∷ arg_word 0 ∷ [])
      ≡ formatted (blksize_text ++ (0 ∷ (decimal n ++ (0 ∷ []))))
format-blksize n h =
    format-format_loop blksize_format _
    ∙ format_loop-plain blksize_text 7 _ _ refl (
        format_loop-c 6 _ _
          (format_loop-d 5 _ _ (format_loop-c 4 _ _ (format-end 3 _) 0 (omega arith)) n h) 0
          (omega arith))

-- DEFAULT_NAME_LEN
abbrev pub default_name_len : ℕ
default_name_len = 13

length-default_filename : (ip : ℕ) → length (default_filename ip) ≡ 12
unfolding default_filename
length-default_filename ip = refl

-- With no boot file, the call of `sprintf` stores the default file name and two NULs, one byte more
-- than the array `default_filename` has, for any address of the array (below the end of the memory)
-- and any address of ours; every other byte keeps its value. It returns the size of the array.
pub sprintf-default_filename :
    (buf ip : ℕ) (o : Output)
    → 0 < buf
    → buf + default_name_len < 2 ^ 32 - 1
    → (out : Output) × (simple_sprintf buf filename_format (filename_args ip) o
        ≡ some (default_name_len, out))
      × ((a : ℕ)
          → out.memory a ≡ (
              if leb buf a && ltb a (buf + (default_name_len + 1))
              then get_or (default_filename ip) (a - buf) 0
              else o.memory a))
sprintf-default_filename buf ip o set in_memory =
    let len = length-default_filename ip in
    let (out, returned, quiet, bytes) =
      simple_sprintf-byte buf filename_format (filename_args ip) o (default_filename ip)
        (format-default_filename ip) set (omega (arith, len)) (omega (arith, len)) in
    let all : length (default_filename ip) + 1 ≡ default_name_len = omega (arith, len) in
    let end : buf + length (default_filename ip) + 2 ≡ buf + (default_name_len + 1) =
      omega (arith, len) in
    (
      out,
      returned ∙ ap (λ n. some (n, out)) all,
      λ a.
          bytes a
          ∙ ap
              (λ e.
                if leb buf a && ltb a e
                then get_or (default_filename ip) (a - buf) 0
                else o.memory a)
              end,
    )
