-- ===== src/Tests/Printf.antt =====
-- The formatter of lib/mylibc/stdio/simple_printf.c at concrete inputs.
use non_os_lite.Prelude.{
  List, [], arith, get_or, if◌then◌else◌, leb, length, ltb, refl, some, true, ℕ, ◌&&◌, ◌++◌, ◌+◌,
  ◌-◌, ◌∷◌, ◌≡◌,
}
use non_os_lite.Uart.{Uart}
use non_os_lite.Clib.Strtoul.{strtoul}
use non_os_lite.Clib.Printf.{number, number_digits}
use non_os_lite.Clib.Printf.Format.{Arg, arg_word, format, formatted}
use non_os_lite.Clib.Printf.Output.{Output, simple_printf, simple_snprintf, simple_sprintf}
use non_os_lite.Clib.Printf.Effect.{simple_snprintf-byte, snprintf_byte}
use non_os_lite.Clib.Printf.Console.{simple_printf-console}
use non_os_lite.Clib.Printf.Hex.{hex_flags, strtoul-number}
use non_os_lite.Clib.Printf.Width.{length-number, max}
use non_os_lite.Clib.Printf.Texts.{format-plain}
use non_os_lite.Net.Tftp.Start.{default_filename}
use non_os_lite.Net.Printed.{filename_args, filename_format, sprintf-default_filename}

-- "%5d|%-4u|%#x%%"
abbrev mixed_format : List ℕ
mixed_format =
    b'%' ∷ b'5' ∷ b'd' ∷ b'|' ∷ b'%' ∷ b'-' ∷ b'4' ∷ b'u' ∷ b'|' ∷ b'%' ∷ b'#' ∷ b'x' ∷ b'%' ∷ b'%'
    ∷ []

abbrev mixed_args : List Arg
mixed_args = arg_word 4294967254 ∷ arg_word 7 ∷ arg_word 48879 ∷ []

-- "  -42|7   |0xbeef%"
format_runs :
    format mixed_format mixed_args
    ≡ formatted (
        b' ' ∷ b' ' ∷ b'-' ∷ b'4' ∷ b'2' ∷ b'|' ∷ b'7' ∷ b' ' ∷ b' ' ∷ b' ' ∷ b'|' ∷ b'0' ∷ b'x'
        ∷ b'b' ∷ b'e' ∷ b'e' ∷ b'f' ∷ b'%' ∷ [])
unfolding format
format_runs = refl

abbrev serial : Uart
serial = record { lcr = 3; fcr = 7; dlm = 0; dll = 0; transmitted = []; incoming = [] }

abbrev no_output : Output
no_output = record { memory = λ a. 7; str = 0; console = serial }

abbrev hello : List ℕ
hello = b'h' ∷ b'e' ∷ b'l' ∷ b'l' ∷ b'o' ∷ 10 ∷ []

-- Six characters into four bytes.
simple_snprintf-byte_example :
    (out : Output) × (simple_snprintf 100 4 hello [] no_output ≡ some (7, out))
    × (out.console ≡ serial)
    × ((a : ℕ) → out.memory a ≡ snprintf_byte 100 4 hello a 7)
simple_snprintf-byte_example =
    simple_snprintf-byte 100 4 hello [] no_output hello (format-plain hello [] refl) (omega arith)
      (omega arith) (omega arith) (omega arith)

simple_printf-console_example :
    simple_printf hello [] no_output
    ≡ some (
      0,
      record {
        memory = no_output.memory;
        str = 0;
        console = record serial {
          transmitted = b'h' ∷ b'e' ∷ b'l' ∷ b'l' ∷ b'o' ∷ 13 ∷ 13 ∷ 10 ∷ 0 ∷ [];
        };
      },
    )
simple_printf-console_example =
    simple_printf-console hello [] no_output hello refl (format-plain hello [] refl)

strtoul-number_example :
    strtoul (number 48879 16 8 0 (hex_flags true) ++ (b'g' ∷ [])) 16 ≡ (48879, b'g' ∷ [])
strtoul-number_example = strtoul-number 48879 8 true (b'g' ∷ []) (omega arith) refl

length-number_example :
    length (number 48879 16 3 6 (hex_flags true))
    ≡ max 3 (0 + 0 + max 6 (length (number_digits 48879 16 true)))
length-number_example = length-number 48879 16 3 6 (hex_flags true)

sprintf-default_filename_example :
    (out : Output) × (simple_sprintf 100 filename_format (filename_args 0xb300000a) no_output
      ≡ some (13, out))
    × ((a : ℕ)
        → out.memory a ≡ (
            if leb 100 a && ltb a (100 + 14)
            then get_or (default_filename 0xb300000a) (a - 100) 0
            else 7))
sprintf-default_filename_example =
    sprintf-default_filename 100 0xb300000a no_output (omega arith) (omega arith)
