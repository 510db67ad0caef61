-- ===== src/Tests/Shell.antt =====
-- The shell and the interrupt dispatch at concrete inputs.
use non_os_lite.Prelude.{
  List, [], arith, refl, some, ℕ, ◌&&◌, ◌*◌, ◌++◌, ◌+◌, ◌<◌, ◌==◌, ◌||◌, ◌∷◌, ◌≡◌, ◌≤◌, ◌⊎◌,
}
use non_os_lite.Net.Sample.{blank}
use non_os_lite.Clib.Strtol.{sign, strtol}
use non_os_lite.Clib.Strtoul.{strtoul, strtoul_auto, strtoul_dec, strtoul_hex}
use non_os_lite.Cli.Line.{Line, return_key, scan_string}
use non_os_lite.Cli.Line.Editing.{Holds, NoReturn, scan_string-Holds, typed}
use non_os_lite.Cli.Memory.{do_wr32, dump}
use non_os_lite.Cli.Memory.Fill.{do_wr32-words, progression, words_in}
use non_os_lite.Irq.{Handler, Intc, do_irq, irq_set_type, level_high, pending}
use non_os_lite.Irq.Controller.{irq_set_type-lines, is_edge, is_low}
use non_os_lite.Irq.Dispatch.{do_irq-serve, pending_lines, serve}

-- "mx", a backspace, "d"
abbrev keys : List ℕ
keys = b'm' ∷ b'x' ∷ 8 ∷ b'd' ∷ []

keys-NoReturn : NoReturn keys
keys-NoReturn = (
  λ e. absurd (omega arith),
  (λ e. absurd (omega arith), (λ e. absurd (omega arith), (λ e. absurd (omega arith), tt))),
)

scan_string-Holds_example :
    (e : Line) × ((scan_string blank (keys ++ (return_key ∷ [])) ≡ some (e, []))
      × (Holds blank (typed keys []) e × (256 ≤ e.count ⊎ e.buf e.count ≡ 0)))
scan_string-Holds_example = scan_string-Holds blank keys [] keys-NoReturn

typed_runs : typed keys [] ≡ b'd' ∷ b'm' ∷ []
typed_runs = refl

-- "0x1000", "5", "3" and "2"
abbrev addr_text : List ℕ
addr_text = b'0' ∷ b'x' ∷ b'1' ∷ b'0' ∷ b'0' ∷ b'0' ∷ []

abbrev value_text : List ℕ
value_text = b'5' ∷ []

abbrev num_text : List ℕ
num_text = b'3' ∷ []

abbrev inc_text : List ℕ
inc_text = b'2' ∷ []

texts : (strtol addr_text 0 ≡ 0x1000) × ((strtol value_text 0 ≡ 5) × (strtol num_text 0 ≡ 3))
unfolding strtol sign strtoul strtoul_auto strtoul_hex strtoul_dec
texts = (refl, (refl, refl))

do_wr32-words_example :
    ((do_wr32 (addr_text ∷ value_text ∷ num_text ∷ inc_text ∷ []) blank).0.0 ≡ 0)
    × ((words_in (do_wr32 (addr_text ∷ value_text ∷ num_text ∷ inc_text ∷ []) blank).0.1
          ≡ progression (strtol value_text 0) (strtol inc_text 0) (strtol num_text 0))
        × (((do_wr32 (addr_text ∷ value_text ∷ num_text ∷ inc_text ∷ []) blank).0.1
              ≡ dump
                  (do_wr32 (addr_text ∷ value_text ∷ num_text ∷ inc_text ∷ []) blank).1
                  (strtol addr_text 0)
                  (strtol num_text 0)
                  0)
            × ((a : ℕ)
                → (a < strtol addr_text 0) ⊎ (strtol addr_text 0 + 4 * strtol num_text 0 ≤ a)
                → (do_wr32 (addr_text ∷ value_text ∷ num_text ∷ inc_text ∷ []) blank).1 a
                  ≡ blank a)))
do_wr32-words_example =
    do_wr32-words addr_text value_text num_text inc_text blank (omega (arith, texts.1.1))
      (omega (arith, texts.0, texts.1.1)) (omega (arith, texts.1.0))

-- The handlers write their number down.
abbrev log : Handler → List ℕ → List ℕ
log h s = h.m_data ∷ s

abbrev numbered : ℕ → Handler
numbered i = record { m_func = 1; m_data = i }

do_irq-serve_example :
    do_irq log numbered 0x8011 [] ≡ some (serve log numbered (pending_lines 0x8011 0 32) [])
do_irq-serve_example = do_irq-serve log numbered 0x8011 [] (omega arith)

pending_lines_runs : pending_lines 0x8011 0 32 ≡ 0 ∷ 4 ∷ 15 ∷ []
unfolding pending_lines
pending_lines_runs = refl

abbrev some_lines : Intc
some_lines = record { enable = 5; mode = 1; level = 0; status = 0; cleared = [] }

irq_set_type-lines_example :
    (pending (irq_set_type 0 level_high some_lines).1.mode 0
      ≡ (is_edge level_high && 0 == 0 || pending some_lines.mode 0))
    × (pending (irq_set_type 0 level_high some_lines).1.level 0
        ≡ (is_low level_high && 0 == 0 || pending some_lines.level 0))
irq_set_type-lines_example = irq_set_type-lines 0 0 level_high some_lines (omega arith)
