-- ===== src/Tests/Exec.antt =====
-- The shell at concrete lines, with a `strtok` and a `strcmp` that do what the C standard says.
use non_os_lite.Prelude.{
  Bool, Buf, List, Option, [], ap, arith, false, if◌then◌else◌, inl, inr, none, refl, some, true, ℕ,
  ◌&&◌, ◌*◌, ◌++◌, ◌+◌, ◌<◌, ◌==◌, ◌∙◌, ◌∷◌, ◌≡◌, ◌≢◌, ◌≤◌, ◌⊎◌,
}
use non_os_lite.Net.Sample.{blank, device, idle}
use non_os_lite.Net.Eth.{eth_initialize, registers}
use non_os_lite.Irq.{Handler}
use non_os_lite.Cli.Line.{return_key}
use non_os_lite.Cli.Exec.Table.{
  dis_cache_row, dis_cache_text, en_cache_row, en_cache_text, irq_row, irq_text, main_cmd_tbl,
  md_row, md_text, mw, mw_row, mw_text, ping_row, ping_text, question_row, question_text, spt_row,
  spt_text, tftpboot_row, tftpboot_text,
}
use non_os_lite.Cli.Exec.Run.{
  Host, Shell, after_command, cmd_exec, do_tftpboot, done, help_text, quit_text, run_command,
}
use non_os_lite.Cli.Exec.Words.{
  AllDelims, AllPieces, Ending, IsLibc, IsPiece, IsWord, NoDelims, Piece, final, is_delim, line_of,
}
use non_os_lite.Cli.Exec.Dispatch.{NotNamed, cmd_exec-row}
use non_os_lite.Cli.Exec.Prompt.{shell_step}
use non_os_lite.Cli.Exec.Session.{shell_step-mw, wrote}
use non_os_lite.Clib.Strtol.{sign, strtol}
use non_os_lite.Clib.Strtoul.{strtoul, strtoul_auto, strtoul_dec, strtoul_hex}
use non_os_lite.Cli.Memory.{dump}
use non_os_lite.Cli.Memory.Fill.{progression, words_in}
use non_os_lite.Cli.Exec.Typing.{AllPrintable, shell_step-typed}
use non_os_lite.Cli.Exec.Boot.{do_tftpboot-server}

abbrev split_word : List ℕ → List ℕ × List ℕ
split_word [] = ([], [])
split_word (c ∷ cs) =
    let rest = split_word cs in if is_delim c then ([], cs) else (c ∷ rest.0, rest.1)

abbrev next_token : List ℕ → Option (List ℕ × List ℕ)
next_token [] = none
next_token (c ∷ cs) =
    let later = next_token cs in if is_delim c then later else some (split_word (c ∷ cs))

abbrev same_text : List ℕ → List ℕ → Bool
same_text [] [] = true
same_text [] (d ∷ ds) = false
same_text (c ∷ cs) [] = false
same_text (c ∷ cs) (d ∷ ds) = c == d && same_text cs ds

abbrev piece : List ℕ → List ℕ → Piece
piece gap w = record { gap = gap; word = w; stop = b' ' }

abbrev pub host : Host
host = record {
  strtok = next_token;
  strcmp = λ a b. if same_text a b then 0 else 1;
  board = registers (some device);
  default_isr = 0;
  rounds = [];
  extern = λ f args s. done 0 s;
}

split_word-stop :
    (word rest : List ℕ) (stop : ℕ)
    → NoDelims word
    → is_delim stop ≡ true
    → split_word (word ++ (stop ∷ rest)) ≡ (word, rest)
split_word-stop [] rest stop w d = rw d
split_word-stop (c ∷ cs) rest stop w d = rw (w.0, split_word-stop cs rest stop w.1 d)

split_word-end : (word : List ℕ) → NoDelims word → split_word word ≡ (word, [])
split_word-end [] w = refl
split_word-end (c ∷ cs) w = rw (w.0, split_word-end cs w.1)

next_token-gap : (gap s : List ℕ) → AllDelims gap → next_token (gap ++ s) ≡ next_token s
next_token-gap [] s d = refl
next_token-gap (c ∷ cs) s d = rw d.0 (next_token-gap cs s d.1)

next_token-blank : (gap : List ℕ) → AllDelims gap → next_token gap ≡ none
next_token-blank [] d = refl
next_token-blank (c ∷ cs) d = rw d.0 (next_token-blank cs d.1)

next_token-word :
    (word rest : List ℕ)
    → IsWord word
    → next_token (word ++ rest) ≡ some (split_word (word ++ rest))
next_token-word [] rest w = absurd (w.0 refl)
next_token-word (c ∷ cs) rest w = rw w.1.0

next_token-last : (word : List ℕ) → IsWord word → next_token word ≡ some (split_word word)
next_token-last [] w = absurd (w.0 refl)
next_token-last (c ∷ cs) w = rw w.1.0

same_text_refl : (a : List ℕ) → same_text a a ≡ true
same_text_refl [] = refl
same_text_refl (c ∷ cs) = rw (same_text_refl cs) (ground arith)

same_text-eq : (a b : List ℕ) → same_text a b ≡ true → a ≡ b
same_text-eq [] [] e = refl
same_text-eq [] (d ∷ ds) e = cc
same_text-eq (c ∷ cs) [] e = cc
same_text-eq (c ∷ cs) (d ∷ ds) e =
    let head : c ≡ d = ground arith in
    let tail : same_text cs ds ≡ true = ground arith in rw (head, same_text-eq cs ds tail) refl

apart : (a b : List ℕ) → same_text a b ≡ false → a ≢ b
apart a b f e = let same : same_text a b ≡ true = rw e (same_text_refl b) in cc

one_word : (a gap : List ℕ) → AllDelims gap → IsWord a → IsPiece (piece gap a)
one_word a gap g w = record { gap_delims = g; is_word = w; stop_delim = refl }

host-IsLibc : IsLibc host
host-IsLibc = record {
  no_token = next_token-blank;
  token = λ gap word rest stop g w d.
      next_token-gap gap (word ++ (stop ∷ rest)) g
      ∙ (next_token-word word (stop ∷ rest) w ∙ ap some (split_word-stop word rest stop w.1 d));
  last_token = λ gap word g w.
      next_token-gap gap word g ∙ (next_token-last word w ∙ ap some (split_word-end word w.1));
  same = λ a. rw (same_text_refl a);
  differ = λ a b d e. d (same_text-eq a b (ground arith));
}

abbrev pub no_handlers : ℕ → Handler
no_handlers i = record { m_func = 0; m_data = 0 }

abbrev started : Shell
started = record { net = idle; handlers = no_handlers; printed = [] }

-- " mw 16 5"
abbrev mw_line : List Piece
mw_line = piece (b' ' ∷ []) (b'm' ∷ b'w' ∷ []) ∷ piece [] (b'1' ∷ b'6' ∷ []) ∷ []

abbrev mw_end : Ending
mw_end = final (b' ' ∷ []) (b'5' ∷ [])

cmd_exec-row_example :
    cmd_exec host (line_of mw_line mw_end) main_cmd_tbl started
    ≡ after_command host mw_text main_cmd_tbl
        (run_command host mw ((b'1' ∷ b'6' ∷ []) ∷ (b'5' ∷ []) ∷ []) started)
cmd_exec-row_example =
    cmd_exec-row host mw_line mw_end mw_text ((b'1' ∷ b'6' ∷ []) ∷ (b'5' ∷ []) ∷ []) (md_row ∷ [])
      (irq_row ∷ spt_row ∷ en_cache_row ∷ dis_cache_row ∷ tftpboot_row ∷ ping_row ∷ question_row
        ∷ [])
      mw_row mw started host-IsLibc
      (
        one_word mw_text (b' ' ∷ []) (refl, tt) (apart mw_text [] refl, (refl, (refl, tt))),
        (
          one_word (b'1' ∷ b'6' ∷ []) [] tt (apart (b'1' ∷ b'6' ∷ []) [] refl, (refl, (refl, tt))),
          tt,
        ),
      )
      ((refl, tt), (apart (b'5' ∷ []) [] refl, (refl, tt))) refl (omega arith)
      (apart help_text mw_text refl) (apart quit_text mw_text refl)
      (inr (apart md_text mw_text refl), tt) refl refl

-- "? x"
abbrev help_line_pieces : List Piece
help_line_pieces = piece [] question_text ∷ []

no_question : NotNamed question_text main_cmd_tbl
no_question = (
  inr (apart md_text question_text refl),
  (
    inr (apart mw_text question_text refl),
    (
      inr (apart irq_text question_text refl),
      (
        inr (apart spt_text question_text refl),
        (
          inr (apart en_cache_text question_text refl),
          (
            inr (apart dis_cache_text question_text refl),
            (
              inr (apart tftpboot_text question_text refl),
              (inr (apart ping_text question_text refl), (inl refl, tt)),
            ),
          ),
        ),
      ),
    ),
  ),
)

shell_step-typed_example :
    (b : Buf) × (shell_step host blank (mw_text ++ (return_key ∷ [])) started
      ≡ some (cmd_exec host mw_text main_cmd_tbl started, b, []))
shell_step-typed_example =
    shell_step-typed host blank mw_text [] started
      ((omega arith, omega arith), ((omega arith, omega arith), tt)) (omega arith)

do_tftpboot-server_example :
    do_tftpboot host ((b'f' ∷ []) ∷ (b'8' ∷ []) ∷ (b'9' ∷ []) ∷ []) started
    ≡ do_tftpboot host ((b'f' ∷ []) ∷ []) started
unfolding eth_initialize
do_tftpboot-server_example =
    do_tftpboot-server host (b'f' ∷ []) (b'8' ∷ []) (b'9' ∷ []) started found
  where
    found : (eth_initialize (registers (some device)) (some (b'f' ∷ [])) idle).0 ≢ 0
    found e = absurd (omega arith)

-- "mw 16 5 3 2"
abbrev words_line : List Piece
words_line =
    piece [] (b'm' ∷ b'w' ∷ [])
    ∷ piece [] (b'1' ∷ b'6' ∷ [])
    ∷ piece [] (b'5' ∷ [])
    ∷ piece [] (b'3' ∷ [])
    ∷ []

abbrev words_end : Ending
words_end = final [] (b'2' ∷ [])

words_line-AllPieces : AllPieces words_line
words_line-AllPieces = (
  one_word mw_text [] tt (apart mw_text [] refl, (refl, (refl, tt))),
  (
    one_word (b'1' ∷ b'6' ∷ []) [] tt (apart (b'1' ∷ b'6' ∷ []) [] refl, (refl, (refl, tt))),
    (
      one_word (b'5' ∷ []) [] tt (apart (b'5' ∷ []) [] refl, (refl, tt)),
      (one_word (b'3' ∷ []) [] tt (apart (b'3' ∷ []) [] refl, (refl, tt)), tt),
    ),
  ),
)

words_line-AllPrintable : AllPrintable (line_of words_line words_end)
words_line-AllPrintable = ground arith

arguments :
    (strtol (b'1' ∷ b'6' ∷ []) 0 ≡ 16) × ((strtol (b'5' ∷ []) 0 ≡ 5) × (strtol (b'3' ∷ []) 0 ≡ 3))
unfolding strtol sign strtoul strtoul_auto strtoul_hex strtoul_dec
arguments = (refl, (refl, refl))

shell_step-mw_example :
    (b : Buf) × ((m : Buf) × ((shell_step host blank
            (line_of words_line words_end ++ (return_key ∷ []))
            started
          ≡ some (
            done 0
                (wrote m (dump m (strtol (b'1' ∷ b'6' ∷ []) 0) (strtol (b'3' ∷ []) 0) 0) started),
            b,
            [],
          ))
        × ((words_in (dump m (strtol (b'1' ∷ b'6' ∷ []) 0) (strtol (b'3' ∷ []) 0) 0)
              ≡ progression (strtol (b'5' ∷ []) 0) (strtol (b'2' ∷ []) 0) (strtol (b'3' ∷ []) 0))
            × ((a : ℕ)
                → (a < strtol (b'1' ∷ b'6' ∷ []) 0)
                  ⊎ (strtol (b'1' ∷ b'6' ∷ []) 0 + 4 * strtol (b'3' ∷ []) 0 ≤ a)
                → m a ≡ started.net.ram a))))
shell_step-mw_example =
    shell_step-mw host blank words_line words_end (b'1' ∷ b'6' ∷ []) (b'5' ∷ []) (b'3' ∷ [])
      (b'2' ∷ []) [] started host-IsLibc words_line-AllPieces
      (tt, (apart (b'2' ∷ []) [] refl, (refl, tt))) words_line-AllPrintable (omega arith) refl
      (omega (arith, arguments.1.1)) (omega (arith, arguments.0, arguments.1.1))
      (omega (arith, arguments.1.0))
