-- ===== src/Cli/Exec/Session.antt =====
-- A whole command at the shell's prompt: `mw`, from the keys typed to the words in memory.
use non_os_lite.Prelude.{
  Buf, List, [], ap, arith, get_or, inr, length, map, refl, some, sym, ℕ, ◌*◌, ◌++◌, ◌+◌, ◌<◌, ◌^◌,
  ◌∙◌, ◌∷◌, ◌≡◌, ◌≢◌, ◌≤◌, ◌⊎◌,
}
use non_os_lite.Clib.Strtol.{strtol}
use non_os_lite.Cli.Line.{return_key}
use non_os_lite.Cli.Memory.{Token, do_wr32, dump}
use non_os_lite.Cli.Memory.Fill.{do_wr32-words, progression, words_in}
use non_os_lite.Cli.Exec.Table.{
  Entry, dis_cache_row, en_cache_row, irq_row, main_cmd_tbl, md_row, md_text, mw, mw_row, mw_text,
  ping_row, question_row, spt_row, tftpboot_row,
}
use non_os_lite.Cli.Exec.Run.{
  Host, Shell, after_command, done, help_text, memory, print, quit_text, run_command,
}
use non_os_lite.Cli.Exec.Words.{AllPieces, Ending, IsEnding, IsLibc, Piece, line_of, words_of}
use non_os_lite.Cli.Exec.Dispatch.{cmd_exec-row}
use non_os_lite.Cli.Exec.Prompt.{shell_step}
use non_os_lite.Cli.Exec.Typing.{AllPrintable, shell_step-typed}

-- Texts that differ at a place.
differ_at : (i : ℕ) (a b : List ℕ) → get_or a i 0 ≢ get_or b i 0 → a ≢ b
differ_at i a b d e = d (ap (λ (t : List ℕ). get_or t i 0) e)

-- What `mw` leaves: the shell's state with the given memory, and the dump printed.
abbrev pub wrote : Buf → List Token → Shell → Shell
wrote m out s = print (map memory out) (record s { net = record s.net { ram = m } })

run_command-mw :
    (h : Host) (name : List ℕ) (tbl : List Entry) (args : List (List ℕ)) (s : Shell)
    → (do_wr32 args s.net.ram).0.0 ≡ 0
    → after_command h name tbl (run_command h mw args s)
      ≡ done 0 (wrote (do_wr32 args s.net.ram).1 (do_wr32 args s.net.ram).0.1 s)
unfolding after_command run_command
run_command-mw h name tbl args s good = rw good refl

-- The line "mw addr value num inc", laid out with any blanks in at most 49 printable characters, and
-- RETURN_KEY, where the range ends below 2 ^ 32: the shell prints the words data, data + inc and so on,
-- as many as the count says, which are the words that memory then holds from the address on; outside the
-- range memory is as it was, nothing else of the state changes, and the keys behind are not read.
pub shell_step-mw :
    (h : Host) (cmdstr : Buf) (ps : List Piece) (end : Ending) (addr value num inc : List ℕ)
    (more : List ℕ) (s : Shell)
    → IsLibc h
    → AllPieces ps
    → IsEnding end
    → AllPrintable (line_of ps end)
    → length (line_of ps end) < 50
    → words_of ps end ≡ mw_text ∷ addr ∷ value ∷ num ∷ inc ∷ []
    → strtol num 0 < 2 ^ 31
    → strtol addr 0 + 4 * strtol num 0 < 2 ^ 32
    → strtol value 0 < 2 ^ 32
    → (b : Buf) × ((m : Buf) × ((shell_step h cmdstr (line_of ps end ++ (return_key ∷ more)) s
            ≡ some (done 0 (wrote m (dump m (strtol addr 0) (strtol num 0) 0) s), b, more))
          × ((words_in (dump m (strtol addr 0) (strtol num 0) 0)
                ≡ progression (strtol value 0) (strtol inc 0) (strtol num 0))
              × ((a : ℕ)
                  → (a < strtol addr 0) ⊎ (strtol addr 0 + 4 * strtol num 0 ≤ a)
                  → m a ≡ s.net.ram a))))
shell_step-mw h cmdstr ps end addr value num inc more s libc all is_end typed short words count fits
      small =
    let args = addr ∷ value ∷ num ∷ inc ∷ [] in
    let typing = shell_step-typed h cmdstr (line_of ps end) more s typed short in
    let row =
      cmd_exec-row h ps end mw_text args (md_row ∷ [])
        (irq_row ∷ spt_row ∷ en_cache_row ∷ dis_cache_row ∷ tftpboot_row ∷ ping_row ∷ question_row
          ∷ [])
        mw_row mw s libc all is_end words (omega arith)
        (differ_at 0 help_text mw_text (λ e. absurd (omega arith)))
        (differ_at 0 quit_text mw_text (λ e. absurd (omega arith)))
        (inr (differ_at 1 md_text mw_text (λ e. absurd (omega arith))), tt) refl refl in
    let done_words = do_wr32-words addr value num inc s.net.ram count fits small in
    let ran = run_command-mw h mw_text main_cmd_tbl args s done_words.0 in
    let m = (do_wr32 args s.net.ram).1 in
    (
      typing.0,
      (
        m,
        (
          typing.1
              ∙ (ap (λ step. some (step, typing.0, more)) (row ∙ ran)
                  ∙ ap (λ out. some (done 0 (wrote m out s), typing.0, more)) done_words.1.1.0),
          (ap words_in (sym done_words.1.1.0) ∙ done_words.1.0, done_words.1.1.1),
        ),
      ),
    )
