-- ===== src/Cli/Exec/Dispatch.antt =====
-- Which command `cmd_exec` runs.
use non_os_lite.Prelude.{
  Bool-cases, List, Option, [], ap, arith, false, inl, inr, length, ltb, ne→==, none, refl, some,
  suc, ℕ, ◌++◌, ◌==◌, ◌∙◌, ◌∷◌, ◌≡◌, ◌≢◌, ◌≤◌, ◌⊎◌,
}
use non_os_lite.Cli.Exec.Table.{Command, Entry}
use non_os_lite.Cli.Exec.Run.{
  Host, Shell, Step, after_command, argv_len, at_row, cmd_exec, done, exec_argv, exec_loop,
  help_all, help_text, print, quit_text, run_command,
}
use non_os_lite.Cli.Exec.Words.{
  AllPieces, Ending, IsEnding, IsLibc, Piece, line_of, pieces_fit, tokens-words, words_of,
}

-- No row has the name and a function.
abbrev pub NotNamed : List ℕ → List Entry → Type 0
NotNamed name [] = Unit {0}
NotNamed name (e ∷ es) = ((e.func ≡ none) ⊎ (e.name ≢ name)) × NotNamed name es

module _ (h : Host) (libc : IsLibc h) (tbl : List Entry) (name : List ℕ) (args : List (List ℕ))
    (s : Shell) where
  not_same : (a : List ℕ) → a ≢ name → (h.strcmp a name == 0) ≡ false
  not_same a d = ne→== (h.strcmp a name) 0 (libc.differ a name d)

  at_row-other :
      (o : Option Command) (row : List ℕ) (more : Step)
      → (o ≡ none) ⊎ (row ≢ name)
      → at_row h tbl o row name args s more ≡ more
  unfolding at_row
  at_row-other none row more other = refl
  at_row-other (some f) row more (inl e) = cc
  at_row-other (some f) row more (inr d) = rw (not_same row d)

  at_row-this :
      (o : Option Command) (f : Command) (row : List ℕ) (more : Step)
      → o ≡ some f
      → row ≡ name
      → at_row h tbl o row name args s more ≡ after_command h name tbl (run_command h f args s)
  unfolding at_row
  at_row-this o f row more has same = ap (λ c. at_row h tbl c row name args s more) has ∙ found
    where
      found :
          at_row h tbl (some f) row name args s more
          ≡ after_command h name tbl (run_command h f args s)
      found = rw (same, libc.same name)

  -- The rows that do not match are passed over.
  exec_loop-skip :
      (pre post : List Entry)
      → help_text ≢ name
      → NotNamed name pre
      → exec_loop h tbl (pre ++ post) name args s ≡ exec_loop h tbl post name args s
  unfolding exec_loop
  exec_loop-skip [] post no_help skip = refl
  exec_loop-skip (e ∷ pre) post no_help skip = rw (not_same help_text no_help) (
      at_row-other e.func e.name (exec_loop h tbl (pre ++ post) name args s) skip.0
      ∙ exec_loop-skip pre post no_help skip.1)

  exec_loop-row :
      (pre post : List Entry) (e : Entry) (f : Command)
      → help_text ≢ name
      → NotNamed name pre
      → e.func ≡ some f
      → e.name ≡ name
      → exec_loop h tbl (pre ++ (e ∷ post)) name args s
        ≡ after_command h name tbl (run_command h f args s)
  unfolding exec_loop
  exec_loop-row pre post e f no_help skip has same =
      exec_loop-skip pre (e ∷ post) no_help skip
      ∙ rw (not_same help_text no_help)
          (at_row-this e.func f e.name (exec_loop h tbl post name args s) has same)

  -- A table without the name: the loop ends at its last row.
  exec_loop-none :
      (rows : List Entry)
      → NotNamed name rows
      → exec_loop h tbl rows name args s ≡ done 0 (print (help_all tbl) s)
  unfolding exec_loop
  exec_loop-none [] skip = refl
  exec_loop-none (e ∷ es) skip = elim (Bool-cases (h.strcmp help_text name == 0)) [
    | inl y ↦ rw y
    | inr n ↦ rw n (
        at_row-other e.func e.name (exec_loop h tbl es name args s) skip.0
        ∙ exec_loop-none es skip.1)
  ]

  exec_argv-loop :
      quit_text ≢ name
      → suc (length args) ≤ 16
      → exec_argv h tbl s (name ∷ args) ≡ exec_loop h tbl tbl name args s
  unfolding exec_argv
  exec_argv-loop no_quit few =
      let room : ltb argv_len (suc (length args)) ≡ false = ground arith in
      rw (room, not_same quit_text no_quit)

-- A line of at most 16 words, laid out with any blanks, whose first word is the name of a row with a
-- function, and neither "help" nor "quit": `cmd_exec` calls that function, the first such one, with
-- exactly the line's further words, and prints the usage of the rows with that name if the function
-- returns anything but 0.
pub cmd_exec-row :
    (h : Host) (ps : List Piece) (end : Ending) (name : List ℕ) (args : List (List ℕ))
    (pre post : List Entry) (e : Entry) (f : Command) (s : Shell)
    → IsLibc h
    → AllPieces ps
    → IsEnding end
    → words_of ps end ≡ name ∷ args
    → suc (length args) ≤ 16
    → help_text ≢ name
    → quit_text ≢ name
    → NotNamed name pre
    → e.func ≡ some f
    → e.name ≡ name
    → cmd_exec h (line_of ps end) (pre ++ (e ∷ post)) s
      ≡ after_command h name (pre ++ (e ∷ post)) (run_command h f args s)
unfolding cmd_exec
cmd_exec-row h ps end name args pre post e f s libc all is_end words few no_help no_quit skip has
      same =
    let tbl = pre ++ (e ∷ post) in
    ap (exec_argv h tbl s) (
      tokens-words h libc ps end (suc (length (line_of ps end))) all is_end
        (omega (arith, pieces_fit ps end))
      ∙ words)
    ∙ (exec_argv-loop h libc tbl name args s no_quit few
        ∙ exec_loop-row h libc tbl name args s pre post e f no_help skip has same)

-- If the first of at most 16 words is not "quit" and names no row with a function, `cmd_exec` prints
-- the usage of every row and returns 0.
pub cmd_exec-unknown :
    (h : Host) (ps : List Piece) (end : Ending) (name : List ℕ) (args : List (List ℕ))
    (tbl : List Entry) (s : Shell)
    → IsLibc h
    → AllPieces ps
    → IsEnding end
    → words_of ps end ≡ name ∷ args
    → suc (length args) ≤ 16
    → quit_text ≢ name
    → NotNamed name tbl
    → cmd_exec h (line_of ps end) tbl s ≡ done 0 (print (help_all tbl) s)
unfolding cmd_exec
cmd_exec-unknown h ps end name args tbl s libc all is_end words few no_quit skip =
    ap (exec_argv h tbl s) (
      tokens-words h libc ps end (suc (length (line_of ps end))) all is_end
        (omega (arith, pieces_fit ps end))
      ∙ words)
    ∙ (exec_argv-loop h libc tbl name args s no_quit few
        ∙ exec_loop-none h libc tbl name args s tbl skip)
