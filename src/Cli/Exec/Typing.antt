-- ===== src/Cli/Exec/Typing.antt =====
-- A line that is typed without corrections is the command line that is executed.
use non_os_lite.Prelude.{
  Buf, List, Spells, [], ap, arith, false, length, ltb, ne→==, put8, refl, some, suc, zero, ℕ, ◌++◌,
  ◌+◌, ◌<◌, ◌∙◌, ◌∷◌, ◌≡◌, ◌≤◌,
}
use non_os_lite.Cli.Line.{Line, end_line, return_key, scan_loop, scan_string, type_key}
use non_os_lite.Cli.Exec.Table.{main_cmd_tbl}
use non_os_lite.Cli.Exec.Run.{Host, Shell, cmd_exec}
use non_os_lite.Cli.Exec.Prompt.{c_string, peak, shell_step}

-- Characters that the line editor takes.
abbrev pub AllPrintable : List ℕ → Type 0
AllPrintable [] = Unit {0}
AllPrintable (c ∷ cs) = ((0x1F < c) × (c < 0x7F)) × AllPrintable cs

abbrev add_key : ℕ → Line → Line
add_key ch l = record { buf = put8 l.buf l.count ch; count = l.count + 1; shown = ch ∷ l.shown }

type_key-printable :
    (ch : ℕ) (l : Line) → 0x1F < ch → ch < 0x7F → l.count < 256 → type_key ch l ≡ add_key ch l
unfolding type_key
type_key-printable ch l above below room = ground arith

end_line-nul :
    (l : Line)
    → l.count < 256
    → ((end_line l).buf l.count ≡ 0) × ((i : ℕ) → i < l.count → (end_line l).buf i ≡ l.buf i)
unfolding end_line
end_line-nul l room = ground arith

scan_loop-Spells :
    (text more : List ℕ) (l : Line)
    → AllPrintable text
    → l.count + length text < 256
    → (e : Line) × ((scan_loop (text ++ (return_key ∷ more)) l ≡ some (e, more))
        × (Spells e.buf l.count text × ((i : ℕ) → i < l.count → e.buf i ≡ l.buf i)))
unfolding scan_loop
scan_loop-Spells [] more l all room =
    let ends = end_line-nul l (omega (arith, room)) in (end_line l, (refl, (ends.0, ends.1)))
scan_loop-Spells (ch ∷ text) more l all room =
    let next = type_key-printable ch l all.0.0 all.0.1 (omega (arith, room)) in
    let rest = scan_loop-Spells text more (add_key ch l) all.1 (omega (arith, room)) in
    let typed : (add_key ch l).buf l.count ≡ ch = ground arith in
    (
      rest.0,
      (
        rw (ne→== ch return_key (λ z. absurd (omega (arith, all.0.0))))
            (ap (scan_loop (text ++ (return_key ∷ more))) next ∙ rest.1.0),
        (
          (rest.1.1.1 l.count (omega arith) ∙ typed, rest.1.1.0),
          λ i h. ground (arith, rest.1.1.1 i (omega arith)),
        ),
      ),
    )

peak-text :
    (text more : List ℕ) (l : Line)
    → AllPrintable text
    → l.count + length text < 256
    → peak (text ++ (return_key ∷ more)) l ≤ l.count + length text + 1
unfolding peak
peak-text [] more l all room = omega arith
peak-text (ch ∷ text) more l all room =
    let next = type_key-printable ch l all.0.0 all.0.1 (omega (arith, room)) in
    let rest = peak-text text more (add_key ch l) all.1 (omega (arith, room)) in
    rw (ne→== ch return_key (λ z. absurd (omega (arith, all.0.0))), next) (ground (arith, rest))

c_string-Spells :
    (text : List ℕ) (k : ℕ) (m : Buf) (p : ℕ)
    → AllPrintable text
    → length text < k
    → Spells m p text
    → c_string k m p ≡ text
unfolding c_string
c_string-Spells text zero m p all fits s = absurd (omega arith)
c_string-Spells [] (suc k) m p all fits s = rw s
c_string-Spells (c ∷ cs) (suc k) m p all fits s =
    rw (s.0, ne→== c 0 (λ z. absurd (omega (arith, all.0.0))))
      (ap (λ t. c ∷ t) (c_string-Spells cs k m (p + 1) all.1 (omega arith) s.1))

-- At most 49 printable characters and RETURN_KEY: the shell executes exactly the line typed, and leaves
-- the keys behind it unread.
pub shell_step-typed :
    (h : Host) (cmdstr : Buf) (text more : List ℕ) (s : Shell)
    → AllPrintable text
    → length text < 50
    → (b : Buf) × (shell_step h cmdstr (text ++ (return_key ∷ more)) s
        ≡ some (cmd_exec h text main_cmd_tbl s, b, more))
unfolding shell_step scan_string
shell_step-typed h cmdstr text more s all short =
    let start : Line = record { buf = cmdstr; count = 0; shown = [] } in
    let got = scan_loop-Spells text more start all (omega (arith, short)) in
    let fits = peak-text text more start all (omega (arith, short)) in
    let no_overrun : ltb 50 (peak (text ++ (return_key ∷ more)) start) ≡ false =
      ground (arith, fits) in
    (
      got.0.buf,
      rw
          (
            got.1.0,
            shell_step,
            scan_string,
            no_overrun,
            c_string-Spells text 50 got.0.buf 0 all short got.1.1.0,
          )
          refl,
    )
