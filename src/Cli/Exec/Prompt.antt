-- ===== src/Cli/Exec/Prompt.antt =====
-- `shell` of lib/cli.c: it reads a line and executes it, again and again. The prompt is not kept.
use non_os_lite.Prelude.{
  Buf, List, Option, [], if◌then◌else◌, ltb, none, some, suc, zero, ℕ, ◌+◌, ◌==◌, ◌∷◌,
}
use non_os_lite.Cli.Line.{Line, return_key, scan_string, type_key}
use non_os_lite.Cli.Exec.Table.{main_cmd_tbl}
use non_os_lite.Cli.Exec.Run.{Host, Shell, Step, cmd_exec, crashed, done, waiting}

-- CMDLEN, the size of the buffer.
abbrev pub cmdlen : ℕ
cmdlen = 50

-- The C string at `p`, of less than the given number of bytes.
unfoldable pub c_string : ℕ → Buf → ℕ → List ℕ
c_string zero m p = []
c_string (suc k) m p = let rest = c_string k m (p + 1) in if m p == 0 then [] else m p ∷ rest

-- How many bytes of the buffer `scan_string` has written to, at the end of the line.
unfoldable pub peak : List ℕ → Line → ℕ
peak [] l = l.count
peak (ch ∷ keys) l =
    let later = peak keys (type_key ch l) in
    if ch == return_key then l.count + 1 else if ltb later l.count then l.count else later

-- One line: `none` while RETURN_KEY has not come; otherwise what the line does, the buffer, and the keys
-- left. A line that is too long for the buffer overwrites the stack.
unfoldable pub shell_step : Host → Buf → List ℕ → Shell → Option (Step × Buf × List ℕ)
shell_step h cmdstr keys s = elim (scan_string cmdstr keys) [
  | none ↦ none
  | some (l, more) ↦
      if ltb cmdlen (peak keys (record { buf = cmdstr; count = 0; shown = [] }))
      then some (crashed, l.buf, more)
      else some (cmd_exec h (c_string cmdlen l.buf 0) main_cmd_tbl s, l.buf, more)
]

-- The loop, for the given number of lines.
unfoldable pub shell : ℕ → Host → Buf → List ℕ → Shell → Step
shell zero h cmdstr keys s = waiting s
shell (suc lines) h cmdstr keys s = elim (shell_step h cmdstr keys s) [
  | none ↦ waiting s
  | some (step, buf, more) ↦ elim step [ done rc t ↦ shell lines h buf more t | other ↦ other ]
]
