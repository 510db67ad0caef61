-- ===== src/Cli/Line.antt =====
-- `scan_string` of lib/cli.c: the line that the shell reads. The keys are what `ftuart_getc` returns.
pub mod Editing
use non_os_lite.Prelude.{
  Buf, List, Option, [], if◌then◌else◌, ltb, none, put8, some, ℕ, ◌&&◌, ◌+◌, ◌-◌, ◌==◌, ◌||◌, ◌∷◌,
}

abbrev pub backsp_key : ℕ
backsp_key = 0x08

abbrev pub return_key : ℕ
return_key = 0x0A

abbrev pub delete_key : ℕ
delete_key = 0x7F

-- The buffer, `count` (and `cp = buf + count`), and the characters put out, the newest first.
pub record Line : Type 0 where
  pub buf : Buf
  pub count : ℕ
  pub shown : List ℕ

-- The body of the loop for a key other than RETURN_KEY.
unfoldable pub type_key : ℕ → Line → Line
type_key ch l =
    if ch == backsp_key || ch == delete_key
    then (if l.count == 0 then l else record {
      buf = put8 l.buf (l.count - 1) 0;
      count = l.count - 1;
      shown = backsp_key ∷ b' ' ∷ backsp_key ∷ l.shown;
    })
    else if ltb 0x1F ch && (ltb ch 0x7F && ltb l.count 256)
    then record { buf = put8 l.buf l.count ch; count = l.count + 1; shown = ch ∷ l.shown }
    else l

unfoldable pub end_line : Line → Line
end_line l =
    if ltb l.count 256
    then record l { buf = put8 l.buf l.count 0; shown = return_key ∷ l.shown }
    else l

-- `none` while RETURN_KEY has not come; otherwise the line and the keys left.
unfoldable pub scan_loop : List ℕ → Line → Option (Line × List ℕ)
scan_loop [] l = none
scan_loop (ch ∷ keys) l =
    let more = scan_loop keys (type_key ch l) in
    if ch == return_key then some (end_line l, keys) else more

unfoldable pub scan_string : Buf → List ℕ → Option (Line × List ℕ)
scan_string buf keys = scan_loop keys (record { buf = buf; count = 0; shown = [] })
