-- ===== src/Cli/Line/Editing.antt =====
-- What the line editor leaves in the buffer, against a stack of characters.
use non_os_lite.Prelude.{
  Bool-cases, Buf, List, [], ap, arith, eq→==, if◌then◌else◌, inl, inr, length, ltb, ne→==, put8,
  refl, some, ℕ, ◌&&◌, ◌++◌, ◌+◌, ◌-◌, ◌<◌, ◌==◌, ◌||◌, ◌∷◌, ◌≡◌, ◌≢◌, ◌≤◌, ◌⊎◌,
}
use non_os_lite.Cli.Line.{
  Line, backsp_key, delete_key, end_line, return_key, scan_loop, scan_string, type_key,
}

abbrev pub erased : List ℕ → List ℕ
erased [] = []
erased (c ∷ cs) = cs

-- A backspace takes the last character away; a printable character is added while there is room.
abbrev pub edit : ℕ → List ℕ → List ℕ
edit ch s =
    if ch == backsp_key || ch == delete_key
    then erased s
    else if ltb 0x1F ch && (ltb ch 0x7F && ltb (length s) 256)
    then ch ∷ s
    else s

-- The characters typed, the newest first.
abbrev pub typed : List ℕ → List ℕ → List ℕ
typed [] s = s
typed (ch ∷ keys) s = typed keys (edit ch s)

-- The buffer holds the characters of the stack, the oldest at `p`.
abbrev pub Shows : Buf → List ℕ → Type 0
Shows b [] = Unit {0}
Shows b (c ∷ cs) = (b (length cs) ≡ c) × Shows b cs

Shows-put8 : (b : Buf) (s : List ℕ) (q v : ℕ) → length s ≤ q → Shows b s → Shows (put8 b q v) s
Shows-put8 b [] q v h shows = shows
Shows-put8 b (c ∷ cs) q v h shows =
    (ground (arith, shows.0), Shows-put8 b cs q v (omega arith) shows.1)

-- The line holds the stack, which fits; behind 256 bytes the buffer is as it was.
pub record Holds (start : Buf) (s : List ℕ) (l : Line) : Type 0 where
  pub same_count : l.count ≡ length s
  pub room : length s ≤ 256
  pub text : Shows l.buf s
  pub behind : (i : ℕ) → 256 ≤ i → l.buf i ≡ start i

erase : Line → Line
erase l = if l.count == 0 then l else record {
  buf = put8 l.buf (l.count - 1) 0;
  count = l.count - 1;
  shown = 8 ∷ b' ' ∷ 8 ∷ l.shown;
}

erase-Holds :
    (start : Buf) (s : List ℕ) (l : Line) → Holds start s l → Holds start (erased s) (erase l)
unfolding erase
erase-Holds start [] l h = rw (eq→== l.count 0 h.same_count) h
erase-Holds start (c ∷ cs) l h =
    let count = h.same_count in
    rw (ne→== l.count 0 (λ z. absurd (omega arith))) (record {
      same_count = omega arith;
      room = omega (arith, h.room);
      text = Shows-put8 l.buf cs _ 0 (omega arith) h.text.1;
      behind = λ i far. ground (arith, h.room, h.behind i far);
    })

add : ℕ → Line → Line
add ch l = record { buf = put8 l.buf l.count ch; count = l.count + 1; shown = ch ∷ l.shown }

add-Holds :
    (start : Buf) (ch : ℕ) (s : List ℕ) (l : Line)
    → length s < 256
    → Holds start s l
    → Holds start (ch ∷ s) (add ch l)
unfolding add
add-Holds start ch s l room h =
    let count = h.same_count in
    record {
      same_count = omega arith;
      room = omega arith;
      text = (ground (arith, count), Shows-put8 l.buf s l.count ch (omega arith) h.text);
      behind = λ i far. ground (arith, count, h.behind i far);
    }

type_key-Holds :
    (start : Buf) (ch : ℕ) (s : List ℕ) (l : Line)
    → Holds start s l
    → Holds start (edit ch s) (type_key ch l)
unfolding type_key erase add
type_key-Holds start ch s l h =
    let full : ltb l.count 256 ≡ ltb (length s) 256 = ap (λ k. ltb k 256) h.same_count in
    elim (Bool-cases (ch == backsp_key || ch == delete_key)) [
      | inl e ↦ rw e (erase-Holds start s l h)
      | inr e ↦ rw e (
          rw full (elim (Bool-cases (ltb 0x1F ch && (ltb ch 0x7F && ltb (length s) 256))) [
            | inl fits ↦ rw fits (add-Holds start ch s l (ground arith) h)
            | inr not_fits ↦ rw not_fits h
          ]))
    ]

-- The keys before RETURN_KEY.
abbrev pub NoReturn : List ℕ → Type 0
NoReturn [] = Unit {0}
NoReturn (ch ∷ keys) = (ch ≢ return_key) × NoReturn keys

scan_loop-Holds :
    (start : Buf) (keys more : List ℕ) (s : List ℕ) (l : Line)
    → NoReturn keys
    → Holds start s l
    → (e : Line) × ((scan_loop (keys ++ (return_key ∷ more)) l ≡ some (end_line e, more))
        × Holds start (typed keys s) e)
unfolding scan_loop
scan_loop-Holds start [] more s l none_of h = (l, (refl, h))
scan_loop-Holds start (ch ∷ keys) more s l none_of h =
    let rest =
      scan_loop-Holds start keys more (edit ch s) (type_key ch l) none_of.1
        (type_key-Holds start ch s l h) in
    (rest.0, (rw (ne→== ch return_key none_of.0) rest.1.0, rest.1.1))

-- The last byte of the line: a NUL while fewer than 256 characters were typed.
end_line-Holds :
    (start : Buf) (s : List ℕ) (l : Line) → Holds start s l → Holds start s (end_line l)
unfolding end_line
end_line-Holds start s l h = elim (Bool-cases (ltb l.count 256)) [
  | inl e ↦ rw e (record {
    same_count = h.same_count;
    room = h.room;
    text = Shows-put8 l.buf s l.count 0 (omega (arith, h.same_count)) h.text;
    behind = λ i far. ground (arith, h.behind i far);
  })
  | inr e ↦ rw e h
]

ended : (l : Line) → 256 ≤ (end_line l).count ⊎ (end_line l).buf (end_line l).count ≡ 0
unfolding end_line
ended l = elim (Bool-cases (ltb l.count 256)) [
  | inl e ↦ rw e (inr (ground arith))
  | inr e ↦ rw e (inl (ground arith))
]

-- For keys that end with RETURN_KEY, `scan_string` returns with the keys behind it unread. The buffer
-- then holds the characters typed, less those taken back, as many as the result counts, which are at
-- most 256; a NUL follows if they are fewer; and nothing behind the 256th byte is written.
pub scan_string-Holds :
    (start : Buf) (keys more : List ℕ)
    → NoReturn keys
    → (e : Line) × ((scan_string start (keys ++ (return_key ∷ more)) ≡ some (e, more))
        × (Holds start (typed keys []) e × (256 ≤ e.count ⊎ e.buf e.count ≡ 0)))
unfolding scan_string
scan_string-Holds start keys more none_of =
    let empty : Holds start [] (record { buf = start; count = 0; shown = [] }) = record {
      same_count = refl;
      room = omega arith;
      text = tt;
      behind = λ i far. refl;
    } in
    let r = scan_loop-Holds start keys more [] _ none_of empty in
    (end_line r.0, (r.1.0, (end_line-Holds start (typed keys []) r.0 r.1.1, ended r.0)))
