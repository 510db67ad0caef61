-- ===== src/Clib/Printf/Effect.antt =====
-- What `sprintf` and `snprintf` of lib/mylibc/stdio/simple_printf.c leave in memory, and what they
-- return.
use non_os_lite.Prelude.{
  Bool, Bool-cases, Buf, List, [], ap, arith, false, get_or, if◌then◌else◌, inl, inr, leb, length,
  ltb, put8, put_list, refl, some, sub32, suc, true, zero, ℕ, ◌&&◌, ◌+◌, ◌-◌, ◌<◌, ◌==◌, ◌^◌, ◌||◌,
  ◌∙◌, ◌∷◌, ◌≡◌, ◌≤◌,
}
use non_os_lite.Clib.Printf.Format.{Arg, format, formatted}
use non_os_lite.Clib.Printf.Output.{
  Output, int_max, limits, put_formatted, simple_snprintf, simple_sprintf, vsnprintf_internal,
}
use non_os_lite.Clib.Printf.Written.{
  add_all-buffer, below, put_list-stored, stored, terminate-buffer,
}

-- The memory and the position behind a text, its NUL, the NUL at the end of a buffer that is too
-- small, and the last NUL.
abbrev printed : ℕ → ℕ → List ℕ → Output → Output
printed end buf text o =
    let p = buf + length text in
    let m1 = put_list (put_list o.memory buf (below end buf text)) p (below end p (0 ∷ [])) in
    let m2 = if ltb end (p + 1) then put8 m1 (end - 1) 0 else m1 in
    record { memory = put8 m2 (p + 1) 0; str = p + 1; console = o.console }

module _ (buf size : ℕ) (fmt : List ℕ) (args : List Arg) (o : Output) (text : List ℕ)
    (h : format fmt args ≡ formatted text) (set : 0 < buf) (some_size : 0 < size)
    (in_memory : buf + length text + 1 < 2 ^ 32) where
  vsnprintf_internal-printed :
      vsnprintf_internal buf size fmt args o
      ≡ some (length text + 1, printed (limits buf size).0 buf text o)
  unfolding vsnprintf_internal
  vsnprintf_internal-printed = ap (put_formatted buf size o) h ∙ put_formatted-printed
    where
      put_formatted-printed :
          put_formatted buf size o (formatted text)
          ≡ some (length text + 1, printed (limits buf size).0 buf text o)
      put_formatted-printed =
          unfold put_formatted in
          let (end, room) = limits buf size in
          let e1 = add_all-buffer end text o.memory buf o.console set (omega arith) in
          let e2 =
            terminate-buffer end room (put_list o.memory buf (below end buf text))
              (buf + length text) o.console (ground arith) (omega arith) in_memory in
          let e3 : sub32 (buf + length text + 1) buf ≡ length text + 1 = omega arith in
          rw (e1, e2, e3) refl

if-at : (b : Bool) (f g : Buf) (a : ℕ) → (if b then f else g) a ≡ (if b then f a else g a)
if-at true f g a = refl
if-at false f g a = refl

get_or-end : (text : List ℕ) (i : ℕ) → length text ≤ i → get_or text i 0 ≡ 0
get_or-end [] i h = refl
get_or-end (c ∷ cs) zero h = absurd (omega arith)
get_or-end (c ∷ cs) (suc i) h = get_or-end cs i (omega arith)

get_or-zero : (i : ℕ) → get_or {A = ℕ} (0 ∷ []) i 0 ≡ 0
get_or-zero zero = refl
get_or-zero (suc i) = refl

-- The byte at `a`: the last NUL, the NUL of a full buffer, and the text with its NUL below the end.
byte_at : ℕ → ℕ → List ℕ → ℕ → ℕ → ℕ
byte_at end buf text a old =
    let p = buf + length text in
    let s = stored end p (0 ∷ []) a (stored end buf text a old) in
    if a == p + 1 then 0 else if ltb end (p + 1) then (if a == end - 1 then 0 else s) else s

printed-byte_at :
    (end buf : ℕ) (text : List ℕ) (o : Output) (a : ℕ)
    → (printed end buf text o).memory a ≡ byte_at end buf text a (o.memory a)
unfolding byte_at
printed-byte_at end buf text o a =
    let p = buf + length text in
    let m0 : Buf = put_list o.memory buf (below end buf text) in
    let m1 : Buf = put_list m0 p (below end p (0 ∷ [])) in
    let e : m1 a ≡ stored end p (0 ∷ []) a (stored end buf text a (o.memory a)) =
      put_list-stored end (0 ∷ []) m0 p a
      ∙ ap (stored end p (0 ∷ []) a) (put_list-stored end text o.memory buf a) in
    rw (if-at (ltb end (p + 1)) (put8 m1 (end - 1) 0) m1 a, e) refl

-- The byte at `a` after a text has been printed to a buffer of `size` bytes.
abbrev pub snprintf_byte : ℕ → ℕ → List ℕ → ℕ → ℕ → ℕ
snprintf_byte buf size text a old =
    if a == buf + length text + 1
    then 0
    else if ltb a buf || leb (buf + size) a || ltb (buf + length text) a
    then old
    else if a == buf + size - 1
    then 0
    else get_or text (a - buf) 0

byte_at-snprintf_byte :
    (buf size : ℕ) (text : List ℕ) (a old : ℕ)
    → 0 < size
    → byte_at (buf + size) buf text a old ≡ snprintf_byte buf size text a old
unfolding byte_at stored
byte_at-snprintf_byte buf size text a old h = elim (Bool-cases (a == buf + length text)) [
  | inl e ↦
      let past : get_or text (a - buf) 0 ≡ 0 = get_or-end text (a - buf) (ground arith) in
      rw (get_or-zero (a - (buf + length text)), past) (ground arith)
  | inr e ↦ rw (get_or-zero (a - (buf + length text))) (ground arith)
]

byte_at-fits :
    (end buf : ℕ) (text : List ℕ) (a old : ℕ)
    → buf + length text + 1 ≤ end
    → byte_at end buf text a old
      ≡ (if leb buf a && ltb a (buf + length text + 2) then get_or text (a - buf) 0 else old)
unfolding byte_at stored
byte_at-fits end buf text a old h = elim (Bool-cases (leb (buf + length text) a)) [
  | inl e ↦
      let past : get_or text (a - buf) 0 ≡ 0 = get_or-end text (a - buf) (ground arith) in
      rw (get_or-zero (a - (buf + length text)), past) (ground arith)
  | inr e ↦ rw (get_or-zero (a - (buf + length text))) (ground arith)
]

-- For a call whose conversions are defined, with a buffer of at least one byte in the 32-bit memory,
-- `snprintf` returns the length of the text and one more, puts nothing on the console, and leaves at
-- each address the byte that `snprintf_byte` describes: the text and its NUL in the buffer, cut off
-- by a NUL when the buffer is too small, a NUL one byte behind the whole text, whether it stands in
-- the buffer or not, and nothing else changed.
pub simple_snprintf-byte :
    (buf size : ℕ) (fmt : List ℕ) (args : List Arg) (o : Output) (text : List ℕ)
    → format fmt args ≡ formatted text
    → 0 < buf
    → 0 < size
    → buf + size < 2 ^ 32
    → buf + length text + 1 < 2 ^ 32
    → (out : Output) × (simple_snprintf buf size fmt args o ≡ some (length text + 1, out))
      × (out.console ≡ o.console)
      × ((a : ℕ) → out.memory a ≡ snprintf_byte buf size text a (o.memory a))
unfolding simple_snprintf
simple_snprintf-byte buf size fmt args o text h set some_size top in_memory =
    let whole : limits buf size ≡ (buf + size, size) = ground arith in
    (
      printed (buf + size) buf text o,
      vsnprintf_internal-printed buf size fmt args o text h set some_size in_memory ∙ rw whole refl,
      refl,
      λ a.
          printed-byte_at (buf + size) buf text o a
          ∙ byte_at-snprintf_byte buf size text a (o.memory a) some_size,
    )

-- `sprintf` leaves the text and two NULs from `buf` on, whatever has its place there, and every other
-- byte as it was. It returns the length of the text and one more.
pub simple_sprintf-byte :
    (buf : ℕ) (fmt : List ℕ) (args : List Arg) (o : Output) (text : List ℕ)
    → format fmt args ≡ formatted text
    → 0 < buf
    → buf + length text + 1 < 2 ^ 32 - 1
    → length text + 1 < int_max
    → (out : Output) × (simple_sprintf buf fmt args o ≡ some (length text + 1, out))
      × (out.console ≡ o.console)
      × ((a : ℕ)
          → out.memory a ≡ (
              if leb buf a && ltb a (buf + length text + 2)
              then get_or text (a - buf) 0
              else o.memory a))
unfolding simple_sprintf
simple_sprintf-byte buf fmt args o text h set in_memory short =
    let end = (limits buf int_max).0 in
    (
      printed end buf text o,
      vsnprintf_internal-printed buf int_max fmt args o text h set (omega arith) (omega arith),
      refl,
      λ a.
          printed-byte_at end buf text o a
          ∙ byte_at-fits end buf text a (o.memory a) (ground arith),
    )
