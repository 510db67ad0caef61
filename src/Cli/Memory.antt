-- ===== src/Cli/Memory.antt =====
-- The commands `md` and `mw` of lib/cli.c. An `int` is its bit pattern; memory is byte-addressed.
pub mod Fill
pub mod Printed
use non_os_lite.Prelude.{
  Buf, List, [], if◌then◌else◌, ltb, put8, suc, u32, zero, ℕ, ◌%◌, ◌*◌, ◌++◌, ◌+◌, ◌/◌, ◌==◌, ◌^◌,
  ◌∷◌,
}
use non_os_lite.Clib.Strtol.{strtol}

-- What `prints` puts out: "%08X: " of an address, "%08X " of a word, and a line break.
pub data Token : Type 0 where
  label : ℕ → Token
  word : ℕ → Token
  newline : Token

-- `*(int *)p` on the little-endian machine.
unfoldable pub get_le32 : Buf → ℕ → ℕ
get_le32 m p = m p + m (p + 1) * 256 + m (p + 2) * 2 ^ 16 + m (p + 3) * 2 ^ 24

unfoldable pub put_le32 : Buf → ℕ → ℕ → Buf
put_le32 m p v =
    put8 (put8 (put8 (put8 m p (v % 256)) (p + 1) (v / 256 % 256)) (p + 2) (v / 2 ^ 16 % 256))
      (p + 3) (v / 2 ^ 24 % 256)

-- How often `for (i = 0; i < num; i++)` runs its body.
abbrev pub rounds_of : ℕ → ℕ
rounds_of num = if ltb num (2 ^ 31) then num else 0

-- The printing loop, with the rounds left: four words to a line.
unfoldable pub dump : Buf → ℕ → ℕ → ℕ → List Token
dump m pd zero j = []
dump m pd (suc left) j =
    (if j == 0 then label pd ∷ [] else [])
    ++ (word (get_le32 m pd)
        ∷ (if j + 1 == 4
            then (if left == 0 then [] else newline ∷ []) ++ dump m (u32 (pd + 4)) left 0
            else dump m (u32 (pd + 4)) left (j + 1)))

-- The writing loop of `do_wr32`.
unfoldable pub fill : Buf → ℕ → ℕ → ℕ → ℕ → Buf
fill m pd value datainc zero = m
fill m pd value datainc (suc left) =
    fill (put_le32 m pd value) (u32 (pd + 4)) (u32 (value + datainc)) datainc left

-- The arguments behind the command's name: the returned value, and what is put out.
unfoldable pub do_rd32 : List (List ℕ) → Buf → ℕ × List Token
do_rd32 (addr ∷ []) m = (0, dump m (strtol addr 0) 4 0)
do_rd32 (addr ∷ num ∷ []) m = (0, dump m (strtol addr 0) (rounds_of (strtol num 0)) 0)
do_rd32 _ m = (1, [])

unfoldable pub write_and_dump : ℕ → ℕ → ℕ → ℕ → Buf → (ℕ × List Token) × Buf
write_and_dump addr value num datainc m =
    let m1 = fill m addr value datainc (rounds_of num) in ((0, dump m1 addr (rounds_of num) 0), m1)

unfoldable pub do_wr32 : List (List ℕ) → Buf → (ℕ × List Token) × Buf
do_wr32 (addr ∷ value ∷ []) m = write_and_dump (strtol addr 0) (strtol value 0) 1 0 m
do_wr32 (addr ∷ value ∷ num ∷ []) m =
    write_and_dump (strtol addr 0) (strtol value 0) (strtol num 0) 0 m
do_wr32 (addr ∷ value ∷ num ∷ inc ∷ []) m =
    write_and_dump (strtol addr 0) (strtol value 0) (strtol num 0) (strtol inc 0) m
do_wr32 _ m = ((1, []), m)
