-- ===== src/Cli/Exec/Words.antt =====
-- How `cmd_exec` splits a line into words and finds the command.
use non_os_lite.Prelude.{
  Bool, List, [], arith, false, length, length-append, none, refl, some, suc, true, zero, ℕ, ◌++◌,
  ◌<◌, ◌==◌, ◌||◌, ◌∷◌, ◌≡◌, ◌≢◌, ◌≤◌,
}
use non_os_lite.Cli.Exec.Run.{Host, tokens}

-- " \r\n\t"
abbrev pub is_delim : ℕ → Bool
is_delim c = c == 32 || c == 13 || c == 10 || c == 9

abbrev pub AllDelims : List ℕ → Type 0
AllDelims [] = Unit {0}
AllDelims (c ∷ cs) = (is_delim c ≡ true) × AllDelims cs

abbrev pub NoDelims : List ℕ → Type 0
NoDelims [] = Unit {0}
NoDelims (c ∷ cs) = (is_delim c ≡ false) × NoDelims cs

abbrev pub IsWord : List ℕ → Type 0
IsWord w = (w ≢ []) × NoDelims w

-- What the C standard says of the library's functions.
pub record IsLibc (h : Host) : Type 0 where
  pub no_token : (s : List ℕ) → AllDelims s → h.strtok s ≡ none
  pub token :
      (gap word rest : List ℕ) (stop : ℕ)
      → AllDelims gap
      → IsWord word
      → is_delim stop ≡ true
      → h.strtok (gap ++ (word ++ (stop ∷ rest))) ≡ some (word, rest)
  pub last_token :
      (gap word : List ℕ) → AllDelims gap → IsWord word → h.strtok (gap ++ word) ≡ some (word, [])
  pub same : (a : List ℕ) → h.strcmp a a ≡ 0
  pub differ : (a b : List ℕ) → a ≢ b → h.strcmp a b ≢ 0

-- A word with the blanks before it and the blank that ends it.
pub record Piece : Type 0 where
  pub gap : List ℕ
  pub word : List ℕ
  pub stop : ℕ

pub record IsPiece (p : Piece) : Type 0 where
  pub gap_delims : AllDelims p.gap
  pub is_word : IsWord p.word
  pub stop_delim : is_delim p.stop ≡ true

abbrev pub AllPieces : List Piece → Type 0
AllPieces [] = Unit {0}
AllPieces (p ∷ ps) = IsPiece p × AllPieces ps

-- A line ends with blanks, or with a word behind blanks.
pub data Ending : Type 0 where
  blanks : List ℕ → Ending
  final : List ℕ → List ℕ → Ending

abbrev pub IsEnding : Ending → Type 0
IsEnding (blanks gap) = AllDelims gap
IsEnding (final gap word) = AllDelims gap × IsWord word

abbrev pub line_of : List Piece → Ending → List ℕ
line_of [] (blanks gap) = gap
line_of [] (final gap word) = gap ++ word
line_of (p ∷ ps) e = p.gap ++ (p.word ++ (p.stop ∷ line_of ps e))

abbrev pub words_of : List Piece → Ending → List (List ℕ)
words_of [] (blanks gap) = []
words_of [] (final gap word) = word ∷ []
words_of (p ∷ ps) e = p.word ∷ words_of ps e

-- Every piece takes a character at least.
pub pieces_fit : (ps : List Piece) (e : Ending) → length ps ≤ length (line_of ps e)
pieces_fit [] e = omega arith
pieces_fit (p ∷ ps) e =
    let rest = pieces_fit ps e in
    rw
      (
        length-append p.gap (p.word ++ (p.stop ∷ line_of ps e)),
        length-append p.word (p.stop ∷ line_of ps e),
      )
      (omega arith)

module _ (h : Host) (libc : IsLibc h) where
  tokens-nil : (k : ℕ) → tokens h k [] ≡ []
  unfolding tokens
  tokens-nil zero = refl
  tokens-nil (suc k) = rw (libc.no_token [] tt, tokens)

  -- One token to a word.
  pub tokens-words :
      (ps : List Piece) (e : Ending) (k : ℕ)
      → AllPieces ps
      → IsEnding e
      → length ps < k
      → tokens h k (line_of ps e) ≡ words_of ps e
  unfolding tokens
  tokens-words ps e zero all end enough = absurd (omega arith)
  tokens-words [] (blanks gap) (suc k) all end enough = rw (libc.no_token gap end, tokens)
  tokens-words [] (final gap word) (suc k) all end enough =
      rw (libc.last_token gap word end.0 end.1, tokens, tokens-nil k)
  tokens-words (p ∷ ps) e (suc k) all end enough =
      let next =
        libc.token p.gap p.word (line_of ps e) p.stop all.0.gap_delims all.0.is_word
          all.0.stop_delim in
      rw (next, tokens, tokens-words ps e k all.1 end (omega arith))
