-- ===== src/Clib/Printf/Written.antt =====
-- ADDCH and the end of `vsnprintf_internal` of lib/mylibc/stdio/simple_printf.c with a buffer.
use mathlib.Core.Path.{ap₂}
use non_os_lite.Prelude.{
  Bool, Bool-cases, Buf, List, [], ap, arith, false, get_or, if◌then◌else◌, inl, inr, leb, length,
  le→ltb, ltb, lt→ltb, put8, put_list, refl, suc, sym, true, u32, ℕ, ◌&&◌, ◌+◌, ◌-◌, ◌<◌, ◌==◌, ◌^◌,
  ◌∙◌, ◌∷◌, ◌≡◌, ◌≤◌,
}
use non_os_lite.Uart.{Uart}
use non_os_lite.Clib.Printf.Output.{add_all, addch, terminate}

-- The characters of a text that stand below the end, from `p` on.
abbrev pub below : ℕ → ℕ → List ℕ → List ℕ
below end p [] = []
below end p (c ∷ cs) = if ltb p end then c ∷ below end (p + 1) cs else []

below-nothing : (end p : ℕ) (text : List ℕ) → end ≤ p → below end p text ≡ []
below-nothing end p [] h = refl
below-nothing end p (c ∷ cs) h = rw (le→ltb p end h) refl

-- ADDCH with a buffer.
pub addch-buffer :
    (end c : ℕ) (m : Buf) (p : ℕ) (console : Uart)
    → 0 < p
    → p + 1 < 2 ^ 32
    → addch end c (record { memory = m; str = p; console = console })
      ≡ record { memory = put_list m p (below end p (c ∷ [])); str = p + 1; console = console }
unfolding addch put_list
addch-buffer end c m p console h k =
    let set : (p == 0) ≡ false = ground arith in
    let next : u32 (p + 1) ≡ p + 1 = omega arith in
    rw (set, next)
      (ap (λ (v : Buf). record { memory = v; str = p + 1; console = console })
        (put_list-if (ltb p end)))
  where
    put_list-if :
        (b : Bool) → (if b then put8 m p c else m) ≡ put_list m p (if b then c ∷ [] else [])
    put_list-if true = refl
    put_list-if false = refl

-- The first character, and the others behind it.
put_list-below :
    (end c : ℕ) (cs : List ℕ) (m : Buf) (p : ℕ)
    → put_list (put_list m p (below end p (c ∷ []))) (p + 1) (below end (p + 1) cs)
      ≡ put_list m p (below end p (c ∷ cs))
unfolding put_list
put_list-below end c cs m p = elim (Bool-cases (ltb p end)) [
  | inl e ↦ rw e refl
  | inr e ↦ rw (e, below-nothing end (p + 1) cs (ground arith)) refl
]

-- A whole text.
pub add_all-buffer :
    (end : ℕ) (text : List ℕ) (m : Buf) (p : ℕ) (console : Uart)
    → 0 < p
    → p + length text < 2 ^ 32
    → add_all end text (record { memory = m; str = p; console = console }) ≡ record {
      memory = put_list m p (below end p text);
      str = p + length text;
      console = console;
    }
unfolding add_all put_list
add_all-buffer end [] m p console h k =
    let same : p + 0 ≡ p = omega arith in
    ap (λ v. record { memory = m; str = v; console = console }) (sym same)
add_all-buffer end (c ∷ cs) m p console h k =
    let far : p + 1 + length cs ≡ p + suc (length cs) = omega arith in
    ap (add_all end cs) (addch-buffer end c m p console h (omega arith))
    ∙ add_all-buffer end cs _ (p + 1) console (omega arith) (omega arith)
    ∙ ap₂ (λ (v : Buf) w. record { memory = v; str = w; console = console })
        (put_list-below end c cs m p) far

pub terminate-buffer :
    (end room : ℕ) (m : Buf) (p : ℕ) (console : Uart)
    → 0 < room
    → 0 < p
    → p + 1 < 2 ^ 32
    → terminate end room (record { memory = m; str = p; console = console }) ≡ (
        let m1 = put_list m p (below end p (0 ∷ [])) in
        let m2 = if ltb end (p + 1) then put8 m1 (end - 1) 0 else m1 in
        record { memory = put8 m2 (p + 1) 0; str = p + 1; console = console })
unfolding terminate
terminate-buffer end room m p console hr hp h =
    let set : (p + 1 == 0) ≡ false = ground arith in
    elim (Bool-cases (ltb end (p + 1))) [
      | inl over ↦ rw (addch-buffer end 0 m p console hp h, lt→ltb 0 room hr, over, set) refl
      | inr fits ↦ rw (addch-buffer end 0 m p console hp h, lt→ltb 0 room hr, fits, set) refl
    ]

-- The byte at `a` after the characters below the end have been stored from `p` on.
unfoldable pub stored : ℕ → ℕ → List ℕ → ℕ → ℕ → ℕ
stored end p text a old =
    if leb p a && (ltb a (p + length text) && ltb a end) then get_or text (a - p) 0 else old

get_or-first : (c : ℕ) (cs : List ℕ) (i : ℕ) → i ≡ 0 → get_or (c ∷ cs) i 0 ≡ c
get_or-first c cs i e = rw e refl

get_or-behind : (c : ℕ) (cs : List ℕ) (i j : ℕ) → i ≡ suc j → get_or (c ∷ cs) i 0 ≡ get_or cs j 0
get_or-behind c cs i j e = rw e refl

-- The first character stands at `p`, the others behind it.
stored-cons :
    (end p c : ℕ) (cs : List ℕ) (a old : ℕ)
    → p < end
    → stored end (p + 1) cs a (if a == p then c else old) ≡ stored end p (c ∷ cs) a old
unfolding stored
stored-cons end p c cs a old h = elim (Bool-cases (a == p)) [
  | inl e ↦
      let first : get_or (c ∷ cs) (a - p) 0 ≡ c = get_or-first c cs (a - p) (ground arith) in
      rw first (ground arith)
  | inr e ↦ elim (Bool-cases (ltb a p)) [
    | inl early ↦ ground arith
    | inr late ↦
        let behind : get_or (c ∷ cs) (a - p) 0 ≡ get_or cs (a - (p + 1)) 0 =
          get_or-behind c cs (a - p) (a - (p + 1)) (ground arith) in
        rw behind (ground arith)
  ]
]

stored-outside : (end p : ℕ) (text : List ℕ) (a old : ℕ) → end ≤ p → stored end p text a old ≡ old
unfolding stored
stored-outside end p text a old h = ground arith

pub put_list-stored :
    (end : ℕ) (text : List ℕ) (m : Buf) (p a : ℕ)
    → put_list m p (below end p text) a ≡ stored end p text a (m a)
unfolding put_list
put_list-stored end [] m p a = unfold stored in ground arith
put_list-stored end (c ∷ cs) m p a = elim (Bool-cases (ltb p end)) [
  | inl e ↦ rw e (
      put_list-stored end cs (put8 m p c) (p + 1) a ∙ stored-cons end p c cs a (m a) (ground arith))
  | inr e ↦ rw e (sym (stored-outside end p (c ∷ cs) a (m a) (ground arith)))
]
