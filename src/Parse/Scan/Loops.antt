-- ===== src/Parse/Scan/Loops.antt =====
-- scan.c: the loops over the text of a token stop, inside the source.
use colang.Prelude.{
  ℕ, zero, suc, ◌+◌, ◌-◌, ◌≤◌, ◌<◌, ◌≡◌, refl, Bool, true, false, ◌&&◌, Option, none, some, List,
  [], ◌∷◌, arith, ◌==◌, ltb, length, Bool-cases, inl, inr, not, ltb→lt, max,
}
use colang.Parse.Scan.{Source, Scanner, rest_at, inend, byte_at, serr}
use colang.Parse.Scan.Chars.{is_ident, is_digit, rune_self, run}
use colang.Parse.Scan.Punct.{room}
use colang.Parse.Scan.Text.{
  keep_comment, comments_push_back, scomment, block_step, block_end, block_loop, scomment_block,
  snumber, uni_step, uni_loop, ident_end,
}
use colang.Parse.Scan.Next.{peek, number_token}
use colang.Parse.Scan.Progress.{run-le, length-rest_at, Past}

-- What the scanner relies on: a decoder uses a byte, and no byte past the end.
pub record IsDecoder (utf8decode : List ℕ → Bool × ℕ) : Type 0 where
  pub uses : (xs : List ℕ) → 0 < length xs → 0 < (utf8decode xs).1
  pub stays : (xs : List ℕ) → (utf8decode xs).1 ≤ length xs

module _ (b : Source) where
  abbrev pub OnScanner : (Scanner → Type 0) → Option Scanner → Type 0
  OnScanner P none = ⊥
  OnScanner P (some s) = P s

  inp-keep_comment : (s : Scanner) → (keep_comment b s).inp ≡ s.inp
  unfolding keep_comment comments_push_back
  inp-keep_comment s = ground arith

  pub scomment-Past : (s : Scanner) → 1 ≤ s.inp → s.inp ≤ inend b → Past b s.inp (scomment b s)
  unfolding scomment
  scomment-Past s h le =
      let not_newline : ℕ → Bool = λ c. not (c == 10) in
      let n = run not_newline (rest_at b s.inp) in
      let r = run-le not_newline (rest_at b s.inp) in
      let k =
        inp-keep_comment
          (record s { tokstart = s.tokstart + 2; inp = s.inp + n; tokend = s.inp + n }) in
      (omega (arith, k), omega (arith, k, r, length-rest_at b s.inp))

  inp-block_step : (c : ℕ) (s : Scanner) → (block_step b c s).inp ≡ s.inp + 1
  unfolding block_step
  inp-block_step c s = ground arith

  inp-block_end : (s : Scanner) → (block_end b s).inp ≡ s.inp + 1
  unfolding block_end
  inp-block_end s = inp-keep_comment (record s { tokend = s.inp - 1; inp = s.inp + 1 })

  pub block_loop_over :
      (c : ℕ) (rest : List ℕ) (prevc : ℕ) (s : Scanner)
      → (c == 47 && prevc == 42) ≡ false
      → block_loop b (c ∷ rest) prevc s ≡ block_loop b rest c (block_step b c s)
  unfolding block_loop
  block_loop_over c rest prevc s e = rw (e, block_loop) refl

  pub block_loop_stop :
      (c : ℕ) (rest : List ℕ) (prevc : ℕ) (s : Scanner)
      → (c == 47 && prevc == 42) ≡ true
      → block_loop b (c ∷ rest) prevc s ≡ block_end b s
  unfolding block_loop
  block_loop_stop c rest prevc s e = rw (e, block_loop) refl

  block_loop-Within :
      (xs : List ℕ) (prevc : ℕ) (s : Scanner)
      → (s.inp ≤ (block_loop b xs prevc s).inp)
        × ((block_loop b xs prevc s).inp ≤ s.inp + length xs)
  unfolding block_loop
  block_loop-Within [] prevc s = (omega arith, omega arith)
  block_loop-Within (c ∷ rest) prevc s = elim (Bool-cases (c == 47 && prevc == 42)) [
    | inl e ↦
        rw (block_loop_stop c rest prevc s e)
          (omega (arith, inp-block_end s), omega (arith, inp-block_end s))
    | inr e ↦
        let h = block_loop-Within rest c (block_step b c s) in
        rw (block_loop_over c rest prevc s e)
          (omega (arith, h.0, inp-block_step c s), omega (arith, h.1, inp-block_step c s))
  ]

  pub scomment_block-Past :
      (s : Scanner) → 1 ≤ s.inp → s.inp ≤ inend b → Past b s.inp (scomment_block b s)
  unfolding scomment_block
  scomment_block-Past s h le =
      let w = block_loop-Within (rest_at b s.inp) 0 (record s { tokstart = s.tokstart + 2 }) in
      (w.0, omega (arith, w.1, length-rest_at b s.inp))

  pub number_token-Past :
      (s : Scanner) → 1 ≤ s.inp → s.inp ≤ inend b → Past b s.inp (number_token b s)
  unfolding number_token snumber
  number_token-Past s h le =
      let r = run-le is_digit (rest_at b s.inp) in
      (omega arith, omega (arith, r, length-rest_at b s.inp))

  pub ident_end-Past : (s : Scanner) → 1 ≤ s.inp → s.inp ≤ inend b → Past b s.inp (ident_end b s)
  unfolding ident_end
  ident_end-Past s h le =
      let r = run-le is_ident (rest_at b s.inp) in
      (omega arith, omega (arith, r, length-rest_at b s.inp))

  pub peek-room : (p : ℕ) → p + room (peek b p) (peek b (p + 1)) ≤ max p (length b.body)
  unfolding peek
  peek-room p = ground arith

  module _ (utf8decode : List ℕ → Bool × ℕ) (d : IsDecoder utf8decode) where
    pub uni_step-Past :
        (s : Scanner) → 1 ≤ s.inp → s.inp < inend b → Past b (s.inp + 1) (uni_step b utf8decode s)
    unfolding uni_step serr
    uni_step-Past s h lt =
        let uses = d.uses (rest_at b s.inp) (omega (arith, length-rest_at b s.inp)) in
        let stays = d.stays (rest_at b s.inp) in
        let fit = length-rest_at b s.inp in
        let (bad, w) = utf8decode (rest_at b s.inp) in
        elim (Bool-cases bad) [
          | inl e ↦ rw e (omega (arith, uses), omega (arith, stays, fit))
          | inr e ↦ rw e (omega (arith, uses), omega (arith, stays, fit))
        ]

    pub uni_loop_end :
        (fuel : ℕ) (s : Scanner)
        → ltb s.inp (inend b) ≡ false
        → uni_loop b utf8decode (suc fuel) s ≡ some s
    unfolding uni_loop
    uni_loop_end fuel s e = rw (e, uni_loop) refl

    pub uni_loop_rune :
        (fuel : ℕ) (s : Scanner)
        → ltb s.inp (inend b) ≡ true
        → ltb (byte_at b s.inp) rune_self ≡ false
        → uni_loop b utf8decode (suc fuel) s ≡ uni_loop b utf8decode fuel (uni_step b utf8decode s)
    unfolding uni_loop
    uni_loop_rune fuel s e e' = rw (e, e', uni_loop) refl

    pub uni_loop_stop :
        (fuel : ℕ) (s : Scanner)
        → ltb s.inp (inend b) ≡ true
        → ltb (byte_at b s.inp) rune_self ≡ true
        → is_ident (byte_at b s.inp) ≡ false
        → uni_loop b utf8decode (suc fuel) s ≡ some s
    unfolding uni_loop
    uni_loop_stop fuel s e e' e'' = rw (e, e', e'', uni_loop) refl

    pub uni_loop_char :
        (fuel : ℕ) (s : Scanner)
        → ltb s.inp (inend b) ≡ true
        → ltb (byte_at b s.inp) rune_self ≡ true
        → is_ident (byte_at b s.inp) ≡ true
        → uni_loop b utf8decode (suc fuel) s
          ≡ uni_loop b utf8decode fuel (record s { inp = s.inp + 1 })
    unfolding uni_loop
    uni_loop_char fuel s e e' e'' = rw (e, e', e'', uni_loop) refl

    pub widen :
        (lo lo' : ℕ) (o : Option Scanner)
        → lo ≤ lo'
        → OnScanner (Past b lo') o
        → OnScanner (Past b lo) o
    widen lo lo' none le h = elim h [ ]
    widen lo lo' (some s) le h = (omega (arith, h.0), h.1)

    pub uni_loop-Past :
        (fuel : ℕ) (s : Scanner)
        → 1 ≤ s.inp
        → s.inp ≤ inend b
        → inend b - s.inp < fuel
        → OnScanner (Past b s.inp) (uni_loop b utf8decode fuel s)
    uni_loop-Past zero s h le lt = elim lt [ ]
    uni_loop-Past (suc fuel) s h le lt = elim (Bool-cases (ltb s.inp (inend b))) [
      | inr e ↦ rw (uni_loop_end fuel s e) (omega arith, le)
      | inl e ↦
          let inside : s.inp < inend b = ltb→lt s.inp (inend b) e in
          elim (Bool-cases (ltb (byte_at b s.inp) rune_self)) [
            | inr e' ↦
                let p = uni_step-Past s h inside in
                let s' = uni_step b utf8decode s in
                rw (uni_loop_rune fuel s e e') (
                  widen s.inp s'.inp (uni_loop b utf8decode fuel s') (omega (arith, p.0))
                    (uni_loop-Past fuel s' (omega (arith, p.0)) p.1 (omega (arith, p.0))))
            | inl e' ↦ elim (Bool-cases (is_ident (byte_at b s.inp))) [
              | inr e'' ↦ rw (uni_loop_stop fuel s e e' e'') (omega arith, le)
              | inl e'' ↦
                  let s' : Scanner = record s { inp = s.inp + 1 } in
                  rw (uni_loop_char fuel s e e' e'') (
                    widen s.inp s'.inp (uni_loop b utf8decode fuel s') (omega arith)
                      (uni_loop-Past fuel s' (omega arith) (omega arith) (omega arith)))
            ]
          ]
    ]
