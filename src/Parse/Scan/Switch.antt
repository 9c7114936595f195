-- ===== src/Parse/Scan/Switch.antt =====
-- scan.c: the switch of ScannerNext takes at least one byte and leaves no loop unfinished.
use colang.Prelude.{
  ℕ, zero, suc, ◌+◌, ◌-◌, ◌≤◌, ◌<◌, ◌≡◌, refl, Bool, true, false, ◌&&◌, Option, none, some, List,
  arith, ◌==◌, ltb, leb, Bool-cases, inl, inr, lt→ltb,
}
use colang.Parse.Scan.{Source, Scanner, inend, byte_at, serr}
use colang.Parse.Scan.Chars.{is_digit, starts_name, rune_self}
use colang.Parse.Scan.Punct.{Punct, punct, room, FitsIn, punct-FitsIn}
use colang.Parse.Scan.Text.{name_end, uni_step, uni_loop, named, snameuni, ident_end, sname}
use colang.Parse.Scan.Next.{
  Step, done, again, stuck, peek, take_char, consume_char, punct_token, bad_char, name_token,
  uni_token, text_token, punct_or_text, switch_char, read_token,
}
use colang.Parse.Scan.Progress.{Past}
use colang.Parse.Scan.Loops.{
  IsDecoder, OnScanner, scomment-Past, scomment_block-Past, number_token-Past, ident_end-Past,
  peek-room, uni_loop-Past, uni_loop_rune, widen, uni_step-Past,
}

back : (n : ℕ) → n + 1 - 1 ≡ n
back n = omega arith

module _ (b : Source) where
  -- A token is returned past `lo`, and after a comment the scanner is past `lo` too.
  abbrev pub StepPast : ℕ → Step → Type 0
  StepPast lo (done s) = Past b lo s
  StepPast lo (again s) = Past b lo s
  StepPast lo stuck = ⊥

  -- A byte that joins the first one is there.
  room_for :
      (s : Scanner) (c k : ℕ)
      → (c == 47 && peek b (s.inp + 1) == suc k) ≡ true
      → s.inp + 1 + 1 ≤ inend b
  unfolding peek
  room_for s c k e = ground arith

  punct_token-Past :
      (p : Punct) (s : Scanner) → s.inp + p.extra ≤ inend b → Past b s.inp (punct_token b p s)
  unfolding punct_token
  punct_token-Past p s h = (omega arith, h)

  inp-bad_char : (c : ℕ) (s : Scanner) → (bad_char b c s).inp ≡ s.inp
  unfolding bad_char serr
  inp-bad_char c s = refl

  name_token-StepPast :
      (lo : ℕ) (o : Option Scanner) → OnScanner b (Past b lo) o → StepPast lo (name_token b o)
  unfolding name_token
  name_token-StepPast lo none h = h
  name_token-StepPast lo (some s) h = h

  uni_token-StepPast :
      (lo : ℕ) (o : Option Scanner) → OnScanner b (Past b lo) o → StepPast lo (uni_token b o)
  unfolding uni_token
  uni_token-StepPast lo none h = h
  uni_token-StepPast lo (some s) h = h

  named-Past :
      (lo : ℕ) (o : Option Scanner)
      → OnScanner b (Past b lo) o
      → OnScanner b (Past b lo) (named b o)
  unfolding named name_end
  named-Past lo none h = h
  named-Past lo (some s) h = h

  module _ (utf8decode : List ℕ → Bool × ℕ) (d : IsDecoder utf8decode) where
    snameuni-Past :
        (lo fuel : ℕ) (s : Scanner)
        → OnScanner b (Past b lo) (uni_loop b utf8decode fuel s)
        → OnScanner b (Past b lo) (snameuni b utf8decode fuel s)
    unfolding snameuni
    snameuni-Past lo fuel s h = named-Past lo (uni_loop b utf8decode fuel s) h

    sname-Past :
        (fuel : ℕ) (s : Scanner)
        → 1 ≤ s.inp
        → s.inp ≤ inend b
        → inend b - s.inp < fuel
        → OnScanner b (Past b s.inp) (sname b utf8decode fuel s)
    unfolding sname name_end
    sname-Past fuel s h le lt =
        let i = ident_end-Past b s h le in
        let s' = ident_end b s in
        elim (Bool-cases (leb rune_self (byte_at b s'.inp) && ltb s'.inp (inend b))) [
          | inr e ↦ rw e i
          | inl e ↦ rw e (
              widen b utf8decode d s.inp s'.inp (snameuni b utf8decode fuel s') i.0 (
                snameuni-Past s'.inp fuel s' (
                  uni_loop-Past b utf8decode d fuel s' (omega (arith, i.0)) i.1
                    (omega (arith, i.0)))))
        ]

    -- A name that starts with a rune takes the rune at least.
    rune_name-Past :
        (fuel : ℕ) (s : Scanner)
        → 1 ≤ s.inp
        → s.inp < inend b
        → leb rune_self (byte_at b s.inp) ≡ true
        → inend b - s.inp < fuel
        → OnScanner b (Past b (s.inp + 1)) (uni_loop b utf8decode fuel s)
    rune_name-Past zero s h le e lt = elim lt [ ]
    rune_name-Past (suc fuel) s h le e lt =
        let inside : ltb s.inp (inend b) ≡ true = lt→ltb s.inp (inend b) le in
        let high : ltb (byte_at b s.inp) rune_self ≡ false = ground arith in
        let p = uni_step-Past b utf8decode d s h le in
        let s' = uni_step b utf8decode s in
        rw (uni_loop_rune b utf8decode d fuel s inside high) (
          widen b utf8decode d (s.inp + 1) s'.inp (uni_loop b utf8decode fuel s') p.0
            (uni_loop-Past b utf8decode d fuel s' (omega (arith, p.0)) p.1 (omega (arith, p.0))))

    text_token-StepPast :
        (fuel : ℕ) (s : Scanner)
        → 1 ≤ s.inp
        → s.inp < inend b
        → inend b - s.inp < fuel
        → StepPast (s.inp + 1) (text_token b utf8decode fuel (byte_at b s.inp) (take_char b s))
    unfolding text_token take_char
    text_token-StepPast fuel s h lt f =
        let c = byte_at b s.inp in
        let s' = take_char b s in
        elim (Bool-cases (is_digit c)) [
          | inl e ↦ rw e (number_token-Past b s' (omega arith) (omega arith))
          | inr e ↦ elim (Bool-cases (starts_name c)) [
            | inl e' ↦
                rw (e, e')
                  (name_token-StepPast (s.inp + 1) (sname b utf8decode fuel s')
                    (sname-Past fuel s' (omega arith) (omega arith) (omega arith)))
            | inr e' ↦ elim (Bool-cases (leb rune_self c)) [
              | inl e'' ↦
                  rw (e, e', e'')
                    (uni_token-StepPast (s.inp + 1)
                      (snameuni b utf8decode fuel (record s' { inp = s'.inp - 1 }))
                      (snameuni-Past (s.inp + 1) fuel (record s' { inp = s'.inp - 1 })
                        (rw (back s.inp)
                          (rune_name-Past fuel (record s' { inp = s.inp }) h lt e'' f))))
              | inr e'' ↦
                  rw (e, e', e'')
                    (omega (arith, inp-bad_char c s'), omega (arith, inp-bad_char c s'))
            ]
          ]
        ]

    punct_or_text-StepPast :
        (o : Option Punct) (fuel : ℕ) (s : Scanner)
        → 1 ≤ s.inp
        → s.inp < inend b
        → inend b - s.inp < fuel
        → FitsIn (room (peek b (s.inp + 1)) (peek b (s.inp + 1 + 1))) o
        → StepPast (s.inp + 1) (punct_or_text b utf8decode o fuel (byte_at b s.inp) (take_char b s))
    unfolding punct_or_text take_char
    punct_or_text-StepPast none fuel s h lt f fits = text_token-StepPast fuel s h lt f
    punct_or_text-StepPast (some p) fuel s h lt f fits =
        punct_token-Past p (take_char b s) (omega (arith, peek-room b (s.inp + 1), fits))

    -- With a decoder that uses at least one byte and none past the end, before the end of the
    -- source and with more fuel than bytes left, every way through the switch of ScannerNext,
    -- comments too, takes at least one byte and stays inside the source, and no loop is left
    -- unfinished.
    pub read_token-StepPast :
        (fuel : ℕ) (s : Scanner)
        → 1 ≤ s.inp
        → s.inp < inend b
        → inend b - s.inp < fuel
        → StepPast (s.inp + 1) (read_token b utf8decode fuel s)
    unfolding read_token switch_char take_char consume_char
    read_token-StepPast fuel s h lt f =
        let c = byte_at b s.inp in
        let s' = consume_char b (take_char b s) in
        let line : Bool = c == 47 && peek b (s.inp + 1) == 47 in
        let block : Bool = c == 47 && peek b (s.inp + 1) == 42 in
        elim (Bool-cases line) [
          | inl e ↦
              let p = scomment-Past b s' (omega arith) (room_for s c 46 e) in
              rw e (omega (arith, p.0), p.1)
          | inr e ↦ elim (Bool-cases block) [
            | inl e' ↦
                let p = scomment_block-Past b s' (omega arith) (room_for s c 41 e') in
                rw (e, e') (omega (arith, p.0), p.1)
            | inr e' ↦
                let n = peek b (s.inp + 1) in
                let t = peek b (s.inp + 1 + 1) in
                rw (e, e') (punct_or_text-StepPast (punct c n t) fuel s h lt f (punct-FitsIn c n t))
          ]
        ]
