-- ===== src/Parse/Scan/TokenText.antt =====
-- scan.c: the text of a token, its names, numbers, operators and comments, against the
-- indentations of the state.
use colang.Prelude.{
  ℕ, zero, suc, ◌+◌, ◌-◌, ◌≡◌, Bool, ◌&&◌, Option, none, some, List, [], ◌∷◌, ◌==◌, ltb, leb,
  Bool-cases, inl, inr,
}
use colang.Parse.Scan.{Indent, Source, Scanner, rest_at, inend, byte_at, serr}
use colang.Parse.Scan.Chars.{is_ident, is_digit, starts_name, rune_self}
use colang.Parse.Scan.Punct.{Punct, punct}
use colang.Parse.Scan.Text.{
  comments_push_back, keep_comment, scomment, block_step, block_end, block_loop, scomment_block,
  snumber, name_end, named, uni_step, uni_loop, snameuni, ident_end, sname,
}
use colang.Parse.Scan.Next.{
  Step, done, again, stuck, peek, take_char, consume_char, punct_token, number_token, bad_char,
  name_token, uni_token, text_token, punct_or_text, switch_char, read_token,
}
use colang.Parse.Scan.Layout.{IsChain, blocks}
use colang.Parse.Scan.Loops.{
  IsDecoder, block_loop_over, block_loop_stop, uni_loop_end, uni_loop_rune, uni_loop_stop,
  uni_loop_char,
}

-- The indentations of a state grow and `k` of them are blocks, in a form that sees no other field.
abbrev pub Nest : ℕ → Indent → List Indent → Type 0
Nest k i st = IsChain i st × (blocks i st ≡ k)

abbrev pub NestAt : ℕ → Scanner → Type 0
NestAt k s = Nest k s.indent s.indent_stack

abbrev NestOption : ℕ → Option Scanner → Type 0
NestOption k none = Unit
NestOption k (some s) = NestAt k s

abbrev pub NestStep : ℕ → Step → Type 0
NestStep k (done s) = NestAt k s
NestStep k (again s) = NestAt k s
NestStep k stuck = Unit

module _ (b : Source) (k : ℕ) where
  NestAt-keep_comment : (s : Scanner) → NestAt k s → NestAt k (keep_comment b s)
  unfolding keep_comment comments_push_back
  NestAt-keep_comment s h = elim (Bool-cases b.parse_comments) [ inl e ↦ rw e h | inr e ↦ rw e h ]

  NestAt-scomment : (s : Scanner) → NestAt k s → NestAt k (scomment b s)
  unfolding scomment
  NestAt-scomment s h = NestAt-keep_comment _ h

  NestAt-block_step : (c : ℕ) (s : Scanner) → NestAt k s → NestAt k (block_step b c s)
  unfolding block_step
  NestAt-block_step c s h = elim (Bool-cases (c == 10)) [ inl e ↦ rw e h | inr e ↦ rw e h ]

  NestAt-block_end : (s : Scanner) → NestAt k s → NestAt k (block_end b s)
  unfolding block_end
  NestAt-block_end s h = NestAt-keep_comment (record s { tokend = s.inp - 1; inp = s.inp + 1 }) h

  NestAt-block_loop :
      (xs : List ℕ) (prevc : ℕ) (s : Scanner) → NestAt k s → NestAt k (block_loop b xs prevc s)
  unfolding block_loop
  NestAt-block_loop [] prevc s h = h
  NestAt-block_loop (c ∷ rest) prevc s h = elim (Bool-cases (c == 47 && prevc == 42)) [
    | inl e ↦ rw (block_loop_stop b c rest prevc s e) (NestAt-block_end s h)
    | inr e ↦
        rw (block_loop_over b c rest prevc s e)
          (NestAt-block_loop rest c (block_step b c s) (NestAt-block_step c s h))
  ]

  NestAt-scomment_block : (s : Scanner) → NestAt k s → NestAt k (scomment_block b s)
  unfolding scomment_block
  NestAt-scomment_block s h =
      NestAt-block_loop (rest_at b s.inp) 0 (record s { tokstart = s.tokstart + 2 }) h

  NestOption-named : (o : Option Scanner) → NestOption k o → NestOption k (named b o)
  unfolding named name_end
  NestOption-named none h = h
  NestOption-named (some s) h = h

  NestStep-name_token : (o : Option Scanner) → NestOption k o → NestStep k (name_token b o)
  unfolding name_token
  NestStep-name_token none h = h
  NestStep-name_token (some s) h = h

  NestStep-uni_token : (o : Option Scanner) → NestOption k o → NestStep k (uni_token b o)
  unfolding uni_token
  NestStep-uni_token none h = h
  NestStep-uni_token (some s) h = h

  module _ (utf8decode : List ℕ → Bool × ℕ) (d : IsDecoder utf8decode) where
    NestAt-uni_step : (s : Scanner) → NestAt k s → NestAt k (uni_step b utf8decode s)
    unfolding uni_step serr
    NestAt-uni_step s h =
        let (bad, w) = utf8decode (rest_at b s.inp) in
        elim (Bool-cases bad) [ inl e ↦ rw e h | inr e ↦ rw e h ]

    NestOption-uni_loop :
        (fuel : ℕ) (s : Scanner) → NestAt k s → NestOption k (uni_loop b utf8decode fuel s)
    unfolding uni_loop
    NestOption-uni_loop zero s h = tt
    NestOption-uni_loop (suc fuel) s h = elim (Bool-cases (ltb s.inp (inend b))) [
      | inr e ↦ rw (uni_loop_end b utf8decode d fuel s e) h
      | inl e ↦ elim (Bool-cases (ltb (byte_at b s.inp) rune_self)) [
        | inr e' ↦
            rw (uni_loop_rune b utf8decode d fuel s e e')
              (NestOption-uni_loop fuel (uni_step b utf8decode s) (NestAt-uni_step s h))
        | inl e' ↦ elim (Bool-cases (is_ident (byte_at b s.inp))) [
          | inr e'' ↦ rw (uni_loop_stop b utf8decode d fuel s e e' e'') h
          | inl e'' ↦
              rw (uni_loop_char b utf8decode d fuel s e e' e'')
                (NestOption-uni_loop fuel (record s { inp = s.inp + 1 }) h)
        ]
      ]
    ]

    NestOption-snameuni :
        (fuel : ℕ) (s : Scanner) → NestAt k s → NestOption k (snameuni b utf8decode fuel s)
    unfolding snameuni
    NestOption-snameuni fuel s h =
        NestOption-named (uni_loop b utf8decode fuel s) (NestOption-uni_loop fuel s h)

    NestOption-sname :
        (fuel : ℕ) (s : Scanner) → NestAt k s → NestOption k (sname b utf8decode fuel s)
    unfolding sname ident_end name_end
    NestOption-sname fuel s h =
        let s' = ident_end b s in
        elim (Bool-cases (leb rune_self (byte_at b s'.inp) && ltb s'.inp (inend b))) [
          | inl e ↦ rw e (NestOption-snameuni fuel s' h)
          | inr e ↦ rw e h
        ]

    NestStep-text_token :
        (fuel c : ℕ) (s : Scanner) → NestAt k s → NestStep k (text_token b utf8decode fuel c s)
    unfolding text_token number_token snumber bad_char serr
    NestStep-text_token fuel c s h = elim (Bool-cases (is_digit c)) [
      | inl e ↦ rw e h
      | inr e ↦ elim (Bool-cases (starts_name c)) [
        | inl e' ↦
            rw (e, e') (NestStep-name_token (sname b utf8decode fuel s) (NestOption-sname fuel s h))
        | inr e' ↦ elim (Bool-cases (leb rune_self c)) [
          | inl e'' ↦
              let s' : Scanner = record s { inp = s.inp - 1 } in
              rw (e, e', e'')
                (NestStep-uni_token (snameuni b utf8decode fuel s') (NestOption-snameuni fuel s' h))
          | inr e'' ↦ rw (e, e', e'') h
        ]
      ]
    ]

    NestStep-punct_or_text :
        (o : Option Punct) (fuel c : ℕ) (s : Scanner)
        → NestAt k s
        → NestStep k (punct_or_text b utf8decode o fuel c s)
    unfolding punct_or_text punct_token
    NestStep-punct_or_text none fuel c s h = NestStep-text_token fuel c s h
    NestStep-punct_or_text (some p) fuel c s h = h

    pub NestStep-read_token :
        (fuel : ℕ) (s : Scanner) → NestAt k s → NestStep k (read_token b utf8decode fuel s)
    unfolding read_token switch_char take_char consume_char
    NestStep-read_token fuel s h =
        let c = byte_at b s.inp in
        let s' = consume_char b (take_char b s) in
        let line : Bool = c == 47 && peek b (s.inp + 1) == 47 in
        let block : Bool = c == 47 && peek b (s.inp + 1) == 42 in
        let p : Option Punct = punct c (peek b (s.inp + 1)) (peek b (s.inp + 1 + 1)) in
        elim (Bool-cases line) [
          | inl e ↦ rw e (NestAt-scomment s' h)
          | inr e ↦ elim (Bool-cases block) [
            | inl e' ↦ rw (e, e') (NestAt-scomment_block s' h)
            | inr e' ↦ rw (e, e') (NestStep-punct_or_text p fuel c (take_char b s) h)
          ]
        ]
