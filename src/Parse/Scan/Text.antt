-- ===== src/Parse/Scan/Text.antt =====
-- scan.c: the tokens that have a text (names and numbers), and the comments.
use colang.Prelude.{
  ℕ, zero, suc, ◌+◌, ◌-◌, ◌%◌, ◌^◌, Bool, true, false, ◌&&◌, not, Option, none, some, List, [], ◌∷◌,
  ◌++◌, if◌then◌else◌, ◌==◌, ltb, leb, take,
}
use colang.Parse.Token.{t_int_lit, sym_langtok}
use colang.Parse.Scan.{Source, Scanner, invalid_utf8, rest_at, inend, byte_at, serr}
use colang.Parse.Scan.Chars.{is_ident, is_digit, rune_self, run}

module _ (b : Source) where
  -- The bytes between two pointers.
  abbrev pub slice : ℕ → ℕ → List ℕ
  slice p q = take (q - p) (rest_at b p)

  unfoldable pub comments_push_back : Scanner → Scanner
  comments_push_back s = record s {
    comments = s.comments ++ (record { ptr = s.tokstart; len = s.tokend - s.tokstart } ∷ []);
  }

  unfoldable pub keep_comment : Scanner → Scanner
  keep_comment s = if b.parse_comments then comments_push_back s else s

  unfoldable pub scomment : Scanner → Scanner
  scomment s =
      let stop = s.inp + run (λ c. not (c == 10)) (rest_at b s.inp) in
      keep_comment (record s { tokstart = s.tokstart + 2; inp = stop; tokend = stop })

  -- A byte inside a block comment.
  unfoldable pub block_step : ℕ → Scanner → Scanner
  block_step c s =
      if c == 10
      then record s { lineno = (s.lineno + 1) % 2 ^ 32; linestart = s.inp + 1; inp = s.inp + 1 }
      else record s { inp = s.inp + 1 }

  unfoldable pub block_end : Scanner → Scanner
  block_end s = keep_comment (record s { tokend = s.inp - 1; inp = s.inp + 1 })

  -- The loop of scomment_block, on the bytes left, with `prevc`.
  unfoldable pub block_loop : List ℕ → ℕ → Scanner → Scanner
  block_loop [] prevc s = s
  block_loop (c ∷ rest) prevc s = elim (c == 47 && prevc == 42) [
    | true ↦ block_end s
    | false ↦ block_loop rest c (block_step c s)
  ]

  unfoldable pub scomment_block : Scanner → Scanner
  scomment_block s = block_loop (rest_at b s.inp) 0 (record s { tokstart = s.tokstart + 2 })

  unfoldable pub snumber : Scanner → Scanner
  snumber s =
      let stop = s.inp + run is_digit (rest_at b s.inp) in
      record s { inp = stop; tokend = stop; tok = t_int_lit }

  -- The end of snameuni and of sname.
  unfoldable pub name_end : Scanner → Scanner
  name_end s =
      let text = slice s.tokstart s.inp in
      record s { tokend = s.inp; name = text; tok = sym_langtok text }

  unfoldable pub ident_end : Scanner → Scanner
  ident_end s = record s { inp = s.inp + run is_ident (rest_at b s.inp) }

  unfoldable pub named : Option Scanner → Option Scanner
  named none = none
  named (some s) = some (name_end s)

  -- utf8decode is the base library's: of the bytes left, whether they do not start with a
  -- character, and the number of bytes it used.
  module _ (utf8decode : List ℕ → Bool × ℕ) where
    -- The branch of snameuni's loop for the bytes that are no characters of their own.
    unfoldable pub uni_step : Scanner → Scanner
    uni_step s =
        let (bad, w) = utf8decode (rest_at b s.inp) in
        let s' : Scanner = record s { inp = s.inp + w } in
        if bad then serr b invalid_utf8 s' else s'

    -- The loop of snameuni.
    unfoldable pub uni_loop : ℕ → Scanner → Option Scanner
    uni_loop zero s = none
    uni_loop (suc fuel) s = elim (ltb s.inp (inend b)) [
      | false ↦ some s
      | true ↦ elim (ltb (byte_at b s.inp) rune_self) [
        | false ↦ uni_loop fuel (uni_step s)
        | true ↦ elim (is_ident (byte_at b s.inp)) [
          | false ↦ some s
          | true ↦ uni_loop fuel (record s { inp = s.inp + 1 })
        ]
      ]
    ]

    unfoldable pub snameuni : ℕ → Scanner → Option Scanner
    snameuni fuel s = named (uni_loop fuel s)

    unfoldable pub sname : ℕ → Scanner → Option Scanner
    sname fuel s =
        let s' = ident_end s in
        if leb rune_self (byte_at b s'.inp) && ltb s'.inp (inend b)
        then snameuni fuel s'
        else some (name_end s')
