-- ===== src/Parse/Scan/Punct.antt =====
-- scan.c: the switch of ScannerNext over the operators and the punctuation. `n` is the byte that
-- may join the first one and `t` the byte after it; each is 0 where the source's test for the end
-- keeps it out.
use colang.Prelude.{
  ℕ, suc, ◌≤◌, ◌≡◌, Bool, true, false, Option, none, some, List, [], ◌∷◌, arith, if◌then◌else◌,
  ◌==◌, Bool-cases, inl, inr, ==_iff,
}
use colang.Parse.Token.{
  Tok, t_comma, t_semi, t_colon, t_plus, t_minus, t_star, t_slash, t_percent, t_shl, t_shr, t_and,
  t_pipe, t_hat, t_tilde, t_excalm, t_eq, t_neq, t_lt, t_leq, t_gt, t_plus_plus, t_minus_minus,
  t_assign, t_shl_assign, t_shr_assign, t_plus_assign, t_minus_assign, t_star_assign,
  t_slash_assign, t_percent_assign, t_and_assign, t_pipe_assign, t_tilde_assign, t_hat_assign,
  t_lparen, t_rparen, t_lbrace, t_rbrace, t_lbrack, t_rbrack, t_and_and, t_pipe_pipe, t_rarr, t_dot,
}

-- A token, the bytes that CONSUME_CHAR took, and the new insertSemi.
pub record Punct : Type 0 where
  pub tok : Tok
  pub extra : ℕ
  pub semi : Bool

abbrev alone : Tok → Bool → Punct
alone tok semi = record { tok = tok; extra = 0; semi = semi }

abbrev two : Tok → Bool → Punct
two tok semi = record { tok = tok; extra = 1; semi = semi }

-- `case` labels with their values, and the default.
unfoldable pub switch {ℓ} : {A : Type ℓ} → ℕ → List (ℕ × A) → A → A
switch c [] other = other
switch c ((k, v) ∷ cases) other = if c == k then v else switch c cases other

-- The cases of `<<` and `>>`.
unfoldable pub shifted : ℕ → Tok → Tok → Punct
shifted t assign plain =
    if t == 61
    then record { tok = assign; extra = 2; semi = false }
    else record { tok = plain; extra = 1; semi = false }

unfoldable pub joined : ℕ → List (ℕ × Punct) → Tok → Punct
joined n cases tok = switch n cases (alone tok false)

unfoldable pub punct : ℕ → ℕ → ℕ → Option Punct
punct c n t =
    switch c
      ((
        45,
        some (
            joined n
              ((62, two t_rarr false)
                ∷ (45, two t_minus_minus true)
                ∷ (61, two t_minus_assign false)
                ∷ [])
              t_minus),
      )
        ∷ (
          43,
          some (joined n ((43, two t_plus_plus true) ∷ (61, two t_plus_assign false) ∷ []) t_plus),
        )
        ∷ (
          38,
          some (joined n ((38, two t_and_and false) ∷ (61, two t_and_assign false) ∷ []) t_and),
        )
        ∷ (
          124,
          some
              (joined n ((124, two t_pipe_pipe false) ∷ (61, two t_pipe_assign false) ∷ []) t_pipe),
        )
        ∷ (47, some (joined n ((61, two t_slash_assign false) ∷ []) t_slash))
        ∷ (33, some (joined n ((61, two t_neq false) ∷ []) t_excalm))
        ∷ (37, some (joined n ((61, two t_percent_assign false) ∷ []) t_percent))
        ∷ (42, some (joined n ((61, two t_star_assign false) ∷ []) t_star))
        ∷ (61, some (joined n ((61, two t_eq false) ∷ []) t_assign))
        ∷ (94, some (joined n ((61, two t_hat_assign false) ∷ []) t_hat))
        ∷ (126, some (joined n ((61, two t_tilde_assign false) ∷ []) t_tilde))
        ∷ (
          60,
          some (joined n ((61, two t_leq false) ∷ (60, shifted t t_shl_assign t_shl) ∷ []) t_lt),
        )
        ∷ (
          62,
          some (joined n ((61, two t_leq false) ∷ (62, shifted t t_shr_assign t_shr) ∷ []) t_gt),
        )
        ∷ (40, some (alone t_lparen false))
        ∷ (41, some (alone t_rparen true))
        ∷ (123, some (alone t_lbrace false))
        ∷ (125, some (alone t_rbrace true))
        ∷ (91, some (alone t_lbrack false))
        ∷ (93, some (alone t_rbrack true))
        ∷ (44, some (alone t_comma false))
        ∷ (59, some (alone t_semi false))
        ∷ (58, some (alone t_colon false))
        ∷ (46, some (alone t_dot false))
        ∷ [])
      none

-- How many bytes may follow the first.
abbrev pub room : ℕ → ℕ → ℕ
room n t = if n == 0 then 0 else (if t == 0 then 1 else 2)

-- What a token takes beyond its first byte is there.
abbrev pub FitsIn : ℕ → Option Punct → Type 0
FitsIn r none = Unit
FitsIn r (some p) = p.extra ≤ r

-- Every value of a list of cases fits.
abbrev AllFit : ℕ → List (ℕ × Option Punct) → Type 0
AllFit r [] = Unit
AllFit r ((k, v) ∷ cases) = FitsIn r v × AllFit r cases

-- Every joined token fits, where the byte it joins is no 0.
abbrev Joins : ℕ → ℕ → List (ℕ × Punct) → Type 0
Joins n t [] = Unit
Joins n t ((k, v) ∷ cases) = (n ≡ k → v.extra ≤ room n t) × Joins n t cases

switch-FitsIn :
    (r c : ℕ) (cases : List (ℕ × Option Punct)) (other : Option Punct)
    → AllFit r cases
    → FitsIn r other
    → FitsIn r (switch c cases other)
unfolding switch
switch-FitsIn r c [] other h d = d
switch-FitsIn r c ((k, v) ∷ cases) other h d = elim (Bool-cases (c == k)) [
  | inl e ↦ rw e h.0
  | inr e ↦ rw e (switch-FitsIn r c cases other h.1 d)
]

joined-FitsIn :
    (n t : ℕ) (cases : List (ℕ × Punct)) (tok : Tok)
    → Joins n t cases
    → FitsIn (room n t) (some (joined n cases tok))
unfolding switch joined
joined-FitsIn n t [] tok h = omega arith
joined-FitsIn n t ((k, v) ∷ cases) tok h = elim (Bool-cases (n == k)) [
  | inl e ↦ rw e (h.0 ((==_iff n k).0 e))
  | inr e ↦ rw e (joined-FitsIn n t cases tok h.1)
]

two_fits : (n t k : ℕ) → n ≡ suc k → 1 ≤ room n t
two_fits n t k e = ground arith

shifted_fits : (n t k : ℕ) (a p : Tok) → n ≡ suc k → (shifted t a p).extra ≤ room n t
unfolding shifted
shifted_fits n t k a p e = ground arith

-- No token takes more bytes than follow its first one.
pub punct-FitsIn : (c n t : ℕ) → FitsIn (room n t) (punct c n t)
unfolding punct
punct-FitsIn c n t =
    let w : (k : ℕ) → n ≡ suc k → 1 ≤ room n t = two_fits n t in
    let nil : 0 ≤ room n t = omega arith in
    let j : (cases : List (ℕ × Punct)) (tok : Tok)
        → Joins n t cases
        → FitsIn (room n t) (some (joined n cases tok)) =
      joined-FitsIn n t in
    switch-FitsIn (room n t) c _ none
      (
        j _ t_minus (w 61, (w 44, (w 60, tt))),
        (
          j _ t_plus (w 42, (w 60, tt)),
          (
            j _ t_and (w 37, (w 60, tt)),
            (
              j _ t_pipe (w 123, (w 60, tt)),
              (
                j _ t_slash (w 60, tt),
                (
                  j _ t_excalm (w 60, tt),
                  (
                    j _ t_percent (w 60, tt),
                    (
                      j _ t_star (w 60, tt),
                      (
                        j _ t_assign (w 60, tt),
                        (
                          j _ t_hat (w 60, tt),
                          (
                            j _ t_tilde (w 60, tt),
                            (
                              j _ t_lt (w 60, (shifted_fits n t 59 t_shl_assign t_shl, tt)),
                              (
                                j _ t_gt (w 60, (shifted_fits n t 61 t_shr_assign t_shr, tt)),
                                (
                                  nil,
                                  (nil, (nil, (nil, (nil, (nil, (nil, (nil, (nil, (nil, tt))))))))),
                                ),
                              ),
                            ),
                          ),
                        ),
                      ),
                    ),
                  ),
                ),
              ),
            ),
          ),
        ),
      )
      tt
