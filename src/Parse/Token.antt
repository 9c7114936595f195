-- ===== src/Parse/Token.antt =====
-- src/co/parse/parse.h: the tokens. src/co/parse/universe.h: sym_langtok, the keywords among the
-- names, which it reads from the flags that the predefined symbols of the keywords have.
use colang.Prelude.{ℕ, Bool, true, false, List, [], ◌∷◌, if◌then◌else◌, ◌==◌, ◌&&◌}

pub data Tok : Type 0 where
  t_none t_comma t_semi t_colon : Tok
  t_plus t_minus t_star t_slash t_percent t_shl t_shr t_and t_pipe t_hat t_tilde t_excalm : Tok
  t_eq t_neq t_lt t_leq t_gt t_geq : Tok
  t_plus_plus t_minus_minus : Tok
  t_assign t_shl_assign t_shr_assign t_plus_assign t_minus_assign t_star_assign : Tok
  t_slash_assign t_percent_assign t_and_assign t_pipe_assign t_tilde_assign t_hat_assign : Tok
  t_lparen t_rparen t_lbrace t_rbrace t_lbrack t_rbrack t_and_and t_pipe_pipe t_rarr t_dot : Tok
  t_id t_int_lit t_float_lit : Tok
  t_as t_auto t_break t_continue t_defer t_else t_enum t_for t_fun t_if t_import t_in : Tok
  t_nil t_return t_struct t_switch t_type t_const t_mut t_var : Tok

abbrev pub same_bytes : List ℕ → List ℕ → Bool
same_bytes [] [] = true
same_bytes [] (y ∷ ys) = false
same_bytes (x ∷ xs) [] = false
same_bytes (x ∷ xs) (y ∷ ys) = x == y && same_bytes xs ys

-- TOKEN_KEYWORDS: the bytes of each keyword.
abbrev keywords : List (List ℕ × Tok)
keywords =
    (97 ∷ 115 ∷ [], t_as)
    ∷ (97 ∷ 117 ∷ 116 ∷ 111 ∷ [], t_auto)
    ∷ (98 ∷ 114 ∷ 101 ∷ 97 ∷ 107 ∷ [], t_break)
    ∷ (99 ∷ 111 ∷ 110 ∷ 116 ∷ 105 ∷ 110 ∷ 117 ∷ 101 ∷ [], t_continue)
    ∷ (100 ∷ 101 ∷ 102 ∷ 101 ∷ 114 ∷ [], t_defer)
    ∷ (101 ∷ 108 ∷ 115 ∷ 101 ∷ [], t_else)
    ∷ (101 ∷ 110 ∷ 117 ∷ 109 ∷ [], t_enum)
    ∷ (102 ∷ 111 ∷ 114 ∷ [], t_for)
    ∷ (102 ∷ 117 ∷ 110 ∷ [], t_fun)
    ∷ (105 ∷ 102 ∷ [], t_if)
    ∷ (105 ∷ 109 ∷ 112 ∷ 111 ∷ 114 ∷ 116 ∷ [], t_import)
    ∷ (105 ∷ 110 ∷ [], t_in)
    ∷ (110 ∷ 105 ∷ 108 ∷ [], t_nil)
    ∷ (114 ∷ 101 ∷ 116 ∷ 117 ∷ 114 ∷ 110 ∷ [], t_return)
    ∷ (115 ∷ 116 ∷ 114 ∷ 117 ∷ 99 ∷ 116 ∷ [], t_struct)
    ∷ (115 ∷ 119 ∷ 105 ∷ 116 ∷ 99 ∷ 104 ∷ [], t_switch)
    ∷ (116 ∷ 121 ∷ 112 ∷ 101 ∷ [], t_type)
    ∷ (99 ∷ 111 ∷ 110 ∷ 115 ∷ 116 ∷ [], t_const)
    ∷ (109 ∷ 117 ∷ 116 ∷ [], t_mut)
    ∷ (118 ∷ 97 ∷ 114 ∷ [], t_var)
    ∷ []

abbrev keyword_in : List (List ℕ × Tok) → List ℕ → Tok
keyword_in [] name = t_id
keyword_in ((word, tok) ∷ rest) name =
    let others = keyword_in rest name in if same_bytes word name then tok else others

-- A name is its bytes: the pool has one symbol for them.
unfoldable pub sym_langtok : List ℕ → Tok
sym_langtok name = keyword_in keywords name

-- The names after which the end of a line is a semicolon.
unfoldable pub ends_statement : Tok → Bool
ends_statement t_id = true
ends_statement t_break = true
ends_statement t_continue = true
ends_statement t_return = true
ends_statement t_nil = true
ends_statement t_struct = true
ends_statement t_auto = true
ends_statement _ = false
