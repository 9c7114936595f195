-- ===== src/Parse/Scan/Chars.antt =====
-- scan.c: the character flags, and the loops that run over bytes of one kind.
use colang.Prelude.{ℕ, suc, Bool, ◌&&◌, ◌||◌, List, [], ◌∷◌, if◌then◌else◌, ◌==◌, leb}

-- RuneSelf: the bytes below are characters of their own.
abbrev pub rune_self : ℕ
rune_self = 128

-- CH_IDENT, as `charflags` sets it: `+`, `-`, the digits, the letters and `_`.
unfoldable pub is_ident : ℕ → Bool
is_ident c =
    c == 43
    || c == 45
    || (leb 48 c && leb c 57)
    || (leb 65 c && leb c 90)
    || c == 95
    || (leb 97 c && leb c 122)

-- CH_WHITESPACE: tab, line feed, carriage return and space.
unfoldable pub is_whitespace : ℕ → Bool
is_whitespace c = c == 9 || c == 10 || c == 13 || c == 32

unfoldable pub is_digit : ℕ → Bool
is_digit c = leb 48 c && leb c 57

-- The first bytes of a name in ASCII: `$`, `_` and the letters.
unfoldable pub starts_name : ℕ → Bool
starts_name c = c == 36 || c == 95 || (leb 65 c && leb c 90) || (leb 97 c && leb c 122)

-- How far `while (inp < inend && p(*inp)) inp++` runs over the bytes that are left.
unfoldable pub run : (ℕ → Bool) → List ℕ → ℕ
run p [] = 0
run p (c ∷ rest) = let n = run p rest in if p c then suc n else 0
