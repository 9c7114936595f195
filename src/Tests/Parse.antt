-- ===== src/Tests/Parse.antt =====
-- The scanner, the type identifiers and the constants on small inputs.
use colang.Prelude.{
  ℕ, zero, suc, ◌≤◌, ◌<◌, ◌≡◌, refl, Bool, true, false, none, some, List, [], ◌∷◌, arith, length,
}
use colang.Parse.Scan.{Source, Scanner, scanner_init, before_token}
use colang.Parse.Scan.Next.{scanner_next}
use colang.Parse.Scan.Progress.{Past}
use colang.Parse.Scan.Layout.{Level, StageLevel}
use colang.Parse.Scan.Braces.{before_token-StageLevel}
use colang.Parse.Scan.Loops.{IsDecoder, OnScanner}
use colang.Parse.Scan.Total.{scanner_next-Past}
use colang.Parse.Scan.Nesting.{NestedAt, scanner_next-NestedAt}
use colang.Parse.TypeCode.{tc_int, tc_i8, type_code_flags, type_code_is_int}
use colang.Parse.TypeId.{Node, basic_type, array_type}
use colang.Parse.Convlit.{ctype_int, convval, largest, max_intval, convval-largest}

-- One byte for a character.
abbrev latin : List ℕ → Bool × ℕ
latin [] = (true, 0)
latin (c ∷ rest) = (false, 1)

latin_uses : (xs : List ℕ) → 0 < length xs → 0 < (latin xs).1
latin_uses [] h = h
latin_uses (c ∷ rest) h = omega arith

latin_stays : (xs : List ℕ) → (latin xs).1 ≤ length xs
latin_stays [] = omega arith
latin_stays (c ∷ rest) = omega arith

latin-IsDecoder : IsDecoder latin
latin-IsDecoder = record { uses = latin_uses; stays = latin_stays }

-- "fun a", and on the next line, two spaces in, "b >= 12 //c".
abbrev small_source : Source
small_source = record {
  body =
      102 ∷ 117 ∷ 110 ∷ 32 ∷ 97 ∷ 10 ∷ 32 ∷ 32 ∷ 98 ∷ 32 ∷ 62 ∷ 61 ∷ 32 ∷ 49 ∷ 50 ∷ 32 ∷ 47 ∷ 47
      ∷ 99 ∷ 10 ∷ [];
  srcposorigin = 1;
  parse_comments = true;
  debug = true;
}

-- At the line feed, where the name `a` has left a semicolon due.
abbrev at_line_end : Scanner
at_line_end = record scanner_init { inp = 6; insert_semi = true }

scanner_next-Past_example :
    OnScanner small_source (Past small_source 6) (scanner_next small_source latin 40 at_line_end)
scanner_next-Past_example =
    scanner_next-Past small_source latin latin-IsDecoder 40 at_line_end (omega arith) (omega arith)
      (omega arith)

at_line_end-Level : Level 0 at_line_end
at_line_end-Level = record { chain = (refl, refl); count = refl }

before_token-StageLevel_example : StageLevel 0 (before_token small_source at_line_end)
before_token-StageLevel_example =
    before_token-StageLevel small_source 0 at_line_end at_line_end-Level

scanner_next-NestedAt_example :
    OnScanner small_source
      (NestedAt small_source 0 latin latin-IsDecoder)
      (scanner_next small_source latin 40 at_line_end)
scanner_next-NestedAt_example =
    scanner_next-NestedAt small_source 0 latin latin-IsDecoder 40 at_line_end (omega arith)
      (omega arith) (omega arith) at_line_end-Level

abbrev at_digit : Scanner
at_digit = record scanner_init { inp = 15 }

-- A text of as many `1`s as the number says.
abbrev tally : ℕ → List ℕ
tally zero = []
tally (suc n) = 49 ∷ tally n

-- `[2]int` twice, once with its identifier.
abbrev new_array : Node
new_array = array_type none 2 (basic_type tc_int)

abbrev named_array : Node
named_array = array_type (some (91 ∷ 49 ∷ 49 ∷ 120 ∷ 105 ∷ [])) 2 (basic_type tc_int)

int_code : type_code_is_int tc_i8 ≡ true
unfolding type_code_is_int type_code_flags
int_code = refl

convval-largest_example : convval (record { ct = ctype_int; i = 127 }) tc_i8 ≡ some true
unfolding largest max_intval
convval-largest_example = convval-largest tc_i8 127 int_code (omega arith)
