-- ===== src/Util/Array/Search.antt =====
-- ArrayIndexOf and ArrayLastIndexOf.
use colang.Prelude.{
  ℕ, zero, suc, ◌+◌, ◌≤◌, ◌<◌, ◌≡◌, ◌≢◌, false, Option, some, none, arith, ◌==◌, ==_iff, get_or,
  Bool-cases, inl, inr,
}
use colang.Util.Array.{Array, index_from, array_index_of, last_index_below, array_last_index_of}
use colang.Util.Array.Growth.{entry_at}

-- An index at which `entry` stands, the first or the last one of the array; or there is none.
abbrev pub IsFirst : Array → ℕ → Option ℕ → Type 0
IsFirst a entry none = (j : ℕ) → j < a.len → entry_at a j ≢ entry
IsFirst a entry (some i) =
    (i < a.len) × (entry_at a i ≡ entry) × ((j : ℕ) → j < i → entry_at a j ≢ entry)

abbrev pub IsLast : Array → ℕ → Option ℕ → Type 0
IsLast a entry none = (j : ℕ) → j < a.len → entry_at a j ≢ entry
IsLast a entry (some i) =
    (i < a.len) × (entry_at a i ≡ entry) × ((j : ℕ) → i < j → j < a.len → entry_at a j ≢ entry)

-- The entry at `i` is another one, too.
still_none :
    (a : Array) (entry i j : ℕ)
    → entry_at a i == entry ≡ false
    → (j < i → entry_at a j ≢ entry)
    → j < i + 1
    → entry_at a j ≢ entry
still_none a entry i j other before lt e = ground arith

still_none_above :
    (a : Array) (entry i j : ℕ)
    → entry_at a i == entry ≡ false
    → (suc i ≤ j → j < a.len → entry_at a j ≢ entry)
    → i ≤ j
    → j < a.len
    → entry_at a j ≢ entry
still_none_above a entry i j other above le lt e = ground arith

index_from_lem :
    (a : Array) (entry left i : ℕ)
    → i + left ≡ a.len
    → ((j : ℕ) → j < i → entry_at a j ≢ entry)
    → IsFirst a entry (index_from a.v left i entry)
unfolding index_from
index_from_lem a entry zero i fit none_yet = λ j lt. none_yet j (omega arith)
index_from_lem a entry (suc left) i fit none_yet = elim (Bool-cases (get_or a.v i 0 == entry)) [
  | inl here ↦ rw here (omega arith, (==_iff _ _).0 here, none_yet)
  | inr other ↦ rw other (
      index_from_lem a entry left (i + 1) (omega arith)
        (λ j lt. still_none a entry i j other (none_yet j) lt))
]

-- ArrayIndexOf returns the first index of the entry, or none where the entry is not in the array.
pub array_index_of-IsFirst : (a : Array) (entry : ℕ) → IsFirst a entry (array_index_of a entry)
unfolding array_index_of
array_index_of-IsFirst a entry =
    index_from_lem a entry a.len 0 (omega arith) (λ j lt. absurd (omega arith))

last_index_lem :
    (a : Array) (entry i : ℕ)
    → i ≤ a.len
    → ((j : ℕ) → i ≤ j → j < a.len → entry_at a j ≢ entry)
    → IsLast a entry (last_index_below a.v i entry)
unfolding last_index_below
last_index_lem a entry zero fit none_yet = λ j lt. none_yet j (omega arith) lt
last_index_lem a entry (suc i) fit none_yet = elim (Bool-cases (get_or a.v i 0 == entry)) [
  | inl here ↦ rw here (omega arith, (==_iff _ _).0 here, (λ j lt. none_yet j (omega arith)))
  | inr other ↦ rw other (
      last_index_lem a entry i (omega arith)
        (λ j le lt. still_none_above a entry i j other (none_yet j) le lt))
]

-- ArrayLastIndexOf returns the last index of the entry, or none where the entry is not in the
-- array.
pub array_last_index_of-IsLast :
    (a : Array) (entry : ℕ) → IsLast a entry (array_last_index_of a entry)
unfolding array_last_index_of
array_last_index_of-IsLast a entry =
    last_index_lem a entry a.len (omega arith) (λ j le lt. absurd (omega arith))
