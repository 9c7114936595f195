-- ===== src/Parse/Convlit.antt =====
-- src/co/parse/convlit.c: the conversion of a constant to a basic type.
use colang.Prelude.{
  ℕ, ◌-◌, ◌^◌, ◌<◌, ◌≡◌, Bool, true, false, ◌&&◌, ◌||◌, Option, none, some, arith, if◌then◌else◌,
  ltb, leb,
}
use colang.Parse.TypeCode.{
  TypeCode, tc_bool, tc_i8, tc_u8, tc_i16, tc_u16, tc_i32, tc_u32, tc_i64, tc_u64, tc_f32, tc_f64,
  tc_int, tc_uint, tc_num_end, tc_str, tc_nil, tc_auto, tc_concrete_end, tc_ref, tc_fun, tc_array,
  tc_struct, tc_struct_end, tc_tuple, tc_tuple_end, tc_ideal, tc_param1, tc_param2, type_code_flags,
  type_code_is_int, type_code_is_float,
}

pub data CType : Type 0 where
  ctype_invalid ctype_int ctype_rune ctype_float ctype_str ctype_bool ctype_nil : CType

-- The part of NVal that the conversion to an integer reads: `i` is the 64 bits.
pub record NVal : Type 0 where
  pub ct : CType
  pub i : ℕ

-- `min_intval`, without its sign. Past the numeric types the tables have no entry; the model has 0.
unfoldable pub min_intval : TypeCode → ℕ
min_intval tc_i8 = 2 ^ 7
min_intval tc_i16 = 2 ^ 15
min_intval tc_i32 = 2 ^ 31
min_intval tc_i64 = 2 ^ 63
min_intval tc_int = 2 ^ 31
min_intval _ = 0

unfoldable pub max_intval : TypeCode → ℕ
max_intval tc_bool = 1
max_intval tc_i8 = 2 ^ 7 - 1
max_intval tc_u8 = 2 ^ 8 - 1
max_intval tc_i16 = 2 ^ 15 - 1
max_intval tc_u16 = 2 ^ 16 - 1
max_intval tc_i32 = 2 ^ 31 - 1
max_intval tc_u32 = 2 ^ 32 - 1
max_intval tc_i64 = 2 ^ 63 - 1
max_intval tc_u64 = 2 ^ 64 - 1
max_intval tc_int = 2 ^ 31 - 1
max_intval tc_uint = 2 ^ 32 - 1
max_intval _ = 0

-- `(i64)i < -m`.
unfoldable pub i64_below : ℕ → ℕ → Bool
i64_below i m = leb (2 ^ 63) i && ltb m (2 ^ 64 - i)

unfoldable pub overflows : TypeCode → ℕ → Bool
overflows tc i = i64_below i (min_intval tc) || ltb (max_intval tc) i

-- `none` is the panic after the message on an overflow, and the failed assertion on CType_INVALID.
unfoldable pub convval_to_int : NVal → TypeCode → Option Bool
convval_to_int v tc = elim v.ct [
  | ctype_int ↦ if overflows tc v.i then none else some true
  | ctype_invalid ↦ none
  | ctype_rune ↦ some false
  | ctype_float ↦ some false
  | ctype_str ↦ some false
  | ctype_bool ↦ some false
  | ctype_nil ↦ some false
]

unfoldable pub convval_to_float : NVal → TypeCode → Option Bool
convval_to_float v tc = some false

unfoldable pub convval : NVal → TypeCode → Option Bool
convval v tc =
    if type_code_is_int tc
    then convval_to_int v tc
    else (if type_code_is_float tc then convval_to_float v tc else some false)

-- The largest constant that a conversion to a type accepts.
unfoldable pub largest : TypeCode → ℕ
largest tc = if leb (max_intval tc) (2 ^ 63 - 1) then max_intval tc else 2 ^ 63 - 1

-- An integer constant of 64 bits passes the conversion to an integer type just when it is at most
-- the type's maximum and at most 2 ^ 63 - 1; otherwise the compiler stops. So no constant with the
-- highest bit passes, as a negative one has, whatever the type's minimum is.
pub convval-largest :
    (tc : TypeCode) (i : ℕ)
    → type_code_is_int tc ≡ true
    → i < 2 ^ 64
    → convval (record { ct = ctype_int; i = i }) tc
      ≡ (if leb i (largest tc) then some true else none)
unfolding convval convval_to_int overflows i64_below largest min_intval max_intval type_code_is_int
    type_code_flags
convval-largest tc_bool i h lt = absurd (ground arith)
convval-largest tc_i8 i h lt = ground arith
convval-largest tc_u8 i h lt = ground arith
convval-largest tc_i16 i h lt = ground arith
convval-largest tc_u16 i h lt = ground arith
convval-largest tc_i32 i h lt = ground arith
convval-largest tc_u32 i h lt = ground arith
convval-largest tc_i64 i h lt = ground arith
convval-largest tc_u64 i h lt = ground arith
convval-largest tc_f32 i h lt = absurd (ground arith)
convval-largest tc_f64 i h lt = absurd (ground arith)
convval-largest tc_int i h lt = ground arith
convval-largest tc_uint i h lt = ground arith
convval-largest tc_num_end i h lt = absurd (ground arith)
convval-largest tc_str i h lt = absurd (ground arith)
convval-largest tc_nil i h lt = absurd (ground arith)
convval-largest tc_auto i h lt = absurd (ground arith)
convval-largest tc_concrete_end i h lt = absurd (ground arith)
convval-largest tc_ref i h lt = absurd (ground arith)
convval-largest tc_fun i h lt = absurd (ground arith)
convval-largest tc_array i h lt = absurd (ground arith)
convval-largest tc_struct i h lt = absurd (ground arith)
convval-largest tc_struct_end i h lt = absurd (ground arith)
convval-largest tc_tuple i h lt = absurd (ground arith)
convval-largest tc_tuple_end i h lt = absurd (ground arith)
convval-largest tc_ideal i h lt = absurd (ground arith)
convval-largest tc_param1 i h lt = absurd (ground arith)
convval-largest tc_param2 i h lt = absurd (ground arith)
