-- ===== src/Parse/TypeCode.antt =====
-- src/co/types.h: the type codes with their encodings and flags.
use colang.Prelude.{ℕ, ◌+◌, ◌/◌, ◌%◌, ◌^◌, Bool, not, ◌==◌}

pub data TypeCode : Type 0 where
  tc_bool tc_i8 tc_u8 tc_i16 tc_u16 tc_i32 tc_u32 tc_i64 tc_u64 tc_f32 tc_f64 tc_int tc_uint :
      TypeCode
  tc_num_end tc_str tc_nil tc_auto tc_concrete_end : TypeCode
  tc_ref tc_fun tc_array tc_struct tc_struct_end tc_tuple tc_tuple_end : TypeCode
  tc_ideal tc_param1 tc_param2 : TypeCode

-- The encoding character; the sentinels have 0.
unfoldable pub type_code_encoding : TypeCode → ℕ
type_code_encoding tc_bool = 98
type_code_encoding tc_i8 = 49
type_code_encoding tc_u8 = 50
type_code_encoding tc_i16 = 51
type_code_encoding tc_u16 = 52
type_code_encoding tc_i32 = 53
type_code_encoding tc_u32 = 54
type_code_encoding tc_i64 = 55
type_code_encoding tc_u64 = 56
type_code_encoding tc_f32 = 102
type_code_encoding tc_f64 = 70
type_code_encoding tc_int = 105
type_code_encoding tc_uint = 117
type_code_encoding tc_num_end = 0
type_code_encoding tc_str = 115
type_code_encoding tc_nil = 48
type_code_encoding tc_auto = 97
type_code_encoding tc_concrete_end = 0
type_code_encoding tc_ref = 38
type_code_encoding tc_fun = 94
type_code_encoding tc_array = 91
type_code_encoding tc_struct = 123
type_code_encoding tc_struct_end = 125
type_code_encoding tc_tuple = 40
type_code_encoding tc_tuple_end = 41
type_code_encoding tc_ideal = 42
type_code_encoding tc_param1 = 80
type_code_encoding tc_param2 = 80

-- TypeCodeFlagInt, TypeCodeFlagFloat and TypeCodeFlagSigned; the four lowest bits are the size.
abbrev flag_int : ℕ
flag_int = 2 ^ 4

abbrev flag_float : ℕ
flag_float = 2 ^ 5

abbrev flag_signed : ℕ
flag_signed = 2 ^ 6

unfoldable pub type_code_flags : TypeCode → ℕ
type_code_flags tc_i8 = 1 + flag_int + flag_signed
type_code_flags tc_u8 = 1 + flag_int
type_code_flags tc_i16 = 2 + flag_int + flag_signed
type_code_flags tc_u16 = 2 + flag_int
type_code_flags tc_i32 = 4 + flag_int + flag_signed
type_code_flags tc_u32 = 4 + flag_int
type_code_flags tc_i64 = 8 + flag_int + flag_signed
type_code_flags tc_u64 = 8 + flag_int
type_code_flags tc_f32 = 4 + flag_float + flag_signed
type_code_flags tc_f64 = 8 + flag_float + flag_signed
type_code_flags tc_int = flag_int + flag_signed
type_code_flags tc_uint = flag_int
type_code_flags _ = 0

abbrev has_flag : ℕ → ℕ → Bool
has_flag flags flag = not (flags / flag % 2 == 0)

unfoldable pub type_code_is_int : TypeCode → Bool
type_code_is_int t = has_flag (type_code_flags t) flag_int

unfoldable pub type_code_is_float : TypeCode → Bool
type_code_is_float t = has_flag (type_code_flags t) flag_float

unfoldable pub type_code_is_signed : TypeCode → Bool
type_code_is_signed t = has_flag (type_code_flags t) flag_signed
