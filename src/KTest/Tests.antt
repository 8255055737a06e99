-- ===== src/KTest/Tests.antt =====
-- A small test case written and read, and the theorems at concrete files.
use learch.Prelude.{◌-◌, ◌^◌, ◌<◌, ◌≡◌, refl, ◌↔◌, inl, false, [], ◌∷◌, ◌++◌, length, arith}
use learch.KTest.{
  Bytes, ok, fault, KTest, KTestObject, from_file, to_file, read_string, read_uint32, c_string,
}
use learch.KTest.Codec.{
  IsWritable, encode, encode_args, encode_string, encode_objects, encode_object,
}
use learch.KTest.RoundTrip.{to_file-encode, from_file-encode}
use learch.KTest.Errors.{is_ok, to_file-empty, read_string-fault, IsRead, from_file-IsRead}

abbrev object : KTestObject
object = record { name = b'x' ∷ []; num_bytes = 2; bytes = 0 ∷ 255 ∷ [] }

abbrev case : KTest
case = record {
  version = 3;
  num_args = 1;
  args = (b'a' ∷ b'b' ∷ []) ∷ [];
  sym_argvs = 0;
  sym_argv_len = 0;
  num_objects = 1;
  objects = object ∷ [];
}

-- A program started with one empty argument.
abbrev empty_argument : KTest
empty_argument = record case { args = [] ∷ [] }

case-IsWritable : IsWritable case
case-IsWritable = record {
  current = refl;
  args_counted = refl;
  args_few = omega arith;
  args_named = (
    record {
      no_zero = (omega arith, (omega arith, tt));
      filled = omega arith;
      short = omega arith;
    },
    tt,
  );
  argvs_small = omega arith;
  argv_len_small = omega arith;
  objects_counted = refl;
  objects_few = omega arith;
  objects_valid = (
    record {
      named = record { no_zero = (omega arith, tt); filled = omega arith; short = omega arith };
      filled = omega arith;
      counted = refl;
      short = omega arith;
    },
    tt,
  );
}

case_bytes : length (encode case) ≡ 42
unfolding encode encode_args encode_string encode_objects encode_object
case_bytes = refl

to_file-encode_example : to_file case 100 ≡ ok (encode case)
to_file-encode_example = to_file-encode case 100 case-IsWritable (omega (arith, case_bytes))

from_file-encode_example : from_file (encode case ++ []) ≡ ok case
from_file-encode_example = from_file-encode case [] case-IsWritable

c_string_nothing : c_string [] ≡ []
unfolding c_string
c_string_nothing = refl

to_file-empty_example : is_ok (to_file empty_argument 1000) ≡ false
to_file-empty_example = to_file-empty empty_argument 1000 (inl (inl c_string_nothing))

read_string-fault_example : (read_string (255 ∷ 255 ∷ 255 ∷ 255 ∷ 7 ∷ []) ≡ fault) ↔ (
    (g : Bytes) × (read_uint32 (255 ∷ 255 ∷ 255 ∷ 255 ∷ 7 ∷ []) ≡ ok (2 ^ 32 - 1, g))
    × (0 < length g))
read_string-fault_example = read_string-fault (255 ∷ 255 ∷ 255 ∷ 255 ∷ 7 ∷ [])

from_file-IsRead_example : IsRead case
from_file-IsRead_example =
    from_file-IsRead (encode case ++ []) case (from_file-encode case [] case-IsWritable)
