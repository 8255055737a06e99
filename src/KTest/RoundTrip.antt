-- ===== src/KTest/RoundTrip.antt =====
-- Writing a test case and reading it back.
use mathlib.Core.List.{append_assoc, append-nil}
use native.Mathlib.Nat.{mod-eq_of_lt}
use learch.Prelude.{
  ℕ, zero, suc, ◌+◌, ◌^◌, ◌≤◌, ◌<◌, ◌≡◌, refl, sym, ap, List, [], ◌∷◌, ◌++◌, ltb, if◌then◌else◌,
  length, take, arith,
}
use learch.KTest.{
  Bytes, Run, ok, fault, ◌>>=◌, KTestObject, KTest, ktest_magic, ktest_version, Sink, uint32_bytes,
  read_string, check_header, read_args, read_object, read_objects, read_sym_args, from_file,
  write_block, write_uint32, write_string, write_args, write_object, write_objects, write_ktest,
  to_file,
}
use learch.KTest.Codec.{
  IsName, IsObject, All, IsWritable, encode_string, encode_args, encode_object, encode_objects,
  encode, read_uint32-uint32_bytes, read_block-append, c_string_self, take_all, Writes,
  write_block-Writes, >>=-Writes,
}

write_uint32-Writes : (v : ℕ) → Writes (write_uint32 v) (uint32_bytes v)
unfolding write_uint32
write_uint32-Writes v = write_block-Writes (uint32_bytes v) (omega arith)

write_nothing : Writes ok []
write_nothing s h = ground (arith, append-nil s.written)

write_string-Writes : (a : Bytes) → IsName a → Writes (write_string a) (encode_string a)
unfolding write_string encode_string
write_string-Writes a n =
    rw
      (c_string_self a n.no_zero, mod-eq_of_lt {n = length a} {m = 2 ^ 32} (omega (arith, n.short)))
      (>>=-Writes (write_uint32 (length a)) (write_block a) (uint32_bytes (length a)) a
        (write_uint32-Writes _) (write_block-Writes a n.filled))

write_args-Writes :
    (n : ℕ) (args : List Bytes)
    → n ≡ length args
    → All IsName args
    → Writes (write_args n args) (encode_args args)
unfolding write_args encode_args
write_args-Writes zero [] e h = write_nothing
write_args-Writes zero (a ∷ args) e h = absurd (omega arith)
write_args-Writes (suc n) [] e h = absurd (omega arith)
write_args-Writes (suc n) (a ∷ args) e h =
    >>=-Writes (write_string a) (write_args n args) (encode_string a) (encode_args args)
      (write_string-Writes a h.0) (write_args-Writes n args (omega arith) h.1)

-- The last step of `write_object`, and its last two.
abbrev write_bytes : KTestObject → Sink → Run Sink
write_bytes o s =
    if ltb (length o.bytes) o.num_bytes then fault else write_block (take o.num_bytes o.bytes) s

abbrev write_object_bytes : KTestObject → Sink → Run Sink
write_object_bytes o s = write_uint32 o.num_bytes s >>= write_bytes o

write_bytes-Writes : (o : KTestObject) → IsObject o → Writes (write_bytes o) o.bytes
write_bytes-Writes o v s h =
    rw (v.counted, take_all o.bytes) (ground (arith, write_block-Writes o.bytes v.filled s h))

write_object-Writes : (o : KTestObject) → IsObject o → Writes (write_object o) (encode_object o)
unfolding write_object encode_object
write_object-Writes o v =
    >>=-Writes (write_string o.name) (write_object_bytes o) (encode_string o.name)
      (uint32_bytes o.num_bytes ++ o.bytes) (write_string-Writes o.name v.named)
      (>>=-Writes (write_uint32 o.num_bytes) (write_bytes o) (uint32_bytes o.num_bytes) o.bytes
        (write_uint32-Writes _) (write_bytes-Writes o v))

write_objects-Writes :
    (n : ℕ) (os : List KTestObject)
    → n ≡ length os
    → All IsObject os
    → Writes (write_objects n os) (encode_objects os)
unfolding write_objects encode_objects
write_objects-Writes zero [] e h = write_nothing
write_objects-Writes zero (o ∷ os) e h = absurd (omega arith)
write_objects-Writes (suc n) [] e h = absurd (omega arith)
write_objects-Writes (suc n) (o ∷ os) e h =
    >>=-Writes (write_object o) (write_objects n os) (encode_object o) (encode_objects os)
      (write_object-Writes o h.0) (write_objects-Writes n os (omega arith) h.1)

read_string-encode : (a f : Bytes) → IsName a → read_string (encode_string a ++ f) ≡ ok (a, f)
unfolding read_string encode_string
read_string-encode a f n =
    rw (append_assoc, read_uint32-uint32_bytes (length a) (a ++ f) (omega (arith, n.short)), ◌>>=◌)
      (rw (mod-eq_of_lt {n = length a + 1} {m = 2 ^ 32} n.short)
        (read_block-append a f (length a) _ refl n.filled (omega arith)))

read_args-encode :
    (n : ℕ) (args : List Bytes) (f : Bytes)
    → n ≡ length args
    → All IsName args
    → read_args n (encode_args args ++ f) ≡ ok (args, f)
unfolding read_args encode_args
read_args-encode zero [] f e h = refl
read_args-encode zero (a ∷ args) f e h = absurd (omega arith)
read_args-encode (suc n) [] f e h = absurd (omega arith)
read_args-encode (suc n) (a ∷ args) f e h = simp (
  append_assoc,
  read_string-encode a (encode_args args ++ f) h.0,
  read_args-encode n args f (omega arith) h.1,
)

read_object-encode :
    (o : KTestObject) (f : Bytes) → IsObject o → read_object (encode_object o ++ f) ≡ ok (o, f)
unfolding read_object encode_object
read_object-encode o f v =
    let counted : o.num_bytes < 2 ^ 32 = omega (arith, v.counted, v.short) in
    rw
      (
        append_assoc (encode_string o.name) (uint32_bytes o.num_bytes ++ o.bytes) f,
        read_string-encode o.name ((uint32_bytes o.num_bytes ++ o.bytes) ++ f) v.named,
        ◌>>=◌,
      )
      (rw (read_uint32-uint32_bytes o.num_bytes (o.bytes ++ f) counted, ◌>>=◌)
        (rw (
          read_block-append o.bytes f o.num_bytes o.num_bytes v.counted
            (omega (arith, v.filled, v.counted)) (omega arith))))

read_objects-encode :
    (n : ℕ) (os : List KTestObject) (f : Bytes)
    → n ≡ length os
    → All IsObject os
    → read_objects n (encode_objects os ++ f) ≡ ok (os, f)
unfolding read_objects encode_objects
read_objects-encode zero [] f e h = refl
read_objects-encode zero (o ∷ os) f e h = absurd (omega arith)
read_objects-encode (suc n) [] f e h = absurd (omega arith)
read_objects-encode (suc n) (o ∷ os) f e h = simp (
  append_assoc,
  read_object-encode o (encode_objects os ++ f) h.0,
  read_objects-encode n os f (omega arith) h.1,
)

check_header-magic : (f : Bytes) → check_header (ktest_magic ++ f) ≡ ok f
unfolding check_header
check_header-magic f = ground arith

write_ktest-Writes : (k : KTest) → IsWritable k → Writes (write_ktest k) (encode k)
unfolding write_ktest encode
write_ktest-Writes k w =
    >>=-Writes (write_block ktest_magic) _ ktest_magic _
      (write_block-Writes ktest_magic (omega arith))
      (>>=-Writes (write_uint32 ktest_version) _ (uint32_bytes ktest_version) _
        (write_uint32-Writes _)
        (>>=-Writes (write_uint32 k.num_args) _ (uint32_bytes k.num_args) _ (write_uint32-Writes _)
          (>>=-Writes (write_args k.num_args k.args) _ (encode_args k.args) _
            (write_args-Writes _ _ w.args_counted w.args_named)
            (>>=-Writes (write_uint32 k.sym_argvs) _ (uint32_bytes k.sym_argvs) _
              (write_uint32-Writes _)
              (>>=-Writes (write_uint32 k.sym_argv_len) _ (uint32_bytes k.sym_argv_len) _
                (write_uint32-Writes _)
                (>>=-Writes (write_uint32 k.num_objects) (write_objects k.num_objects k.objects)
                  (uint32_bytes k.num_objects) (encode_objects k.objects) (write_uint32-Writes _)
                  (write_objects-Writes _ _ w.objects_counted w.objects_valid)))))))

-- A test case with counts that fit its lists, no empty string or object, strings without zero
-- bytes and all numbers in 32 bits is written, on a device with room for it, as exactly its
-- encoding.
pub to_file-encode :
    (k : KTest) (room : ℕ)
    → IsWritable k
    → length (encode k) ≤ room
    → to_file k room ≡ ok (encode k)
unfolding to_file
to_file-encode k room w h = rw (write_ktest-Writes k w (record { written = []; room = room }) h)

-- Reading the encoding of a test case of the current version, whose counts fit its lists, with no
-- empty string or object, strings without zero bytes and all numbers in 32 bits, gives the same
-- test case back, whatever follows in the file.
pub from_file-encode : (k : KTest) (f : Bytes) → IsWritable k → from_file (encode k ++ f) ≡ ok k
unfolding from_file encode read_sym_args
from_file-encode k f w =
    let few : k.num_args < 2 ^ 32 = omega (arith, w.args_counted, w.args_few) in
    let objects_few : k.num_objects < 2 ^ 32 = omega (arith, w.objects_counted, w.objects_few) in
    simp (append_assoc, check_header-magic)
      (simp
        (
          read_uint32-uint32_bytes ktest_version _ (omega arith),
          read_uint32-uint32_bytes k.num_args _ few,
          read_args-encode k.num_args k.args _ w.args_counted w.args_named,
          read_uint32-uint32_bytes k.sym_argvs _ w.argvs_small,
          read_uint32-uint32_bytes k.sym_argv_len _ w.argv_len_small,
          read_uint32-uint32_bytes k.num_objects _ objects_few,
          read_objects-encode k.num_objects k.objects _ w.objects_counted w.objects_valid,
        )
        (ap (λ n. ok (record k { version = n })) (sym w.current)))
