-- ===== src/KTest.antt =====
-- Test case files: klee/lib/Basic/KTest.cpp and the structures of
-- klee/include/klee/Internal/ADT/KTest.h. A file being read is the list of bytes left; a file being
-- written is what it holds with the number of bytes that the device still takes. Allocation is
-- taken to succeed. A `char *` is its block's bytes without the terminator that the code adds.
pub mod Codec
pub mod RoundTrip
pub mod Errors
mod Tests
use learch.Prelude.{
  ℕ, zero, suc, ◌+◌, ◌-◌, ◌*◌, ◌/◌, ◌%◌, ◌^◌, Bool, true, false, not, ◌&&◌, ◌||◌, List, [], ◌∷◌,
  ◌++◌, ltb, leb, ◌==◌, if◌then◌else◌, length, take, drop,
}

abbrev pub Bytes : Type 0
Bytes = List ℕ

-- `fault` is undefined behaviour: a write past the end of a block, or an index out of range.
pub data Run {ℓ} (A : Type ℓ) : Type ℓ where
  ok : A → Run A
  error : Run A
  fault : Run A

infixl 5 ◌>>=◌ ◌>>◌
abbrev pub ◌>>=◌ {ℓ κ} : {A : Type ℓ} {B : Type κ} → Run A → (A → Run B) → Run B
ok a >>= f = f a
error >>= f = error
fault >>= f = fault

abbrev pub guard : Bool → Run (Unit {0})
guard true = ok tt
guard false = error

abbrev pub ◌>>◌ {ℓ} : {B : Type ℓ} → Run (Unit {0}) → Run B → Run B
m >> k = m >>= λ _. k

pub record KTestObject : Type 0 where
  pub name : Bytes
  pub num_bytes : ℕ
  pub bytes : Bytes

pub record KTest : Type 0 where
  pub version : ℕ
  pub num_args : ℕ
  pub args : List Bytes
  pub sym_argvs : ℕ
  pub sym_argv_len : ℕ
  pub num_objects : ℕ
  pub objects : List KTestObject

abbrev pub ktest_version : ℕ
ktest_version = 3

abbrev pub ktest_magic : Bytes
ktest_magic = b'K' ∷ b'T' ∷ b'E' ∷ b'S' ∷ b'T' ∷ []

-- The last byte is a line feed.
abbrev pub bout_magic : Bytes
bout_magic = b'B' ∷ b'O' ∷ b'U' ∷ b'T' ∷ 10 ∷ []

-- Reading.

-- `fread(block, size, 1, f)` into a block of `room` bytes, compared to 1: a size of zero reads no
-- item and is a failure, and a short file fills what it can before it fails.
unfoldable pub read_block : (room size : ℕ) → Bytes → Run (Bytes × Bytes)
read_block room size f =
    if ltb room (length (take size f))
    then fault
    else if size == 0
    then error
    else if ltb (length f) size
    then error
    else ok (take size f, drop size f)

unfoldable pub read_uint32 : Bytes → Run (ℕ × Bytes)
read_uint32 (a ∷ b ∷ c ∷ d ∷ f) = ok (((((a * 2 ^ 8) + b) * 2 ^ 8 + c) * 2 ^ 8 + d) % 2 ^ 32, f)
read_uint32 _ = error

-- The block has `len + 1` bytes in unsigned arithmetic, and takes a terminator.
unfoldable pub read_string : Bytes → Run (Bytes × Bytes)
read_string f = do (len, f₁) ← read_uint32 f; read_block ((len + 1) % 2 ^ 32) len f₁

same_bytes : Bytes → Bytes → Bool
same_bytes [] [] = true
same_bytes (x ∷ xs) (y ∷ ys) = x == y && same_bytes xs ys
same_bytes _ _ = false

unfoldable pub check_header : Bytes → Run Bytes
unfolding same_bytes read_block
check_header f = do
  (header, f₁) ← read_block 5 5 f
  guard (same_bytes header ktest_magic || same_bytes header bout_magic)
  ok f₁

unfoldable pub read_args : ℕ → Bytes → Run (List Bytes × Bytes)
read_args zero f = ok ([], f)
read_args (suc n) f = do (s, f₁) ← read_string f; (ss, f₂) ← read_args n f₁; ok (s ∷ ss, f₂)

unfoldable pub read_object : Bytes → Run (KTestObject × Bytes)
read_object f = do
  (name, f₁) ← read_string f
  (num_bytes, f₂) ← read_uint32 f₁
  (bytes, f₃) ← read_block num_bytes num_bytes f₂
  ok (record { name = name; num_bytes = num_bytes; bytes = bytes }, f₃)

unfoldable pub read_objects : ℕ → Bytes → Run (List KTestObject × Bytes)
read_objects zero f = ok ([], f)
read_objects (suc n) f = do (o, f₁) ← read_object f; (os, f₂) ← read_objects n f₁; ok (o ∷ os, f₂)

-- The two fields that version 2 added; `calloc` left them zero.
unfoldable pub read_sym_args : ℕ → Bytes → Run ((ℕ × ℕ) × Bytes)
read_sym_args version f =
    if leb 2 version
    then (do
      (argvs, f₁) ← read_uint32 f
      (argv_len, f₂) ← read_uint32 f₁
      ok ((argvs, argv_len), f₂))
    else ok ((0, 0), f)

-- `kTest_fromFile`, from the bytes of the file.
unfoldable pub from_file : Bytes → Run KTest
from_file f = do
  f₀ ← check_header f
  (version, f₁) ← read_uint32 f₀
  guard (leb version ktest_version)
  (num_args, f₂) ← read_uint32 f₁
  (args, f₃) ← read_args num_args f₂
  ((argvs, argv_len), f₄) ← read_sym_args version f₃
  (num_objects, f₅) ← read_uint32 f₄
  (objects, f₆) ← read_objects num_objects f₅
  ok (record {
    version = version;
    num_args = num_args;
    args = args;
    sym_argvs = argvs;
    sym_argv_len = argv_len;
    num_objects = num_objects;
    objects = objects;
  })

-- Writing.
pub record Sink : Type 0 where
  pub written : Bytes
  pub room : ℕ

-- `fwrite(block, size, 1, f)` compared to 1: it too writes no item of size zero.
unfoldable pub write_block : Bytes → Sink → Run Sink
write_block bs s =
    if length bs == 0
    then error
    else if ltb s.room (length bs)
    then error
    else ok (record { written = s.written ++ bs; room = s.room - length bs })

-- The four bytes of a number, the highest first.
abbrev pub uint32_bytes : ℕ → Bytes
uint32_bytes v =
    (v / 2 ^ 24) % 2 ^ 8 ∷ ((v / 2 ^ 16) % 2 ^ 8) ∷ ((v / 2 ^ 8) % 2 ^ 8) ∷ (v % 2 ^ 8) ∷ []

unfoldable pub write_uint32 : ℕ → Sink → Run Sink
write_uint32 v = write_block (uint32_bytes v)

-- The bytes that `strlen` counts.
unfoldable pub c_string : Bytes → Bytes
c_string [] = []
c_string (b ∷ bs) = if b == 0 then [] else b ∷ c_string bs

unfoldable pub write_string : Bytes → Sink → Run Sink
write_string value s = do
  s₁ ← write_uint32 (length (c_string value) % 2 ^ 32) s
  write_block (c_string value) s₁

unfoldable pub write_args : ℕ → List Bytes → Sink → Run Sink
write_args zero args s = ok s
write_args (suc n) [] s = fault
write_args (suc n) (a ∷ args) s = do s₁ ← write_string a s; write_args n args s₁

-- `num_bytes` bytes are read from the block.
unfoldable pub write_object : KTestObject → Sink → Run Sink
write_object o s = do
  s₁ ← write_string o.name s
  s₂ ← write_uint32 o.num_bytes s₁
  if ltb (length o.bytes) o.num_bytes then fault else write_block (take o.num_bytes o.bytes) s₂

unfoldable pub write_objects : ℕ → List KTestObject → Sink → Run Sink
write_objects zero os s = ok s
write_objects (suc n) [] s = fault
write_objects (suc n) (o ∷ os) s = do s₁ ← write_object o s; write_objects n os s₁

unfoldable pub write_ktest : KTest → Sink → Run Sink
write_ktest k s = do
  s₁ ← write_block ktest_magic s
  s₂ ← write_uint32 ktest_version s₁
  s₃ ← write_uint32 k.num_args s₂
  s₄ ← write_args k.num_args k.args s₃
  s₅ ← write_uint32 k.sym_argvs s₄
  s₆ ← write_uint32 k.sym_argv_len s₅
  s₇ ← write_uint32 k.num_objects s₆
  write_objects k.num_objects k.objects s₇

-- `kTest_toFile`, on a device that takes `room` bytes.
unfoldable pub to_file : KTest → ℕ → Run Bytes
unfolding write_ktest
to_file k room = do s ← write_ktest k (record { written = []; room = room }); ok s.written

sum_bytes : ℕ → List KTestObject → ℕ → Run ℕ
sum_bytes zero os res = ok res
sum_bytes (suc n) [] res = fault
sum_bytes (suc n) (o ∷ os) res = sum_bytes n os ((res + o.num_bytes) % 2 ^ 32)

-- `kTest_numBytes`, in unsigned arithmetic.
unfoldable pub num_bytes : KTest → Run ℕ
unfolding sum_bytes
num_bytes k = sum_bytes k.num_objects k.objects 0
