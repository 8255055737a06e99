-- ===== src/KTest/Codec.antt =====
-- The file format that KTest.cpp reads and writes, as an encoding of its own, and what a test case
-- has to be like to be written.
use mathlib.Core.List.{append_assoc}
use learch.Prelude.{
  ℕ, ◌+◌, ◌-◌, ◌^◌, ◌≤◌, ◌<◌, ◌≡◌, refl, ap, ◌∙◌, List, [], ◌∷◌, ◌++◌, length, length-append, take,
  drop, arith,
}
use learch.KTest.{
  Bytes, Run, ok, ◌>>=◌, KTestObject, KTest, ktest_magic, ktest_version, Sink, uint32_bytes,
  c_string, read_block, read_uint32, write_block,
}

abbrev pub AllNonzero : Bytes → Type 0
AllNonzero [] = Unit {0}
AllNonzero (b ∷ bs) = (0 < b) × AllNonzero bs

-- A string that `strlen` measures whole, that is not empty and that a length field can hold.
pub record IsName (s : Bytes) : Type 0 where
  pub no_zero : AllNonzero s
  pub filled : 0 < length s
  pub short : length s + 1 < 2 ^ 32

pub record IsObject (o : KTestObject) : Type 0 where
  pub named : IsName o.name
  pub filled : 0 < length o.bytes
  pub counted : o.num_bytes ≡ length o.bytes
  pub short : length o.bytes < 2 ^ 32

abbrev pub All {ℓ} : {A : Type ℓ} → (A → Type 0) → List A → Type 0
All P [] = Unit {0}
All P (x ∷ xs) = P x × All P xs

pub record IsWritable (k : KTest) : Type 0 where
  pub current : k.version ≡ ktest_version
  pub args_counted : k.num_args ≡ length k.args
  pub args_few : length k.args < 2 ^ 32
  pub args_named : All IsName k.args
  pub argvs_small : k.sym_argvs < 2 ^ 32
  pub argv_len_small : k.sym_argv_len < 2 ^ 32
  pub objects_counted : k.num_objects ≡ length k.objects
  pub objects_few : length k.objects < 2 ^ 32
  pub objects_valid : All IsObject k.objects

unfoldable pub encode_string : Bytes → Bytes
encode_string s = uint32_bytes (length s) ++ s

unfoldable pub encode_args : List Bytes → Bytes
encode_args [] = []
encode_args (a ∷ args) = encode_string a ++ encode_args args

unfoldable pub encode_object : KTestObject → Bytes
encode_object o = encode_string o.name ++ (uint32_bytes o.num_bytes ++ o.bytes)

unfoldable pub encode_objects : List KTestObject → Bytes
encode_objects [] = []
encode_objects (o ∷ os) = encode_object o ++ encode_objects os

unfoldable pub encode : KTest → Bytes
encode k =
    ktest_magic
    ++ (uint32_bytes ktest_version
        ++ (uint32_bytes k.num_args
            ++ (encode_args k.args
                ++ (uint32_bytes k.sym_argvs
                    ++ (uint32_bytes k.sym_argv_len
                        ++ (uint32_bytes k.num_objects ++ encode_objects k.objects))))))

-- Big-endian bytes are read back as the number.
pub read_uint32-uint32_bytes :
    (v : ℕ) (f : Bytes) → v < 2 ^ 32 → read_uint32 (uint32_bytes v ++ f) ≡ ok (v, f)
unfolding read_uint32
read_uint32-uint32_bytes v f h = ap (λ n. ok (n, f)) (omega arith)

pub take-length : (bs f : Bytes) → take (length bs) (bs ++ f) ≡ bs
take-length [] f = refl
take-length (b ∷ bs) f = ap (◌∷◌ b) (take-length bs f)

pub drop-length : (bs f : Bytes) → drop (length bs) (bs ++ f) ≡ f
drop-length [] f = refl
drop-length (b ∷ bs) f = drop-length bs f

pub take_all : (bs : Bytes) → take (length bs) bs ≡ bs
take_all [] = refl
take_all (b ∷ bs) = ap (◌∷◌ b) (take_all bs)

pub read_block-append :
    (bs f : Bytes) (size room : ℕ)
    → size ≡ length bs
    → 0 < size
    → size ≤ room
    → read_block room size (bs ++ f) ≡ ok (bs, f)
unfolding read_block
read_block-append bs f size room e h k =
    rw (e, take-length bs f, drop-length bs f) (ground (arith, length-append bs f))

pub c_string_self : (s : Bytes) → AllNonzero s → c_string s ≡ s
unfolding c_string
c_string_self [] h = refl
c_string_self (b ∷ bs) h = ground (arith, c_string_self bs h.1)

-- What a successful write leaves.
abbrev pub after : Sink → Bytes → Sink
after s bs = record { written = s.written ++ bs; room = s.room - length bs }

-- The action writes `bs` on every device that has room for it.
abbrev pub Writes : (Sink → Run Sink) → Bytes → Type 0
Writes m bs = (s : Sink) → length bs ≤ s.room → m s ≡ ok (after s bs)

pub write_block-Writes : (bs : Bytes) → 0 < length bs → Writes (write_block bs) bs
unfolding write_block
write_block-Writes bs h s k = ground arith

pub after_append : (s : Sink) (bs cs : Bytes) → after (after s bs) cs ≡ after s (bs ++ cs)
after_append s bs cs = ground (arith, append_assoc s.written bs cs, length-append bs cs)

pub >>=-Writes :
    (m n : Sink → Run Sink) (bs cs : Bytes)
    → Writes m bs
    → Writes n cs
    → Writes (λ s. m s >>= n) (bs ++ cs)
>>=-Writes m n bs cs p q s h =
    rw (p s (omega (arith, length-append bs cs)), ◌>>=◌)
      (q (after s bs) (omega (arith, length-append bs cs)) ∙ ap ok (after_append s bs cs))
