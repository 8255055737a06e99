-- ===== src/KTest/Errors.antt =====
-- What fails in KTest.cpp, and what a file that was read is known to hold.
use learch.Prelude.{
  ℕ, zero, suc, ◌+◌, ◌%◌, ◌^◌, ◌≤◌, ◌<◌, ◌≡◌, refl, ap, ◌-◌, ◌⊎◌, inl, inr, ◌↔◌, Bool, true, false,
  List, [], ◌∷◌, leb, length, take, length-take, arith,
}
use mathlib.Core.Path.{subst}
use learch.KTest.{
  Bytes, Run, ok, error, fault, ◌>>=◌, guard, KTestObject, KTest, ktest_magic, ktest_version, Sink,
  c_string, read_block, read_uint32, read_string, check_header, read_args, read_object,
  read_objects, read_sym_args, from_file, write_block, write_uint32, write_string, write_args,
  write_object, write_objects, write_ktest, to_file,
}

abbrev pub is_ok {ℓ} : {A : Type ℓ} → Run A → Bool
is_ok (ok a) = true
is_ok error = false
is_ok fault = false

module _ {ℓ κ} {A : Type ℓ} {B : Type κ} where
  >>=-first : (m : Run A) (f : A → Run B) → is_ok m ≡ false → is_ok (m >>= f) ≡ false
  >>=-first (ok a) f h = cc
  >>=-first error f h = refl
  >>=-first fault f h = refl

  >>=-rest : (m : Run A) (f : A → Run B) → ((a : A) → is_ok (f a) ≡ false) → is_ok (m >>= f) ≡ false
  >>=-rest (ok a) f h = h a
  >>=-rest error f h = refl
  >>=-rest fault f h = refl

  -- A successful chain, taken apart.
  >>=-then {μ} :
      {P : Type μ} (m : Run A) (f : A → Run B) {b : B}
      → (m >>= f) ≡ ok b
      → ((a : A) → m ≡ ok a → f a ≡ ok b → P)
      → P
  >>=-then (ok a) f h k = k a refl h
  >>=-then error f h k = absurd (error≢ok h)
    where
      error≢ok : {b : B} → error ≡ ok b → ⊥
      error≢ok e = cc
  >>=-then fault f h k = absurd (fault≢ok h)
    where
      fault≢ok : {b : B} → fault ≡ ok b → ⊥
      fault≢ok e = cc

-- Empty strings and empty objects cannot be written.

write_string-empty : (a : Bytes) (s : Sink) → c_string a ≡ [] → is_ok (write_string a s) ≡ false
unfolding write_string write_block
write_string-empty a s e = >>=-rest (write_uint32 (length (c_string a) % 2 ^ 32) s) _ (λ t. rw e)

-- One of the first `n` strings, or objects, is empty.
abbrev pub EmptyArg : ℕ → List Bytes → Type 0
EmptyArg zero args = ⊥
EmptyArg (suc n) [] = ⊥
EmptyArg (suc n) (a ∷ args) = (c_string a ≡ []) ⊎ EmptyArg n args

abbrev pub EmptyObject : ℕ → List KTestObject → Type 0
EmptyObject zero os = ⊥
EmptyObject (suc n) [] = ⊥
EmptyObject (suc n) (o ∷ os) = ((c_string o.name ≡ []) ⊎ (o.num_bytes ≡ 0)) ⊎ EmptyObject n os

write_args-empty :
    (n : ℕ) (args : List Bytes) (s : Sink) → EmptyArg n args → is_ok (write_args n args s) ≡ false
unfolding write_args
write_args-empty zero args s h = absurd h
write_args-empty (suc n) [] s h = absurd h
write_args-empty (suc n) (a ∷ args) s (inl e) =
    >>=-first (write_string a s) (write_args n args) (write_string-empty a s e)
write_args-empty (suc n) (a ∷ args) s (inr h) =
    >>=-rest (write_string a s) (write_args n args) (λ t. write_args-empty n args t h)

take_none : (bs : Bytes) (n : ℕ) → n ≡ 0 → length (take n bs) ≡ 0
take_none bs n e = rw e

write_object-empty :
    (o : KTestObject) (s : Sink)
    → (c_string o.name ≡ []) ⊎ (o.num_bytes ≡ 0)
    → is_ok (write_object o s) ≡ false
unfolding write_object write_block
write_object-empty o s (inl e) = >>=-first (write_string o.name s) _ (write_string-empty o.name s e)
write_object-empty o s (inr e) = >>=-rest (write_string o.name s) _ λ t.
    >>=-rest (write_uint32 o.num_bytes t) _ λ u. ground (arith, take_none o.bytes o.num_bytes e)

write_objects-empty :
    (n : ℕ) (os : List KTestObject) (s : Sink)
    → EmptyObject n os
    → is_ok (write_objects n os s) ≡ false
unfolding write_objects
write_objects-empty zero os s h = absurd h
write_objects-empty (suc n) [] s h = absurd h
write_objects-empty (suc n) (o ∷ os) s (inl e) =
    >>=-first (write_object o s) (write_objects n os) (write_object-empty o s e)
write_objects-empty (suc n) (o ∷ os) s (inr h) =
    >>=-rest (write_object o s) (write_objects n os) (λ t. write_objects-empty n os t h)

-- A test case with an empty argument, or an object with an empty name or no bytes, among those it
-- counts, is never written, whatever room the device has.
pub to_file-empty :
    (k : KTest) (room : ℕ)
    → EmptyArg k.num_args k.args ⊎ EmptyObject k.num_objects k.objects
    → is_ok (to_file k room) ≡ false
unfolding to_file write_ktest
to_file-empty k room h = >>=-first (write_ktest k (record { written = []; room = room })) _ (
    >>=-rest (write_block ktest_magic _) _ λ s₁.
      >>=-rest (write_uint32 ktest_version s₁) _
        λ s₂. >>=-rest (write_uint32 k.num_args s₂) _ λ s₃. rest h s₃)
  where
    rest :
        EmptyArg k.num_args k.args ⊎ EmptyObject k.num_objects k.objects
        → (s₃ : Sink)
        → is_ok (do
          s₄ ← write_args k.num_args k.args s₃
          s₅ ← write_uint32 k.sym_argvs s₄
          s₆ ← write_uint32 k.sym_argv_len s₅
          s₇ ← write_uint32 k.num_objects s₆
          write_objects k.num_objects k.objects s₇)
          ≡ false
    rest (inl e) s₃ =
        >>=-first (write_args k.num_args k.args s₃) _ (write_args-empty k.num_args k.args s₃ e)
    rest (inr e) s₃ = >>=-rest (write_args k.num_args k.args s₃) _ λ s₄.
        >>=-rest (write_uint32 k.sym_argvs s₄) _ λ s₅.
          >>=-rest (write_uint32 k.sym_argv_len s₅) _ λ s₆.
            >>=-rest (write_uint32 k.num_objects s₆) _
              λ s₇. write_objects-empty k.num_objects k.objects s₇ e

-- The block of a string is too small for what the file holds only at the largest length.
read_block-fault :
    (len : ℕ) (g : Bytes)
    → len < 2 ^ 32
    → (read_block ((len + 1) % 2 ^ 32) len g ≡ fault) ↔ ((len ≡ 2 ^ 32 - 1) × (0 < length g))
unfolding read_block
read_block-fault len g h = (ground (arith, length-take len g), ground (arith, length-take len g))

read_uint32-lt : (f : Bytes) (v : ℕ) (g : Bytes) → read_uint32 f ≡ ok (v, g) → v < 2 ^ 32
unfolding read_uint32
read_uint32-lt (a ∷ b ∷ c ∷ d ∷ f) v g h = ground arith
read_uint32-lt _ v g h = cc

error≢fault : ◌≡◌ {A = Run (Bytes × Bytes)} error fault → ⊥
error≢fault h = cc

read_uint32-ne-fault : (f : Bytes) → read_uint32 f ≡ fault → ⊥
unfolding read_uint32
read_uint32-ne-fault (a ∷ b ∷ c ∷ d ∷ f) h = cc
read_uint32-ne-fault _ h = cc

-- Reading a string writes past its block exactly when the length field is 2 ^ 32 - 1, so that the
-- block has no byte, and the file goes on.
pub read_string-fault :
    (f : Bytes)
    → (read_string f ≡ fault)
      ↔ ((g : Bytes) × (read_uint32 f ≡ ok (2 ^ 32 - 1, g)) × (0 < length g))
unfolding read_string
read_string-fault f = (forth f (read_uint32 f) refl, back f)
  where
    forth :
        (f : Bytes) (r : Run (ℕ × Bytes))
        → read_uint32 f ≡ r
        → (r >>= λ p. read_block ((p.0 + 1) % 2 ^ 32) p.0 p.1) ≡ fault
        → (g : Bytes) × (r ≡ ok (2 ^ 32 - 1, g)) × (0 < length g)
    forth f (ok (len, g)) e h =
        let p = (read_block-fault len g (read_uint32-lt f len g e)).0 h in
        (g, ap (λ (n : ℕ). ok (n, g)) p.0, p.1)
    forth f error e h = absurd (error≢fault h)
    forth f fault e h = absurd (read_uint32-ne-fault f e)

    back :
        (f : Bytes)
        → (g : Bytes) × (read_uint32 f ≡ ok (2 ^ 32 - 1, g)) × (0 < length g)
        → read_string f ≡ fault
    back f (g, e, h) =
        rw (e, read_string) ((read_block-fault (2 ^ 32 - 1) g (omega arith)).1 (refl, h))

-- What a file that was read holds.
abbrev pub AllCounted : List KTestObject → Type 0
AllCounted [] = Unit {0}
AllCounted (o ∷ os) = (o.num_bytes ≡ length o.bytes) × (0 < o.num_bytes) × AllCounted os

pub record IsRead (k : KTest) : Type 0 where
  pub known : k.version ≤ ktest_version
  pub args_counted : k.num_args ≡ length k.args
  pub objects_counted : k.num_objects ≡ length k.objects
  pub bytes_counted : AllCounted k.objects
  pub old : k.version < 2 → (k.sym_argvs ≡ 0) × (k.sym_argv_len ≡ 0)

read_args-length :
    (n : ℕ) (f : Bytes) (args : List Bytes) (g : Bytes)
    → read_args n f ≡ ok (args, g)
    → n ≡ length args
unfolding read_args
read_args-length zero f args g h = ground arith
read_args-length (suc n) f args g h = >>=-then (read_string f) _ h λ p _ h₁.
    >>=-then (read_args n p.1) _ h₁ λ q e h₂. ground (arith, read_args-length n p.1 q.0 q.1 e)

read_block-length :
    (room size : ℕ) (f bs g : Bytes)
    → read_block room size f ≡ ok (bs, g)
    → (size ≡ length bs) × (0 < size)
unfolding read_block
read_block-length room size f bs g h = ground (arith, length-take size f)

read_object-counted :
    (f : Bytes) (o : KTestObject) (g : Bytes)
    → read_object f ≡ ok (o, g)
    → (o.num_bytes ≡ length o.bytes) × (0 < o.num_bytes)
unfolding read_object
read_object-counted f o g h = >>=-then (read_string f) _ h λ p _ h₁.
    >>=-then (read_uint32 p.1) _ h₁ λ q _ h₂.
      >>=-then (read_block q.0 q.0 q.1) _ h₂
        λ r e h₃. ground (arith, read_block-length q.0 q.0 q.1 r.0 r.1 e)

read_objects-counted :
    (n : ℕ) (f : Bytes) (os : List KTestObject) (g : Bytes)
    → read_objects n f ≡ ok (os, g)
    → (n ≡ length os) × AllCounted os
unfolding read_objects
read_objects-counted zero f [] g h = (ground arith, tt)
read_objects-counted zero f (o ∷ os) g h = cc
read_objects-counted (suc n) f os g h = >>=-then (read_object f) _ h λ p d h₁.
    >>=-then (read_objects n p.1) _ h₁ λ q e h₂.
      ground (arith, read_object-counted f p.0 p.1 d, read_objects-counted n p.1 q.0 q.1 e)

read_sym_args-old :
    (v : ℕ) (f : Bytes) (a b : ℕ) (g : Bytes)
    → read_sym_args v f ≡ ok ((a, b), g)
    → v < 2
    → (a ≡ 0) × (b ≡ 0)
unfolding read_sym_args
read_sym_args-old v f a b g h old = ground arith

guard-le : (v : ℕ) → guard (leb v ktest_version) ≡ ok tt → v ≤ ktest_version
guard-le v h = ground arith

IsRead-ok : (k l : KTest) → ok l ≡ ok k → IsRead l → IsRead k
IsRead-ok k l h r = subst IsRead (ok-injective l k h) r
  where
    ok-injective : (l k : KTest) → ok l ≡ ok k → l ≡ k
    ok-injective l k e = cc

-- Every file that is read, whoever wrote it, gives a test case of a version up to 3 whose counts
-- are those of its arguments, objects and bytes, with no empty object, and with both symbolic
-- argument fields 0 before version 2.
pub from_file-IsRead : (f : Bytes) (k : KTest) → from_file f ≡ ok k → IsRead k
unfolding from_file
from_file-IsRead f k h = >>=-then (check_header f) _ h λ f₀ _ h₀.
    >>=-then (read_uint32 f₀) _ h₀ λ v _ h₁.
      >>=-then (guard (leb v.0 ktest_version)) _ h₁ λ _ known h₂.
        >>=-then (read_uint32 v.1) _ h₂ λ n _ h₃. >>=-then (read_args n.0 n.1) _ h₃ λ args e₁ h₄.
          >>=-then (read_sym_args v.0 args.1) _ h₄ λ sym e₂ h₅.
            >>=-then (read_uint32 sym.1) _ h₅ λ m _ h₆.
              >>=-then (read_objects m.0 m.1) _ h₆ λ os e₃ h₇.
                let counts = read_objects-counted m.0 m.1 os.0 os.1 e₃ in
                IsRead-ok k _ h₇ (record {
                  known = guard-le v.0 known;
                  args_counted = read_args-length n.0 n.1 args.0 args.1 e₁;
                  objects_counted = counts.0;
                  bytes_counted = counts.1;
                  old = read_sym_args-old v.0 args.1 sym.0.0 sym.0.1 sym.1 e₂;
                })
