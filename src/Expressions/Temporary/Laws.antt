-- ===== src/Expressions/Temporary/Laws.antt =====
-- What a temporary read stands for: the number whose bytes, the lowest first, are the first of the
-- array.
use mathlib.Core.Path.{subst}
use native.Mathlib.Nat.{div-one, mod-eq_of_lt}
use learch.Prelude.{
  ◌>>=◌, ℕ, zero, suc, ◌+◌, ◌*◌, ◌/◌, ◌%◌, ◌^◌, ◌<◌, ◌≡◌, refl, sym, ◌∙◌, ap, Option, none, some,
  true, false, arith, inl, inr, Option-cases, if-cases, lt→ltb, ltb, Bool-cases, get_elem?,
}
use learch.Expressions.{
  Globals, Expr, constant, extract, zext, read, no_update, get_width, as_constant,
}
use learch.Expressions.ApInt.{ApInt}
use learch.Expressions.Meaning.{Assignment, well_typed, initial_value, value, Means}
use learch.Expressions.Values.{value-lt_at}
use learch.Expressions.Equal.Steps.{Typed}
use learch.Expressions.Rewriting.{both_true}
use learch.Expressions.Equal.{is_symbolic_array}
use learch.Expressions.Slicing.{create_concat, slices}
use learch.Expressions.Slicing.Laws.{create_concat_lem}
use learch.Expressions.Slicing.Extension.{resized, create_zext_lem}
use learch.Expressions.Reads.{create_read, find_write, shortened, constant_element}
use learch.Expressions.Reads.Laws.{ArraysFit, create_read-Means}
use learch.Expressions.Temporary.{
  Width, bool, int8, int16, int32, int64, bits, byte, create_concat4, create_concat8,
  create_temp_read,
}

-- The number of the first `n` bytes, the lowest first.
unfoldable pub little_endian : (ℕ → ℕ) → ℕ → ℕ
little_endian bytes zero = 0
little_endian bytes (suc n) = bytes n * 2 ^ (8 * n) + little_endian bytes n

module _ (g : Globals) (m : ApInt) (fuel id : ℕ) (opt : g.const_array_opt ≡ false)
    (fit : ArraysFit g) (domain : (g.arrays id).domain ≡ 32) (range : (g.arrays id).range ≡ 8)
    (enough : 0 < fuel) where
  -- The expression stands for the first `n` bytes.
  abbrev Holds : ℕ → Expr → Type 0
  Holds n x =
      Typed g m x
      × (get_width g x ≡ 8 * n)
      × ((s : Assignment) → value g m s x ≡ little_endian (initial_value g s id) n)

  abbrev Ends : ℕ → Option Expr → Type 0
  Ends n o = (x : Expr) × (o ≡ some x) × Holds n x

  plain-Typed : (n : ℕ) → n < 2 ^ 32 → Typed g m (read id no_update (constant 32 n))
  unfolding well_typed get_width
  plain-Typed n small = rw (domain, range, lt→ltb n (2 ^ 32) small) refl

  byte-Means : (n : ℕ) → n < 2 ^ 32 → Means g m (byte g m id n) (read id no_update (constant 32 n))
  byte-Means n small =
      create_read-Means g m opt id (constant 32 n) no_update (plain-Typed n small) fit

  byte-slices : (n : ℕ) → slices (byte g m id n) ≡ 0
  unfolding slices create_read find_write shortened constant_element as_constant
  byte-slices n =
      if-cases (λ e. slices e ≡ 0) (is_symbolic_array (g.arrays id).constant_values)
        (shortened g m id no_update no_update (constant 32 n))
        (elim (constant_element g m id (constant 32 n)) [
          | some e ↦ e
          | none ↦ shortened g m id no_update no_update (constant 32 n)
        ])
        (λ _. plain)
        (λ _. elim (Bool-cases (ltb n (g.arrays id).size)) [
          | inl inside ↦ elim (Option-cases (get_elem? (g.arrays id).constant_values n)) [
            | inl missing ↦ rw (inside, missing) plain
            | inr (v, found) ↦ rw (inside, found) refl
          ]
          | inr outside ↦ rw outside plain
        ])
    where
      plain : slices (shortened g m id no_update no_update (constant 32 n)) ≡ 0
      plain =
          if-cases (λ e. slices e ≡ 0) (ltb n (g.arrays id).size)
            (read id no_update (constant 32 n)) (read id no_update (constant 32 n)) (λ _. refl)
            (λ _. refl)

  first_byte : Holds 1 (byte g m id 0)
  unfolding little_endian value get_width
  first_byte =
      let (h, w, same) = byte-Means 0 (omega arith) in (h, w ∙ range, λ s. same s ∙ ground arith)

  -- One more byte in front.
  longer :
      (n : ℕ) (x : Expr)
      → n < 2 ^ 32
      → Holds n x
      → Ends (suc n) (create_concat g m fuel (byte g m id n) x)
  unfolding little_endian value get_width well_typed
  longer n x small (h, w, same) =
      let (hb, wb, same_byte) = byte-Means n small in
      let no_slices = byte-slices n in
      let (y, ends, (hy, wy, same_y)) =
        create_concat_lem g m fuel (byte g m id n) x (omega (arith, enough, no_slices))
          (both_true hb h) in
      (
        y,
        ends,
        (hy, omega (arith, wy, wb, w, range), λ s. same_y s ∙ rw (w, same s, same_byte s) refl),
      )

  and_then :
      (n k : ℕ) (o : Option Expr) (f : Expr → Option Expr)
      → Ends n o
      → ((x : Expr) → Holds n x → Ends k (f x))
      → Ends k (o >>= f)
  and_then n k o f (x, e, h) next = rw e (next x h)

  two_bytes : Ends 2 (create_concat g m fuel (byte g m id 1) (byte g m id 0))
  two_bytes = longer 1 (byte g m id 0) (omega arith) first_byte

  four_bytes :
      Ends 4
        (create_concat4 g m fuel (byte g m id 3) (byte g m id 2) (byte g m id 1) (byte g m id 0))
  unfolding create_concat4
  four_bytes =
      and_then 2 4 _ _ two_bytes
        (λ x h. and_then 3 4 _ _ (longer 2 x (omega arith) h) (λ y h. longer 3 y (omega arith) h))

  eight_bytes : Ends 8 (
      create_concat8 g m fuel
        (byte g m id 7)
        (byte g m id 6)
        (byte g m id 5)
        (byte g m id 4)
        (byte g m id 3)
        (byte g m id 2)
        (byte g m id 1)
        (byte g m id 0))
  unfolding create_concat8
  eight_bytes = and_then 4 8 _ _ four_bytes (λ x h.
      and_then 5 8 _ _ (longer 4 x (omega arith) h) (λ x h.
        and_then 6 8 _ _ (longer 5 x (omega arith) h) (λ x h.
          and_then 7 8 _ _ (longer 6 x (omega arith) h) (λ x h. longer 7 x (omega arith) h))))

  -- The result stands for the first bytes that make up `w` bits, cut to this width.
  abbrev Result : ℕ → Option Expr → Type 0
  Result w o =
      (x : Expr) × (o ≡ some x)
      × (well_typed g x ≡ true)
      × (get_width g x ≡ w)
      × ((s : Assignment)
          → value g m s x ≡ little_endian (initial_value g s id) ((w + 7) / 8) % 2 ^ w)

  whole : (w n : ℕ) (o : Option Expr) → w ≡ 8 * n → (w + 7) / 8 ≡ n → Ends n o → Result w o
  whole w n o same_w count (x, e, (h, wx, same)) = (
    x,
    e,
    h,
    wx ∙ sym same_w,
    λ s. rw (count, sym (same s)) (sym (mod-eq_of_lt (value-lt_at g m s x w h (wx ∙ sym same_w)))),
  )

  low_bit : Result 1 (create_temp_read g m fuel id bool)
  unfolding create_temp_read value get_width
  low_bit =
      let (hb, wb, same_b) = first_byte in
      let no_slices = byte-slices 0 in
      let is_slice : resized g m zext (byte g m id 0) 1 ≡ extract (byte g m id 0) 0 1 =
        rw wb refl in
      let (x, e, means) =
        create_zext_lem g m fuel (byte g m id 0) 1 (omega (arith, enough, no_slices)) hb
          (omega arith) in
      let (h, w, same) = subst (λ y. Means g m x y) is_slice means in
      (x, e, h, w, λ s. same s ∙ ap (λ v. v % 2) (div-one (value g m s (byte g m id 0)) ∙ same_b s))

  -- With `--const-array-opt` off, a fuel that is not 0, the values of constant arrays within their
  -- width, and an array of bytes with indices of 32 bits, a temporary read of a type's width ends
  -- with a well-typed expression of that width, whose value under every assignment is the number of
  -- the array's first bytes, the lowest first, cut to the width.
  pub create_temp_read_lem :
      (w : Width)
      → (x : Expr) × (create_temp_read g m fuel id w ≡ some x)
        × (well_typed g x ≡ true)
        × (get_width g x ≡ bits w)
        × ((s : Assignment)
            → value g m s x ≡ little_endian (initial_value g s id) ((bits w + 7) / 8) % 2 ^ bits w)
  unfolding bits create_temp_read
  create_temp_read_lem bool = low_bit
  create_temp_read_lem int8 = whole 8 1 _ refl refl (byte g m id 0, refl, first_byte)
  create_temp_read_lem int16 = whole 16 2 _ refl refl two_bytes
  create_temp_read_lem int32 = whole 32 4 _ refl refl four_bytes
  create_temp_read_lem int64 = whole 64 8 _ refl refl eight_bytes
