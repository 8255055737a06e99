-- ===== src/Solver/Range/Search.antt =====
-- The binary search of getRange: the border between bad and good outcomes, and its fuel.
use mathlib.Core.Path.{subst}
use native.Mathlib.Nat.{div-lt_iff_lt-mul, div-eq_of_lt, div-eq_of_lt-le}
use learch.Prelude.{
  ℕ, zero, suc, ◌+◌, ◌-◌, ◌*◌, ◌/◌, ◌^◌, ◌≤◌, ◌<◌, ◌≡◌, refl, sym, ap, ◌∙◌, Bool, true, false,
  Option, none, some, ltb, ◌==◌, Bool-cases, pow_split, pow_pos, inl, inr, arith, none≢some,
  some_injective,
}
use learch.Solver.{Logic, SolverImpl, Validity, and_then}
use learch.Solver.Meaning.{IsSatisfiable, Right}
use learch.Solver.Range.{max_value_of_n_bits, search}

-- A call gives a result, which means `T`, and the state keeps its invariant.
abbrev pub Gives : {S A : Type 0} → (S → Type 0) → (A → Type 0) → Option A × S → Type 0
Gives Inv T r = Inv r.1 × ((a : _) × (r.0 ≡ some a) × T a)

pub succeed-Gives :
    {S A : Type 0} (Inv : S → Type 0) (T : A → Type 0) (a : A) (s : S)
    → Inv s
    → T a
    → Gives Inv T (some a, s)
succeed-Gives Inv T a s i t = (i, (a, refl, t))

pub Right-Gives :
    {S A : Type 0} (Inv : S → Type 0) (T : A → Type 0) (r : Option A × S)
    → Right Inv T r
    → ((a : A) × (r.0 ≡ some a))
    → Gives Inv T r
Right-Gives Inv T r h f = (h.0, (f.0, f.1, h.1 f.0 f.1))

pub Gives-map :
    {S A : Type 0} (Inv : S → Type 0) {T U : A → Type 0} (r : Option A × S)
    → ((a : A) → T a → U a)
    → Gives Inv T r
    → Gives Inv U r
Gives-map Inv r f (i, (a, e, t)) = (i, (a, e, f a t))

pub and_then-Gives :
    {S A B : Type 0} {Inv : S → Type 0} {T : A → Type 0} {U : B → Type 0} (r : Option A × S)
    (f : A → S → Option B × S)
    → Gives Inv T r
    → ((a : A) (s : S) → T a → Inv s → Gives Inv U (f a s))
    → Gives Inv U (and_then r f)
and_then-Gives (none, s) f g next = absurd (none≢some g.1.1)
and_then-Gives {T} (some a, s) f g next = next a s (subst T (sym (some_injective g.1.1)) g.1.2) g.0

-- The solver always answers.
pub record IsComplete {S Q W : Type 0} (logic : Logic Q W) (m : SolverImpl S Q) (Inv : S → Type 0)
    : Type 0 where
  pub truth_found :
      (s : S) (q : Q)
      → Inv s
      → IsSatisfiable logic q
      → (b : Bool) × ((m.compute_truth s q).0 ≡ some b)
  pub validity_found :
      (s : S) (q : Q)
      → Inv s
      → IsSatisfiable logic q
      → (v : Validity) × ((m.compute_validity s q).0 ≡ some v)

module _ (Good Bad : ℕ → Type 0) (start top : ℕ) where
  abbrev pub Outcome : ℕ → Bool → Type 0
  Outcome n true = Good n
  Outcome n false = Bad n

  -- The search ends where the outcome turns from bad to good.
  abbrev pub Border : ℕ → Type 0
  Border n = (start ≤ n) × (n ≤ top) × Good n × (start < n → Bad (n - 1))

add_sub_one : (n : ℕ) → (n + 1) - 1 ≡ n
add_sub_one n = omega arith

mid-bounds : (lo hi : ℕ) → ltb lo hi ≡ true → (lo ≤ lo + (hi - lo) / 2) × (lo + (hi - lo) / 2 < hi)
mid-bounds lo hi h = ground arith

module _ {S : Type 0} (test : ℕ → S → Option Bool × S) where
  search_more :
      (fuel lo hi : ℕ) (s : S)
      → ltb lo hi ≡ true
      → search test (suc fuel) lo hi s
        ≡ and_then (test (lo + (hi - lo) / 2) s) λ res s'. elim res [
          | true ↦ search test fuel lo (lo + (hi - lo) / 2) s'
          | false ↦ search test fuel (lo + (hi - lo) / 2 + 1) hi s'
        ]
  unfolding search
  search_more fuel lo hi s h = rw (search, h)

  search_done :
      (fuel lo hi : ℕ) (s : S) → ltb lo hi ≡ false → search test fuel lo hi s ≡ (some lo, s)
  unfolding search
  search_done zero lo hi s h = rw (search, h)
  search_done (suc fuel) lo hi s h = rw (search, h)

pub branch-Gives :
    {S A : Type 0} (Inv : S → Type 0) (T : A → Type 0) (res : Bool) (x y : Option A × S)
    → (res ≡ true → Gives Inv T x)
    → (res ≡ false → Gives Inv T y)
    → Gives Inv T (elim res [ true ↦ x | false ↦ y ])
branch-Gives Inv T true x y f g = f refl
branch-Gives Inv T false x y f g = g refl

module _ {S : Type 0} (Inv : S → Type 0) (test : ℕ → S → Option Bool × S) (Good Bad : ℕ → Type 0)
    (start top : ℕ) where
  search-Border_done :
      (fuel lo hi : ℕ) (s : S)
      → ltb lo hi ≡ false
      → lo ≤ hi
      → hi ≤ top
      → start ≤ lo
      → (start < lo → Bad (lo - 1))
      → Good hi
      → Inv s
      → Gives Inv (Border Good Bad start top) (search test fuel lo hi s)
  search-Border_done fuel lo hi s done l t b bad good i =
      let q : hi ≡ lo = ground arith in
      rw (search_done test fuel lo hi s done) (
        succeed-Gives Inv (Border Good Bad start top) lo s i
          (b, omega arith, subst Good q good, bad))

  pub search-Border :
      ((n : ℕ) (s : S) → n < top → Inv s → Gives Inv (Outcome Good Bad start top n) (test n s))
      → (fuel lo hi : ℕ) (s : S) → hi - lo ≤ fuel
      → lo ≤ hi
      → hi ≤ top
      → start ≤ lo
      → (start < lo → Bad (lo - 1))
      → Good hi
      → Inv s
      → Gives Inv (Border Good Bad start top) (search test fuel lo hi s)
  search-Border asks zero lo hi s f l t b bad good i =
      search-Border_done zero lo hi s (ground arith) l t b bad good i
  search-Border asks (suc fuel) lo hi s f l t b bad good i = elim (Bool-cases (ltb lo hi)) [
    | inr done ↦ search-Border_done (suc fuel) lo hi s done l t b bad good i
    | inl more ↦
        let mid = lo + (hi - lo) / 2 in
        let (low, high) = mid-bounds lo hi more in
        rw (search_more test fuel lo hi s more) (
          and_then-Gives (test mid s) _ (asks mid s (omega arith) i) λ res s' o j.
            branch-Gives Inv (Border Good Bad start top) res _ _
              (λ q.
                search-Border asks fuel lo mid s' (omega arith) low (omega arith) b bad
                  (subst (Outcome Good Bad start top mid) q o) j)
              (λ q.
                search-Border asks fuel (mid + 1) hi s' (omega arith) (omega arith) t (omega arith)
                  (λ _. rw (add_sub_one mid) (subst (Outcome Good Bad start top mid) q o)) good j))
  ]

pub quotient_zero : (a n : ℕ) → a / 2 ^ n ≡ 0 → a < 2 ^ n
quotient_zero a n h =
    omega (arith, (div-lt_iff_lt-mul {k = 2 ^ n} {x = a} {y = 1} (pow_pos n)).0 (omega arith))

pub zero_quotient : (a n : ℕ) → a < 2 ^ n → a / 2 ^ n ≡ 0
zero_quotient a n h = div-eq_of_lt h

quotient_below : (k n m : ℕ) → (k + 1) * n ≡ m → 0 < n → (m - 1) / n ≡ k
quotient_below k n m h pos =
    let split : (k + 1) * n ≡ k * n + n = grind arith in
    div-eq_of_lt-le {k = k} n {m = m - 1} (omega arith) (omega arith)

-- The largest number of `n` bits.
pub max_value_of_n_bits-pow : (n : ℕ) → n ≤ 64 → max_value_of_n_bits n ≡ 2 ^ n - 1
unfolding max_value_of_n_bits
max_value_of_n_bits-pow n h = elim (Bool-cases (n == 0)) [
  | inl none_left ↦ let z : n ≡ 0 = ground arith in rw z
  | inr some_left ↦
      let whole : n + (64 - n) ≡ 64 = omega arith in
      let one_more : (2 ^ n - 1) + 1 ≡ 2 ^ n = omega (arith, pow_pos n) in
      let product : ((2 ^ n - 1) + 1) * 2 ^ (64 - n) ≡ 2 ^ 64 =
        rw one_more (sym (pow_split n (64 - n)) ∙ ap (λ t. 2 ^ t) whole) in
      rw some_left (quotient_below (2 ^ n - 1) (2 ^ (64 - n)) (2 ^ 64) product (pow_pos (64 - n)))
]
