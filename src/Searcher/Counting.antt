-- ===== src/Searcher/Counting.antt =====
-- How often a state stands in a vector, and what removal does to that.
use learch.Prelude.{
  ◌>>=◌, ℕ, ◌+◌, ◌≤◌, ◌<◌, ◌≡◌, refl, Bool, true, false, List, [], ◌∷◌, ◌++◌, Option, none, some,
  ◌==◌, if◌then◌else◌, arith, Bool-cases, inl, inr, none≢some,
}
use learch.Searcher.{State, contains, erase_first, remove_all, remove_unique}

-- A chain that succeeds, taken apart.
pub >>=-some {ℓ κ μ} :
    {A : Type ℓ} {B : Type κ} {P : Type μ} (m : Option A) (f : A → Option B) {b : B}
    → (m >>= f) ≡ some b
    → ((a : A) → m ≡ some a → f a ≡ some b → P)
    → P
>>=-some none f h k = absurd (none≢some h)
>>=-some (some a) f h k = k a refl h

pub >>=-found {ℓ κ} :
    {A : Type ℓ} {B : Type κ} (m : Option A) (f : A → Option B) {a : A} {b : B}
    → m ≡ some a
    → f a ≡ some b
    → (m >>= f) ≡ some b
>>=-found m f e h = rw e h

abbrev pub count : State → List State → ℕ
count es [] = 0
count es (x ∷ xs) = (if es == x then 1 else 0) + count es xs

pub count-append :
    (es : State) (xs ys : List State) → count es (xs ++ ys) ≡ count es xs + count es ys
count-append es [] ys = omega arith
count-append es (x ∷ xs) ys = omega (arith, count-append es xs ys)

pub contains-count : (es : State) (xs : List State) → contains es xs ≡ true → 0 < count es xs
unfolding contains
contains-count es [] h = cc
contains-count es (x ∷ xs) h = ground (arith, contains-count es xs)

pub contains_none : (es : State) (xs : List State) → contains es xs ≡ false → count es xs ≡ 0
unfolding contains
contains_none es [] h = refl
contains_none es (x ∷ xs) h = ground (arith, contains_none es xs)

-- A step that takes one occurrence of a state away, and fails only where there is none.
pub record Removes (step : State → List State → Option (List State)) : Type 0 where
  pub taken :
      (es : State) (xs ys : List State) (x : State)
      → step es xs ≡ some ys
      → count x ys + count x (es ∷ []) ≡ count x xs
  pub found :
      (es : State) (xs : List State) → 0 < count es xs → (ys : List State) × (step es xs ≡ some ys)

pub erase_first-taken :
    (es : State) (xs ys : List State) (x : State)
    → erase_first es xs ≡ some ys
    → count x ys + count x (es ∷ []) ≡ count x xs
unfolding erase_first
erase_first-taken es [] ys x h = cc
erase_first-taken es (y ∷ xs) ys x h = elim (Bool-cases (es == y)) [
  | inl same ↦ ground arith
  | inr other ↦
      >>=-some (erase_first es xs) (λ rest. some (y ∷ rest)) (rw other at h)
        λ zs e e'. ground (arith, erase_first-taken es xs zs x e)
]

pub erase_first-found :
    (es : State) (xs : List State)
    → 0 < count es xs
    → (ys : List State) × (erase_first es xs ≡ some ys)
unfolding erase_first
erase_first-found es [] h = elim h [ ]
erase_first-found es (y ∷ xs) h = elim (Bool-cases (es == y)) [
  | inl same ↦ (xs, rw same)
  | inr other ↦ let (ys, e) = erase_first-found es xs (ground arith) in (y ∷ ys, rw (other, e))
]

pub erase_first-Removes : Removes erase_first
erase_first-Removes = record { taken = erase_first-taken; found = erase_first-found }

module _ {step : State → List State → Option (List State)} (s : Removes step) where
  pub remove_all-count :
      (removed xs ys : List State)
      → remove_all step removed xs ≡ some ys
      → (x : State) → count x ys + count x removed ≡ count x xs
  unfolding remove_all
  remove_all-count [] xs ys h x = ground arith
  remove_all-count (es ∷ removed) xs ys h x =
      >>=-some (step es xs) (remove_all step removed) h
        λ zs e h₁. omega (arith, s.taken es xs zs x e, remove_all-count removed zs ys h₁ x)

  pub remove_all-found :
      (removed xs : List State)
      → ((x : State) → count x removed ≤ count x xs)
      → (ys : List State) × (remove_all step removed xs ≡ some ys)
  unfolding remove_all
  remove_all-found [] xs h = (xs, refl)
  remove_all-found (es ∷ removed) xs h =
      let (zs, e) = s.found es xs (ground (arith, h es)) in
      let (ys, e') = remove_all-found removed zs (λ x. omega (arith, h x, s.taken es xs zs x e)) in
      (ys, rw (e, e'))

  -- The vector after an update that appends and then removes.
  pub append_remove-count :
      (states added removed ys : List State)
      → remove_all step removed (states ++ added) ≡ some ys
      → (x : State) → count x ys + count x removed ≡ count x states + count x added
  append_remove-count states added removed ys h x =
      omega (arith, remove_all-count removed (states ++ added) ys h x, count-append x states added)

abbrev pub one_if : Bool → ℕ
one_if true = 1
one_if false = 0

-- A state is taken once however often it is listed, unless it was seen before.
pub remove_unique-count :
    (seen removed xs ys : List State)
    → remove_unique seen removed xs ≡ some ys
    → (x : State)
    → count x ys + (if contains x seen then 0 else one_if (contains x removed)) ≡ count x xs
unfolding remove_unique contains
remove_unique-count seen [] xs ys h x = ground arith
remove_unique-count seen (es ∷ removed) xs ys h x = elim (Bool-cases (contains es seen)) [
  | inl old ↦
      ground (arith, remove_unique-count seen removed xs ys (rw (old, remove_unique) at h) x)
  | inr new ↦
      >>=-some (erase_first es xs) (remove_unique (es ∷ seen) removed)
        (rw (new, remove_unique) at h)
        λ zs e h₁. ground (
          arith,
          remove_unique-count (es ∷ seen) removed zs ys h₁ x,
          erase_first-taken es xs zs x e,
        )
]

contains-cons :
    (x es : State) (xs : List State) → contains x xs ≡ true → contains x (es ∷ xs) ≡ true
unfolding contains
contains-cons x es xs h = ground arith

contains_self : (es : State) (xs : List State) → contains es (es ∷ xs) ≡ true
unfolding contains
contains_self es xs = ground arith

contains-tail :
    (x es : State) (xs : List State) → contains x (es ∷ xs) ≡ false → contains x xs ≡ false
unfolding contains
contains-tail x es xs h = ground arith

contains-head : (x es : State) (xs : List State) → contains x (es ∷ xs) ≡ false → x == es ≡ false
unfolding contains
contains-head x es xs h = ground arith

-- It fails only where a listed state is not in the vector.
pub remove_unique-found :
    (seen removed xs : List State)
    → ((x : State) → contains x seen ≡ false → contains x removed ≡ true → 0 < count x xs)
    → (ys : List State) × (remove_unique seen removed xs ≡ some ys)
unfolding remove_unique
remove_unique-found seen [] xs h = (xs, refl)
remove_unique-found seen (es ∷ removed) xs h = elim (Bool-cases (contains es seen)) [
  | inl old ↦
      let (ys, e) =
        remove_unique-found seen removed xs (λ x n c. h x n (contains-cons x es removed c)) in
      (ys, rw (old, remove_unique) e)
  | inr new ↦
      let (zs, e) = erase_first-found es xs (h es new (contains_self es removed)) in
      let (ys, e') = remove_unique-found (es ∷ seen) removed zs (λ x n c.
        still x zs e n (h x (contains-tail x es seen n) (contains-cons x es removed c))) in
      (ys, rw (new, remove_unique) (rw (e, e')))
]
  where
    still :
        (x : State) (zs : List State)
        → erase_first es xs ≡ some zs
        → contains x (es ∷ seen) ≡ false
        → 0 < count x xs
        → 0 < count x zs
    still x zs e n p = ground (arith, erase_first-taken es xs zs x e, contains-head x es seen n)
