-- ===== src/Tree/Order.antt =====
-- The class's parameter CMP as an interface, and the reference operations on sorted lists that the
-- tree of ImmutableTree.h stands for.
use learch.Prelude.{
  ℕ, ltb, ◌≡◌, refl, sym, Bool, true, false, List, [], ◌∷◌, ◌++◌, Option, none, some, arith,
  if◌then◌else◌, Bool-cases, inl, inr,
}

-- A strict weak order, as the standard library asks of a comparison.
pub record Compare {κ} (K : Type κ) : Type κ where
  pub lt : K → K → Bool
  pub lt_irrefl : (a : K) → lt a a ≡ false
  pub lt_trans : (a b c : K) → lt a b ≡ true → lt b c ≡ true → lt a c ≡ true
  pub lt_cotrans : (a b c : K) → lt a c ≡ true → lt a b ≡ false → lt b c ≡ true

-- The three outcomes of the two comparisons that each step down the tree makes.
pub data Compared {κ} {K : Type κ} (lt : K → K → Bool) (a b : K) : Type 0 where
  less : lt a b ≡ true → Compared lt a b
  more : lt a b ≡ false → lt b a ≡ true → Compared lt a b
  same : lt a b ≡ false → lt b a ≡ false → Compared lt a b

pub compared {κ} : {K : Type κ} (lt : K → K → Bool) (a b : K) → Compared lt a b
compared lt a b = elim (Bool-cases (lt a b)) [
  | inl h ↦ less h
  | inr h ↦ elim (Bool-cases (lt b a)) [ inl g ↦ more h g | inr g ↦ same h g ]
]

abbrev pub cons? {ℓ} : {V : Type ℓ} → Option V → List V → List V
cons? none xs = xs
cons? (some x) xs = x ∷ xs

cons?-append {ℓ} :
    {V : Type ℓ} (o : Option V) (xs ys : List V) → cons? o xs ++ ys ≡ cons? o (xs ++ ys)
cons?-append none xs ys = refl
cons?-append (some x) xs ys = refl

module _ {ℓ κ} {K : Type κ} {V : Type ℓ} (cmp : Compare K) (key : V → K) where
  open cmp use {lt, lt_irrefl, lt_trans, lt_cotrans}

  -- Every value of the list has a key above, or below, `k`.
  abbrev pub Above : K → List V → Type 0
  Above k [] = Unit {0}
  Above k (x ∷ xs) = (lt k (key x) ≡ true) × Above k xs

  abbrev pub Below : K → List V → Type 0
  Below k [] = Unit {0}
  Below k (x ∷ xs) = (lt (key x) k ≡ true) × Below k xs

  abbrev pub IsSorted : List V → Type 0
  IsSorted [] = Unit {0}
  IsSorted (x ∷ xs) = Above (key x) xs × IsSorted xs

  -- A change at key `k`: `absent` goes where no value has the key, `present x` replaces the value
  -- `x` that has it.
  unfoldable pub edit : K → Option V → (V → Option V) → List V → List V
  edit k absent present [] = cons? absent []
  edit k absent present (x ∷ xs) =
      if lt k (key x)
      then cons? absent (x ∷ xs)
      else if lt (key x) k
      then x ∷ edit k absent present xs
      else cons? (present x) xs

  abbrev pub insert : V → List V → List V
  insert v = edit (key v) (some v) some

  abbrev pub replace : V → List V → List V
  replace v = edit (key v) (some v) (λ _. some v)

  abbrev pub remove : K → List V → List V
  remove k = edit k none (λ _. none)

  unfoldable pub lookup : K → List V → Option V
  lookup k [] = none
  lookup k (x ∷ xs) = if lt k (key x) then none else if lt (key x) k then lookup k xs else some x

  -- The last value with a key not above `k`.
  unfoldable pub previous : K → List V → Option V → Option V
  previous k [] best = best
  previous k (x ∷ xs) best = if lt k (key x) then best else previous k xs (some x)

  pub Above-mono : (a b : K) (xs : List V) → lt a b ≡ true → Above b xs → Above a xs
  Above-mono a b [] h s = tt
  Above-mono a b (x ∷ xs) h s = (lt_trans a b (key x) h s.0, Above-mono a b xs h s.1)

  pub Above-same :
      (a b : K) (xs : List V) → lt a b ≡ false → lt b a ≡ false → Above b xs → Above a xs
  Above-same a b [] h g s = tt
  Above-same a b (x ∷ xs) h g s = (lt_cotrans b a (key x) s.0 g, Above-same a b xs h g s.1)

  -- A sorted list splits at any value.
  pub IsSorted-append :
      (xs : List V) (y : V) (ys : List V)
      → IsSorted (xs ++ y ∷ ys)
      → IsSorted xs × Below (key y) xs × Above (key y) ys × IsSorted ys
  IsSorted-append [] y ys s = (tt, tt, s.0, s.1)
  IsSorted-append (x ∷ xs) y ys s =
      let r = IsSorted-append xs y ys s.1 in
      let a = Above-append x xs y ys s.0 in ((a.0, r.0), (a.1, r.1), r.2, r.3)
    where
      Above-append :
          (x : V) (xs : List V) (y : V) (ys : List V)
          → Above (key x) (xs ++ y ∷ ys)
          → Above (key x) xs × (lt (key x) (key y) ≡ true)
      Above-append x [] y ys s = (tt, s.0)
      Above-append x (z ∷ xs) y ys s = let r = Above-append x xs y ys s.1 in ((s.0, r.0), r.1)

  module _ (k : K) (absent : Option V) (present : V → Option V) where
    pub edit_left :
        (xs : List V) (y : V) (ys : List V)
        → lt k (key y) ≡ true
        → edit k absent present (xs ++ y ∷ ys) ≡ edit k absent present xs ++ y ∷ ys
    unfolding edit
    edit_left [] y ys h = rw h (sym (cons?-append absent [] (y ∷ ys)))
    edit_left (x ∷ xs) y ys h = ground (
      arith,
      edit_left xs y ys h,
      cons?-append absent (x ∷ xs) (y ∷ ys),
      cons?-append (present x) xs (y ∷ ys),
    )

    pub edit_right :
        (xs : List V) (y : V) (ys : List V)
        → lt (key y) k ≡ true
        → Below (key y) xs
        → edit k absent present (xs ++ y ∷ ys) ≡ xs ++ y ∷ edit k absent present ys
    unfolding edit
    edit_right [] y ys h b = ground (arith, lt_trans k (key y) k, lt_irrefl k)
    edit_right (x ∷ xs) y ys h b = ground (
      arith,
      edit_right xs y ys h b.1,
      lt_trans (key x) (key y) k,
      lt_trans k (key x) k,
      lt_irrefl k,
    )

    pub edit_same :
        (xs : List V) (y : V) (ys : List V)
        → lt k (key y) ≡ false
        → lt (key y) k ≡ false
        → Below (key y) xs
        → edit k absent present (xs ++ y ∷ ys) ≡ xs ++ cons? (present y) ys
    unfolding edit
    edit_same [] y ys h e b = rw (h, e)
    edit_same (x ∷ xs) y ys h e b =
        ground (
          arith,
          edit_same xs y ys h e b.1,
          lt_cotrans (key x) k (key y),
          lt_trans k (key x) (key y),
        )

  module _ (k : K) where
    pub lookup_left :
        (xs : List V) (y : V) (ys : List V)
        → lt k (key y) ≡ true
        → lookup k (xs ++ y ∷ ys) ≡ lookup k xs
    unfolding lookup
    lookup_left [] y ys h = rw h
    lookup_left (x ∷ xs) y ys h = ground (arith, lookup_left xs y ys h)

    pub lookup_right :
        (xs : List V) (y : V) (ys : List V)
        → lt (key y) k ≡ true
        → Below (key y) xs
        → lookup k (xs ++ y ∷ ys) ≡ lookup k ys
    unfolding lookup
    lookup_right [] y ys h b = ground (arith, lt_trans k (key y) k, lt_irrefl k)
    lookup_right (x ∷ xs) y ys h b = ground (
      arith,
      lookup_right xs y ys h b.1,
      lt_trans (key x) (key y) k,
      lt_trans k (key x) k,
      lt_irrefl k,
    )

    pub lookup_same :
        (xs : List V) (y : V) (ys : List V)
        → lt k (key y) ≡ false
        → lt (key y) k ≡ false
        → Below (key y) xs
        → lookup k (xs ++ y ∷ ys) ≡ some y
    unfolding lookup
    lookup_same [] y ys h e b = rw (h, e)
    lookup_same (x ∷ xs) y ys h e b = ground (
      arith,
      lookup_same xs y ys h e b.1,
      lt_cotrans (key x) k (key y),
      lt_trans k (key x) (key y),
    )

    pub previous_left :
        (xs : List V) (y : V) (ys : List V) (best : Option V)
        → lt k (key y) ≡ true
        → previous k (xs ++ y ∷ ys) best ≡ previous k xs best
    unfolding previous
    previous_left [] y ys best h = rw h
    previous_left (x ∷ xs) y ys best h = ground (arith, previous_left xs y ys (some x) h)

    pub previous_right :
        (xs : List V) (y : V) (ys : List V) (best : Option V)
        → lt k (key y) ≡ false
        → Below (key y) xs
        → previous k (xs ++ y ∷ ys) best ≡ previous k ys (some y)
    unfolding previous
    previous_right [] y ys best h b = rw h
    previous_right (x ∷ xs) y ys best h b =
        ground (arith, previous_right xs y ys (some x) h b.1, lt_trans k (key x) (key y))

    pub previous-Above : (xs : List V) (best : Option V) → Above k xs → previous k xs best ≡ best
    unfolding previous
    previous-Above [] best a = refl
    previous-Above (x ∷ xs) best a = rw a.0

-- The order of the numbers.
pub ltb_irrefl : (a : ℕ) → ltb a a ≡ false
ltb_irrefl a = ground arith

pub ltb_trans : (a b c : ℕ) → ltb a b ≡ true → ltb b c ≡ true → ltb a c ≡ true
ltb_trans a b c h g = ground arith

pub ltb_cotrans : (a b c : ℕ) → ltb a c ≡ true → ltb a b ≡ false → ltb b c ≡ true
ltb_cotrans a b c h g = ground arith

abbrev pub numbers : Compare ℕ
numbers = record {
  lt = ltb;
  lt_irrefl = ltb_irrefl;
  lt_trans = ltb_trans;
  lt_cotrans = ltb_cotrans;
}
