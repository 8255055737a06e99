-- ===== src/Searcher/Subpath/Chosen.antt =====
-- The loop of SubpathGuidedSearcher that gathers the states of the least count.
use learch.Prelude.{
  ℕ, ◌+◌, ◌≤◌, ◌<◌, ◌≡◌, refl, true, false, List, [], ◌∷◌, ◌++◌, some, ltb, ◌==◌, if◌then◌else◌,
  length, length-append, lt→ltb, arith, Bool-cases, inl, inr, ◌⊎◌,
}
use learch.Searcher.{State}
use learch.Searcher.Base.{random_element}
use learch.Searcher.Base.Laws.{random_element-found}
use learch.Searcher.Counting.{count, count-append}
use learch.Searcher.Subpath.{select_set}

==_self : (a : ℕ) → a == a ≡ true
==_self a = ground arith

level→ltb : (a b : ℕ) → a ≡ b → ltb a b ≡ false
level→ltb a b h = ground arith

above→ltb : (a b : ℕ) → b < a → ltb a b ≡ false
above→ltb a b h = ground arith

pub random_element-filled :
    (random : ℕ) (xs : List State)
    → 0 < length xs
    → (y : State) × (random_element xs random ≡ some y)
random_element-filled random [] h = elim h [ ]
random_element-filled random (x ∷ xs) h = random_element-found random x xs

-- The loop's invariant: every chosen state has the count `low`, which bounds what was seen.
module _ (curr : State → ℕ) where
  abbrev pub AllAt : ℕ → List State → Type 0
  AllAt low [] = Unit {0}
  AllAt low (x ∷ xs) = (curr x ≡ low) × AllAt low xs

  AllAt-append :
      (low : ℕ) (xs : List State) (y : State)
      → AllAt low xs
      → curr y ≡ low
      → AllAt low (xs ++ y ∷ [])
  AllAt-append low [] y a h = (h, tt)
  AllAt-append low (x ∷ xs) y a h = (a.0, AllAt-append low xs y a.1 h)

  pub AllAt-count :
      (low : ℕ) (xs : List State) (y : State) → AllAt low xs → 0 < count y xs → curr y ≡ low
  AllAt-count low [] y a h = elim h [ ]
  AllAt-count low (x ∷ xs) y a h = ground (arith, AllAt-count low xs y a.1)

  -- The least count, from `start` on.
  unfoldable pub least : List State → ℕ → ℕ
  least [] start = start
  least (x ∷ xs) start = least xs (if ltb (curr x) start then curr x else start)

  pub least-le :
      (xs : List State) (start : ℕ)
      → (least xs start ≤ start) × ((y : State) → 0 < count y xs → least xs start ≤ curr y)
  unfolding least
  least-le [] start = (omega arith, λ y h. elim h [ ])
  least-le (x ∷ xs) start =
      let (low, all) = least-le xs (if ltb (curr x) start then curr x else start) in
      (
        ground arith,
        λ y h. elim (Bool-cases (y == x)) [
          | inl same ↦ ground arith
          | inr other ↦ all y (ground arith)
        ],
      )

  -- The three things that one round of the loop can do.
  select_set_step :
      (x : State) (xs : List State) (start : ℕ) (chosen : List State)
      → ((curr x < start)
          × (select_set curr (x ∷ xs) start chosen ≡ select_set curr xs (curr x) (x ∷ [])))
        ⊎ (((curr x ≡ start)
              × (select_set curr (x ∷ xs) start chosen
                  ≡ select_set curr xs start (chosen ++ x ∷ [])))
            ⊎ ((start < curr x)
                × (select_set curr (x ∷ xs) start chosen ≡ select_set curr xs start chosen)))
  unfolding select_set
  select_set_step x xs start chosen = elim (Bool-cases (ltb (curr x) start)) [
    | inl lower ↦ inl (ground arith, rw (lower, ==_self (curr x)))
    | inr level ↦ inr (elim (Bool-cases (curr x == start)) [
      | inl same ↦ inl (ground arith, rw (level, same))
      | inr above ↦ inr (ground arith, rw (level, above))
    ])
  ]

  pub select_set-AllAt :
      (xs : List State) (start : ℕ) (chosen : List State)
      → AllAt start chosen
      → AllAt (least xs start) (select_set curr xs start chosen)
  unfolding least
  select_set-AllAt [] start chosen a = unfold select_set in a
  select_set-AllAt (x ∷ xs) start chosen a = elim (select_set_step x xs start chosen) [
    | inl (lower, e) ↦ rw (e, lt→ltb _ _ lower) (select_set-AllAt xs (curr x) (x ∷ []) (refl, tt))
    | inr (inl (same, e)) ↦
        rw (e, level→ltb _ _ same)
          (select_set-AllAt xs start (chosen ++ x ∷ []) (AllAt-append start chosen x a same))
    | inr (inr (above, e)) ↦ rw (e, above→ltb _ _ above) (select_set-AllAt xs start chosen a)
  ]

  -- What is chosen stands in the vector.
  pub select_set-count :
      (xs : List State) (start : ℕ) (chosen : List State) (y : State)
      → 0 < count y (select_set curr xs start chosen)
      → 0 < count y xs + count y chosen
  select_set-count [] start chosen y h = unfold select_set in omega arith
  select_set-count (x ∷ xs) start chosen y h = elim (select_set_step x xs start chosen) [
    | inl (lower, e) ↦ omega (arith, select_set-count xs (curr x) (x ∷ []) y (rw e at h))
    | inr (inl (same, e)) ↦ omega (
      arith,
      select_set-count xs start (chosen ++ x ∷ []) y (rw e at h),
      count-append y chosen (x ∷ []),
    )
    | inr (inr (above, e)) ↦ omega (arith, select_set-count xs start chosen y (rw e at h))
  ]

  -- A state is chosen, once one has been or one is not above the start.
  select_set-length :
      (xs : List State) (start : ℕ) (chosen : List State)
      → 0 < length chosen
      → 0 < length (select_set curr xs start chosen)
  select_set-length [] start chosen h = unfold select_set in h
  select_set-length (x ∷ xs) start chosen h = elim (select_set_step x xs start chosen) [
    | inl (lower, e) ↦ rw e (select_set-length xs (curr x) (x ∷ []) (omega arith))
    | inr (inl (same, e)) ↦ rw e (
        select_set-length xs start (chosen ++ x ∷ [])
          (omega (arith, length-append chosen (x ∷ []))))
    | inr (inr (above, e)) ↦ rw e (select_set-length xs start chosen h)
  ]

  pub select_set-found :
      (x : State) (xs : List State) (start : ℕ)
      → curr x ≤ start
      → 0 < length (select_set curr (x ∷ xs) start [])
  select_set-found x xs start h = elim (select_set_step x xs start []) [
    | inl (lower, e) ↦ rw e (select_set-length xs (curr x) (x ∷ []) (omega arith))
    | inr (inl (same, e)) ↦ rw e (select_set-length xs start (x ∷ []) (omega arith))
    | inr (inr (above, e)) ↦ absurd (omega arith)
  ]
