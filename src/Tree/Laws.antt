-- ===== src/Tree/Laws.antt =====
-- Changes of, and lookups in, a sorted list without equal keys.
use learch.Prelude.{
  ◌≡◌, refl, ◌∙◌, Bool, true, false, not, ◌&&◌, List, [], ◌∷◌, Option, none, some, arith,
  if◌then◌else◌,
}
use learch.Tree.Order.{
  Compare, Above, Above-mono, Above-same, IsSorted, compared, less, more, same, cons?, edit, lookup,
}

module _ {ℓ κ} {K : Type κ} {V : Type ℓ} (cmp : Compare K) (key : V → K) where
  open cmp use {lt, lt_irrefl, lt_trans, lt_cotrans}

  abbrev pub equivalent : K → K → Bool
  equivalent a b = not (lt a b) && not (lt b a)

  -- The value, if there is one, has a key equivalent to `k`.
  abbrev pub Keyed : K → Option V → Type 0
  Keyed k none = Unit {0}
  Keyed k (some y) = (lt k (key y) ≡ false) × (lt (key y) k ≡ false)

  lt_keyed : (a k b : K) → lt a k ≡ true → lt b k ≡ false → lt a b ≡ true
  lt_keyed a k b h g = ground (arith, lt_cotrans a b k)

  Above-cons? :
      (a k : K) (o : Option V) (xs : List V)
      → lt a k ≡ true
      → Keyed k o
      → Above cmp key a xs
      → Above cmp key a (cons? o xs)
  Above-cons? a k none xs h e s = s
  Above-cons? a k (some y) xs h e s = (ground (arith, lt_cotrans a (key y) k), s)

  IsSorted-cons? :
      (k : K) (o : Option V) (xs : List V)
      → Keyed k o
      → Above cmp key k xs
      → IsSorted cmp key xs
      → IsSorted cmp key (cons? o xs)
  IsSorted-cons? k none xs e a s = s
  IsSorted-cons? k (some y) xs e a s = (Above-same cmp key (key y) k xs e.1 e.0 a, s)

  lookup-Above : (q : K) (xs : List V) → Above cmp key q xs → lookup cmp key q xs ≡ none
  unfolding lookup
  lookup-Above q [] a = refl
  lookup-Above q (x ∷ xs) a = rw a.0

  lookup-cons? :
      (q k : K) (o : Option V) (xs : List V)
      → Keyed k o
      → Above cmp key k xs
      → lookup cmp key q (cons? o xs) ≡ (if equivalent q k then o else lookup cmp key q xs)
  unfolding lookup
  lookup-cons? q k none xs e a = elim (compared lt q k) [
    | less h ↦ rw h
    | more h g ↦ rw (h, g)
    | same h g ↦ rw (h, g) (lookup-Above q xs (Above-same cmp key q k xs h g a))
  ]
  lookup-cons? q k (some y) xs e a = elim (compared lt q k) [
    | less h ↦
        rw h (
          ground (arith, lt_cotrans q (key y) k, lookup-Above q xs (Above-mono cmp key q k xs h a)))
    | more h g ↦
        rw (h, g) (ground (arith, lt_cotrans k (key y) q, lt_trans q (key y) q, lt_irrefl q))
    | same h g ↦ rw (h, g) (ground (arith, lt_cotrans q k (key y), lt_cotrans (key y) k q))
  ]

  -- A lookup elsewhere passes over a value that has the key `k`.
  lookup_rest :
      (q k : K) (x : V) (xs : List V) (o : Option V)
      → lt k (key x) ≡ false
      → lt (key x) k ≡ false
      → Above cmp key (key x) xs
      → (if equivalent q k then o else lookup cmp key q xs)
        ≡ (if equivalent q k then o else lookup cmp key q (x ∷ xs))
  unfolding lookup
  lookup_rest q k x xs o e f a = elim (compared lt q k) [
    | less h ↦
        let below = lt_keyed q k (key x) h f in
        rw (h, below) (lookup-Above q xs (Above-mono cmp key q (key x) xs below a))
    | more h g ↦
        rw (h, g) (ground (arith, lt_cotrans k (key x) q, lt_trans q (key x) q, lt_irrefl q))
    | same h g ↦ rw (h, g)
  ]

  module _ (k : K) (absent : Option V) (present : V → Option V) (keyed : Keyed k absent)
      (keeps : (x : V) → lt k (key x) ≡ false → lt (key x) k ≡ false → Keyed k (present x)) where
    Above-edit :
        (a : K) (xs : List V)
        → lt a k ≡ true
        → Above cmp key a xs
        → Above cmp key a (edit cmp key k absent present xs)
    unfolding edit
    Above-edit a [] h s = Above-cons? a k absent [] h keyed s
    Above-edit a (x ∷ xs) h s = elim (compared lt k (key x)) [
      | less e ↦ rw e (Above-cons? a k absent (x ∷ xs) h keyed s)
      | more e f ↦ rw (e, f) (s.0, Above-edit a xs h s.1)
      | same e f ↦ rw (e, f) (Above-cons? a k (present x) xs h (keeps x e f) s.1)
    ]

    -- A change keeps the list sorted.
    pub edit-IsSorted :
        (xs : List V) → IsSorted cmp key xs → IsSorted cmp key (edit cmp key k absent present xs)
    unfolding edit
    edit-IsSorted [] s = IsSorted-cons? k absent [] keyed tt tt
    edit-IsSorted (x ∷ xs) s = elim (compared lt k (key x)) [
      | less e ↦
          rw e (IsSorted-cons? k absent (x ∷ xs) keyed (e, Above-mono cmp key k (key x) xs e s.0) s)
      | more e f ↦ rw (e, f) (Above-edit (key x) xs f s.0, edit-IsSorted xs s.1)
      | same e f ↦
          rw (e, f)
            (IsSorted-cons? k (present x) xs (keeps x e f) (Above-same cmp key k (key x) xs e f s.0)
              s.1)
    ]

    -- What a lookup finds after a change.
    pub lookup-edit :
        (q : K) (xs : List V)
        → IsSorted cmp key xs
        → lookup cmp key q (edit cmp key k absent present xs) ≡ (
            if equivalent q k
            then (elim (lookup cmp key k xs) [ none ↦ absent | some x ↦ present x ])
            else lookup cmp key q xs)
    unfolding edit lookup
    lookup-edit q [] s = lookup-cons? q k absent [] keyed tt
    lookup-edit q (x ∷ xs) s = elim (compared lt k (key x)) [
      | less e ↦
          rw e (lookup-cons? q k absent (x ∷ xs) keyed (e, Above-mono cmp key k (key x) xs e s.0))
      | more e f ↦
          rw (e, f)
            (elim (compared lt q (key x)) [
              | less h ↦ rw h (rw (lt_trans q (key x) k h f))
              | more h g ↦ rw (h, g) (lookup-edit q xs s.1)
              | same h g ↦ rw (h, g) (rw (lt_cotrans (key x) q k f g))
            ])
      | same e f ↦
          rw (e, f)
            (lookup-cons? q k (present x) xs (keeps x e f) (Above-same cmp key k (key x) xs e f s.0)
              ∙ lookup_rest q k x xs (present x) e f s.0)
    ]
