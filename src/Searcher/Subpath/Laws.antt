-- ===== src/Searcher/Subpath/Laws.antt =====
-- SubpathGuidedSearcher against the contract of a strategy, its choice, and the counts of
-- subpaths.
use mathlib.Core.Path.{subst}
use learch.Prelude.{
  ℕ, suc, leb, ◌≢◌, length, drop, ◌+◌, ◌-◌, ◌%◌, ◌^◌, ◌≤◌, ◌<◌, ◌≡◌, refl, sym, ap, ◌∙◌, ◌↔◌, Bool,
  true, List, [], ◌∷◌, some, if◌then◌else◌, arith, Bool-cases, inl, inr, some-pair, some_injective,
}
use learch.Searcher.{State}
use learch.Searcher.Base.{random_element}
use learch.Searcher.Base.Laws.{is_empty-count, random_element-picked}
use learch.Searcher.Counting.{count, >>=-some, >>=-found}
use learch.Searcher.Contract.{Contract}
use learch.Searcher.Unique.{unique_update, unique_update-count, unique_update-found}
use learch.Searcher.Subpath.Chosen.{
  AllAt-count, least-le, select_set-AllAt, select_set-count, select_set-found,
  random_element-filled,
}
use learch.Searcher.Subpath.{
  Subpath, same_subpath, get_subpath, Counts, get_subpath_count, inc_subpath, Guided, rarity,
  select_set, guided_select, guided_update, guided_searcher,
}

same_subpath_iff : (p q : Subpath) → (same_subpath p q ≡ true) ↔ (p ≡ q)
unfolding same_subpath
same_subpath_iff [] [] = (λ e. refl, λ e. refl)
same_subpath_iff [] ((c, d) ∷ q) = ground arith
same_subpath_iff ((a, b) ∷ p) [] = ground arith
same_subpath_iff ((a, b) ∷ p) ((c, d) ∷ q) = ground (arith, same_subpath_iff p q)

-- `incSubpath` counts its own subpath once more, modulo 2 ^ 64, and no other.
get_subpath_count-inc_subpath :
    (p q : Subpath) (counts : Counts)
    → get_subpath_count q (inc_subpath p counts) ≡ (
        if same_subpath p q
        then (get_subpath_count q counts + 1) % 2 ^ 64
        else get_subpath_count q counts)
unfolding get_subpath_count inc_subpath
get_subpath_count-inc_subpath p q [] = ground (arith, same_subpath_iff p q, same_subpath_iff q p)
get_subpath_count-inc_subpath p q ((r, n) ∷ counts) = ground (
  arith,
  same_subpath_iff p q,
  same_subpath_iff p r,
  same_subpath_iff q r,
  get_subpath_count-inc_subpath p q counts,
)

inc_subpath-own :
    (p : Subpath) (counts : Counts)
    → get_subpath_count p (inc_subpath p counts) ≡ (get_subpath_count p counts + 1) % 2 ^ 64
inc_subpath-own p counts =
    let same : same_subpath p p ≡ true = (same_subpath_iff p p).1 refl in
    get_subpath_count-inc_subpath p p counts ∙ rw same refl

inc_subpath-other :
    (p q : Subpath) (counts : Counts)
    → p ≢ q
    → get_subpath_count p (inc_subpath q counts) ≡ get_subpath_count p counts
inc_subpath-other p q counts other = elim (Bool-cases (same_subpath q p)) [
  | inl same ↦ absurd (other (sym ((same_subpath_iff q p).0 same)))
  | inr differs ↦ get_subpath_count-inc_subpath q p counts ∙ rw differs refl
]

-- The last `n` branches of a path, or all of them where there are fewer.
unfoldable pub recent : ℕ → Subpath → Subpath
recent n [] = []
recent n (b ∷ branches) =
    let rest = recent n branches in if leb (length (b ∷ branches)) n then b ∷ branches else rest

drop-recent : (n : ℕ) (branches : Subpath) → drop (length branches - n) branches ≡ recent n branches
unfolding recent
drop-recent n [] = let nothing_left : 0 - n ≡ 0 = omega arith in rw nothing_left refl
drop-recent n (b ∷ branches) = elim (Bool-cases (leb (length (b ∷ branches)) n)) [
  | inl few ↦ let all : suc (length branches) - n ≡ 0 = ground arith in rw (few, all) refl
  | inr many ↦
      let one : suc (length branches) - n ≡ suc (length branches - n) = ground arith in
      rw (many, one) (drop-recent n branches)
]

get_subpath-recent :
    (branches : Subpath) (index : ℕ) → get_subpath branches index ≡ recent (2 ^ index) branches
unfolding get_subpath
get_subpath-recent branches index =
    ap (λ n. drop n branches) (ground arith) ∙ drop-recent (2 ^ index) branches

-- Every count fits its `unsigned long`.
abbrev pub Fit : Counts → Type 0
Fit [] = Unit {0}
Fit ((p, n) ∷ counts) = (n < 2 ^ 64) × Fit counts

get_subpath_count-lt :
    (p : Subpath) (counts : Counts) → Fit counts → get_subpath_count p counts < 2 ^ 64
unfolding get_subpath_count
get_subpath_count-lt p [] f = omega arith
get_subpath_count-lt p ((q, n) ∷ counts) f = ground (arith, get_subpath_count-lt p counts f.1)

inc_subpath-Fit : (p : Subpath) (counts : Counts) → Fit counts → Fit (inc_subpath p counts)
unfolding inc_subpath
inc_subpath-Fit p [] f = (omega arith, tt)
inc_subpath-Fit p ((q, n) ∷ counts) f = elim (Bool-cases (same_subpath p q)) [
  | inl same ↦ rw same (omega arith, f.1)
  | inr other ↦ rw other (f.0, inc_subpath-Fit p counts f.1)
]

module _ (feature_extract : Bool) (index : ℕ) where
  abbrev pub after_select : Guided → State → Guided
  after_select g es =
      if feature_extract
      then g
      else record g { counts = inc_subpath (get_subpath (g.branches es) index) g.counts }

  -- The choice in the words of the code.
  guided_select-after :
      (g : Guided) (random : ℕ) (x : State) (g' : Guided)
      → guided_select feature_extract index g random ≡ some (x, g')
      → ((y : State) → 0 < count y g.states → rarity g index x ≤ rarity g index y)
        × (0 < count x g.states)
        × (g' ≡ after_select g x)
  unfolding guided_select
  guided_select-after g random x g' h =
      let curr = rarity g index in
      let chosen = select_set curr g.states (2 ^ 64 - 1) [] in
      >>=-some (random_element chosen random) _ h λ z e h₁.
        let (p, q) = some-pair h₁ in
        let stands = random_element-picked random chosen z e in
        let low =
          AllAt-count curr _ chosen z (select_set-AllAt curr g.states (2 ^ 64 - 1) [] tt) stands in
        (
          λ y k.
              subst (λ t. curr t ≤ curr y) p
                (omega (arith, low, (least-le curr g.states (2 ^ 64 - 1)).1 y k)),
          subst (λ t. 0 < count t g.states) p
              (omega (arith, select_set-count curr g.states (2 ^ 64 - 1) [] z stands)),
          sym q ∙ ap (after_select g) p,
        )

  abbrev pub own : Guided → State → Subpath
  own g es = recent (2 ^ index) (g.branches es)

  -- What a selection of `x` is like, from `g` to `g'`.
  pub record IsRarest (g g' : Guided) (x : State) : Type 0 where
    pub held : 0 < count x g.states
    -- The last branches of no held state were counted less often.
    pub least :
        (y : State)
        → 0 < count y g.states
        → get_subpath_count (own g x) g.counts ≤ get_subpath_count (own g y) g.counts
    pub same_states : g'.states ≡ g.states
    pub same_branches : g'.branches ≡ g.branches
    -- They are counted once more, and no others.
    pub counted : get_subpath_count (own g x) g'.counts ≡ (
        if feature_extract
        then get_subpath_count (own g x) g.counts
        else (get_subpath_count (own g x) g.counts + 1) % 2 ^ 64)
    pub others :
        (p : Subpath) → p ≢ own g x → get_subpath_count p g'.counts ≡ get_subpath_count p g.counts

  -- Where the selected state's branches are the ones that are counted.
  after_select-IsRarest :
      (g : Guided) (x : State)
      → ((y : State) → 0 < count y g.states → rarity g index x ≤ rarity g index y)
      → 0 < count x g.states
      → IsRarest g (after_select g x) x
  unfolding rarity
  after_select-IsRarest g x least held =
      let recent_of = λ (y : State). get_subpath-recent (g.branches y) index in
      record {
        held = held;
        least = λ y c. rw (recent_of x, recent_of y) at (least y c);
        same_states = ground arith;
        same_branches = ground arith;
        counted = elim (Bool-cases feature_extract) [
          | inl only ↦ rw only refl
          | inr run ↦ rw (run, recent_of x) (inc_subpath-own (own g x) g.counts)
        ];
        others = λ p other. elim (Bool-cases feature_extract) [
          | inl only ↦ rw only refl
          | inr run ↦ rw (run, recent_of x) (inc_subpath-other p (own g x) g.counts other)
        ];
      }

  -- A selection of SubpathGuidedSearcher that succeeds takes a held state whose last `1 << index`
  -- branches (all of them, where there are fewer) were counted no more often than those of any held
  -- state. These branches are then counted once more, modulo 2 ^ 64, unless the run only extracts
  -- features, and no other count changes, nor do the vector and the branches.
  pub guided_select-IsRarest :
      (g : Guided) (random : ℕ) (x : State) (g' : Guided)
      → guided_select feature_extract index g random ≡ some (x, g')
      → IsRarest g g' x
  guided_select-IsRarest g random x g' h =
      let (least, held, after) = guided_select-after g random x g' h in
      subst (λ t. IsRarest g t x) (sym after) (after_select-IsRarest g x least held)

  states-after_select : (g : Guided) (x : State) → (after_select g x).states ≡ g.states
  states-after_select g x = ground arith

  counts-after_select : (g : Guided) (x : State) → Fit g.counts → Fit (after_select g x).counts
  counts-after_select g x f = elim (Bool-cases feature_extract) [
    | inl only ↦ rw only f
    | inr run ↦ rw run (inc_subpath-Fit _ g.counts f)
  ]

  guided_select-found :
      (g : Guided) (random : ℕ) (xs : List State) (x : State)
      → g.states ≡ xs
      → Fit g.counts
      → 0 < count x xs
      → (r : State × Guided) × (guided_select feature_extract index g random ≡ some r)
  unfolding guided_select rarity
  guided_select-found g random [] x e f h = elim h [ ]
  guided_select-found g random (y ∷ xs) x e f h =
      let curr = rarity g index in
      let filled =
        select_set-found curr y xs (2 ^ 64 - 1)
          (omega (arith, get_subpath_count-lt (get_subpath (g.branches y) index) g.counts f)) in
      let (z, e₁) =
        random_element-filled random (select_set curr g.states (2 ^ 64 - 1) []) (rw e filled) in
      (
        (z, after_select g z),
        >>=-found (random_element (select_set curr g.states (2 ^ 64 - 1) []) random) _ e₁ refl,
      )

  -- SubpathGuidedSearcher keeps the contract, with counts that fit 64 bits.
  pub guided_searcher-Contract :
      Contract (guided_searcher feature_extract index) (λ g x. count x g.states) (λ g. Fit g.counts)
  unfolding guided_searcher guided_update
  guided_searcher-Contract = record {
    update_held = λ g current added removed g' f call h.
        >>=-some (unique_update g.states added removed) _ h λ ys e h₁.
          let q = some_injective h₁ in
          (
            subst (λ t. Fit t.counts) q f,
            λ x.
                ap (λ t. count x t.states + count x removed) (sym q)
                ∙ unique_update-count g.states added removed ys x e
                    (omega (arith, call.known x, call.fresh x)),
          );
    update_found = λ g current added removed f call.
        let (ys, e) = unique_update-found g.states added removed current call in
        (record g { states = ys }, rw e);
    select_held = λ g random x g' f h.
        let (_, present, q) = guided_select-after g random x g' h in
        (
          subst (λ t. Fit t.counts) (sym q) (counts-after_select g x f),
          present,
          λ y. ap (λ t. count y t.states) q ∙ ap (count y) (states-after_select g x),
        );
    select_found = λ g random x f h. guided_select-found g random g.states x refl f h;
    empty_held = λ g _. is_empty-count g.states;
  }
