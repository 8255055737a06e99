-- ===== src/Searcher/Learned/Greedy.antt =====
-- The choice of MLSearcher, and MLSearcher against the contract of a strategy.
use learch.Prelude.{
  ◌>>=◌, ℕ, ◌+◌, ◌≤◌, ◌<◌, ◌≡◌, refl, sym, ap, ◌∙◌, Bool, true, false, not, List, [], ◌∷◌, Option,
  some, ◌==◌, if◌then◌else◌, map, length, length-map, arith, Bool-cases, inl, inr, none≢some,
  some-pair,
}
use learch.Tree.Order.{Compare}
use learch.Searcher.{State}
use learch.Searcher.Base.Laws.{is_empty-count, get_elem?-picked, get_elem?-found}
use learch.Searcher.Counting.{count, >>=-some}
use learch.Searcher.Contract.{IsCall, Contract, Always}
use learch.Searcher.Unique.{unique_update, unique_update-count, unique_update-found}
use learch.Searcher.Learned.{
  Learned, set_at, batch, predict_all, best_from, best, choose, forget, learned_select,
  learned_update, learned_searcher,
}
use learch.Searcher.Learned.Predicting.{predict_all-Stored, predict_all-rewards, predict_all-found}

-- The loop returns its start or a state of the list.
best_from-count :
    {R : Type 0} (lt : R → R → Bool) (reward : State → R) (xs : List State) (b : State)
    → 0 < count (best_from lt reward xs b) (b ∷ xs)
unfolding best_from
best_from-count lt reward [] b = ground arith
best_from-count lt reward (x ∷ xs) b =
    ground (arith, best_from-count lt reward xs b, best_from-count lt reward xs x)

count-le : (x : State) (xs : List State) → count x xs ≤ length xs
count-le x [] = omega arith
count-le x (y ∷ xs) = ground (arith, count-le x xs)

-- No state of the list beats what the loop returns.
module _ {R : Type 0} (cmp : Compare R) where
  open cmp use {lt, lt_irrefl, lt_trans, lt_cotrans}

  best_from-start :
      (reward : State → R) (xs : List State) (b : State)
      → lt (reward (best_from lt reward xs b)) (reward b) ≡ false
  unfolding best_from
  best_from-start reward [] b = lt_irrefl (reward b)
  best_from-start reward (x ∷ xs) b = elim (Bool-cases (lt (reward b) (reward x))) [
    | inl better ↦ rw better (
        ground (
          arith,
          best_from-start reward xs x,
          lt_trans (reward (best_from lt reward xs x)) (reward b) (reward x),
        ))
    | inr worse ↦ rw worse (best_from-start reward xs b)
  ]

  best_from-head :
      (reward : State → R) (xs : List State) (b x : State)
      → lt (reward (best_from lt reward (x ∷ xs) b)) (reward x) ≡ false
  unfolding best_from
  best_from-head reward xs b x = elim (Bool-cases (lt (reward b) (reward x))) [
    | inl better ↦ rw better (best_from-start reward xs x)
    | inr worse ↦ rw worse (
        ground (
          arith,
          best_from-start reward xs b,
          lt_cotrans (reward (best_from lt reward xs b)) (reward b) (reward x),
        ))
  ]

  best_from-largest :
      (reward : State → R) (xs : List State) (b y : State)
      → 0 < count y xs
      → lt (reward (best_from lt reward xs b)) (reward y) ≡ false
  unfolding best_from
  best_from-largest reward [] b y h = elim h [ ]
  best_from-largest reward (x ∷ xs) b y h = elim (Bool-cases (y == x)) [
    | inl same ↦ let e : y ≡ x = ground arith in rw e (best_from-head reward xs b x)
    | inr other ↦
        best_from-largest reward xs (if lt (reward b) (reward x) then x else b) y (ground arith)
  ]

  best-largest :
      (reward : State → R) (xs : List State) (x y : State)
      → best lt reward xs ≡ some x
      → 0 < count y xs
      → lt (reward x) (reward y) ≡ false
  unfolding best
  best-largest reward [] x y h p = elim p [ ]
  best-largest reward (z ∷ xs) x y h p =
      let e : best_from lt reward xs z ≡ x = ground arith in
      rw (← e) (elim (Bool-cases (y == z)) [
        | inl same ↦ let q : y ≡ z = ground arith in rw q (best_from-start reward xs z)
        | inr other ↦ best_from-largest reward xs z y (ground arith)
      ])

best-count :
    {R : Type 0} (lt : R → R → Bool) (reward : State → R) (xs : List State) (x : State)
    → best lt reward xs ≡ some x
    → 0 < count x xs
unfolding best
best-count lt reward [] x h = absurd (none≢some h)
best-count lt reward (z ∷ xs) x h = ground (arith, best_from-count lt reward xs z)

best-found :
    {R : Type 0} (lt : R → R → Bool) (reward : State → R) (xs : List State) (x : State)
    → 0 < count x xs
    → (y : State) × (best lt reward xs ≡ some y)
unfolding best
best-found lt reward [] x h = elim h [ ]
best-found lt reward (z ∷ xs) x h = (best_from lt reward xs z, refl)

-- What a greedy selection of `x` is like, from `s` to `s'`: `scored` gives the rewards that were
-- compared.
pub record IsGreedy {R : Type 0} (cmp : Compare R) (nothing : R) (predict : List State → List R)
    (s s' : Learned R) (scored : State → R) (x : State) : Type 0 where
  -- A state with a prediction is compared by its reward, and the others, in the vector's order, by
  -- those that the model gives.
  pub kept : (y : State) → s.predicted y ≡ true → scored y ≡ s.reward y
  pub asked : map scored (batch s.states s.predicted) ≡ predict (batch s.states s.predicted)
  -- A held state, whose reward no held state exceeds.
  pub held : 0 < count x s.states
  pub largest : (y : State) → 0 < count y s.states → cmp.lt (scored x) (scored y) ≡ false
  -- After it only the selected state needs a new prediction; the others keep the rewards.
  pub same_states : s'.states ≡ s.states
  pub forgotten : (y : State) → 0 < count y s.states → s'.predicted y ≡ not (y == x)
  pub rewarded : (y : State) → s'.reward y ≡ (if y == x then nothing else scored y)

forgotten_at :
    (predicted : State → Bool) (y x z : State)
    → y ≡ x
    → predicted z ≡ true
    → set_at predicted y false z ≡ not (z == x)
forgotten_at predicted y x z p h = rw p (ground arith)

module _ {R : Type 0} (cmp : Compare R) (nothing : R) (predict : List State → List R)
    (answers : (xs : List State) → length (predict xs) ≡ length xs) (sample : List R → ℕ) where
  open cmp use {lt}

  -- Without sampling, with a model that gives one reward for each state it is asked about and a
  -- vector without repetitions, a selection of MLSearcher that succeeds takes a held state whose
  -- reward no held state exceeds. The reward of a state that had a prediction is the stored one, and
  -- the states without one have the model's rewards, in the order of the vector. Afterwards just the
  -- selected state needs a new prediction and has no reward; the other states have the rewards that
  -- were compared, and the vector is the same.
  pub learned_select-IsGreedy :
      (s : Learned R) (x : State) (s' : Learned R)
      → ((y : State) → count y s.states ≤ 1)
      → learned_select lt nothing predict false sample s ≡ some (x, s')
      → (scored : State → R) × IsGreedy cmp nothing predict s s' scored x
  unfolding learned_select choose forget
  learned_select-IsGreedy s x s' once h = >>=-some (predict_all predict s) _ h λ scored e h₁.
      >>=-some (best lt scored.reward scored.states) _ h₁ λ y e₁ h₂.
        let st = predict_all-Stored predict s scored e in
        let (p, q) = some-pair h₂ in
        (
          scored.reward,
          record {
            kept = λ z c. (st.kept z c).0;
            asked = predict_all-rewards predict answers s scored once e;
            held = rw (← p, ← st.same_states) (best-count lt scored.reward scored.states y e₁);
            largest = λ z c.
                rw p at (best-largest cmp scored.reward scored.states y z e₁ (rw st.same_states c));
            same_states = ap (λ t. t.states) (sym q) ∙ st.same_states;
            forgotten = λ z c.
                ap (λ t. t.predicted z) (sym q)
                ∙ forgotten_at scored.predicted y x z p (st.all_predicted z c);
            rewarded =
                λ z. ap (λ t. t.reward z) (sym q) ∙ ap (λ b. set_at scored.reward b nothing z) p;
          },
        )

module _ {R : Type 0} (lt : R → R → Bool) (nothing : R) (predict : List State → List R)
    (answers : (xs : List State) → length (predict xs) ≡ length xs) (sampling : Bool)
    (sample : List R → ℕ) (in_range : (rs : List R) → 0 < length rs → sample rs < length rs) where
  choose-count :
      (s : Learned R) (x : State)
      → choose lt nothing predict sampling sample s ≡ some x
      → 0 < count x s.states
  unfolding choose
  choose-count s x h = elim (Bool-cases sampling) [
    | inl sampled ↦ get_elem?-picked s.states (sample (map s.reward s.states)) x (rw sampled at h)
    | inr greedy ↦ best-count lt s.reward s.states x (rw greedy at h)
  ]

  choose-found :
      (s : Learned R) (x : State)
      → 0 < count x s.states
      → (y : State) × (choose lt nothing predict sampling sample s ≡ some y)
  unfolding choose
  choose-found s x h = elim (Bool-cases sampling) [
    | inl sampled ↦
        let (y, e) = get_elem?-found s.states (sample (map s.reward s.states)) (
          omega (
            arith,
            in_range (map s.reward s.states),
            length-map s.states s.reward,
            count-le x s.states,
          )) in
        (y, rw sampled e)
    | inr greedy ↦ let (y, e) = best-found lt s.reward s.states x h in (y, rw greedy e)
  ]

  learned_select-held :
      (s : Learned R) (x : State) (s' : Learned R)
      → learned_select lt nothing predict sampling sample s ≡ some (x, s')
      → (0 < count x s.states) × ((y : State) → count y s'.states ≡ count y s.states)
  unfolding learned_select forget
  learned_select-held s x s' h = >>=-some (predict_all predict s) _ h λ scored e h₁.
      >>=-some (choose lt nothing predict sampling sample scored) _ h₁ λ y e₁ h₂.
        let st = predict_all-Stored predict s scored e in
        let (p, q) = some-pair h₂ in
        (
          rw p at (rw st.same_states at (choose-count scored y e₁)),
          λ z. ap (λ t. count z t.states) (sym q) ∙ ap (count z) st.same_states,
        )

  learned_select-found :
      (s : Learned R) (x : State)
      → 0 < count x s.states
      → (r : State × Learned R) × (learned_select lt nothing predict sampling sample s ≡ some r)
  unfolding learned_select
  learned_select-found s x h =
      let (scored, e) = predict_all-found predict answers s in
      let st = predict_all-Stored predict s scored e in
      let (y, e₁) = choose-found scored x (rw st.same_states h) in
      ((y, forget lt nothing predict sampling sample scored y), rw (e, ◌>>=◌, e₁))

  learned_update-held :
      (s : Learned R) (current : Option State) (added removed : List State) (s' : Learned R)
      → IsCall (λ x. count x s.states) current added removed
      → learned_update lt nothing predict sampling sample s current added removed ≡ some s'
      → (x : State) → count x s'.states + count x removed ≡ count x s.states + count x added
  unfolding learned_update
  learned_update-held s current added removed s' call h x =
      >>=-some (unique_update s.states added removed) _ h λ ys e h₁. ground (
        arith,
        unique_update-count s.states added removed ys x e
            (omega (arith, call.known x, call.fresh x)),
      )

  learned_update-found :
      (s : Learned R) (current : Option State) (added removed : List State)
      → IsCall (λ x. count x s.states) current added removed
      → (s' : Learned R) × (learned_update lt nothing predict sampling sample s current added
            removed
          ≡ some s')
  unfolding learned_update
  learned_update-found s current added removed call =
      let (ys, e) = unique_update-found s.states added removed current call in
      (record s { states = ys }, rw e)

  -- MLSearcher keeps the contract, greedy or sampling, with a model that gives one reward for each
  -- state it is asked about and samples an index in range.
  pub learned_searcher-Contract :
      Contract
        (learned_searcher lt nothing predict sampling sample)
        (λ s x. count x s.states)
        Always
  unfolding learned_searcher
  learned_searcher-Contract = record {
    update_held =
        λ s c added removed s' _ call h. (tt, learned_update-held s c added removed s' call h);
    update_found = λ s c added removed _ call. learned_update-found s c added removed call;
    select_held = λ s random x s' _ h. let (p, q) = learned_select-held s x s' h in (tt, p, q);
    select_found = λ s random x _ h. learned_select-found s x h;
    empty_held = λ s _. is_empty-count s.states;
  }
