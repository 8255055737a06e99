-- ===== src/Searcher/Learned/Predicting.antt =====
-- The predictions of MLSearcher: which states the model is asked about, and what is stored.
use mathlib.Core.Path.{ap₂}
use learch.Prelude.{
  ap, sym, ◌≤◌, ◌<◌, ◌≡◌, refl, ◌∙◌, Bool, true, false, List, [], ◌∷◌, some, ◌==◌, length, map,
  arith, Bool-cases, inl, inr, false≢true, none≢some,
}
use learch.Searcher.{State}
use learch.Searcher.Base.{is_empty}
use learch.Searcher.Counting.{count}
use learch.Searcher.Learned.{Learned, set_at, batch, rate, store, predict_all}

-- Marking a state as predicted makes no batch longer.
length-batch_set :
    (xs : List State) (p : State → Bool) (x : State)
    → length (batch xs (set_at p x true)) ≤ length (batch xs p)
unfolding batch
length-batch_set [] p x = omega arith
length-batch_set (y ∷ xs) p x = ground (arith, length-batch_set xs p x)

-- A state that is not in the list.
batch_set :
    (xs : List State) (p : State → Bool) (x : State)
    → count x xs ≡ 0
    → batch xs (set_at p x true) ≡ batch xs p
unfolding batch
batch_set [] p x h = refl
batch_set (y ∷ xs) p x h = elim (Bool-cases (y == x)) [
  | inl same ↦ absurd (ground arith)
  | inr other ↦ elim (Bool-cases (p y)) [
    | inl old ↦ rw (other, old) (batch_set xs p x (ground arith))
    | inr new ↦ rw (other, new) (ap (λ ys. y ∷ ys) (batch_set xs p x (ground arith)))
  ]
]

length-is_empty : (xs : List State) → is_empty xs ≡ true → length xs ≡ 0
length-is_empty [] h = refl
length-is_empty (x ∷ xs) h = absurd (false≢true h)

batch-predicted :
    (xs : List State) (p : State → Bool) (y : State)
    → length (batch xs p) ≡ 0
    → 0 < count y xs
    → p y ≡ true
unfolding batch
batch-predicted [] p y e h = elim h [ ]
batch-predicted (x ∷ xs) p y e h = ground (arith, batch-predicted xs p y)

module _ {R : Type 0} where
  -- What the loop over the rewards makes of the fields.
  pub record Stored (xs : List State) (s s' : Learned R) : Type 0 where
    pub same_states : s'.states ≡ s.states
    pub kept :
        (y : State) → s.predicted y ≡ true → (s'.reward y ≡ s.reward y) × (s'.predicted y ≡ true)
    pub all_predicted : (y : State) → 0 < count y xs → s'.predicted y ≡ true

  Stored-old :
      (x : State) (xs : List State) (s s' : Learned R)
      → s.predicted x ≡ true
      → Stored xs s s'
      → Stored (x ∷ xs) s s'
  Stored-old x xs s s' old st = record {
    same_states = st.same_states;
    kept = st.kept;
    all_predicted = λ y h. elim (Bool-cases (y == x)) [
      | inl same ↦ ground (arith, (st.kept x old).1)
      | inr other ↦ st.all_predicted y (ground arith)
    ];
  }

  kept_rate :
      (x : State) (r : R) (s : Learned R) (y : State)
      → s.predicted x ≡ false
      → s.predicted y ≡ true
      → ((rate s x r).predicted y ≡ true) × ((rate s x r).reward y ≡ s.reward y)
  kept_rate x r s y new h = elim (Bool-cases (y == x)) [
    | inl same ↦ absurd (ground arith)
    | inr other ↦ rw other (h, refl)
  ]

  Stored-new :
      (x : State) (xs : List State) (r : R) (s s' : Learned R)
      → s.predicted x ≡ false
      → Stored xs (rate s x r) s'
      → Stored (x ∷ xs) s s'
  Stored-new x xs r s s' new st = record {
    same_states = st.same_states;
    kept = λ y h. let (p, q) = kept_rate x r s y new h in let (a, b) = st.kept y p in (a ∙ q, b);
    all_predicted = λ y h. elim (Bool-cases (y == x)) [
      | inl same ↦ (st.kept y (rw same)).1
      | inr other ↦ st.all_predicted y (ground arith)
    ];
  }

  store-Stored :
      (xs : List State) (rewards : List R) (s s' : Learned R)
      → store xs rewards s ≡ some s'
      → Stored xs s s'
  unfolding store
  store-Stored [] rewards s s' h = record {
    same_states = ground arith;
    kept = λ y p. ground arith;
    all_predicted = λ y p. elim p [ ];
  }
  store-Stored (x ∷ xs) [] s s' h = elim (Bool-cases (s.predicted x)) [
    | inl old ↦ Stored-old x xs s s' old (store-Stored xs [] s s' (rw (old, store) at h))
    | inr new ↦ absurd (none≢some (rw (new, store) at h))
  ]
  store-Stored (x ∷ xs) (r ∷ rest) s s' h = elim (Bool-cases (s.predicted x)) [
    | inl old ↦ Stored-old x xs s s' old (store-Stored xs (r ∷ rest) s s' (rw (old, store) at h))
    | inr new ↦
        Stored-new x xs r s s' new (store-Stored xs rest (rate s x r) s' (rw (new, store) at h))
  ]

  -- The loop gives the states without a prediction the rewards in their order.
  store-rewards :
      (xs : List State) (rewards : List R) (s s' : Learned R)
      → ((y : State) → count y xs ≤ 1)
      → length rewards ≡ length (batch xs s.predicted)
      → store xs rewards s ≡ some s'
      → map s'.reward (batch xs s.predicted) ≡ rewards
  unfolding store batch
  store-rewards [] [] s s' once same h = refl
  store-rewards [] (r ∷ rest) s s' once same h = absurd (omega (arith, same))
  store-rewards (x ∷ xs) [] s s' once same h = elim (Bool-cases (s.predicted x)) [
    | inl old ↦ rw old (
        store-rewards xs [] s s' (λ y. ground (arith, once y)) (ground (arith, same))
          (rw (old, store) at h))
    | inr new ↦ absurd (none≢some (rw (new, store) at h))
  ]
  store-rewards (x ∷ xs) (r ∷ rest) s s' once same h = elim (Bool-cases (s.predicted x)) [
    | inl old ↦ rw old (
        store-rewards xs (r ∷ rest) s s' (λ y. ground (arith, once y)) (ground (arith, same))
          (rw (old, store) at h))
    | inr new ↦
        let next : store xs rest (rate s x r) ≡ some s' = rw (new, store) at h in
        let unseen : batch xs (set_at s.predicted x true) ≡ batch xs s.predicted =
          batch_set xs s.predicted x (ground (arith, once x)) in
        let own : s'.reward x ≡ r =
          ((store-Stored xs rest (rate s x r) s' next).kept x (ground arith)).0 ∙ ground arith in
        let others =
          store-rewards xs rest (rate s x r) s' (λ y. ground (arith, once y))
            (ground (arith, same, ap length unseen)) next in
        rw new (ap₂ (λ a rs. a ∷ rs) own (ap (map s'.reward) (sym unseen) ∙ others))
  ]

  store-found :
      (xs : List State) (rewards : List R) (s : Learned R)
      → length (batch xs s.predicted) ≤ length rewards
      → (s' : Learned R) × (store xs rewards s ≡ some s')
  unfolding store batch
  store-found [] rewards s h = (s, refl)
  store-found (x ∷ xs) [] s h = elim (Bool-cases (s.predicted x)) [
    | inl old ↦ let (s', e) = store-found xs [] s (ground arith) in (s', rw (old, store) e)
    | inr new ↦ absurd (ground arith)
  ]
  store-found (x ∷ xs) (r ∷ rest) s h = elim (Bool-cases (s.predicted x)) [
    | inl old ↦ let (s', e) = store-found xs (r ∷ rest) s (ground arith) in (s', rw (old, store) e)
    | inr new ↦
        let (s', e) =
          store-found xs rest (rate s x r) (ground (arith, length-batch_set xs s.predicted x)) in
        (s', rw (new, store) e)
  ]

  pub predict_all-Stored :
      (predict : List State → List R) (s s' : Learned R)
      → predict_all predict s ≡ some s'
      → Stored s.states s s'
  unfolding predict_all
  predict_all-Stored predict s s' h = elim (Bool-cases (is_empty (batch s.states s.predicted))) [
    | inl none_left ↦
        let e : some s ≡ some s' = rw none_left at h in
        record {
          same_states = ground arith;
          kept = λ y p. ground arith;
          all_predicted = λ y p.
              ground
                (arith, batch-predicted s.states s.predicted y (length-is_empty _ none_left) p);
        }
    | inr some_left ↦
        store-Stored s.states (predict (batch s.states s.predicted)) s s' (rw some_left at h)
  ]

  -- The held states without a prediction get the model's rewards, in their order.
  pub predict_all-rewards :
      (predict : List State → List R)
      → ((xs : List State) → length (predict xs) ≡ length xs)
      → (s s' : Learned R) → ((y : State) → count y s.states ≤ 1)
      → predict_all predict s ≡ some s'
      → map s'.reward (batch s.states s.predicted) ≡ predict (batch s.states s.predicted)
  unfolding predict_all
  predict_all-rewards predict answers s s' once h =
      let asked = batch s.states s.predicted in
      elim (Bool-cases (is_empty asked)) [
        | inl none_left ↦ nothing_asked s'.reward asked (length-is_empty asked none_left)
        | inr some_left ↦
            store-rewards s.states (predict asked) s s' once (answers asked) (rw some_left at h)
      ]
    where
      nothing_asked :
          (reward : State → R) (xs : List State) → length xs ≡ 0 → map reward xs ≡ predict xs
      nothing_asked reward [] e = sym (empty (predict []) (answers []))
        where
          empty : (rs : List R) → length rs ≡ 0 → rs ≡ []
          empty [] e = refl
          empty (r ∷ rs) e = absurd (omega (arith, e))
      nothing_asked reward (x ∷ xs) e = absurd (omega (arith, e))

  pub predict_all-found :
      (predict : List State → List R)
      → ((xs : List State) → length (predict xs) ≡ length xs)
      → (s : Learned R) → (s' : Learned R) × (predict_all predict s ≡ some s')
  unfolding predict_all
  predict_all-found predict answers s = elim (Bool-cases (is_empty (batch s.states s.predicted))) [
    | inl none_left ↦ (s, rw none_left)
    | inr some_left ↦
        let (s', e) =
          store-found s.states (predict (batch s.states s.predicted)) s
            (omega (arith, answers (batch s.states s.predicted))) in
        (s', rw some_left e)
  ]
