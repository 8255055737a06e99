-- ===== src/Searcher/Learned.antt =====
-- MLSearcher of klee/lib/Core/Searcher.cpp, Learch's learned strategy. The Python model is the
-- parameter `predict`, which gives a reward for each state of a batch; rewards are a type with a
-- comparison. With `sampling` the model's `sample` picks an index. The hidden vectors that a
-- recurrent model hands from one call to the next stay inside `predict`.
pub mod Predicting
pub mod Greedy
use learch.Prelude.{
  ◌>>=◌, ℕ, zero, suc, Bool, true, false, List, [], ◌∷◌, Option, none, some, ◌==◌, if◌then◌else◌,
  map, get_elem?,
}
use learch.Searcher.{State, Searcher}
use learch.Searcher.Base.{is_empty}
use learch.Searcher.Unique.{unique_update}

-- The vector, and the two fields of each state that the strategy writes.
pub record Learned {ℓ} (R : Type ℓ) : Type ℓ where
  pub states : List State
  pub predicted : State → Bool
  pub reward : State → R

abbrev pub set_at {ℓ} : {A : Type ℓ} → (State → A) → State → A → State → A
set_at f x a y = if y == x then a else f y

abbrev pub rate {ℓ} : {R : Type ℓ} → Learned R → State → R → Learned R
rate s x r = record s { predicted = set_at s.predicted x true; reward = set_at s.reward x r }

-- The states without a prediction, in the order of the vector.
unfoldable pub batch : List State → (State → Bool) → List State
batch [] predicted = []
batch (x ∷ xs) predicted = if predicted x then batch xs predicted else x ∷ batch xs predicted

module _ {R : Type 0} where
  -- The second loop takes the rewards one by one; it faults where there are too few.
  unfoldable pub store : List State → List R → Learned R → Option (Learned R)
  store [] rewards s = some s
  store (x ∷ xs) rewards s = elim (s.predicted x) [
    | true ↦ store xs rewards s
    | false ↦ elim rewards [ [] ↦ none | r ∷ rest ↦ store xs rest (rate s x r) ]
  ]

  unfoldable pub predict_all : (List State → List R) → Learned R → Option (Learned R)
  predict_all predict s =
      if is_empty (batch s.states s.predicted)
      then some s
      else store s.states (predict (batch s.states s.predicted)) s

  -- The greedy loop: the first of the largest rewards.
  unfoldable pub best_from : (R → R → Bool) → (State → R) → List State → State → State
  best_from lt reward [] best = best
  best_from lt reward (x ∷ xs) best =
      best_from lt reward xs (if lt (reward best) (reward x) then x else best)

  unfoldable pub best : (R → R → Bool) → (State → R) → List State → Option State
  best lt reward [] = none
  best lt reward (x ∷ xs) = some (best_from lt reward xs x)

module _ {R : Type 0} (lt : R → R → Bool) (nothing : R) (predict : List State → List R)
    (sampling : Bool) (sample : List R → ℕ) where
  unfoldable pub choose : Learned R → Option State
  choose s =
      if sampling
      then get_elem? s.states (sample (map s.reward s.states))
      else best lt s.reward s.states

  -- The selected state needs a new prediction.
  unfoldable pub forget : Learned R → State → Learned R
  forget s x = record s {
    predicted = set_at s.predicted x false;
    reward = set_at s.reward x nothing;
  }

  unfoldable pub learned_select : Learned R → Option (State × Learned R)
  learned_select s = do s' ← predict_all predict s; x ← choose s'; some (x, forget s' x)

  unfoldable pub learned_update :
      Learned R → Option State → List State → List State → Option (Learned R)
  learned_update s current added removed = do
    states ← unique_update s.states added removed
    some (record s { states = states })

  unfoldable pub learned_searcher : Searcher (Learned R)
  learned_searcher = record {
    select = λ s random. learned_select s;
    update = learned_update;
    empty = λ s. is_empty s.states;
  }
