-- ===== src/Executor/Actions.antt =====
-- What an instruction may do to the added and the removed states, and how the counts of states in
-- updateStates of klee/lib/Core/Executor.cpp add up.
use learch.Prelude.{◌+◌, ◌≤◌, ◌<◌, ◌≡◌, List, [], ◌∷◌, arith, Bool-cases, inl, inr}
use learch.Searcher.{State, contains}
use learch.Searcher.Counting.{count, count-append, contains-count, contains_none}
use learch.Executor.{
  Pending, Action, fork, terminate, erase_state, terminate_state, perform, perform_all,
  insert_state, insert_all, erase_all,
}

-- A forked state has an address of its own, and a state that ends is alive.
abbrev pub Can : List State → Pending → Action → Type 0
Can states p (fork es) = count es states + count es p.added ≡ 0
Can states p (terminate es) = count es p.removed < count es states + count es p.added

abbrev pub AllCan : List State → Pending → List Action → Type 0
AllCan states p [] = Unit {0}
AllCan states p (a ∷ actions) = Can states p a × AllCan states (perform p a) actions

-- Added states are new, each once, and removed states are the executor's own, each once.
pub record IsPending (states : List State) (p : Pending) : Type 0 where
  pub fresh : (x : State) → count x states + count x p.added ≤ 1
  pub owned : (x : State) → count x p.removed ≤ count x states

pub erase_state-count :
    (es : State) (xs : List State) (x : State)
    → 0 < count es xs
    → count x (erase_state es xs) + count x (es ∷ []) ≡ count x xs
unfolding erase_state
erase_state-count es [] x h = elim h [ ]
erase_state-count es (y ∷ xs) x h = ground (arith, erase_state-count es xs x)

terminate_state-IsPending :
    (states : List State) (p : Pending) (es : State)
    → count es p.removed < count es states + count es p.added
    → IsPending states p
    → IsPending states (terminate_state p es)
unfolding terminate_state
terminate_state-IsPending states p es h i = elim (Bool-cases (contains es p.added)) [
  | inl new ↦ rw new (record {
    fresh = λ x.
        omega (arith, i.fresh x, erase_state-count es p.added x (contains-count es p.added new));
    owned = i.owned;
  })
  | inr old ↦ rw old (record {
    fresh = i.fresh;
    owned = λ x.
        ground (arith, count-append x p.removed (es ∷ []), contains_none es p.added old, i.owned x);
  })
]

perform-IsPending :
    (states : List State) (p : Pending) (a : Action)
    → Can states p a
    → IsPending states p
    → IsPending states (perform p a)
unfolding perform
perform-IsPending states p (fork es) c i = record {
  fresh = λ x. ground (arith, count-append x p.added (es ∷ []), i.fresh x);
  owned = i.owned;
}
perform-IsPending states p (terminate es) c i = terminate_state-IsPending states p es c i

pub perform_all-IsPending :
    (states : List State) (p : Pending) (actions : List Action)
    → AllCan states p actions
    → IsPending states p
    → IsPending states (perform_all p actions)
unfolding perform_all
perform_all-IsPending states p [] c i = i
perform_all-IsPending states p (a ∷ actions) c i =
    perform_all-IsPending states (perform p a) actions c.1 (perform-IsPending states p a c.0 i)

pub insert_state-count :
    (es : State) (states : List State) (x : State)
    → count es states ≡ 0
    → count x (insert_state es states) ≡ count x (es ∷ []) + count x states
unfolding insert_state
insert_state-count es states x h = ground (arith, contains-count es states)

insert_all-count :
    (added states : List State) (x : State)
    → ((y : State) → count y states + count y added ≤ 1)
    → count x (insert_all added states) ≡ count x states + count x added
unfolding insert_all
insert_all-count [] states x h = omega arith
insert_all-count (es ∷ added) states x h =
    let absent : count es states ≡ 0 = ground (arith, h es) in
    omega (
      arith,
      insert_state-count es states x absent,
      insert_all-count added (insert_state es states) x
          (λ y. omega (arith, h y, insert_state-count es states y absent)),
    )

erase_all-count :
    (removed states : List State) (x : State)
    → ((y : State) → count y removed ≤ count y states)
    → count x (erase_all removed states) + count x removed ≡ count x states
unfolding erase_all
erase_all-count [] states x h = omega arith
erase_all-count (es ∷ removed) states x h =
    let present : 0 < count es states = ground (arith, h es) in
    omega (
      arith,
      erase_state-count es states x present,
      erase_all-count removed (erase_state es states) x
          (λ y. omega (arith, h y, erase_state-count es states y present)),
    )

-- What updateStates makes of the executor's set.
pub erase_insert-count :
    (states : List State) (p : Pending) (x : State)
    → IsPending states p
    → count x (erase_all p.removed (insert_all p.added states)) + count x p.removed
      ≡ count x states + count x p.added
erase_insert-count states p x i = omega (
  arith,
  insert_all-count p.added states x i.fresh,
  erase_all-count p.removed (insert_all p.added states) x
      (λ y. omega (arith, i.owned y, insert_all-count p.added states y i.fresh)),
)
