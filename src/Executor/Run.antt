-- ===== src/Executor/Run.antt =====
-- The loop of Executor::run over a strategy of which only the contract is known.
use learch.Prelude.{
  ℕ, zero, suc, ◌≤◌, ◌<◌, ◌≡◌, refl, true, false, List, [], ◌∷◌, Option, none, some, arith, inl,
  inr, ◌⊎◌, none≢some, some_injective,
}
use learch.Searcher.{State, Searcher}
use learch.Searcher.Base.{is_empty}
use learch.Searcher.Counting.{count}
use learch.Searcher.Contract.{IsCall, Contract}
use learch.Executor.{
  Pending, nothing_pending, Action, perform_all, insert_all, erase_all, Executor, update_states,
  round, loop, run,
}
use learch.Executor.Actions.{AllCan, IsPending, perform_all-IsPending, erase_insert-count}

empty-Bool :
    (states : List State)
    → (is_empty states ≡ true) ⊎ ((x : State) × (is_empty states ≡ false) × (0 < count x states))
empty-Bool [] = inl refl
empty-Bool (x ∷ states) = inr (x, refl, ground arith)

module _ {S : Type 0} {m : Searcher S} {held : S → State → ℕ} {Inv : S → Type 0}
    (c : Contract m held Inv) where
  -- The searcher holds the executor's states, each once.
  pub record IsSynced (r : Executor S) : Type 0 where
    pub searcher_inv : Inv r.searcher
    pub mirrored : (x : State) → held r.searcher x ≡ count x r.states
    pub distinct : (x : State) → count x r.states ≤ 1

  update_states-IsSynced :
      (r : Executor S) (current : Option State) (p : Pending)
      → IsSynced r
      → IsPending r.states p
      → ((x : State) → current ≡ some x → 0 < count x r.states)
      → (r' : Executor S) × (update_states m r current p ≡ some r') × IsSynced r'
  unfolding update_states
  update_states-IsSynced r current p y i h =
      let call : IsCall (held r.searcher) current p.added p.removed = record {
        fresh = λ x. omega (arith, y.mirrored x, i.fresh x);
        known = λ x. omega (arith, y.mirrored x, i.owned x);
        present = λ x e. omega (arith, y.mirrored x, h x e);
      } in
      let (s, e) = c.update_found r.searcher current p.added p.removed y.searcher_inv call in
      let (inv, moved) =
        c.update_held r.searcher current p.added p.removed s y.searcher_inv call e in
      (
        record { states = erase_all p.removed (insert_all p.added r.states); searcher = s },
        rw e,
        record {
          searcher_inv = inv;
          mirrored = λ x. omega (arith, moved x, y.mirrored x, erase_insert-count r.states p x i);
          distinct = λ x. omega (arith, i.fresh x, i.owned x, erase_insert-count r.states p x i);
        },
      )

  module _ (random : ℕ → ℕ) (execute : ℕ → List State → State → List Action) where
    -- An instruction of a state that is alive forks new states and ends states that are alive.
    abbrev pub IsExecution : Type 0
    IsExecution =
        (k : ℕ) (states : List State) (x : State)
        → 0 < count x states
        → AllCan states nothing_pending (execute k states x)

    round-IsSynced :
        (k : ℕ) (r : Executor S) (x : State)
        → IsExecution
        → IsSynced r
        → 0 < count x r.states
        → (r' : Executor S) × (round m random execute k r ≡ some r') × IsSynced r'
    unfolding round
    round-IsSynced k r x fair y h =
        let ((z, s), e) =
          c.select_found r.searcher (random k) x y.searcher_inv (omega (arith, y.mirrored x)) in
        let (inv, alive, same) = c.select_held r.searcher (random k) z s y.searcher_inv e in
        let owned : 0 < count z r.states = omega (arith, y.mirrored z) in
        let (r', e', y') =
          update_states-IsSynced (record r { searcher = s }) (some z)
            (perform_all nothing_pending (execute k r.states z))
            (record {
              searcher_inv = inv;
              mirrored = λ w. omega (arith, same w, y.mirrored w);
              distinct = y.distinct;
            })
            (perform_all-IsPending r.states nothing_pending (execute k r.states z)
              (fair k r.states z owned)
              (record { fresh = λ w. omega (arith, y.distinct w); owned = λ w. omega arith }))
            (λ w q. rw (some_injective q) at owned) in
        (r', rw (e, e'), y')

    loop-IsSynced :
        (k : ℕ) (r : Executor S)
        → IsExecution
        → IsSynced r
        → (r' : Executor S) × (loop m random execute k r ≡ some r') × IsSynced r'
    unfolding loop
    loop-IsSynced zero r fair y = (r, refl, y)
    loop-IsSynced (suc k) r fair y = elim (empty-Bool r.states) [
      | inl none_left ↦ (r, rw none_left, y)
      | inr (x, left, alive) ↦
          let (r₁, e₁, y₁) = round-IsSynced k r x fair y alive in
          let (r₂, e₂, y₂) = loop-IsSynced k r₁ fair y₁ in (r₂, rw (left, e₁, e₂), y₂)
    ]

    -- Over any strategy that keeps the contract and holds no state yet, a run of any length from
    -- one state never fails, provided that an instruction of a live state forks only new states
    -- and ends only live ones: each selection finds a state, each update finds what it removes,
    -- and at the end the searcher holds exactly the executor's states, each once.
    pub run-IsSynced :
        (k : ℕ) (initial_state : State) (searcher : S)
        → IsExecution
        → Inv searcher
        → ((x : State) → held searcher x ≡ 0)
        → (r : Executor S) × (run m random execute k initial_state searcher ≡ some r) × IsSynced r
    unfolding run
    run-IsSynced k initial_state searcher fair inv new =
        let call : IsCall (held searcher) none (initial_state ∷ []) [] = record {
          fresh = λ x. ground (arith, new x);
          known = λ x. omega arith;
          present = λ x e. absurd (none≢some e);
        } in
        let (s, e) = c.update_found searcher none (initial_state ∷ []) [] inv call in
        let (inv', moved) = c.update_held searcher none (initial_state ∷ []) [] s inv call e in
        let (r, e', y) =
          loop-IsSynced k (record { states = initial_state ∷ []; searcher = s }) fair
            (record {
              searcher_inv = inv';
              mirrored = λ x. omega (arith, new x, moved x);
              distinct = λ x. ground arith;
            }) in
        (r, rw (e, e'), y)
