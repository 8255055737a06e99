-- ===== src/Searcher/Branching/Laws.antt =====
-- BranchingSearcher over a strategy of which only the contract is known, and its last state.
use learch.Prelude.{
  ◌>>=◌, ℕ, ◌+◌, ◌<◌, ◌≡◌, sym, ap, ◌∙◌, false, List, [], Option, none, some, arith, Option-cases,
  inl, inr, some-pair, some_injective,
}
use mathlib.Core.Path.{subst}
use learch.Searcher.{State, Searcher, contains?, contains}
use learch.Searcher.Counting.{count, >>=-some, contains_none}
use learch.Searcher.Contract.{IsCall, Contract}
use learch.Searcher.Branching.{
  Branching, branching_select, next_last, branching_update, branching_searcher,
}

next_last-held :
    (last_state current : Option State) (added removed : List State) (x : State)
    → next_last last_state current added removed ≡ some x
    → (last_state ≡ some x) × (count x removed ≡ 0)
unfolding next_last contains?
next_last-held none current added removed x h = absurd (ground arith)
next_last-held (some y) current added removed x h = ground (arith, contains_none y removed)

next_last_stays :
    (x : State) (added removed : List State)
    → added ≡ []
    → contains x removed ≡ false
    → next_last (some x) (some x) added removed ≡ some x
unfolding next_last contains?
next_last_stays x added removed e n = rw (e, n)

module _ {S : Type 0} {m : Searcher S} (stack_size : State → ℕ) {held : S → State → ℕ}
    {Inv : S → Type 0} (c : Contract m held Inv) where
  -- The state that it stays with is held.
  pub record IsHeld (b : Branching S) : Type 0 where
    pub base_inv : Inv b.base
    pub last_held : (x : State) → b.last_state ≡ some x → 0 < held b.base x

  branching_select_last :
      (b : Branching S) (random : ℕ) (y : State)
      → b.last_state ≡ some y
      → branching_select m stack_size b random ≡ some (y, b)
  unfolding branching_select
  branching_select_last b random y e = ground arith

  branching_select-IsHeld :
      (b : Branching S) (random : ℕ) (x : State) (b' : Branching S)
      → IsHeld b
      → branching_select m stack_size b random ≡ some (x, b')
      → IsHeld b' × (0 < held b.base x) × ((y : State) → held b'.base y ≡ held b.base y)
  unfolding branching_select
  branching_select-IsHeld b random x b' v h = elim (Option-cases b.last_state) [
    | inr (y, e) ↦
        let (p, q) = some-pair (rw (e, branching_select) at h) in
        (subst IsHeld q v, rw p at (v.last_held y e), λ z. ap (λ t. held t.base z) (sym q))
    | inl e ↦ >>=-some (m.select b.base random) _ (rw (e, branching_select) at h) λ r e₁ h₁.
        let (p, q) = some-pair h₁ in
        let (i, present, same) = c.select_held b.base random r.0 r.1 v.base_inv e₁ in
        (
          subst IsHeld q (record {
            base_inv = i;
            last_held = λ z w. rw same (subst (λ t. 0 < held b.base t) (some_injective w) present);
          }),
          rw p at present,
          λ z. ap (λ t. held t.base z) (sym q) ∙ same z,
        )
  ]

  branching_select-found :
      (b : Branching S) (random : ℕ) (x : State)
      → IsHeld b
      → 0 < held b.base x
      → (r : State × Branching S) × (branching_select m stack_size b random ≡ some r)
  unfolding branching_select
  branching_select-found b random x v h = elim (Option-cases b.last_state) [
    | inr (y, e) ↦ ((y, b), branching_select_last b random y e)
    | inl e ↦
        let (r, e₁) = c.select_found b.base random x v.base_inv h in
        (
          (
            r.0,
            record { base = r.1; last_state = some r.0; last_select_stack_size = stack_size r.0 },
          ),
          rw (e, branching_select) (rw (e₁, ◌>>=◌)),
        )
  ]

  branching_update-IsHeld :
      (b : Branching S) (current : Option State) (added removed : List State) (b' : Branching S)
      → IsHeld b
      → IsCall (held b.base) current added removed
      → branching_update m stack_size b current added removed ≡ some b'
      → IsHeld b' × ((x : State) → held b'.base x + count x removed ≡ held b.base x + count x added)
  unfolding branching_update
  branching_update-IsHeld b current added removed b' v call h =
      >>=-some (m.update b.base current added removed) _ h λ s e h₁.
        let (i, moved) = c.update_held b.base current added removed s v.base_inv call e in
        let q : record b { base = s; last_state = next_last b.last_state current added removed }
            ≡ b' =
          some_injective h₁ in
        (
          subst IsHeld q (record {
            base_inv = i;
            last_held = λ z w.
                let (stays, kept) = next_last-held b.last_state current added removed z w in
                omega (arith, moved z, v.last_held z stays);
          }),
          λ z. ap (λ t. held t.base z + count z removed) (sym q) ∙ moved z,
        )

  -- Over a strategy that keeps the contract, BranchingSearcher keeps it too: the state that it stays
  -- with is always held, so it never selects a removed state.
  pub branching_searcher-Contract :
      Contract (branching_searcher m stack_size) (λ b x. held b.base x) IsHeld
  unfolding branching_searcher branching_update
  branching_searcher-Contract = record {
    update_held = branching_update-IsHeld;
    update_found = λ b current added removed v call.
        let (s, e) = c.update_found b.base current added removed v.base_inv call in
        (record b { base = s; last_state = next_last b.last_state current added removed }, rw e);
    select_held = branching_select-IsHeld;
    select_found = branching_select-found;
    empty_held = λ b v. c.empty_held b.base v.base_inv;
  }

  last_state-select :
      (b : Branching S) (random : ℕ) (x : State) (b' : Branching S)
      → branching_select m stack_size b random ≡ some (x, b')
      → b'.last_state ≡ some x
  unfolding branching_select
  last_state-select b random x b' h = elim (Option-cases b.last_state) [
    | inr (y, e) ↦
        let (p, q) = some-pair (rw (e, branching_select) at h) in
        ap (λ t. t.last_state) (sym q) ∙ e ∙ ap some p
    | inl e ↦
        >>=-some (m.select b.base random) _ (rw (e, branching_select) at h)
          λ r e₁ h₁. let (p, q) = some-pair h₁ in ap (λ t. t.last_state) (sym q) ∙ ap some p
  ]

  -- Between two selections without a fork of the current state and without its removal, it selects
  -- the same state again.
  pub branching_select_again :
      (b : Branching S) (random random' : ℕ) (x : State) (b₁ b₂ : Branching S)
      (added removed : List State)
      → branching_select m stack_size b random ≡ some (x, b₁)
      → branching_update m stack_size b₁ (some x) added removed ≡ some b₂
      → added ≡ []
      → contains x removed ≡ false
      → branching_select m stack_size b₂ random' ≡ some (x, b₂)
  unfolding branching_select branching_update
  branching_select_again b random random' x b₁ b₂ added removed h u e n =
      >>=-some (m.update b₁.base (some x) added removed) _ u λ s _ u₁.
        let last : b₂.last_state ≡ some x =
          ap (λ t. t.last_state) (sym (some_injective u₁))
          ∙ rw (last_state-select b random x b₁ h) (next_last_stays x added removed e n) in
        branching_select_last b₂ random' x last
