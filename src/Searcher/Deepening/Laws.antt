-- ===== src/Searcher/Deepening/Laws.antt =====
-- IterativeDeepeningTimeSearcher over a strategy of which only the contract is known: the base,
-- and the paused states beside it.
use learch.Prelude.{
  ℕ, zero, suc, ◌+◌, ◌-◌, ◌*◌, ◌≤◌, ◌<◌, ◌≡◌, refl, sym, ◌∙◌, true, false, not, ◌&&◌, List, [], ◌∷◌,
  Option, none, some, ltb, ◌==◌, if◌then◌else◌, arith, Bool-cases, inl, inr, ◌⊎◌, false≢true,
  none≢some,
}
use learch.Searcher.{State, Searcher, contains, remove_state}
use learch.Searcher.Counting.{count, contains-count, contains_none}
use learch.Searcher.Contract.{IsCall, Contract}
use learch.Executor.{erase_state, insert_state}
use learch.Executor.Actions.{erase_state-count, insert_state-count}
use learch.Searcher.Deepening.{
  Deepening, remove_each, pass_removed, deepening_select, pause, restart, deepening_update,
}

remove_each-count :
    (es : State) (xs : List State) (x : State)
    → count x (remove_each es xs) ≡ (if es == x then 0 else count x xs)
unfolding remove_each
remove_each-count es [] x = ground arith
remove_each-count es (y ∷ xs) x = ground (arith, remove_each-count es xs x)

pass_removed_paused :
    (es : State) (removed alt paused : List State)
    → contains es paused ≡ true
    → pass_removed (es ∷ removed) alt paused
      ≡ pass_removed removed (remove_each es alt) (erase_state es paused)
unfolding pass_removed
pass_removed_paused es removed alt paused h = rw (h, pass_removed)

pass_removed_other :
    (es : State) (removed alt paused : List State)
    → contains es paused ≡ false
    → pass_removed (es ∷ removed) alt paused ≡ pass_removed removed alt paused
unfolding pass_removed
pass_removed_other es removed alt paused h = rw (h, pass_removed)

-- What the loop leaves of a state's entries, in the base's list and among the paused states.
pass_removed-count :
    (removed alt paused : List State) (x : State)
    → ((y : State) → count y paused ≤ 1)
    → (((count x removed ≡ 0) ⊎ (count x paused ≡ 0))
        × (count x (pass_removed removed alt paused).0 ≡ count x alt)
        × (count x (pass_removed removed alt paused).1 ≡ count x paused))
      ⊎ ((0 < count x removed)
          × (0 < count x paused)
          × (count x (pass_removed removed alt paused).0 ≡ 0)
          × (count x (pass_removed removed alt paused).1 ≡ 0))
pass_removed-count [] alt paused x h = unfold pass_removed in inl (inl refl, refl, refl)
pass_removed-count (es ∷ removed) alt paused x h = elim (Bool-cases (contains es paused)) [
  | inl old ↦
      let present = contains-count es paused old in
      let erased = λ (y : State). erase_state-count es paused y present in
      rw (pass_removed_paused es removed alt paused old)
        (elim (pass_removed-count removed (remove_each es alt) (erase_state es paused) x
          (λ y. omega (arith, h y, erased y))) [
            | inl (out, a, p) ↦ elim (Bool-cases (es == x)) [
              | inl same ↦ inr (
                ground arith,
                ground arith,
                ground (arith, remove_each-count es alt x),
                ground (arith, h x, erased x),
              )
              | inr other ↦ inl (
                ground (arith, erased x),
                ground (arith, remove_each-count es alt x),
                ground (arith, erased x),
              )
            ]
            | inr (there, still, a, p) ↦ inr (omega arith, omega (arith, erased x), a, p)
          ])
  | inr new ↦
      rw (pass_removed_other es removed alt paused new)
        (elim (pass_removed-count removed alt paused x h) [
          | inl (out, a, p) ↦ inl (
            elim (Bool-cases (es == x)) [
              | inl same ↦ inr (ground (arith, contains_none es paused new))
              | inr other ↦ ground arith
            ],
            a,
            p,
          )
          | inr (there, still, a, p) ↦ inr (omega arith, still, a, p)
        ])
]

-- Together the two lists still account for every removed state, and none of the base's is paused.
pass_removed-balance :
    (removed paused : List State) (x : State)
    → ((y : State) → count y paused ≤ 1)
    → count x removed ≤ 1
    → (count x (pass_removed removed removed paused).0 + count x paused
        ≡ count x (pass_removed removed removed paused).1 + count x removed)
      × (count x (pass_removed removed removed paused).1 ≤ count x paused)
      × (0 < count x paused → count x (pass_removed removed removed paused).0 ≡ 0)
pass_removed-balance removed paused x h once =
    elim (pass_removed-count removed removed paused x h) [
      | inl (inl out, a, p) ↦ (omega arith, omega arith, λ k. omega arith)
      | inl (inr out, a, p) ↦ (omega arith, omega arith, λ k. omega arith)
      | inr (there, still, a, p) ↦ (omega (arith, h x), omega arith, λ k. a)
    ]

-- What the base is told to remove, it holds or was told to add.
known_base :
    (held_base added removed paused paused' alt : ℕ)
    → removed ≤ (held_base + paused) + added
    → alt + paused ≡ paused' + removed
    → paused' ≤ paused
    → (0 < paused → alt ≡ 0)
    → alt ≤ held_base + added
known_base held_base added removed zero paused' alt h e less out = omega arith
known_base held_base added removed (suc paused) paused' alt h e less out =
    omega (arith, out (omega arith))

module _ {S : Type 0} {m : Searcher S} {held : S → State → ℕ} {Inv : S → Type 0}
    (c : Contract m held Inv) where
  abbrev pub total : Deepening S → State → ℕ
  total d x = held d.base x + count x d.paused_states

  -- No state is held twice, in the base or among the paused.
  pub record IsSplit (d : Deepening S) : Type 0 where
    pub base_inv : Inv d.base
    pub distinct : (x : State) → total d x ≤ 1

  -- Between two updates the base holds a state, if there is any.
  pub record IsReady (d : Deepening S) : Type 0 where
    pub split : IsSplit d
    pub awake : ((x : State) → held d.base x ≡ 0) → (x : State) → total d x ≡ 0

  pause-IsSplit :
      (elapsed : ℕ) (d : Deepening S) (current : Option State) (removed : List State)
      → IsSplit d
      → ((x : State) → current ≡ some x → count x removed ≡ 0 → 0 < held d.base x)
      → (d' : Deepening S) × (pause m elapsed d current removed ≡ some d')
        × IsSplit d'
        × ((x : State) → total d' x ≡ total d x)
  unfolding pause remove_state
  pause-IsSplit elapsed d none removed v h = (d, refl, v, λ x. refl)
  pause-IsSplit elapsed d (some es) removed v h =
      elim (Bool-cases (not (contains es removed) && ltb d.time elapsed)) [
        | inr stays ↦ (d, rw stays, v, λ x. refl)
        | inl late ↦
            let alive : 0 < held d.base es = h es refl (contains_none es removed (ground arith)) in
            let call : IsCall (held d.base) none [] (es ∷ []) = record {
              fresh = λ x. omega (arith, v.distinct x);
              known = λ x. ground arith;
              present = λ x e. absurd (none≢some e);
            } in
            let (s, e) = c.update_found d.base none [] (es ∷ []) v.base_inv call in
            let (inv, moved) = c.update_held d.base none [] (es ∷ []) s v.base_inv call e in
            let absent : count es d.paused_states ≡ 0 = omega (arith, v.distinct es) in
            let inserted = λ (x : State). insert_state-count es d.paused_states x absent in
            (
              record d { base = s; paused_states = insert_state es d.paused_states },
              rw (late, e),
              record {
                base_inv = inv;
                distinct = λ x. omega (arith, moved x, inserted x, v.distinct x);
              },
              λ x. omega (arith, moved x, inserted x),
            )
      ]

  restart-IsReady :
      (d : Deepening S)
      → IsSplit d
      → (d' : Deepening S) × (restart m d ≡ some d')
        × IsReady d'
        × ((x : State) → total d' x ≡ total d x)
  unfolding restart
  restart-IsReady d v = elim (Bool-cases (m.empty d.base)) [
    | inr filled ↦ (
      d,
      rw filled,
      record {
        split = v;
        awake = λ h x. absurd (false≢true (sym filled ∙ (c.empty_held d.base v.base_inv).1 h));
      },
      λ x. refl,
    )
    | inl done ↦
        let bare = (c.empty_held d.base v.base_inv).0 done in
        let call : IsCall (held d.base) none d.paused_states [] = record {
          fresh = v.distinct;
          known = λ x. omega arith;
          present = λ x e. absurd (none≢some e);
        } in
        let (s, e) = c.update_found d.base none d.paused_states [] v.base_inv call in
        let (inv, moved) = c.update_held d.base none d.paused_states [] s v.base_inv call e in
        (
          record d { base = s; time = d.time * 2; paused_states = [] },
          rw (done, e),
          record {
            split = record { base_inv = inv; distinct = λ x. omega (arith, moved x, v.distinct x) };
            awake = λ h x. omega (arith, h x);
          },
          λ x. omega (arith, moved x),
        )
  ]

  -- An update of IterativeDeepeningTimeSearcher never fails and adds and removes what it is told,
  -- whatever the clock gives, where no state is held twice, added states are new, removed ones are
  -- held, each once, and the current state is the base's: what leaves the base is paused. Afterwards
  -- the base holds a state, if there is any.
  pub deepening_update-total :
      (now : ℕ) (d : Deepening S) (current : Option State) (added removed : List State)
      → IsSplit d
      → IsCall (total d) current added removed
      → ((x : State) → current ≡ some x → 0 < held d.base x)
      → (d' : Deepening S) × (deepening_update m now d current added removed ≡ some d')
        × IsReady d'
        × ((x : State) → total d' x + count x removed ≡ total d x + count x added)
  unfolding deepening_update
  deepening_update-total now d current added removed v call h =
      let passed = pass_removed removed removed d.paused_states in
      let balance = λ (x : State).
        pass_removed-balance removed d.paused_states x (λ y. omega (arith, v.distinct y))
          (omega (arith, call.known x, call.fresh x)) in
      let base_call : IsCall (held d.base) current added passed.0 = record {
        fresh = λ x. omega (arith, call.fresh x);
        known =
            λ x. known_base _ _ _ _ _ _ (call.known x) (balance x).0 (balance x).1 (balance x).2;
        present = h;
      } in
      let (s, e) = c.update_found d.base current added passed.0 v.base_inv base_call in
      let (inv, moved) = c.update_held d.base current added passed.0 s v.base_inv base_call e in
      let (d₁, e₁, v₁, t₁) =
        pause-IsSplit (now - d.start_time) (record d { base = s; paused_states = passed.1 }) current
          removed
          (record {
            base_inv = inv;
            distinct = λ x. omega (arith, moved x, (balance x).0, call.fresh x);
          })
          (λ x q out. omega (arith, moved x, (balance x).0, (balance x).1, h x q, v.distinct x)) in
      let (d₂, e₂, v₂, t₂) = restart-IsReady d₁ v₁ in
      (d₂, rw (e, e₁, e₂), v₂, λ x. omega (arith, t₁ x, t₂ x, moved x, (balance x).0))

  -- While the base holds a state, IterativeDeepeningTimeSearcher selects one of the base's, and
  -- moves none.
  pub deepening_select-total :
      (start : ℕ) (d : Deepening S) (random : ℕ) (x : State)
      → IsReady d
      → 0 < held d.base x
      → (y : State) × (d' : Deepening S) × (deepening_select m start d random ≡ some (y, d'))
        × (0 < held d.base y)
        × ((z : State) → held d'.base z ≡ held d.base z)
        × (d'.paused_states ≡ d.paused_states)
  unfolding deepening_select
  deepening_select-total start d random x v h =
      let ((y, s), e) = c.select_found d.base random x v.split.base_inv h in
      let (_, present, same) = c.select_held d.base random y s v.split.base_inv e in
      (y, record d { base = s; start_time = start }, rw e, present, same, refl)
