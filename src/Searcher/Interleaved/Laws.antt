-- ===== src/Searcher/Interleaved/Laws.antt =====
-- InterleavedSearcher over strategies of which only the contract is known.
use mathlib.Core.Path.{subst}
use learch.Prelude.{
  ◌>>=◌, ℕ, zero, suc, ◌+◌, ◌≤◌, ◌<◌, ◌≡◌, refl, sym, ap, ◌∙◌, ◌↔◌, true, List, [], ◌∷◌, Option,
  some, length, length-set, get_elem?, set, arith, none≢some, some-pair, some_injective,
}
use learch.Searcher.{State, Searcher}
use learch.Searcher.Counting.{count, >>=-some}
use learch.Searcher.Contract.{IsCall, Contract}
use learch.Searcher.Interleaved.{
  Interleaved, turn, interleaved_select, update_each, interleaved_update, first_empty,
  interleaved_searcher,
}

module _ {S : Type 0} {m : Searcher S} {held : S → State → ℕ} {Inv : S → Type 0}
    (c : Contract m held Inv) where
  -- What the first strategy holds.
  abbrev pub first_held : List S → State → ℕ
  first_held [] x = 0
  first_held (s ∷ searchers) x = held s x

  -- Every strategy holds the states `f`.
  abbrev pub AllHold : (State → ℕ) → List S → Type 0
  AllHold f [] = Unit {0}
  AllHold f (s ∷ searchers) = (Inv s × ((x : State) → held s x ≡ f x)) × AllHold f searchers

  -- The turn is that of a strategy, and all hold what the first holds.
  pub record IsAligned (r : Interleaved S) : Type 0 where
    pub started : 0 < r.index
    pub in_bounds : r.index ≤ length r.searchers
    pub alike : AllHold (first_held r.searchers) r.searchers

  AllHold-change :
      (f g : State → ℕ) (searchers : List S)
      → ((x : State) → f x ≡ g x)
      → AllHold f searchers
      → AllHold g searchers
  AllHold-change f g [] h a = tt
  AllHold-change f g (s ∷ searchers) h a =
      ((a.0.0, λ x. a.0.1 x ∙ h x), AllHold-change f g searchers h a.1)

  first_held-eq :
      (f : State → ℕ) (searchers : List S)
      → 0 < length searchers
      → AllHold f searchers
      → (x : State) → first_held searchers x ≡ f x
  first_held-eq f [] h a x = elim h [ ]
  first_held-eq f (s ∷ searchers) h a x = a.0.1 x

  get_elem?-AllHold :
      (f : State → ℕ) (searchers : List S) (i : ℕ) (s : S)
      → AllHold f searchers
      → get_elem? searchers i ≡ some s
      → Inv s × ((x : State) → held s x ≡ f x)
  get_elem?-AllHold f [] i s a h = absurd (none≢some h)
  get_elem?-AllHold f (t ∷ searchers) zero s a h =
      subst (λ t. Inv t × ((x : State) → held t x ≡ f x)) (some_injective h) a.0
  get_elem?-AllHold f (t ∷ searchers) (suc i) s a h = get_elem?-AllHold f searchers i s a.1 h

  get_elem?-lt :
      (searchers : List S) (i : ℕ)
      → i < length searchers
      → (s : S) × (get_elem? searchers i ≡ some s)
  get_elem?-lt [] i h = elim h [ ]
  get_elem?-lt (s ∷ searchers) zero h = (s, refl)
  get_elem?-lt (s ∷ searchers) (suc i) h = get_elem?-lt searchers i (omega arith)

  set-AllHold :
      (f : State → ℕ) (searchers : List S) (i : ℕ) (s : S)
      → AllHold f searchers
      → Inv s
      → ((x : State) → held s x ≡ f x)
      → AllHold f (set searchers i s)
  set-AllHold f [] i s a inv h = tt
  set-AllHold f (t ∷ searchers) zero s a inv h = ((inv, h), a.1)
  set-AllHold f (t ∷ searchers) (suc i) s a inv h = (a.0, set-AllHold f searchers i s a.1 inv h)

  turn-bounds : (i size : ℕ) → i < size → (0 < turn i size) × (turn i size ≤ size)
  turn-bounds zero size h = (omega arith, omega arith)
  turn-bounds (suc i) size h = (omega arith, omega arith)

  interleaved_select-held :
      (r : Interleaved S) (index random : ℕ) (x : State) (r' : Interleaved S)
      → r.index ≡ index
      → IsAligned r
      → interleaved_select m r random ≡ some (x, r')
      → IsAligned r'
        × (0 < first_held r.searchers x)
        × ((y : State) → first_held r'.searchers y ≡ first_held r.searchers y)
  unfolding interleaved_select
  interleaved_select-held r zero random x r' at_index v h = absurd (omega (arith, v.started))
  interleaved_select-held r (suc i) random x r' at_index v h =
      let ss = r.searchers in
      >>=-some (get_elem? ss i) _ (rw (at_index, interleaved_select) at h) λ s e h₁.
        >>=-some (m.select s random) _ h₁ λ chosen e₁ h₂.
          let (p, q) = some-pair h₂ in
          let (inv, holds) = get_elem?-AllHold (first_held ss) ss i s v.alike e in
          let (inv', present, same) = c.select_held s random chosen.0 chosen.1 inv e₁ in
          let kept =
            set-AllHold (first_held ss) ss i chosen.1 v.alike inv' (λ y. same y ∙ holds y) in
          let size = length-set ss i chosen.1 in
          let first =
            first_held-eq (first_held ss) (set ss i chosen.1) (omega (arith, v.in_bounds)) kept in
          let bounds = turn-bounds i (length ss) (omega (arith, v.in_bounds)) in
          (
            subst IsAligned q (record {
              started = bounds.0;
              in_bounds = omega arith;
              alike =
                  AllHold-change (first_held ss) (first_held (set ss i chosen.1))
                    (set ss i chosen.1) (λ y. sym (first y)) kept;
            }),
            subst (λ t. 0 < first_held ss t) p (omega (arith, holds chosen.0)),
            λ y. ap (λ t. first_held t.searchers y) (sym q) ∙ first y,
          )

  interleaved_select-found :
      (r : Interleaved S) (index random : ℕ) (x : State)
      → r.index ≡ index
      → IsAligned r
      → 0 < first_held r.searchers x
      → (a : State × Interleaved S) × (interleaved_select m r random ≡ some a)
  unfolding interleaved_select
  interleaved_select-found r zero random x at_index v h = absurd (omega (arith, v.started))
  interleaved_select-found r (suc i) random x at_index v h =
      let ss = r.searchers in
      let (s, e) = get_elem?-lt ss i (omega (arith, v.in_bounds)) in
      let (inv, holds) = get_elem?-AllHold (first_held ss) ss i s v.alike e in
      let (chosen, e₁) = c.select_found s random x inv (omega (arith, holds x)) in
      (
        (chosen.0, record { searchers = set ss i chosen.1; index = turn i (length ss) }),
        rw (at_index, interleaved_select, e, e₁, ◌>>=◌),
      )

  IsCall-change :
      (f g : State → ℕ) (current : Option State) (added removed : List State)
      → ((x : State) → f x ≡ g x)
      → IsCall f current added removed
      → IsCall g current added removed
  IsCall-change f g current added removed h call = record {
    fresh = λ x. omega (arith, h x, call.fresh x);
    known = λ x. omega (arith, h x, call.known x);
    present = λ x e. omega (arith, h x, call.present x e);
  }

  -- Each of the strategies takes an update that suits them all.
  update_each-found :
      (f : State → ℕ) (searchers : List S) (current : Option State) (added removed : List State)
      → AllHold f searchers
      → IsCall f current added removed
      → (ss : List S) × (update_each m searchers current added removed ≡ some ss)
  unfolding update_each
  update_each-found f [] current added removed a call = ([], refl)
  update_each-found f (s ∷ searchers) current added removed a call =
      let (s', e) =
        c.update_found s current added removed a.0.0
          (IsCall-change f (held s) current added removed (λ x. sym (a.0.1 x)) call) in
      let (ss, e') = update_each-found f searchers current added removed a.1 call in
      (s' ∷ ss, rw (e, e', ◌>>=◌))

  update_each-AllHold :
      (f g : State → ℕ) (searchers : List S) (current : Option State) (added removed : List State)
      (ss : List S)
      → AllHold f searchers
      → IsCall f current added removed
      → ((x : State) → g x + count x removed ≡ f x + count x added)
      → update_each m searchers current added removed ≡ some ss
      → AllHold g ss × (length ss ≡ length searchers)
  unfolding update_each
  update_each-AllHold f g [] current added removed ss a call h e =
      subst (λ t. AllHold g t × (length t ≡ 0)) (some_injective e) (tt, refl)
  update_each-AllHold f g (s ∷ searchers) current added removed ss a call h e =
      >>=-some (m.update s current added removed) _ e λ s' e₁ h₁.
        >>=-some (update_each m searchers current added removed) _ h₁ λ rest e₂ h₂.
          let (inv, moved) =
            c.update_held s current added removed s' a.0.0
              (IsCall-change f (held s) current added removed (λ x. sym (a.0.1 x)) call) e₁ in
          let (all, size) =
            update_each-AllHold f g searchers current added removed rest a.1 call h e₂ in
          subst (λ t. AllHold g t × (length t ≡ suc (length searchers))) (some_injective h₂)
            (((inv, λ x. omega (arith, moved x, h x, a.0.1 x)), all), ap suc size)

  -- The states after an update, read off the first strategy.
  first_held-update_each :
      (searchers : List S) (current : Option State) (added removed : List State) (ss : List S)
      → 0 < length searchers
      → AllHold (first_held searchers) searchers
      → IsCall (first_held searchers) current added removed
      → update_each m searchers current added removed ≡ some ss
      → (x : State) → first_held ss x + count x removed ≡ first_held searchers x + count x added
  unfolding update_each
  first_held-update_each [] current added removed ss h a call e x = elim h [ ]
  first_held-update_each (s ∷ searchers) current added removed ss h a call e x =
      >>=-some (m.update s current added removed) _ e λ s' e₁ h₁.
        >>=-some (update_each m searchers current added removed) _ h₁ λ rest e₂ h₂.
          let (_, moved) = c.update_held s current added removed s' a.0.0 call e₁ in
          subst (λ t. first_held t x + count x removed ≡ held s x + count x added)
            (some_injective h₂) (moved x)

  interleaved_update-held :
      (r : Interleaved S) (current : Option State) (added removed : List State) (r' : Interleaved S)
      → IsAligned r
      → IsCall (first_held r.searchers) current added removed
      → interleaved_update m r current added removed ≡ some r'
      → IsAligned r'
        × ((x : State)
            → first_held r'.searchers x + count x removed
              ≡ first_held r.searchers x + count x added)
  unfolding interleaved_update
  interleaved_update-held r current added removed r' v call h =
      >>=-some (update_each m r.searchers current added removed) _ h λ ss e h₁.
        let moved =
          first_held-update_each r.searchers current added removed ss
            (omega (arith, v.started, v.in_bounds)) v.alike call e in
        let (all, size) =
          update_each-AllHold (first_held r.searchers) (first_held ss) r.searchers current added
            removed ss v.alike call moved e in
        subst
          (λ t.
            IsAligned t
            × ((x : State)
                → first_held t.searchers x + count x removed
                  ≡ first_held r.searchers x + count x added))
          (some_injective h₁)
          (
            record { started = v.started; in_bounds = omega (arith, v.in_bounds); alike = all },
            moved,
          )

  interleaved_update-found :
      (r : Interleaved S) (current : Option State) (added removed : List State)
      → IsAligned r
      → IsCall (first_held r.searchers) current added removed
      → (r' : Interleaved S) × (interleaved_update m r current added removed ≡ some r')
  unfolding interleaved_update
  interleaved_update-found r current added removed v call =
      let (ss, e) =
        update_each-found (first_held r.searchers) r.searchers current added removed v.alike call in
      (record r { searchers = ss }, rw (e, ◌>>=◌))

  first_empty-held :
      (ss : List S)
      → AllHold (first_held ss) ss
      → (first_empty m ss ≡ true) ↔ ((x : State) → first_held ss x ≡ 0)
  unfolding first_empty
  first_empty-held [] a = (λ e x. refl, λ h. refl)
  first_empty-held (s ∷ ss) a = c.empty_held s a.0.0

  -- Over strategies that keep the contract and hold the same states, InterleavedSearcher keeps it
  -- too: whichever strategy's turn it is, all of them hold the same states after every operation.
  pub interleaved_searcher-Contract :
      Contract (interleaved_searcher m) (λ r x. first_held r.searchers x) IsAligned
  unfolding interleaved_searcher
  interleaved_searcher-Contract = record {
    update_held = interleaved_update-held;
    update_found = interleaved_update-found;
    select_held = λ r random x r' v h. interleaved_select-held r r.index random x r' refl v h;
    select_found = λ r random x v h. interleaved_select-found r r.index random x refl v h;
    empty_held = λ r v. first_empty-held r.searchers v.alike;
  }
