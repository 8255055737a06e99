-- ===== src/Searcher/Base/Laws.antt =====
-- DFSSearcher, BFSSearcher and RandomSearcher against the contract of a strategy.
use native.Mathlib.Nat.{mod-lt}
use learch.Prelude.{
  ◌>>=◌, ℕ, zero, suc, ◌+◌, ◌%◌, ◌<◌, ◌≡◌, refl, ◌↔◌, true, not, ◌&&◌, List, [], ◌∷◌, ◌++◌, Option,
  none, some, ◌==◌, length, get_elem?, arith, Bool-cases, inl, inr, false≢true, none≢some,
}
use learch.Searcher.{State, contains, erase_first, remove_all}
use learch.Searcher.Counting.{
  count, count-append, Removes, erase_first-Removes, erase_first-taken, erase_first-found,
  remove_all-found, append_remove-count, >>=-some,
}
use learch.Searcher.Contract.{IsCall, Contract, Always}
use learch.Searcher.Base.{
  is_empty, back, pop_back, random_element, keep, dfs_remove, dfs_update, dfs_searcher, bfs_remove,
  bfs_requeue, bfs_update, bfs_searcher, random_update, random_searcher,
}

keep-eq :
    (s : List State) (o : Option State) (x : State) (s' : List State)
    → keep s o ≡ some (x, s')
    → (o ≡ some x) × (s' ≡ s)
keep-eq s none x s' h = absurd (none≢some h)
keep-eq s (some y) x s' h = (ground arith, ground arith)

-- A selection by `pick`, which finds a state of the vector wherever there is one.
module _ (pick : List State → Option State)
    (picked : (xs : List State) (x : State) → pick xs ≡ some x → 0 < count x xs)
    (finds : (x : State) (xs : List State) → (y : State) × (pick (x ∷ xs) ≡ some y)) where
  keep-held :
      (s : List State) (x : State) (s' : List State)
      → keep s (pick s) ≡ some (x, s')
      → (0 < count x s) × ((y : State) → count y s' ≡ count y s)
  keep-held s x s' h = let (e, q) = keep-eq s (pick s) x s' h in (picked s x e, λ y. rw q)

  keep-found :
      (s : List State) (x : State)
      → 0 < count x s
      → (r : State × List State) × (keep s (pick s) ≡ some r)
  keep-found [] x h = elim h [ ]
  keep-found (z ∷ s) x h = let (y, e) = finds z s in ((y, z ∷ s), rw (e, keep))

pub is_empty-count : (s : List State) → (is_empty s ≡ true) ↔ ((x : State) → count x s ≡ 0)
is_empty-count [] = (λ e x. refl, λ h. refl)
is_empty-count (y ∷ s) = (λ e. absurd (false≢true e), λ h. absurd (ground (arith, h y)))

back-count :
    (xs : List State) (x y : State)
    → back xs ≡ some x
    → count y (pop_back xs) + count y (x ∷ []) ≡ count y xs
unfolding back pop_back
back-count [] x y h = absurd (none≢some h)
back-count (z ∷ []) x y h = ground arith
back-count (z ∷ (w ∷ xs)) x y h = ground (arith, back-count (w ∷ xs) x y h)

back-found : (x : State) (xs : List State) → (y : State) × (back (x ∷ xs) ≡ some y)
unfolding back
back-found x [] = (x, refl)
back-found x (y ∷ xs) = back-found y xs

back-picked : (xs : List State) (x : State) → back xs ≡ some x → 0 < count x xs
back-picked xs x h = ground (arith, back-count xs x x h)

dfs_remove-taken :
    (es : State) (xs ys : List State) (x : State)
    → dfs_remove es xs ≡ some ys
    → count x ys + count x (es ∷ []) ≡ count x xs
unfolding dfs_remove
dfs_remove-taken es xs ys x h = ground (arith, back-count xs es x, erase_first-taken es xs ys x)

dfs_remove-found :
    (es : State) (xs : List State)
    → 0 < count es xs
    → (ys : List State) × (dfs_remove es xs ≡ some ys)
unfolding dfs_remove
dfs_remove-found es [] h = elim h [ ]
dfs_remove-found es (z ∷ xs) h =
    let (b, e) = back-found z xs in
    let (ys, e') = erase_first-found es (z ∷ xs) h in
    elim (Bool-cases (es == b)) [
      | inl same ↦ (pop_back (z ∷ xs), rw (e, dfs_remove, same))
      | inr other ↦ (ys, rw (e, dfs_remove, other) e')
    ]

dfs_remove-Removes : Removes dfs_remove
dfs_remove-Removes = record { taken = dfs_remove-taken; found = dfs_remove-found }

bfs_remove-taken :
    (es : State) (xs ys : List State) (x : State)
    → bfs_remove es xs ≡ some ys
    → count x ys + count x (es ∷ []) ≡ count x xs
unfolding bfs_remove
bfs_remove-taken es [] ys x h = absurd (none≢some h)
bfs_remove-taken es (z ∷ xs) ys x h = ground (arith, erase_first-taken es (z ∷ xs) ys x)

bfs_remove-found :
    (es : State) (xs : List State)
    → 0 < count es xs
    → (ys : List State) × (bfs_remove es xs ≡ some ys)
unfolding bfs_remove
bfs_remove-found es [] h = elim h [ ]
bfs_remove-found es (z ∷ xs) h = elim (Bool-cases (es == z)) [
  | inl same ↦ (xs, rw same)
  | inr other ↦ let (ys, e) = erase_first-found es (z ∷ xs) h in (ys, rw other e)
]

bfs_remove-Removes : Removes bfs_remove
bfs_remove-Removes = record { taken = bfs_remove-taken; found = bfs_remove-found }

-- The three strategies share the form of their update.
module _ {step : State → List State → Option (List State)} (removes : Removes step) where
  append_remove-found :
      (states added removed : List State) (current : Option State)
      → IsCall (λ x. count x states) current added removed
      → (ys : List State) × (remove_all step removed (states ++ added) ≡ some ys)
  append_remove-found states added removed current call =
      remove_all-found removes removed (states ++ added)
        (λ x. omega (arith, call.known x, count-append x states added))

pub get_elem?-picked : (xs : List State) (i x : State) → get_elem? xs i ≡ some x → 0 < count x xs
get_elem?-picked [] i x h = absurd (none≢some h)
get_elem?-picked (y ∷ xs) zero x h = ground arith
get_elem?-picked (y ∷ xs) (suc i) x h = ground (arith, get_elem?-picked xs i x h)

pub get_elem?-found :
    (xs : List State) (i : ℕ) → i < length xs → (x : State) × (get_elem? xs i ≡ some x)
get_elem?-found [] i h = elim h [ ]
get_elem?-found (y ∷ xs) zero h = (y, refl)
get_elem?-found (y ∷ xs) (suc i) h = get_elem?-found xs i (omega arith)

first-picked : (xs : List State) (x : State) → get_elem? xs 0 ≡ some x → 0 < count x xs
first-picked xs x h = get_elem?-picked xs 0 x h

pub random_element-picked :
    (random : ℕ) (xs : List State) (x : State) → random_element xs random ≡ some x → 0 < count x xs
unfolding random_element
random_element-picked random [] x h = absurd (none≢some h)
random_element-picked random (y ∷ xs) x h = get_elem?-picked (y ∷ xs) (random % length (y ∷ xs)) x h

pub random_element-found :
    (random : ℕ) (x : State) (xs : List State)
    → (y : State) × (random_element (x ∷ xs) random ≡ some y)
unfolding random_element
random_element-found random x xs =
    get_elem?-found (x ∷ xs) (random % length (x ∷ xs)) (mod-lt random (omega arith))

-- DFSSearcher keeps the contract of a strategy: an update that the executor may make never fails
-- and adds and removes exactly what it is told, a selection succeeds wherever a state is held,
-- selects a held state and moves none, and `empty` tells whether no state is held.
pub dfs_searcher-Contract : Contract dfs_searcher (λ s x. count x s) Always
unfolding dfs_searcher dfs_update
dfs_searcher-Contract = record {
  update_held = λ s c added removed s' _ _ h.
      (tt, append_remove-count dfs_remove-Removes s added removed s' h);
  update_found =
      λ s c added removed _ call. append_remove-found dfs_remove-Removes s added removed c call;
  select_held = λ s random x s' _ h.
      let (p, q) = keep-held back back-picked back-found s x s' h in (tt, p, q);
  select_found = λ s random x _ h. keep-found back back-picked back-found s x h;
  empty_held = λ s _. is_empty-count s;
}

-- RandomSearcher keeps the contract of a strategy: an update that the executor may make never
-- fails and adds and removes exactly what it is told, a selection succeeds wherever a state is
-- held, selects a held state and moves none, and `empty` tells whether no state is held.
pub random_searcher-Contract : Contract random_searcher (λ s x. count x s) Always
unfolding random_searcher random_update
random_searcher-Contract = record {
  update_held = λ s c added removed s' _ _ h.
      (tt, append_remove-count erase_first-Removes s added removed s' h);
  update_found =
      λ s c added removed _ call. append_remove-found erase_first-Removes s added removed c call;
  select_held = λ s random x s' _ h.
      let (p, q) =
        keep-held (λ xs. random_element xs random) (random_element-picked random)
          (random_element-found random) s x s' h in
      (tt, p, q);
  select_found = λ s random x _ h.
      keep-found (λ xs. random_element xs random) (random_element-picked random)
        (random_element-found random) s x h;
  empty_held = λ s _. is_empty-count s;
}

bfs_requeue-count :
    (states : List State) (current : Option State) (added removed queued : List State)
    → bfs_requeue states current added removed ≡ some queued
    → (x : State) → count x queued ≡ count x states
unfolding bfs_requeue
bfs_requeue-count states none added removed queued h x = ground arith
bfs_requeue-count states (some c) added removed queued h x =
    elim (Bool-cases (not (is_empty added) && not (contains c removed))) [
      | inl moved ↦
          >>=-some (erase_first c states) (λ rest. some (rest ++ c ∷ [])) (rw moved at h)
            λ rest e e'.
              ground (arith, erase_first-taken c states rest x e, count-append x rest (c ∷ []))
      | inr stays ↦ let e : some states ≡ some queued = rw stays at h in ground arith
    ]

bfs_requeue-found :
    (states : List State) (current : Option State) (added removed : List State)
    → IsCall (λ x. count x states) current added removed
    → (queued : List State) × (bfs_requeue states current added removed ≡ some queued)
unfolding bfs_requeue
bfs_requeue-found states none added removed call = (states, refl)
bfs_requeue-found states (some c) added removed call =
    elim (Bool-cases (not (is_empty added) && not (contains c removed))) [
      | inl moved ↦
          let (rest, e) = erase_first-found c states (call.present c refl) in
          (rest ++ c ∷ [], rw (moved, e))
      | inr stays ↦ (states, rw stays)
    ]

bfs_update-held :
    (s : List State) (current : Option State) (added removed s' : List State)
    → bfs_update s current added removed ≡ some s'
    → (x : State) → count x s' + count x removed ≡ count x s + count x added
unfolding bfs_update
bfs_update-held s current added removed s' h x =
    >>=-some (bfs_requeue s current added removed)
      (λ queued. remove_all bfs_remove removed (queued ++ added)) h
      λ queued e e'. omega (
        arith,
        append_remove-count bfs_remove-Removes queued added removed s' e' x,
        bfs_requeue-count s current added removed queued e x,
      )

bfs_update-found :
    (s : List State) (current : Option State) (added removed : List State)
    → IsCall (λ x. count x s) current added removed
    → (s' : List State) × (bfs_update s current added removed ≡ some s')
unfolding bfs_update
bfs_update-found s current added removed call =
    let (queued, e) = bfs_requeue-found s current added removed call in
    let same = bfs_requeue-count s current added removed queued e in
    let (s', e') =
      remove_all-found bfs_remove-Removes removed (queued ++ added)
        (λ x. omega (arith, call.known x, same x, count-append x queued added)) in
    (s', rw (e, ◌>>=◌) e')

-- BFSSearcher keeps the contract of a strategy: an update that the executor may make never fails
-- and adds and removes exactly what it is told, a selection succeeds wherever a state is held,
-- selects a held state and moves none, and `empty` tells whether no state is held.
pub bfs_searcher-Contract : Contract bfs_searcher (λ s x. count x s) Always
unfolding bfs_searcher
bfs_searcher-Contract = record {
  update_held = λ s c added removed s' _ _ h. (tt, bfs_update-held s c added removed s' h);
  update_found = λ s c added removed _ call. bfs_update-found s c added removed call;
  select_held = λ s random x s' _ h.
      let (p, q) = keep-held (λ xs. get_elem? xs 0) first-picked (λ x xs. (x, refl)) s x s' h in
      (tt, p, q);
  select_found =
      λ s random x _ h. keep-found (λ xs. get_elem? xs 0) first-picked (λ x xs. (x, refl)) s x h;
  empty_held = λ s _. is_empty-count s;
}
