-- ===== src/Searcher/Unique.antt =====
-- The update that MLSearcher and SubpathGuidedSearcher share: append, then remove each listed state
-- once, however often it is listed.
use learch.Prelude.{◌+◌, ◌≤◌, ◌≡◌, List, [], ◌++◌, Option, some, arith, Bool-cases, inl, inr}
use learch.Searcher.{State, contains, remove_unique}
use learch.Searcher.Counting.{
  count, count-append, contains-count, contains_none, remove_unique-count, remove_unique-found,
  one_if,
}
use learch.Searcher.Contract.{IsCall}

unfoldable pub unique_update : (states added removed : List State) → Option (List State)
unique_update states added removed = remove_unique [] removed (states ++ added)

-- Listed once at most, a state is counted by whether it is listed.
one_if-contains :
    (x : State) (removed : List State)
    → count x removed ≤ 1
    → one_if (contains x removed) ≡ count x removed
one_if-contains x removed h = elim (Bool-cases (contains x removed)) [
  | inl e ↦ rw e (omega (arith, contains-count x removed e))
  | inr e ↦ rw e (omega (arith, contains_none x removed e))
]

pub unique_update-count :
    (states added removed ys : List State) (x : State)
    → unique_update states added removed ≡ some ys
    → count x removed ≤ 1
    → count x ys + count x removed ≡ count x states + count x added
unfolding unique_update contains
unique_update-count states added removed ys x h once = omega (
  arith,
  remove_unique-count [] removed (states ++ added) ys h x,
  one_if-contains x removed once,
  count-append x states added,
)

pub unique_update-found :
    (states added removed : List State) (current : Option State)
    → IsCall (λ x. count x states) current added removed
    → (ys : List State) × (unique_update states added removed ≡ some ys)
unfolding unique_update
unique_update-found states added removed current call =
    remove_unique-found [] removed (states ++ added)
      λ x _ c. omega (arith, call.known x, contains-count x removed c, count-append x states added)
