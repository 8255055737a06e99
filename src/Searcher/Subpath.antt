-- ===== src/Searcher/Subpath.antt =====
-- SubpathGuidedSearcher of klee/lib/Core/Searcher.cpp with the subpath counts of
-- klee/lib/Core/Executor.cpp: it selects among the states whose last branches were seen least.
pub mod Chosen
pub mod Laws
use learch.Prelude.{
  ◌>>=◌, ℕ, ◌+◌, ◌-◌, ◌%◌, ◌^◌, Bool, true, false, not, ◌&&◌, List, [], ◌∷◌, ◌++◌, Option, none,
  some, ltb, ◌==◌, if◌then◌else◌, length, drop,
}
use learch.Searcher.{State, Searcher}
use learch.Searcher.Base.{is_empty, random_element}
use learch.Searcher.Unique.{unique_update}

-- An instruction and the side that was taken.
abbrev pub Subpath : Type 0
Subpath = List (ℕ × ℕ)

unfoldable pub same_subpath : Subpath → Subpath → Bool
same_subpath [] [] = true
same_subpath ((a, b) ∷ p) ((c, d) ∷ q) = a == c && (b == d && same_subpath p q)
same_subpath _ _ = false

-- `getSubpath`: the last `1 << index` branches, or all of them where there are fewer.
unfoldable pub get_subpath : Subpath → ℕ → Subpath
get_subpath branches index =
    let n = if ltb (2 ^ index) (length branches) then 2 ^ index else length branches in
    drop (length branches - n) branches

-- The map from subpaths to `unsigned long`.
abbrev pub Counts : Type 0
Counts = List (Subpath × ℕ)

unfoldable pub get_subpath_count : Subpath → Counts → ℕ
get_subpath_count p [] = 0
get_subpath_count p ((q, n) ∷ counts) = if same_subpath p q then n else get_subpath_count p counts

unfoldable pub inc_subpath : Subpath → Counts → Counts
inc_subpath p [] = (p, 1) ∷ []
inc_subpath p ((q, n) ∷ counts) =
    if same_subpath p q then (q, (n + 1) % 2 ^ 64) ∷ counts else (q, n) ∷ inc_subpath p counts

-- `branches` is the field `takenBranches` of each state, which the executor writes.
pub record Guided : Type 0 where
  pub states : List State
  pub branches : State → Subpath
  pub counts : Counts

-- `getSubpathCount` of a state's own subpath.
unfoldable pub rarity : Guided → ℕ → State → ℕ
rarity g index es = get_subpath_count (get_subpath (g.branches es) index) g.counts

-- The loop over the states, with `minCount` and `selectSet`.
unfoldable pub select_set : (State → ℕ) → List State → ℕ → List State → List State
select_set curr [] min_count chosen = chosen
select_set curr (es ∷ states) min_count chosen =
    let lower = ltb (curr es) min_count in
    let min_count' = if lower then curr es else min_count in
    let chosen' = if lower then [] else chosen in
    select_set curr states min_count'
      (if curr es == min_count' then chosen' ++ es ∷ [] else chosen')

module _ (feature_extract : Bool) (index : ℕ) where
  unfoldable pub guided_select : Guided → ℕ → Option (State × Guided)
  guided_select g random = do
    es ← random_element (select_set (rarity g index) g.states (2 ^ 64 - 1) []) random
    some (
      es,
      if feature_extract
          then g
          else record g { counts = inc_subpath (get_subpath (g.branches es) index) g.counts },
    )

  unfoldable pub guided_update : Guided → Option State → List State → List State → Option Guided
  guided_update g current added removed = do
    states ← unique_update g.states added removed
    some (record g { states = states })

  unfoldable pub guided_searcher : Searcher Guided
  guided_searcher = record {
    select = guided_select;
    update = guided_update;
    empty = λ g. is_empty g.states;
  }
