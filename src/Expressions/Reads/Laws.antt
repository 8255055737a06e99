-- ===== src/Expressions/Reads/Laws.antt =====
-- The meaning of reads as they are created.
use mathlib.Core.Path.{subst}
use native.Mathlib.Nat.{mod-eq_of_lt}
use learch.Prelude.{
  ℕ, ◌^◌, ◌%◌, ◌<◌, ◌≡◌, refl, sym, ◌∙◌, ap, none, some, true, false, ltb, if◌then◌else◌, get_elem?,
  inl, inr, Option-cases, Bool-cases, if-cases, none≢some, some_injective,
}
use learch.Expressions.{Globals, Expr, Updates, constant, read, no_update, get_width, as_constant}
use learch.Expressions.ApInt.{ApInt}
use learch.Expressions.Meaning.{
  Assignment, well_typed, well_typed_updates, held, initial_value, value, value_updates, Means,
}
use learch.Expressions.Constants.{as_constant-≡, as_constant-cases}
use learch.Expressions.Rewriting.{Means-refl, constant_typed}
use learch.Expressions.Equal.{is_symbolic_array}
use learch.Expressions.Equal.Steps.{Typed}
use learch.Expressions.Reads.{
  Found, written, exhausted, symbolic_write, find_write, constant_element, shortened, create_read,
}
use learch.Expressions.Reads.Search.{read_parts, read-Typed, Searched, find_write-Searched}

-- The values of constant arrays have the width of their array.
abbrev pub ArraysFit : Globals → Type 0
ArraysFit g =
    (id i v : ℕ) → get_elem? (g.arrays id).constant_values i ≡ some v → v < 2 ^ (g.arrays id).range

module _ (g : Globals) (m : ApInt) (opt : g.const_array_opt ≡ false) (id : ℕ) (index : Expr) where
  module _ (us : Updates) (h : Typed g m (read id us index)) where
    -- The updates that the search has passed may go.
    shortened-Means :
        (un : Updates)
        → well_typed_updates g id un ≡ true
        → ((s : Assignment)
            → value_updates g m s id un (value g m s index)
              ≡ value_updates g m s id us (value g m s index))
        → Means g m (shortened g m id us un index) (read id us index)
    unfolding shortened value get_width
    shortened-Means un hn same =
        let all = Means-refl g m (read id us index) h in
        as_constant-cases (λ e. Means g m e (read id us index)) index
          (λ _ i. if ltb i (g.arrays id).size then read id un index else read id us index)
          (read id us index)
          (λ _ i _.
            if-cases (λ e. Means g m e (read id us index)) (ltb i (g.arrays id).size)
              (read id un index) (read id us index)
              (λ _. (read-Typed g m id us un index h hn, refl, same)) (λ _. all))
          all

    -- A constant index into a constant array.
    element-Means :
        ArraysFit g
        → ((s : Assignment)
            → initial_value g s id (value g m s index)
              ≡ value_updates g m s id us (value g m s index))
        → (e : Expr) → constant_element g m id index ≡ some e
        → Means g m e (read id us index)
    unfolding constant_element value get_width initial_value
    element-Means fit same e found = elim (Option-cases (as_constant index)) [
      | inl other ↦ absurd (none≢some (sym (opened_none other) ∙ found))
      | inr ((w, i), c) ↦ elim (Bool-cases (ltb i (g.arrays id).size)) [
        | inl inside ↦ elim (Option-cases (get_elem? (g.arrays id).constant_values i)) [
          | inl missing ↦ absurd (none≢some (sym (opened_missing w i c inside missing) ∙ found))
          | inr (v, q) ↦
              let is_e : constant (g.arrays id).range v ≡ e =
                some_injective (sym (opened_some w i v c inside q) ∙ found) in
              subst (λ x. Means g m x (read id us index)) is_e (element w i v c q)
        ]
        | inr outside ↦ absurd (none≢some (sym (opened_outside w i c outside) ∙ found))
      ]
    ]
      where
        opened_none : as_constant index ≡ none → constant_element g m id index ≡ none
        opened_none other = rw (constant_element, other) refl

        opened_outside :
            (w i : ℕ)
            → as_constant index ≡ some (w, i)
            → ltb i (g.arrays id).size ≡ false
            → constant_element g m id index ≡ none
        opened_outside w i c outside = rw (constant_element, c, outside) refl

        opened_missing :
            (w i : ℕ)
            → as_constant index ≡ some (w, i)
            → ltb i (g.arrays id).size ≡ true
            → get_elem? (g.arrays id).constant_values i ≡ none
            → constant_element g m id index ≡ none
        opened_missing w i c inside missing = rw (constant_element, c, inside, missing) refl

        opened_some :
            (w i v : ℕ)
            → as_constant index ≡ some (w, i)
            → ltb i (g.arrays id).size ≡ true
            → get_elem? (g.arrays id).constant_values i ≡ some v
            → constant_element g m id index ≡ some (constant (g.arrays id).range v)
        opened_some w i v c inside q = rw (constant_element, c, inside, q) refl

        element :
            (w i v : ℕ)
            → as_constant index ≡ some (w, i)
            → get_elem? (g.arrays id).constant_values i ≡ some v
            → Means g m (constant (g.arrays id).range v) (read id us index)
        element w i v c q =
            let (_, _, pos, _) = read_parts g m id us index h in
            (
              constant_typed g m (g.arrays id).range v pos (fit id i v q),
              refl,
              λ s.
                  let at : value g m s index ≡ i = ap (value g m s) (as_constant-≡ index w i c) in
                  sym (
                    ap
                      (λ x.
                        held g (get_elem? (g.arrays id).constant_values x) (s id x)
                        % 2 ^ (g.arrays id).range)
                      at
                    ∙ ap (λ o. held g o (s id i) % 2 ^ (g.arrays id).range) q
                    ∙ mod-eq_of_lt (fit id i v q))
                  ∙ same s,
            )

    -- With `--const-array-opt` off, and with the values of constant arrays within their width,
    -- creating a well-typed read gives a well-typed expression of the array's width that has,
    -- under every assignment, the value of the plain read under all updates.
    pub create_read-Means : ArraysFit g → Means g m (create_read g m id us index) (read id us index)
    unfolding create_read value get_width well_typed
    create_read-Means fit =
        let (hi, wi, pos, hu) = read_parts g m id us index h in
        outcome (find_write g m index us) (find_write-Searched g m opt id index hi wi us hu)
      where
        outcome :
            (f : Found)
            → Searched g m opt id index us f
            → Means g m
                (elim f [
                  | written v ↦ v
                  | symbolic_write un ↦ shortened g m id us un index
                  | exhausted ↦
                      if is_symbolic_array (g.arrays id).constant_values
                      then shortened g m id us no_update index
                      else elim (constant_element g m id index) [
                        | some e ↦ e
                        | none ↦ shortened g m id us no_update index
                      ]
                ])
                (read id us index)
        outcome (written v) (hv, wv, same) = (hv, wv, same)
        outcome (symbolic_write un) (hn, same) = shortened-Means un hn same
        outcome exhausted same =
            let short = shortened-Means no_update refl same in
            if-cases (λ e. Means g m e (read id us index))
              (is_symbolic_array (g.arrays id).constant_values)
              (shortened g m id us no_update index)
              (elim (constant_element g m id index) [
                | some e ↦ e
                | none ↦ shortened g m id us no_update index
              ])
              (λ _. short)
              (λ _. elim (Option-cases (constant_element g m id index)) [
                | inl missing ↦ rw missing short
                | inr (e, found) ↦ rw found (element-Means fit same e found)
              ])
