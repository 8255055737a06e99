-- ===== src/Expressions/Reads/Search.antt =====
-- The search of ReadExpr::create through the updates of an array.
use learch.Prelude.{
  ℕ, ◌<◌, ◌≡◌, refl, sym, ◌∙◌, ap, Bool, true, false, ◌==◌, inl, inr, Option-cases, ==→≡, ltb→lt,
  if-cases, both, false≢true,
}
use learch.Expressions.{Globals, Expr, Updates, read, eq, no_update, update, get_width, as_constant}
use learch.Expressions.ApInt.{ApInt}
use learch.Expressions.Meaning.{
  Assignment, number, well_typed, well_typed_updates, initial_value, value, value_updates,
}
use learch.Expressions.Constants.{as_constant-≡}
use learch.Expressions.Rewriting.{comparison_typed, both_true}
use learch.Expressions.Equal.{is_true, create_eq}
use learch.Expressions.Equal.Steps.{Typed, value_eq, ==-turn}
use learch.Expressions.Equal.Laws.{create_eq-Means}
use learch.Expressions.Reads.{Found, written, exhausted, symbolic_write, find_write}

module _ (g : Globals) (m : ApInt) where
  update_parts :
      (id : ℕ) (i v : Expr) (next : Updates)
      → well_typed_updates g id (update i v next) ≡ true
      → Typed g m i
        × (get_width g i ≡ (g.arrays id).domain)
        × Typed g m v
        × (get_width g v ≡ (g.arrays id).range)
        × (well_typed_updates g id next ≡ true)
  unfolding well_typed
  update_parts id i v next h =
      let (p, hn) = both h in
      let (p, wv) = both p in
      let (p, hv) = both p in
      let (hi, wi) = both p in
      (
        hi,
        ==→≡ (get_width g i) (g.arrays id).domain wi,
        hv,
        ==→≡ (get_width g v) (g.arrays id).range wv,
        hn,
      )

  pub read_parts :
      (id : ℕ) (us : Updates) (i : Expr)
      → Typed g m (read id us i)
      → Typed g m i
        × (get_width g i ≡ (g.arrays id).domain)
        × (0 < (g.arrays id).range)
        × (well_typed_updates g id us ≡ true)
  unfolding well_typed
  read_parts id us i h =
      let (p, hu) = both h in
      let (p, pos) = both p in
      let (hi, wi) = both p in
      (hi, ==→≡ (get_width g i) (g.arrays id).domain wi, ltb→lt 0 (g.arrays id).range pos, hu)

  pub read-Typed :
      (id : ℕ) (us un : Updates) (i : Expr)
      → Typed g m (read id us i)
      → well_typed_updates g id un ≡ true
      → Typed g m (read id un i)
  unfolding well_typed
  read-Typed id us un i h hn = let (p, _) = both h in both_true p hn

  module _ (opt : g.const_array_opt ≡ false) (id : ℕ) (index : Expr) where
    -- What the search found, for the value of the read.
    abbrev pub Searched : Updates → Found → Type 0
    Searched us (written v) =
        Typed g m v
        × (get_width g v ≡ (g.arrays id).range)
        × ((s : Assignment) → value g m s v ≡ value_updates g m s id us (value g m s index))
    Searched us exhausted =
        (s : Assignment)
        → initial_value g s id (value g m s index) ≡ value_updates g m s id us (value g m s index)
    Searched us (symbolic_write un) =
        (well_typed_updates g id un ≡ true)
        × ((s : Assignment)
            → value_updates g m s id un (value g m s index)
              ≡ value_updates g m s id us (value g m s index))

    -- A write elsewhere.
    passed :
        (i v : Expr) (next : Updates)
        → ((s : Assignment) → (value g m s i == value g m s index) ≡ false)
        → (f : Found) → Searched next f
        → Searched (update i v next) f
    unfolding value
    passed i v next other (written u) (h, w, same) = (h, w, λ s. rw (other s) (same s))
    passed i v next other exhausted same = λ s. rw (other s) (same s)
    passed i v next other (symbolic_write un) (h, same) = (h, λ s. rw (other s) (same s))

    pub find_write-Searched :
        Typed g m index
        → get_width g index ≡ (g.arrays id).domain
        → (us : Updates) → well_typed_updates g id us ≡ true
        → Searched us (find_write g m index us)
    unfolding find_write value
    find_write-Searched hi wi no_update h = λ s. refl
    find_write-Searched hi wi (update i v next) h =
        let (hj, wj, hv, wv, hn) = update_parts id i v next h in
        let (_, _, same) =
          create_eq-Means g m opt index i (comparison_typed g m eq index i (hi, hj, wi ∙ sym wj)) in
        let test = create_eq g m index i in
        elim (Option-cases (as_constant test)) [
          | inl unknown_index ↦ rw (find_write, unknown_index) (h, λ s. refl)
          | inr ((w, c), e) ↦
              let tested : (s : Assignment) → number (value g m s i == value g m s index) ≡ c = λ s.
                ap number (==-turn (value g m s i) (value g m s index))
                ∙ sym (value_eq g m index i s)
                ∙ sym (same s)
                ∙ ap (value g m s) (as_constant-≡ test w c e) in
              rw (find_write, e)
                (if-cases (Searched (update i v next)) (is_true c) (written v)
                  (find_write g m index next)
                  (λ here. (
                    hv,
                    wv,
                    λ s. rw (hit (value g m s i == value g m s index) c (tested s) here) refl,
                  ))
                  (λ there.
                    passed i v next
                      (λ s. missed (value g m s i == value g m s index) c (tested s) there)
                      (find_write g m index next) (find_write-Searched hi wi next hn)))
        ]
      where
        hit : (b : Bool) (c : ℕ) → number b ≡ c → is_true c ≡ true → b ≡ true
        hit true c e t = refl
        hit false c e t = absurd (false≢true (ap is_true e ∙ t))

        missed : (b : Bool) (c : ℕ) → number b ≡ c → is_true c ≡ false → b ≡ false
        missed true c e t = absurd (false≢true (sym t ∙ ap is_true (sym e)))
        missed false c e t = refl
