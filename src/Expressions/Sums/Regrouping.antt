-- ===== src/Expressions/Sums/Regrouping.antt =====
-- The eight rewritings of AddExpr_create and SubExpr_create.
use learch.Prelude.{ℕ, ◌≡◌, refl, sym, ◌∙◌, ap, false}
use learch.Expressions.{Globals, Arithmetic, Expr, constant, arithmetic, add, sub, get_width}
use learch.Expressions.ApInt.{ApInt}
use learch.Expressions.Meaning.{Assignment, value, Means}
use learch.Expressions.Values.{value-lt_at}
use learch.Expressions.Words.{plus_assoc, difference_inside, sum_subtracted, difference_added}
use learch.Expressions.Rewriting.{Means-refl, arithmetic-Pair, arithmetic-Means}
use learch.Expressions.Dispatch.{constant-lt}
use learch.Expressions.Equal.Steps.{Typed}
use learch.Expressions.Sums.{create_add_left, create_sub_left}
use learch.Expressions.Sums.Gathering.{create_add_left-Means, create_sub_left-Means}

module _ (g : Globals) (m : ApInt) (opt : g.const_array_opt ≡ false) where
  -- The types and widths of a sum with a nested one.
  abbrev pub Sized : ℕ → Expr → Type 0
  Sized w e = Typed g m e × (get_width g e ≡ w)

  module _ (w c : ℕ) (x p q node : Expr) (inner : Arithmetic) (hc : Typed g m (constant w c))
      (hp : Sized w p) (hq : Sized w q) (hx : Means g m x (arithmetic inner p q))
      (width : get_width g node ≡ w) where
    -- What a rebuilt sum stands for, once its value is known.
    pub rebuilt_left :
        (outer : Arithmetic) (e : Expr)
        → (Typed g m (arithmetic outer (constant w c) x)
            → Means g m e (arithmetic outer (constant w c) x))
        → ((s : Assignment)
            → m.operate outer w c (m.operate inner w (value g m s p) (value g m s q))
              ≡ value g m s node)
        → Means g m e node
    unfolding get_width value
    rebuilt_left outer e make law =
        let kids =
          arithmetic-Means g m outer (constant w c) (constant w c) x (arithmetic inner p q)
            (Means-refl g m (constant w c) hc) hx (sym hp.1) in
        let (typed, width_e, same) = make kids.0 in
        (
          typed,
          width_e ∙ sym width,
          λ s.
              same s
              ∙ kids.2 s
              ∙ ap (λ y. m.operate outer w c (m.operate inner y (value g m s p) (value g m s q)))
                  hp.1
              ∙ law s,
        )

    pub rebuilt_right :
        (e : Expr)
        → (Typed g m (arithmetic sub x (constant w c))
            → Means g m e (arithmetic sub x (constant w c)))
        → ((s : Assignment)
            → m.operate sub w (m.operate inner w (value g m s p) (value g m s q)) c
              ≡ value g m s node)
        → Means g m e node
    unfolding get_width value
    rebuilt_right e make law =
        let kids =
          arithmetic-Means g m sub x (arithmetic inner p q) (constant w c) (constant w c) hx
            (Means-refl g m (constant w c) hc) hp.1 in
        let (typed, width_e, same) = make kids.0 in
        (
          typed,
          width_e ∙ hx.1 ∙ hp.1 ∙ sym width,
          λ s.
              same s
              ∙ kids.2 s
              ∙ ap (λ y. m.operate sub y (m.operate inner y (value g m s p) (value g m s q)) c) hp.1
              ∙ law s,
        )

  -- The parts of `(c ∘ a) ∘' r`.
  pub left_parts :
      (k i : Arithmetic) (w c : ℕ) (a r : Expr)
      → Typed g m (arithmetic k (arithmetic i (constant w c) a) r)
      → Typed g m (constant w c) × Sized w a × Sized w r
  unfolding get_width
  left_parts k i w c a r h =
      let (hl, hr, e) = arithmetic-Pair g m k (arithmetic i (constant w c) a) r h in
      let (hc, ha, e') = arithmetic-Pair g m i (constant w c) a hl in
      (hc, (ha, sym e'), (hr, sym e))

  -- The parts of `l ∘' (c ∘ b)`.
  pub right_parts :
      (k i : Arithmetic) (w c : ℕ) (l b : Expr)
      → Typed g m (arithmetic k l (arithmetic i (constant w c) b))
      → Typed g m (constant w c) × Sized w l × Sized w b
  unfolding get_width
  right_parts k i w c l b h =
      let (hl, hr, e) = arithmetic-Pair g m k l (arithmetic i (constant w c) b) h in
      let (hc, hb, e') = arithmetic-Pair g m i (constant w c) b hr in (hc, (hl, e), (hb, sym e'))

  module _ (w c : ℕ) (e r x : Expr) where
    -- (k+a)+b = k+(a+b)
    pub add_plus_left :
        Typed g m (arithmetic add (arithmetic add (constant w c) e) r)
        → Means g m x (arithmetic add e r)
        → Means g m (create_add_left g m w c x) (arithmetic add (arithmetic add (constant w c) e) r)
    unfolding get_width value
    add_plus_left h hx =
        let (hc, he, hr) = left_parts add add w c e r h in
        rebuilt_left w c x e r (arithmetic add (arithmetic add (constant w c) e) r) add hc he hr hx
          refl add (create_add_left g m w c x) (create_add_left-Means g m opt w c x)
          (λ s. plus_assoc m w c (value g m s e) (value g m s r))

    -- (k-a)+b = k+(b-a)
    pub add_minus_left :
        Typed g m (arithmetic add (arithmetic sub (constant w c) e) r)
        → Means g m x (arithmetic sub r e)
        → Means g m (create_add_left g m w c x) (arithmetic add (arithmetic sub (constant w c) e) r)
    unfolding get_width value
    add_minus_left h hx =
        let (hc, he, hr) = left_parts add sub w c e r h in
        rebuilt_left w c x r e (arithmetic add (arithmetic sub (constant w c) e) r) sub hc hr he hx
          refl add (create_add_left g m w c x) (create_add_left-Means g m opt w c x)
          (λ s.
            difference_added m w c (value g m s e) (value g m s r) (constant-lt g m w c hc)
              (value-lt_at g m s e w he.0 he.1) (value-lt_at g m s r w hr.0 hr.1))

    -- (k+a)-b = k+(a-b)
    pub sub_plus_left :
        Typed g m (arithmetic sub (arithmetic add (constant w c) e) r)
        → Means g m x (arithmetic sub e r)
        → Means g m (create_add_left g m w c x) (arithmetic sub (arithmetic add (constant w c) e) r)
    unfolding get_width value
    sub_plus_left h hx =
        let (hc, he, hr) = left_parts sub add w c e r h in
        rebuilt_left w c x e r (arithmetic sub (arithmetic add (constant w c) e) r) sub hc he hr hx
          refl add (create_add_left g m w c x) (create_add_left-Means g m opt w c x)
          (λ s.
            difference_inside m w c (value g m s e) (value g m s r) (constant-lt g m w c hc)
              (value-lt_at g m s e w he.0 he.1) (value-lt_at g m s r w hr.0 hr.1))

    -- (k-a)-b = k-(a+b)
    pub sub_minus_left :
        Typed g m (arithmetic sub (arithmetic sub (constant w c) e) r)
        → Means g m x (arithmetic add e r)
        → Means g m (create_sub_left g m w c x) (arithmetic sub (arithmetic sub (constant w c) e) r)
    unfolding get_width value
    sub_minus_left h hx =
        let (hc, he, hr) = left_parts sub sub w c e r h in
        rebuilt_left w c x e r (arithmetic sub (arithmetic sub (constant w c) e) r) add hc he hr hx
          refl sub (create_sub_left g m w c x) (create_sub_left-Means g m opt w c x)
          (λ s.
            sum_subtracted m w c (value g m s e) (value g m s r) (constant-lt g m w c hc)
              (value-lt_at g m s e w he.0 he.1) (value-lt_at g m s r w hr.0 hr.1))
