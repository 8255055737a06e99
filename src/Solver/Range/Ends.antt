-- ===== src/Solver/Range/Ends.antt =====
-- The ends of an expression's range, and what the answers to the queries of getRange say of them.
use mathlib.Core.Path.{subst}
use learch.Prelude.{
  ℕ, zero, suc, ◌-◌, ◌^◌, ◌≤◌, ◌<◌, ◌≡◌, sym, ◌∙◌, Bool, true, false, some, ltb, leb, ◌==◌,
  if◌then◌else◌, Bool-cases, inl, inr, arith,
}
use learch.Solver.{Logic, Validity, is_true, is_false, unknown}
use learch.Solver.Meaning.{Truth, Verdict, Value-negate}
use learch.Solver.Front.{May}
use learch.Solver.Range.{Number, ends}
use learch.Solver.Range.Search.{Outcome, Border}

suc_sub_one : (n : ℕ) → suc n - 1 ≡ n
suc_sub_one n = omega arith

pub zero_of : (n : ℕ) → (n == 0) ≡ true → n ≡ 0
zero_of n h = ground arith

bit_le : (n : ℕ) → n < 2 ^ 1 → n ≤ 1
bit_le n h = omega arith

bit_of : (n : ℕ) (b : Bool) → n < 2 ^ 1 → (n == 1) ≡ b → n ≡ (if b then 1 else 0)
bit_of n true h e = ground arith
bit_of n false h e = ground arith

module _ {Q W : Type 0} (logic : Logic Q W) {width : ℕ} (e : Number logic width) where
  -- The worlds that the constraints allow, and what getRange is to find in them.
  pub record IsExact (range : ℕ × ℕ) : Type 0 where
    pub low : (w : W) → e.allowed w ≡ true → range.0 ≤ e.number w
    pub high : (w : W) → e.allowed w ≡ true → e.number w ≤ range.1
    pub low_reached : (w : W) × (e.allowed w ≡ true) × (e.number w ≡ range.0)
    pub high_reached : (w : W) × (e.allowed w ≡ true) × (e.number w ≡ range.1)

  abbrev pub AllBelow : ℕ → Type 0
  AllBelow n = (w : W) → e.allowed w ≡ true → e.number w ≤ n

  abbrev pub SomeAbove : ℕ → Type 0
  SomeAbove n = (w : W) × (e.allowed w ≡ true) × (n < e.number w)

  abbrev pub SomeBelow : ℕ → Type 0
  SomeBelow n = (w : W) × (e.allowed w ≡ true) × (e.number w ≤ n)

  abbrev pub AllAbove : ℕ → Type 0
  AllAbove n = (w : W) → e.allowed w ≡ true → n < e.number w

  leb-le : (a b : ℕ) → leb a b ≡ true → a ≤ b
  leb-le a b h = ground arith

  leb-lt : (a b : ℕ) → leb a b ≡ false → b < a
  leb-lt a b h = ground arith

  pub at_most-All :
      (n : ℕ) (b : Bool)
      → n < 2 ^ width
      → Truth logic (e.at_most n) b
      → Outcome AllBelow SomeAbove 0 0 n b
  at_most-All n true h t = λ w a.
      leb-le (e.number w) n (sym (e.at_most-value n w h) ∙ t w (e.at_most-constraints_hold n w ∙ a))
  at_most-All n false h (w, a, t) = (
    w,
    sym (e.at_most-constraints_hold n w) ∙ a,
    leb-lt (e.number w) n (sym (e.at_most-value n w h) ∙ t),
  )

  pub at_most-Some :
      (n : ℕ) (b : Bool)
      → n < 2 ^ width
      → May logic (e.at_most n) true b
      → Outcome SomeBelow AllAbove 0 0 n b
  at_most-Some n true h (w, a, t) = (
    w,
    sym (e.at_most-constraints_hold n w) ∙ a,
    leb-le (e.number w) n (sym (e.at_most-value n w h) ∙ t),
  )
  at_most-Some n false h t = λ w a.
      leb-lt (e.number w) n (sym (e.at_most-value n w h) ∙ t w (e.at_most-constraints_hold n w ∙ a))

  pub fits : (top n : ℕ) → top < 2 ^ width → n < top → n < 2 ^ width
  fits top n h k = omega arith

  -- A lower bound that is reached, and an upper one.
  abbrev pub LowerEnd : ℕ → Type 0
  LowerEnd n =
      ((w : W) → e.allowed w ≡ true → n ≤ e.number w)
      × ((w : W) × (e.allowed w ≡ true) × (e.number w ≡ n))

  abbrev pub UpperEnd : ℕ → Type 0
  UpperEnd n = AllBelow n × ((w : W) × (e.allowed w ≡ true) × (e.number w ≡ n))

  pub least-LowerEnd : (n top : ℕ) → Border SomeBelow AllAbove 0 top n → LowerEnd n
  least-LowerEnd zero top (_, _, (w, a, l), bad) = (λ v _. omega arith, (w, a, omega arith))
  least-LowerEnd (suc n) top (_, _, (w, a, l), bad) =
      let above : AllAbove n = subst AllAbove (suc_sub_one n) (bad (omega arith)) in
      (λ v b. omega (arith, above v b), (w, a, omega (arith, above w a)))

  pub greatest-UpperEnd :
      (min n top : ℕ) → LowerEnd min → Border AllBelow SomeAbove min top n → UpperEnd n
  greatest-UpperEnd min n top lower (l, _, below, bad) = elim (Bool-cases (ltb min n)) [
    | inl more ↦ let (w, a, k) = bad (ground arith) in (below, (w, a, omega (arith, below w a)))
    | inr done ↦ let (w, a, k) = lower.1 in (below, (w, a, ground (arith, below w a)))
  ]

  abbrev pub FewBits : ℕ → Type 0
  FewBits n = (w : W) → e.allowed w ≡ true → e.number w < 2 ^ n

  abbrev pub AnyBits : ℕ → Type 0
  AnyBits n = Unit {0}

  module _ (sat : (w : W) × (e.allowed w ≡ true)) where
    bit_number :
        (w : W) (b : Bool)
        → (o : width ≡ 1) → logic.value (e.itself o) w ≡ b
        → e.number w ≡ (if b then 1 else 0)
    bit_number w b o v =
        bit_of (e.number w) b (subst (λ t. e.number w < 2 ^ t) o (e.number-lt w))
          (sym (e.itself-value o w) ∙ v)

    pub itself_holds :
        (o : width ≡ 1) (w : W) → e.allowed w ≡ true → logic.constraints_hold (e.itself o) w ≡ true
    itself_holds o w a = e.itself-constraints_hold o w ∙ a

    pub one_bit-IsExact :
        (v : Validity) → (o : width ≡ 1) → Verdict logic (e.itself o) v → IsExact (ends v)
    one_bit-IsExact is_true o v =
        let one =
          λ (w : W) (a : e.allowed w ≡ true). bit_number w true o (v w (itself_holds o w a)) in
        record {
          low = λ w a. omega (arith, one w a);
          high = λ w a. omega (arith, one w a);
          low_reached = (sat.0, sat.1, one sat.0 sat.1);
          high_reached = (sat.0, sat.1, one sat.0 sat.1);
        }
    one_bit-IsExact is_false o v =
        let zeros = λ (w : W) (a : e.allowed w ≡ true).
          bit_number w false o (Value-negate logic (e.itself o) w (itself_holds o w a) v) in
        record {
          low = λ w a. omega arith;
          high = λ w a. omega (arith, zeros w a);
          low_reached = (sat.0, sat.1, zeros sat.0 sat.1);
          high_reached = (sat.0, sat.1, zeros sat.0 sat.1);
        }
    one_bit-IsExact unknown o ((w, a, v), (w', a', v')) = record {
      low = λ x b. omega arith;
      high = λ x b. bit_le (e.number x) (subst (λ t. e.number x < 2 ^ t) o (e.number-lt x));
      low_reached = (w', sym (e.itself-constraints_hold o w') ∙ a', bit_number w' false o v');
      high_reached = (w, sym (e.itself-constraints_hold o w) ∙ a, bit_number w true o v);
    }

    pub known-IsExact : (n : ℕ) → e.known_number ≡ some n → IsExact (n, n)
    known-IsExact n k =
        let is_n = λ (w : W). e.known_number-number n w k in
        record {
          low = λ w a. omega (arith, is_n w);
          high = λ w a. omega (arith, is_n w);
          low_reached = (sat.0, sat.1, is_n sat.0);
          high_reached = (sat.0, sat.1, is_n sat.0);
        }
