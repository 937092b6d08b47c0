-- ===== src/Execution/Floats.antt =====
-- Python floats, of which the modelled code only makes comparisons and one quotient: what it uses of
-- them, and the laws of IEEE comparison that its guards rely on. `hundredths` meets the laws.
use proto_v2_engine.Base.{ℕ, ◌*◌, ◌/◌, ◌≡◌, refl, Bool, true, false, ltb, leb, arith}

pub record Floats (F : Type 0) : Type 0 where
  pub lt : F → F → Bool
  pub le : F → F → Bool
  pub zero : F
  pub one : F
  -- `n / m`, for m > 0
  pub ratio : ℕ → ℕ → F

pub record IsFloats {F : Type 0} (f : Floats F) : Type 0 where
  pub zero-le-one : f.le f.zero f.one ≡ true
  pub one-le-one : f.le f.one f.one ≡ true
  pub le_not_gt : (a b : F) → f.le a b ≡ true → f.lt b a ≡ false

abbrev pub hundredths : Floats ℕ
hundredths = record { lt = ltb; le = leb; zero = 0; one = 100; ratio = λ n m. n * 100 / m }

pub hundredths-IsFloats : IsFloats hundredths
hundredths-IsFloats = record {
  zero-le-one = refl;
  one-le-one = refl;
  le_not_gt = λ a b h. ground arith;
}
