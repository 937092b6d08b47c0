-- ===== src/Tests/Cli.antt =====
-- The command lines at concrete dates.
use proto_v2_engine.Base.{ℕ, ◌≡◌, refl, [], ◌∷◌, arith}
use proto_v2_engine.Cli.Quarantine.{
  DateTime, days_in_month, daterange, value_error, finished, daterange_ends,
}

abbrev february : ℕ → DateTime
february day = record { year = 2024; month = 2; day = day }

-- The range ends with its month, and the loop has no next day to go to.
daterange_ends_example : (daterange 32 (february 28) (february 29)).1 ≡ value_error
unfolding days_in_month
daterange_ends_example =
    daterange_ends 32 (february 28) (february 29) (omega arith) (omega arith) (omega arith)

within_the_month :
    daterange 32 (february 27) (february 28) ≡ (february 27 ∷ (february 28 ∷ []), finished)
unfolding daterange
within_the_month = refl
