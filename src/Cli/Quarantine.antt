-- ===== src/Cli/Quarantine.antt =====
-- cli/auto_quarantine.py: the days of a range. A date is a day of the calendar at midnight UTC.
use proto_v2_engine.Base.{
  ℕ, suc, zero, ◌+◌, ◌≤◌, ◌<◌, ◌%◌, Bool, true, false, not, ◌&&◌, ◌||◌, Option, none, some, List,
  [], ◌∷◌, ◌≡◌, ltb, leb, eqb, arith, Bool-cases, inl, inr, Option-cases, if◌then◌else◌,
}

pub record DateTime : Type 0 where
  pub year : ℕ
  pub month : ℕ
  pub day : ℕ

abbrev is_leap : ℕ → Bool
is_leap y = eqb (y % 4) 0 && (not (eqb (y % 100) 0) || eqb (y % 400) 0)

unfoldable pub days_in_month : ℕ → ℕ → ℕ
days_in_month y m =
    if eqb m 2
    then (if is_leap y then 29 else 28)
    else if eqb m 4 || eqb m 6 || eqb m 9 || eqb m 11
    then 30
    else 31

abbrev pub le_date : DateTime → DateTime → Bool
le_date a b =
    ltb a.year b.year
    || (eqb a.year b.year && (ltb a.month b.month || (eqb a.month b.month && leb a.day b.day)))

-- `d.replace(day=day)`, which raises a ValueError where the month has no such day.
unfoldable pub replace_day : DateTime → ℕ → Option DateTime
unfolding days_in_month
replace_day d day =
    if leb 1 day && leb day (days_in_month d.year d.month)
    then some record { year = d.year; month = d.month; day = day }
    else none

-- How the generator ends. `out_of_fuel` is no end of the program's.
pub data End : Type 0 where
  finished value_error out_of_fuel : End

-- The dates that are yielded, and the end. Each round takes one of the fuel.
unfoldable pub daterange : ℕ → DateTime → DateTime → List DateTime × End
unfolding replace_day
daterange zero d last = ([], out_of_fuel)
daterange (suc fuel) d last = elim (le_date d last) [
  | false ↦ ([], finished)
  | true ↦ elim (replace_day d (d.day + 1)) [
    | none ↦ (d ∷ [], value_error)
    | some next ↦ (d ∷ (daterange fuel next last).0, (daterange fuel next last).1)
  ]
]

-- The last day of the date's month.
abbrev pub month_end : DateTime → DateTime
month_end d = record d { day = days_in_month d.year d.month }

days_in_month_le : (y m : ℕ) → days_in_month y m ≤ 31
unfolding days_in_month
days_in_month_le y m = ground arith

past_end :
    (d last : DateTime)
    → le_date d last ≡ false
    → d.day ≤ days_in_month d.year d.month
    → le_date (month_end d) last ≡ false
past_end d last h v = ground arith

at_end :
    (d last : DateTime)
    → le_date d last ≡ true
    → replace_day d (d.day + 1) ≡ none
    → d.day ≤ days_in_month d.year d.month
    → le_date (month_end d) last ≡ true
unfolding replace_day
at_end d last h r v = ground arith

replaced :
    (d next : DateTime) (day : ℕ)
    → replace_day d day ≡ some next
    → (next ≡ record d { day = day }) × (day ≤ days_in_month d.year d.month)
unfolding replace_day
replaced d next day h = ground arith

-- A day of the calendar, as far as the loop needs it.
abbrev pub IsDate : DateTime → Type 0
IsDate d = d.day ≤ days_in_month d.year d.month

end_of : DateTime → DateTime → End
end_of d last = if le_date (month_end d) last then value_error else finished

ends_within :
    (fuel : ℕ) (d last : DateTime)
    → IsDate d
    → days_in_month d.year d.month < d.day + fuel
    → (daterange fuel d last).1 ≡ end_of d last
unfolding daterange end_of
ends_within zero d last v f = absurd (omega arith)
ends_within (suc fuel) d last v f = elim (Bool-cases (le_date d last)) [
  | inr past ↦ rw (past, daterange) (rw (past_end d last past v))
  | inl within ↦ elim (Option-cases (replace_day d (d.day + 1))) [
    | inl ended ↦ rw (within, daterange) (rw ended (rw (at_end d last within ended v, end_of)))
    | inr (next, e) ↦
        let (same, bound) = replaced d next (d.day + 1) e in
        rw (within, daterange)
          (rw e
            (rw same (ends_within fuel (record d { day = d.day + 1 }) last bound (omega arith))))
  ]
]

-- From every day of the calendar, and for every last day, the loop ends within 32 rounds: with a
-- ValueError exactly where the last day of the month it starts in is not after the last day asked for.
pub daterange_ends :
    (fuel : ℕ) (start last : DateTime)
    → IsDate start
    → 1 ≤ start.day
    → 32 ≤ fuel
    → (daterange fuel start last).1
      ≡ (if le_date (month_end start) last then value_error else finished)
unfolding end_of
daterange_ends fuel start last v p f =
    ends_within fuel start last v (omega (arith, days_in_month_le start.year start.month))
