-- ===== src/Execution/Idempotency.antt =====
-- core/execution/idempotency_guard.py: the replays of an approval with an envelope. The lock makes each
-- call one step, so that a history is a list of calls.
use text.Mathlib.TextEquality.{eq_iff}
use proto_v2_engine.Base.{
  ℕ, suc, ◌+◌, String, Bool, ◌≡◌, refl, sym, ◌∙◌, inl, inr, true, false, ◌&&◌, List, [], ◌∷◌, arith,
  eqb, ◌==◌, if◌then◌else◌, Bool-cases,
}

-- `ReplayKey`: the approval's id and the envelope's.
abbrev pub ReplayKey : Type 0
ReplayKey = String × String

abbrev pub same_key : ReplayKey → ReplayKey → Bool
same_key (a, e) (b, g) = a == b && e == g

-- `_seen`, a dict from keys to counts
abbrev pub Seen : Type 0
Seen = List (ReplayKey × ℕ)

-- `_seen.get(key, 0)`
unfoldable pub seen_count : Seen → ReplayKey → ℕ
seen_count [] key = 0
seen_count ((k, n) ∷ seen) key =
    let rest = seen_count seen key in if same_key k key then n else rest

-- `_seen[key] = n`
unfoldable pub set_count : Seen → ReplayKey → ℕ → Seen
set_count [] key n = (key, n) ∷ []
set_count ((k, m) ∷ seen) key n =
    let rest = set_count seen key n in if same_key k key then (k, n) ∷ seen else (k, m) ∷ rest

unfoldable pub check_and_mark : ReplayKey → Seen → (Bool × ℕ) × Seen
check_and_mark key seen = let n = suc (seen_count seen key) in ((eqb n 1, n), set_count seen key n)

unfoldable pub after_marks : List ReplayKey → Seen → Seen
after_marks [] seen = seen
after_marks (k ∷ ks) seen = after_marks ks (check_and_mark k seen).1

-- How often a key occurs among the calls.
unfoldable pub occurrences : ReplayKey → List ReplayKey → ℕ
occurrences key [] = 0
occurrences key (k ∷ ks) =
    let rest = occurrences key ks in if same_key k key then suc rest else rest

same_key-eq : (j k : ReplayKey) → same_key j k ≡ true → j ≡ k
same_key-eq (a, e) (b, g) h =
    let first : a ≡ b = ground (arith, eq_iff a b) in
    let second : e ≡ g = ground (arith, eq_iff e g) in rw first (rw second refl)

same_key_refl : (k : ReplayKey) → same_key k k ≡ true
same_key_refl (a, e) = ground (arith, eq_iff a a, eq_iff e e)

-- Two keys that differ are not both a third one.
apart : (i j k : ReplayKey) → same_key i j ≡ false → same_key i k ≡ true → same_key j k ≡ false
apart i j k e t = elim (Bool-cases (same_key j k)) [
  | inr h ↦ h
  | inl h ↦
      let same : i ≡ j = same_key-eq i k t ∙ sym (same_key-eq j k h) in
      let differs : same_key j j ≡ false = rw same at e in absurd (cc (same_key_refl j))
]

seen_count-set_count :
    (seen : Seen) (j k : ReplayKey) (n : ℕ)
    → seen_count (set_count seen j n) k ≡ (if same_key j k then n else seen_count seen k)
unfolding seen_count set_count
seen_count-set_count [] j k n = refl
seen_count-set_count ((i, m) ∷ seen) j k n = elim (Bool-cases (same_key i j)) [
  | inl e ↦ rw e (
      rw (same_key-eq i j e)
        (elim (Bool-cases (same_key j k)) [ inl t ↦ rw t refl | inr t ↦ rw t refl ]))
  | inr e ↦ rw e (elim (Bool-cases (same_key i k)) [
    | inl t ↦ rw t (rw (apart i j k e t) refl)
    | inr t ↦ rw t (seen_count-set_count seen j k n)
  ])
]

after_marks-count :
    (calls : List ReplayKey) (seen : Seen) (key : ReplayKey)
    → seen_count (after_marks calls seen) key ≡ seen_count seen key + occurrences key calls
unfolding after_marks occurrences check_and_mark
after_marks-count [] seen key = omega arith
after_marks-count (k ∷ ks) seen key = elim (Bool-cases (same_key k key)) [
  | inl e ↦
      let same = same_key-eq k key e in
      rw e (
        rw (after_marks-count ks (set_count seen k (suc (seen_count seen k))) key) (
          rw (seen_count-set_count seen k key (suc (seen_count seen k)))
            (rw e (rw same (omega arith)))))
  | inr e ↦ rw e (
      rw (after_marks-count ks (set_count seen k (suc (seen_count seen k))) key)
        (rw (seen_count-set_count seen k key (suc (seen_count seen k))) (rw e refl)))
]

after_marks-fresh :
    (calls : List ReplayKey) (key : ReplayKey)
    → seen_count (after_marks calls []) key ≡ occurrences key calls
unfolding seen_count
after_marks-fresh calls key = rw (after_marks-count calls [] key) (omega arith)

eqb-suc : (n : ℕ) → eqb (suc n) 1 ≡ eqb n 0
eqb-suc n = ground arith

-- After any calls on an empty guard, a call is let through as a first use exactly where its key is
-- none of theirs, and the count that it returns is one more than the calls with its key.
check_and_mark-counts :
    (calls : List ReplayKey) (key : ReplayKey)
    → (check_and_mark key (after_marks calls [])).0
      ≡ (eqb (occurrences key calls) 0, suc (occurrences key calls))
unfolding check_and_mark
check_and_mark-counts calls key =
    rw (after_marks-fresh calls key) (rw (eqb-suc (occurrences key calls)) refl)
