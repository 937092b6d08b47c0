-- ===== src/Base/Results.antt =====
-- Raising code: the value or the exception, and methods that also change an object.
use mathlib.Core.Path.{◌≡◌, refl}
use mathlib.Core.Logic.{◌⊎◌, inl, inr}
use mathlib.Core.Bool.{Bool, true, false}

pub data Result {ℓ} (E A : Type ℓ) : Type ℓ where
  ok : A → Result E A
  err : E → Result E A

-- `if test: raise e`
abbrev pub raise_if {ℓ} : {E : Type ℓ} → Bool → E → Result E (Unit {ℓ})
raise_if true e = err e
raise_if false e = ok tt

infixl 5 ◌>>=◌
abbrev pub ◌>>=◌ {ℓ} : {E A B : Type ℓ} → Result E A → (A → Result E B) → Result E B
err e >>= rest = err e
ok value >>= rest = rest value

infixl 5 ◌>>◌
abbrev pub ◌>>◌ {ℓ} : {E B : Type ℓ} → Result E (Unit {ℓ}) → Result E B → Result E B
test >> rest = test >>= λ _. rest

abbrev pub map_err {ℓ} : {E F A : Type ℓ} → (E → F) → Result E A → Result F A
map_err f (ok a) = ok a
map_err f (err e) = err (f e)

abbrev pub is_ok {ℓ} : {E A : Type ℓ} → Result E A → Bool
is_ok (ok _) = true
is_ok (err _) = false

-- What was run before a result that was returned, for proofs where its parts stay shut.
pub >>=-eq-ok {ℓ} :
    {E A B : Type ℓ} (test : Result E A) (rest : A → Result E B) {result : B}
    → (test >>= rest) ≡ ok result
    → (value : A) × (test ≡ ok value) × (rest value ≡ ok result)
>>=-eq-ok (err e) rest h = cc
>>=-eq-ok (ok value) rest h = (value, refl, h)

-- The same with what follows from it as an argument, for long chains.
pub >>=-elim {ℓ κ} :
    {E A B : Type ℓ} {P : Type κ} (test : Result E A) (rest : A → Result E B) {result : B}
    → (test >>= rest) ≡ ok result
    → ((value : A) → test ≡ ok value → rest value ≡ ok result → P)
    → P
>>=-elim (err e) rest h follows = cc
>>=-elim (ok value) rest h follows = follows value refl h

pub Result-cases {ℓ} :
    {E A : Type ℓ} (r : Result E A) → ((a : A) × (r ≡ ok a)) ⊎ ((e : E) × (r ≡ err e))
Result-cases (ok a) = inl (a, refl)
Result-cases (err e) = inr (e, refl)

pub raise_if-false {ℓ} :
    {E : Type ℓ} (b : Bool) (e : E) {u : Unit} → raise_if b e ≡ ok u → b ≡ false
raise_if-false true e h = cc
raise_if-false false e h = refl

pub map_err-eq_ok {ℓ} :
    {E F A : Type ℓ} (f : E → F) (r : Result E A) {a : A} → map_err f r ≡ ok a → r ≡ ok a
map_err-eq_ok f (ok b) h = cc
map_err-eq_ok f (err e) h = cc
