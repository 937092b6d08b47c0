-- ===== src/Storage/ApprovalQueue/Recent.antt =====
-- infra/storage/approval_queue_repo.py: `list_recent`. Its `limit` is at least 0, and str of a value that
-- is no text is a parameter.
use mathlib.Core.List.{Perm}
use mathlib.Core.List.Perm
use proto_v2_engine.Base.{
  ℕ, zero, suc, String, Bool, true, false, ◌&&◌, ◌||◌, ◌≡◌, refl, inl, inr, Bool-cases, Option,
  none, some, List, [], ◌∷◌, values, filter, take, truthy, All, upper, strip, codes, same_codes,
  eqb, ltb, if◌then◌else◌, arith,
}
use proto_v2_engine.Json.{Json, Fields, str, value_at, get_json, is_truthy}
use proto_v2_engine.Storage.ApprovalQueue.{Log, merge_latest_views}

-- The order of texts, by their code points.
unfoldable pub up_to : List ℕ → List ℕ → Bool
up_to [] ds = true
up_to (c ∷ cs) [] = false
up_to (c ∷ cs) (d ∷ ds) = let rest = up_to cs ds in ltb c d || (eqb c d && rest)

up_to_total : (cs ds : List ℕ) → up_to cs ds ≡ false → up_to ds cs ≡ true
unfolding up_to
up_to_total [] ds h = cc
up_to_total (c ∷ cs) [] h = refl
up_to_total (c ∷ cs) (d ∷ ds) h = elim (Bool-cases (up_to cs ds)) [
  | inl t ↦ ground arith
  | inr t ↦ let back = up_to_total cs ds t in ground arith
]

up_to_trans : (cs ds es : List ℕ) → up_to cs ds ≡ true → up_to ds es ≡ true → up_to cs es ≡ true
unfolding up_to
up_to_trans [] ds es h k = refl
up_to_trans (c ∷ cs) [] es h k = cc
up_to_trans (c ∷ cs) (d ∷ ds) [] h k = cc
up_to_trans (c ∷ cs) (d ∷ ds) (e ∷ es) h k = elim (Bool-cases (up_to cs ds)) [
  | inr t ↦ ground arith
  | inl t ↦ elim (Bool-cases (up_to ds es)) [
    | inr u ↦ ground arith
    | inl u ↦ let both = up_to_trans cs ds es t u in ground arith
  ]
]

module _ (str_of : Json → String) where
  abbrev shown : Json → String
  shown (str s) = s
  shown j = str_of j

  -- `str(it.get("status", ""))`
  abbrev shown_status : Fields → String
  shown_status it = elim (value_at it "status") [ none ↦ "" | some j ↦ shown j ]

  unfoldable pub time_of : Fields → List ℕ
  unfolding codes
  time_of it = if is_truthy (get_json it "ts") then codes (shown (get_json it "ts")) else []

  -- `items.sort(key=_ts, reverse=True)`, which keeps the order of items of one time.
  unfoldable insert_item : Fields → List Fields → List Fields
  unfolding up_to time_of
  insert_item x [] = x ∷ []
  insert_item x (y ∷ ys) =
      let rest = insert_item x ys in if up_to (time_of y) (time_of x) then x ∷ y ∷ ys else y ∷ rest

  unfoldable newest_first : List Fields → List Fields
  unfolding insert_item
  newest_first [] = []
  newest_first (x ∷ xs) = insert_item x (newest_first xs)

  -- The views that are asked for.
  unfoldable pub selected : Option String → List Fields → List Fields
  unfolding filter upper same_codes
  selected none items = items
  selected (some s) items =
      if truthy s
      then filter (λ it. same_codes (upper (shown_status it)) (upper (strip s))) items
      else items

  unfoldable pub list_recent : ℕ → Option String → Log → List Fields
  unfolding newest_first selected
  list_recent limit status log =
      if eqb limit 0
      then []
      else take limit (newest_first (selected status (values (merge_latest_views log))))

  -- No item is older than one after it.
  abbrev pub IsNewestFirst : List Fields → Type 0
  IsNewestFirst [] = Unit
  IsNewestFirst (x ∷ xs) = All (λ y. up_to (time_of y) (time_of x) ≡ true) xs × IsNewestFirst xs

  All-insert_item :
      (P : Fields → Type 0) (x : Fields) (ys : List Fields)
      → P x
      → All P ys
      → All P (insert_item x ys)
  unfolding insert_item
  All-insert_item P x [] p ps = (p, tt)
  All-insert_item P x (y ∷ ys) p ps = elim (Bool-cases (up_to (time_of y) (time_of x))) [
    | inl t ↦ rw t (p, ps)
    | inr t ↦ rw t (ps.0, All-insert_item P x ys p ps.1)
  ]

  All-older :
      (x y : Fields) (zs : List Fields)
      → up_to (time_of y) (time_of x) ≡ true
      → All (λ z. up_to (time_of z) (time_of y) ≡ true) zs
      → All (λ z. up_to (time_of z) (time_of x) ≡ true) zs
  All-older x y [] h a = tt
  All-older x y (z ∷ zs) h a =
      (up_to_trans (time_of z) (time_of y) (time_of x) a.0 h, All-older x y zs h a.1)

  insert_item-IsNewestFirst :
      (x : Fields) (ys : List Fields) → IsNewestFirst ys → IsNewestFirst (insert_item x ys)
  unfolding insert_item
  insert_item-IsNewestFirst x [] s = (tt, tt)
  insert_item-IsNewestFirst x (y ∷ ys) s = elim (Bool-cases (up_to (time_of y) (time_of x))) [
    | inl t ↦ rw t ((t, All-older x y ys t s.0), s)
    | inr t ↦ rw t (
      All-insert_item (λ z. up_to (time_of z) (time_of y) ≡ true) x ys
          (up_to_total (time_of y) (time_of x) t) s.0,
      insert_item-IsNewestFirst x ys s.1,
    )
  ]

  newest_first-IsNewestFirst : (xs : List Fields) → IsNewestFirst (newest_first xs)
  unfolding newest_first
  newest_first-IsNewestFirst [] = tt
  newest_first-IsNewestFirst (x ∷ xs) =
      insert_item-IsNewestFirst x (newest_first xs) (newest_first-IsNewestFirst xs)

  insert_item-Perm : (x : Fields) (ys : List Fields) → Perm (insert_item x ys) (x ∷ ys)
  unfolding insert_item
  insert_item-Perm x [] = Perm.refl (x ∷ [])
  insert_item-Perm x (y ∷ ys) = elim (Bool-cases (up_to (time_of y) (time_of x))) [
    | inl t ↦ rw t (Perm.refl (x ∷ y ∷ ys))
    | inr t ↦ rw t (Perm.trans (Perm.cons y (insert_item-Perm x ys)) (Perm.swap x y ys))
  ]

  newest_first-Perm : (xs : List Fields) → Perm (newest_first xs) xs
  unfolding newest_first
  newest_first-Perm [] = Perm.nil
  newest_first-Perm (x ∷ xs) =
      Perm.trans (insert_item-Perm x (newest_first xs)) (Perm.cons x (newest_first-Perm xs))

  early_return :
      (limit : ℕ) (xs : List Fields) → (if eqb limit 0 then [] else take limit xs) ≡ take limit xs
  early_return zero xs = refl
  early_return (suc n) xs = let positive : eqb (suc n) 0 ≡ false = ground arith in rw positive refl

  -- The list is the first limit views of an arrangement of those that are asked for,
  -- all of them and no other, in which no view is older than one after it.
  pub list_recent-IsNewestFirst :
      (limit : ℕ) (status : Option String) (log : Log)
      → (items : List Fields) × (list_recent limit status log ≡ take limit items)
        × Perm items (selected status (values (merge_latest_views log)))
        × IsNewestFirst items
  unfolding list_recent
  list_recent-IsNewestFirst limit status log =
      let views = selected status (values (merge_latest_views log)) in
      (
        newest_first views,
        early_return limit (newest_first views),
        newest_first-Perm views,
        newest_first-IsNewestFirst views,
      )
