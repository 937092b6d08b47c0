-- ===== src/Web/Execution/Retry.antt =====
-- infra/api/endpoints/execution.py: a request that is sent again.
use mathlib.Core.Path.{subst}
use proto_v2_engine.Base.{
  ℕ, String, true, false, ◌≡◌, refl, ap, inl, inr, Bool-cases, Option, none, some, List, [], ◌∷◌,
  ◌++◌, Result, ok, err, eq_self,
}
use proto_v2_engine.Web.Approvals.{World}
use proto_v2_engine.Web.Execution.{
  Row, Db, Fresh, RunRequest, RunResponse, RunError, has_key_of, find_run, update_row,
  ensure_approval, conflicts, respond, reuse, new_row, insert_if_free, insert_run, run_others,
  run_if_free, run_execution,
}

module _ {R : Type 0} where
  find_run-snoc :
      (req : RunRequest) (rows : List (Row R)) (row : Row R)
      → find_run req rows ≡ none
      → has_key_of req row ≡ true
      → find_run req (rows ++ (row ∷ [])) ≡ some row
  unfolding find_run
  find_run-snoc req [] row h k = rw k refl
  find_run-snoc req (r ∷ rows) row h k = elim (Bool-cases (has_key_of req r)) [
    | inl t ↦ let hit : some r ≡ none = rw t at h in absurd (cc hit)
    | inr t ↦ rw t (find_run-snoc req rows row (rw t at h) k)
  ]

  find_run-update_row :
      (req : RunRequest) (f : World R → World R) (rows : List (Row R)) (row : Row R)
      → find_run req rows ≡ some row
      → find_run req (update_row (has_key_of req) f rows)
        ≡ some (record row { world = f row.world })
  unfolding find_run update_row
  find_run-update_row req f [] row h = cc
  find_run-update_row req f (r ∷ rows) row h = elim (Bool-cases (has_key_of req r)) [
    | inl t ↦
        let hit : some r ≡ some row = rw t at h in
        let same : r ≡ row = cc hit in
        rw t (rw t (ap (λ (x : Row R). some (record x { world = f x.world })) same))
    | inr t ↦ rw t (rw t (find_run-update_row req f rows row (rw t at h)))
  ]

module _ {R : Type 0} (fingerprint : String → String → String → String)
    (calc_expires_at : ℕ → ℕ → R) where
  -- Where a request is answered with a run, the table holds that run under its key, without a conflict.
  Holds : RunRequest → Result RunError RunResponse × Db R → Type 0
  Holds req (err e, db) = Unit
  Holds req (ok resp, db) =
      (row : Row R) × (find_run req db.rows ≡ some row)
      × (conflicts fingerprint calc_expires_at req row ≡ false)
      × (row.execution_id ≡ resp.execution_id)

  reuse-Holds :
      (new : Fresh) (req : RunRequest) (row : Row R) (db : Db R)
      → find_run req db.rows ≡ some row
      → Holds req (reuse fingerprint calc_expires_at new req row db)
  unfolding reuse Holds conflicts
  reuse-Holds new req row db h = elim (Bool-cases (conflicts fingerprint calc_expires_at req row)) [
    | inl c ↦ rw c tt
    | inr c ↦ rw c (
      _,
      find_run-update_row req (ensure_approval fingerprint calc_expires_at new) db.rows row h,
      c,
      refl,
    )
  ]

  new_row-fits :
      (new : Fresh) (req : RunRequest)
      → (has_key_of req (new_row fingerprint calc_expires_at new req) ≡ true)
        × (conflicts fingerprint calc_expires_at req (new_row fingerprint calc_expires_at new req)
            ≡ false)
  unfolding new_row conflicts
  new_row-fits new req = (
    rw (eq_self req.project_id) (eq_self req.idempotency_key),
    rw (eq_self req.decision_card_id) (
        rw (eq_self req.execution_scope) (
          rw (eq_self (fingerprint req.project_id req.decision_card_id req.execution_scope)) refl)),
  )

  insert_if_free-Holds :
      (found : Option (Row R)) (new : Fresh) (req : RunRequest) (db : Db R)
      → find_run req db.rows ≡ found
      → Holds req (insert_if_free fingerprint calc_expires_at found new req db)
  unfolding Holds
  insert_if_free-Holds (some row) new req db h = reuse-Holds new req row db h
  insert_if_free-Holds none new req db h =
      let row = new_row fingerprint calc_expires_at new req in
      let (key, fits) = new_row-fits new req in
      (row, find_run-snoc req db.rows row h key, fits, refl)

  run-Holds :
      (found : Option (Row R)) (others : List (Fresh × RunRequest)) (new : Fresh) (req : RunRequest)
      (db : Db R)
      → find_run req db.rows ≡ found
      → Holds req (run_if_free fingerprint calc_expires_at found others new req db)
  unfolding insert_run
  run-Holds (some row) others new req db h = reuse-Holds new req row db h
  run-Holds none others new req db h =
      let db' = run_others fingerprint calc_expires_at others db in
      insert_if_free-Holds (find_run req db'.rows) new req db' refl

  reused :
      (new : Fresh) (req : RunRequest) (row : Row R) (db : Db R)
      → conflicts fingerprint calc_expires_at req row ≡ false
      → (reuse fingerprint calc_expires_at new req row db).0
        ≡ ok (respond fingerprint calc_expires_at row true)
  unfolding reuse
  reused new req row db c = rw c refl

  -- A request that was answered with a run is answered with the same run, as a repetition, when it is sent
  -- once more, whatever other requests come between its first look and its flush.
  pub retry_same_run :
      (others others' : List (Fresh × RunRequest)) (new new' : Fresh) (req : RunRequest)
      (db db' : Db R) (resp : RunResponse)
      → run_execution fingerprint calc_expires_at others new req db ≡ (ok resp, db')
      → (again : RunResponse) × ((run_execution fingerprint calc_expires_at others' new' req db').0
          ≡ ok again)
        × (again.execution_id ≡ resp.execution_id)
        × (again.is_dedup ≡ true)
  unfolding run_execution Holds
  retry_same_run others others' new new' req db db' resp e =
      let (row, here, fits, same) =
        subst (Holds req) e (run-Holds (find_run req db.rows) others new req db refl) in
      (
        respond fingerprint calc_expires_at row true,
        rw here (reused new' req row db' fits),
        same,
        refl,
      )
