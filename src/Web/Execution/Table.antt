-- ===== src/Web/Execution/Table.antt =====
-- infra/api/endpoints and infra/api/jobs: what the endpoints and the expirer keep of the table of runs.
use text.Mathlib.TextEquality.{eq_iff}
use proto_v2_engine.Base.{
  ℕ, zero, suc, String, Bool, false, ◌&&◌, ◌≡◌, refl, ap, inl, inr, Bool-cases, Option, none, some,
  List, [], ◌∷◌, ◌++◌, All, arith, ◌==◌,
}
use proto_v2_engine.Web.Approvals.{World, handle}
use proto_v2_engine.Web.Approvals.Consistent.{waiting}
use proto_v2_engine.Web.Execution.{
  Row, Db, Op, Fresh, RunRequest, has_key_of, has_id, find_run, update_row, ensure_approval,
  conflicts, reuse, new_row, insert_if_free, insert_run, run_others, run_if_free, run_execution,
  is_due, expire_pending_approvals_once, run, answer_to, expire, step, steps,
}
use proto_v2_engine.Web.Execution.Gated.{
  IsGuarded, IsLicensed, licensed, ensure-IsGuarded, handle-IsGuarded, expire-IsGuarded,
}

abbrev Key : Type 0
Key = String × String

abbrev same_key : Key → Key → Bool
same_key a b = a.0 == b.0 && a.1 == b.1

-- No two runs have the same project and key.
abbrev pub IsUnique : List (String × String) → Type 0
IsUnique [] = Unit
IsUnique (k ∷ ks) = All (λ j. same_key j k ≡ false) ks × IsUnique ks

same_key-sym : (a b : Key) → same_key a b ≡ false → same_key b a ≡ false
same_key-sym (a, c) (b, d) h = ground (arith, eq_iff a b, eq_iff b a, eq_iff c d, eq_iff d c)

All-snoc :
    {A : Type 0} (P : A → Type 0) (xs : List A) (x : A) → All P xs → P x → All P (xs ++ (x ∷ []))
All-snoc P [] x h p = (p, tt)
All-snoc P (y ∷ ys) x h p = (h.0, All-snoc P ys x h.1 p)

IsUnique-snoc :
    (ks : List Key) (k : Key)
    → IsUnique ks
    → All (λ j. same_key j k ≡ false) ks
    → IsUnique (ks ++ (k ∷ []))
IsUnique-snoc [] k u n = (tt, tt)
IsUnique-snoc (j ∷ ks) k u n = (
  All-snoc (λ i. same_key i j ≡ false) ks k u.0 (same_key-sym j k n.0),
  IsUnique-snoc ks k u.1 n.1,
)

module _ {R : Type 0} where
  abbrev pub keys : List (Row R) → List (String × String)
  keys [] = []
  keys (row ∷ rows) = (row.project_id, row.idempotency_key) ∷ keys rows

  keys-snoc :
      (rows : List (Row R)) (row : Row R)
      → keys (rows ++ (row ∷ [])) ≡ keys rows ++ ((row.project_id, row.idempotency_key) ∷ [])
  keys-snoc [] row = refl
  keys-snoc (r ∷ rows) row = ap (λ ks. (r.project_id, r.idempotency_key) ∷ ks) (keys-snoc rows row)

  find_run-none :
      (req : RunRequest) (rows : List (Row R))
      → find_run req rows ≡ none
      → All (λ j. same_key j (req.project_id, req.idempotency_key) ≡ false) (keys rows)
  unfolding find_run
  find_run-none req [] h = tt
  find_run-none req (row ∷ rows) h = elim (Bool-cases (has_key_of req row)) [
    | inl t ↦ let hit : some row ≡ none = rw t at h in absurd (cc hit)
    | inr t ↦ (t, find_run-none req rows (rw t at h))
  ]

  keys-update_row :
      (p : Row R → Bool) (f : World R → World R) (rows : List (Row R))
      → keys (update_row p f rows) ≡ keys rows
  unfolding update_row
  keys-update_row p f [] = refl
  keys-update_row p f (row ∷ rows) = elim (Bool-cases (p row)) [
    | inl t ↦ rw t refl
    | inr t ↦
        rw t (ap (λ ks. (row.project_id, row.idempotency_key) ∷ ks) (keys-update_row p f rows))
  ]

  abbrev AllGuarded : List (Row R) → Type 0
  AllGuarded rows = All (λ row. IsGuarded row.world) rows

  update_row-All :
      (p : Row R → Bool) (f : World R → World R) (rows : List (Row R))
      → ((w : World R) → IsGuarded w → IsGuarded (f w))
      → AllGuarded rows
      → AllGuarded (update_row p f rows)
  unfolding update_row
  update_row-All p f [] keep h = tt
  update_row-All p f (row ∷ rows) keep h = elim (Bool-cases (p row)) [
    | inl t ↦ rw t (keep row.world h.0, h.1)
    | inr t ↦ rw t (h.0, update_row-All p f rows keep h.1)
  ]

  pub record IsTable (db : Db R) : Type 0 where
    pub guarded : AllGuarded db.rows
    pub unique : IsUnique (keys db.rows)

  updated :
      (db : Db R) (p : Row R → Bool) (f : World R → World R)
      → ((w : World R) → IsGuarded w → IsGuarded (f w))
      → IsTable db
      → IsTable (record db { rows = update_row p f db.rows })
  updated db p f keep t = record {
    guarded = update_row-All p f db.rows keep t.guarded;
    unique = rw (keys-update_row p f db.rows) t.unique;
  }

module _ {R : Type 0} (sql_le : R → ℕ → Bool) where
  keys-expire :
      (now limit : ℕ) (rows : List (Row R))
      → keys (expire_pending_approvals_once sql_le now limit rows) ≡ keys rows
  unfolding expire_pending_approvals_once
  keys-expire now limit [] = refl
  keys-expire now zero (row ∷ rows) = refl
  keys-expire now (suc limit) (row ∷ rows) =
      elim (Bool-cases (is_due sql_le now row.world.approval)) [
        | inl t ↦
            rw t
              (ap (λ ks. (row.project_id, row.idempotency_key) ∷ ks) (keys-expire now limit rows))
        | inr t ↦ rw t (
            ap (λ ks. (row.project_id, row.idempotency_key) ∷ ks)
              (keys-expire now (suc limit) rows))
      ]

  expire-All :
      (now limit : ℕ) (rows : List (Row R))
      → AllGuarded rows
      → AllGuarded (expire_pending_approvals_once sql_le now limit rows)
  unfolding expire_pending_approvals_once
  expire-All now limit [] h = tt
  expire-All now zero (row ∷ rows) h = h
  expire-All now (suc limit) (row ∷ rows) h =
      elim (Bool-cases (is_due sql_le now row.world.approval)) [
        | inl t ↦ rw t (expire-IsGuarded sql_le now row.world t h.0, expire-All now limit rows h.1)
        | inr t ↦ rw t (h.0, expire-All now (suc limit) rows h.1)
      ]

module _ {R : Type 0} (fingerprint : String → String → String → String)
    (calc_expires_at : ℕ → ℕ → R) where
  reuse-IsTable :
      (new : Fresh) (req : RunRequest) (row : Row R) (db : Db R)
      → IsTable db
      → IsTable (reuse fingerprint calc_expires_at new req row db).1
  unfolding reuse
  reuse-IsTable new req row db t =
      elim (Bool-cases (conflicts fingerprint calc_expires_at req row)) [
        | inl c ↦ rw c (record { guarded = t.guarded; unique = t.unique })
        | inr c ↦
            let u =
              updated db (has_key_of req) (ensure_approval fingerprint calc_expires_at new)
                (ensure-IsGuarded fingerprint calc_expires_at new) t in
            rw c (record { guarded = u.guarded; unique = u.unique })
      ]

  new_row-IsGuarded :
      (new : Fresh) (req : RunRequest)
      → IsGuarded (new_row fingerprint calc_expires_at new req).world
  unfolding new_row ensure_approval
  new_row-IsGuarded new req = record {
    consistent = waiting _ refl refl refl;
    is_idle = record { approval = _; is_given = refl; idle = λ _. refl };
  }

  insert_if_free-IsTable :
      (found : Option (Row R)) (new : Fresh) (req : RunRequest) (db : Db R)
      → find_run req db.rows ≡ found
      → IsTable db
      → IsTable (insert_if_free fingerprint calc_expires_at found new req db).1
  unfolding new_row
  insert_if_free-IsTable (some row) new req db e t = reuse-IsTable new req row db t
  insert_if_free-IsTable none new req db e t = record {
    guarded = All-snoc (λ row. IsGuarded row.world) db.rows _ t.guarded (new_row-IsGuarded new req);
    unique = rw (keys-snoc db.rows (new_row fingerprint calc_expires_at new req)) (
        IsUnique-snoc (keys db.rows) (req.project_id, req.idempotency_key) t.unique
          (find_run-none req db.rows e));
  }

  insert_run-IsTable :
      (new : Fresh) (req : RunRequest) (db : Db R)
      → IsTable db
      → IsTable (insert_run fingerprint calc_expires_at new req db).1
  unfolding insert_run
  insert_run-IsTable new req db t = insert_if_free-IsTable (find_run req db.rows) new req db refl t

  run_others-IsTable :
      (rs : List (Fresh × RunRequest)) (db : Db R)
      → IsTable db
      → IsTable (run_others fingerprint calc_expires_at rs db)
  unfolding run_others
  run_others-IsTable [] db t = t
  run_others-IsTable ((new, req) ∷ rs) db t =
      run_others-IsTable rs _ (insert_run-IsTable new req db t)

  run_if_free-IsTable :
      (found : Option (Row R)) (others : List (Fresh × RunRequest)) (new : Fresh) (req : RunRequest)
      (db : Db R)
      → IsTable db
      → IsTable (run_if_free fingerprint calc_expires_at found others new req db).1
  run_if_free-IsTable (some row) others new req db t = reuse-IsTable new req row db t
  run_if_free-IsTable none others new req db t =
      insert_run-IsTable new req (run_others fingerprint calc_expires_at others db)
        (run_others-IsTable others db t)

module _ {R : Type 0} (fingerprint : String → String → String → String)
    (calc_expires_at : ℕ → ℕ → R) (coerce_sqlite_dt : R → Option ℕ) (sql_le : R → ℕ → Bool) where
  step-IsTable :
      (op : Op) (db : Db R)
      → IsTable db
      → IsTable (step fingerprint calc_expires_at coerce_sqlite_dt sql_le op db)
  unfolding step run_execution
  step-IsTable (run others new req) db t =
      run_if_free-IsTable fingerprint calc_expires_at (find_run req db.rows) others new req db t
  step-IsTable (answer_to id q) db t =
      updated db (has_id id) (λ w. (handle coerce_sqlite_dt q w).1)
        (handle-IsGuarded coerce_sqlite_dt q) t
  step-IsTable (expire now limit) db t = record {
    guarded = expire-All sql_le now limit db.rows t.guarded;
    unique = rw (keys-expire sql_le now limit db.rows) t.unique;
  }

  steps-IsTable :
      (ops : List Op) (db : Db R)
      → IsTable db
      → IsTable (steps fingerprint calc_expires_at coerce_sqlite_dt sql_le ops db)
  unfolding steps
  steps-IsTable [] db t = t
  steps-IsTable (op ∷ ops) db t = steps-IsTable ops _ (step-IsTable op db t)

  All-licensed :
      (rows : List (Row R))
      → All (λ row. IsGuarded row.world) rows
      → All (λ row. IsLicensed row.world) rows
  All-licensed [] h = tt
  All-licensed (row ∷ rows) h =
      (licensed row.world h.0.consistent h.0.is_idle, All-licensed rows h.1)

  -- Whatever requests for runs, answers and passes of the expirer reach an empty table, in any order, with
  -- any requests of other sessions in between and any outcome of the commits of decisions: no project has
  -- two runs under one key, and every run whose status is RUN has exactly one decision, an approving one.
  pub steps_licensed :
      (ops : List Op)
      → All
          (λ row. IsLicensed row.world)
          (steps fingerprint calc_expires_at coerce_sqlite_dt sql_le ops
            record { rows = []; audit = [] }).rows
        × IsUnique (
            keys
              (steps fingerprint calc_expires_at coerce_sqlite_dt sql_le ops
                record { rows = []; audit = [] }).rows)
  steps_licensed ops =
      let t =
        steps-IsTable ops record { rows = []; audit = [] } (record { guarded = tt; unique = tt }) in
      (All-licensed _ t.guarded, t.unique)
