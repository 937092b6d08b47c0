-- ===== src/Patches/Store/Versions.antt =====
-- core/policy_store/store.py: the order of the versions, and the one that is the latest.
use mathlib.Core.Path.{subst}
use proto_v2_engine.Base.{
  ℕ, suc, String, ◌≤◌, ◌<◌, Bool, true, false, ◌≡◌, refl, ap, ◌∙◌, some, List, [], ◌∷◌, ◌++◌, ok,
  All, filter, leb, eqb, ltb, Bool-cases, Option-cases, inl, inr, arith, if◌then◌else◌,
}
use proto_v2_engine.Json.{Json}
use proto_v2_engine.Patches.Store.{
  PolicyFile, PolicySnapshot, insert_file, sort_files, list_versions, last_file, write_file,
  snapshot, latest, save_new_version, is_listed, latest_of,
}

abbrev UpTo : ℕ → List PolicyFile → Type 0
UpTo n fs = All (λ f. f.number ≤ n) fs

abbrev From : ℕ → List PolicyFile → Type 0
From n fs = All (λ f. n ≤ f.number) fs

abbrev IsOrdered : List PolicyFile → Type 0
IsOrdered [] = Unit
IsOrdered (f ∷ fs) = From f.number fs × IsOrdered fs

From-mono : (m n : ℕ) (fs : List PolicyFile) → m ≤ n → From n fs → From m fs
From-mono m n [] h all = tt
From-mono m n (f ∷ fs) h (this, rest) = (omega arith, From-mono m n fs h rest)

From-insert :
    (n : ℕ) (f : PolicyFile) (fs : List PolicyFile)
    → n ≤ f.number
    → From n fs
    → From n (insert_file f fs)
unfolding insert_file
From-insert n f [] h all = (h, tt)
From-insert n f (g ∷ gs) h (this, rest) = elim (Bool-cases (leb f.number g.number)) [
  | inl t ↦ rw t (h, (this, rest))
  | inr t ↦ rw t (this, From-insert n f gs h rest)
]

insert_file-IsOrdered :
    (f : PolicyFile) (fs : List PolicyFile) → IsOrdered fs → IsOrdered (insert_file f fs)
unfolding insert_file
insert_file-IsOrdered f [] o = (tt, tt)
insert_file-IsOrdered f (g ∷ gs) (from, o) = elim (Bool-cases (leb f.number g.number)) [
  | inl t ↦
      let le : f.number ≤ g.number = ground arith in
      rw t ((le, From-mono f.number g.number gs le from), (from, o))
  | inr t ↦
      let le : g.number ≤ f.number = ground arith in
      rw t (From-insert g.number f gs le from, insert_file-IsOrdered f gs o)
]

sort_files-IsOrdered : (fs : List PolicyFile) → IsOrdered (sort_files fs)
unfolding sort_files
sort_files-IsOrdered [] = tt
sort_files-IsOrdered (f ∷ fs) = insert_file-IsOrdered f (sort_files fs) (sort_files-IsOrdered fs)

-- The last of an ordered list is the greatest.
UpTo-last :
    (fs : List PolicyFile) (g : PolicyFile)
    → IsOrdered fs
    → last_file fs ≡ some g
    → UpTo g.number fs
unfolding last_file
UpTo-last [] g o e = tt
UpTo-last (f ∷ []) g o e = let same : f ≡ g = cc e in (rw same (omega arith), tt)
UpTo-last (f ∷ g ∷ gs) k ((le, from), o) e =
    let (here, rest) = UpTo-last (g ∷ gs) k o e in (omega arith, (here, rest))

UpTo-uninsert :
    (n : ℕ) (f : PolicyFile) (fs : List PolicyFile)
    → UpTo n (insert_file f fs)
    → (f.number ≤ n) × UpTo n fs
unfolding insert_file
UpTo-uninsert n f [] (h, _) = (h, tt)
UpTo-uninsert n f (g ∷ gs) h = elim (Bool-cases (leb f.number g.number)) [
  | inl t ↦ rw t at h
  | inr t ↦ let (this, rest) = rw t at h in let (a, b) = UpTo-uninsert n f gs rest in (a, (this, b))
]

UpTo-unsort : (n : ℕ) (fs : List PolicyFile) → UpTo n (sort_files fs) → UpTo n fs
unfolding sort_files
UpTo-unsort n [] h = tt
UpTo-unsort n (f ∷ fs) h =
    let (this, rest) = UpTo-uninsert n f (sort_files fs) h in (this, UpTo-unsort n fs rest)

UpTo-latest :
    (fs : List PolicyFile) (g : PolicyFile) → last_file (sort_files fs) ≡ some g → UpTo g.number fs
UpTo-latest fs g e =
    UpTo-unsort g.number fs (UpTo-last (sort_files fs) g (sort_files-IsOrdered fs) e)

-- A file behind all others stays there.
insert-behind :
    (f x : PolicyFile) (gs : List PolicyFile)
    → f.number ≤ x.number
    → insert_file f (gs ++ (x ∷ [])) ≡ insert_file f gs ++ (x ∷ [])
unfolding insert_file
insert-behind f x [] h = ground arith
insert-behind f x (g ∷ gs) h = elim (Bool-cases (leb f.number g.number)) [
  | inl t ↦ rw t refl
  | inr t ↦ rw t (ap (λ r. g ∷ r) (insert-behind f x gs h))
]

sort-behind :
    (fs : List PolicyFile) (x : PolicyFile)
    → UpTo x.number fs
    → sort_files (fs ++ (x ∷ [])) ≡ sort_files fs ++ (x ∷ [])
unfolding sort_files insert_file
sort-behind [] x h = refl
sort-behind (f ∷ fs) x (this, rest) =
    ap (insert_file f) (sort-behind fs x rest) ∙ insert-behind f x (sort_files fs) this

last-behind : (fs : List PolicyFile) (x : PolicyFile) → last_file (fs ++ (x ∷ [])) ≡ some x
unfolding last_file
last-behind [] x = refl
last-behind (f ∷ []) x = refl
last-behind (f ∷ g ∷ gs) x = last-behind (g ∷ gs) x

up-suc : (fs : List PolicyFile) (n : ℕ) → UpTo n fs → UpTo (suc n) fs
up-suc [] n h = tt
up-suc (f ∷ fs) n (this, rest) = (omega arith, up-suc fs n rest)

-- The versions that are found after a write of a number that is greater than all found ones.
filter-write :
    (dir : List PolicyFile) (n : ℕ) (policy : Json)
    → UpTo n (filter is_listed dir)
    → n < 9999
    → filter is_listed (write_file dir (suc n) policy)
      ≡ filter is_listed dir ++ (record { number = suc n; content = policy } ∷ [])
unfolding filter write_file
filter-write [] n policy h b = ground arith
filter-write (f ∷ fs) n policy h b = elim (Bool-cases (leb f.number 9999)) [
  | inl t ↦
      let (le, rest) = rw t at h in
      let other : eqb f.number (suc n) ≡ false = ground arith in
      rw other (rw t (ap (λ r. f ∷ r) (filter-write fs n policy rest b)))
  | inr t ↦
      let other : eqb f.number (suc n) ≡ false = ground arith in
      rw other (rw t (filter-write fs n policy (rw t at h) b))
]

-- A file with a number of five digits is never found.
filter-lost :
    (dir : List PolicyFile) (n : ℕ) (policy : Json)
    → 9999 ≤ n
    → filter is_listed (write_file dir (suc n) policy) ≡ filter is_listed dir
unfolding filter write_file
filter-lost [] n policy b = ground arith
filter-lost (f ∷ fs) n policy b = elim (Bool-cases (eqb f.number (suc n))) [
  | inl t ↦ rw t (ground arith)
  | inr t ↦ rw t (rw (filter-lost fs n policy b) refl)
]

module _ (sha256_of_obj : Json → String) where
  latest-file :
      (dir : List PolicyFile) (last : PolicySnapshot)
      → latest sha256_of_obj dir ≡ ok last
      → (f : PolicyFile) × (last_file (list_versions dir) ≡ some f)
        × (snapshot sha256_of_obj f.number f.content ≡ last)
  unfolding latest
  latest-file dir last h = elim (Option-cases (last_file (list_versions dir))) [
    | inl e ↦ absurd (cc (rw e at h))
    | inr (f, e) ↦ (f, e, cc (rw e at h))
  ]

  chosen :
      (b : Bool) (f : PolicyFile) (policy : Json)
      → latest_of sha256_of_obj
          (some (if b then record { number = suc f.number; content = policy } else f))
        ≡ ok (
            if b
            then snapshot sha256_of_obj (suc f.number) policy
            else snapshot sha256_of_obj f.number f.content)
  chosen true f policy = refl
  chosen false f policy = refl

  -- What the write of the next version leaves as the last file found.
  last-written :
      (dir : List PolicyFile) (f : PolicyFile) (policy : Json)
      → last_file (sort_files (filter is_listed dir)) ≡ some f
      → last_file (sort_files (filter is_listed (write_file dir (suc f.number) policy)))
        ≡ some (if ltb f.number 9999 then record { number = suc f.number; content = policy } else f)
  last-written dir f policy e =
      let up = UpTo-latest (filter is_listed dir) f e in
      elim (Bool-cases (ltb f.number 9999)) [
        | inl t ↦
            let new : PolicyFile = record { number = suc f.number; content = policy } in
            rw t (
              rw (filter-write dir f.number policy up (ground arith)) (
                rw
                  (sort-behind (filter is_listed dir) new
                    (up-suc (filter is_listed dir) f.number up))
                  (last-behind (sort_files (filter is_listed dir)) new)))
        | inr t ↦ rw t (rw (filter-lost dir f.number policy (ground arith)) e)
      ]

  -- A policy that is saved gets the next number and is the latest one afterwards, as long as the number
  -- has four digits. From version 9999 on the saved policy is not found again and the latest stays.
  pub save-latest :
      (policy : Json) (dir : List PolicyFile) (last : PolicySnapshot)
      → latest sha256_of_obj dir ≡ ok last
      → (dir' : List PolicyFile) × (save_new_version sha256_of_obj policy dir
          ≡ ok (snapshot sha256_of_obj (suc last.version) policy, dir'))
        × (latest sha256_of_obj dir'
            ≡ ok (
                if ltb last.version 9999
                then snapshot sha256_of_obj (suc last.version) policy
                else last))
  unfolding save_new_version latest list_versions
  save-latest policy dir last h =
      let (f, e, same) = latest-file dir last h in
      (
        write_file dir (suc last.version) policy,
        rw h refl,
        subst
            (λ (s : PolicySnapshot).
              latest_of sha256_of_obj
                (last_file (sort_files (filter is_listed (write_file dir (suc s.version) policy))))
              ≡ ok
                  (if ltb s.version 9999 then snapshot sha256_of_obj (suc s.version) policy else s))
            same (rw (last-written dir f policy e) (chosen (ltb f.number 9999) f policy)),
      )
