-- ===== src/Patches/Store.antt =====
-- core/policy_store/store.py: the versions of the policy. The directory is the list of its files, each
-- with its number and what it holds; SHA-256 of the canonical bytes is a parameter.
pub mod Versions
use proto_v2_engine.Base.{
  ℕ, suc, String, Bool, Option, none, some, List, [], ◌∷◌, Result, ok, err, ◌>>=◌, leb, eqb, filter,
  if◌then◌else◌,
}
use proto_v2_engine.Json.{Json}

pub record PolicyFile : Type 0 where
  pub number : ℕ
  pub content : Json

pub record PolicySnapshot : Type 0 where
  pub version : ℕ
  pub policy : Json
  pub sha256 : String

-- The exceptions of the flows, by their class.
pub data FlowError : Type 0 where
  file_not_found key_error runtime_error : FlowError
  patch_error : FlowError

-- `VERSION_RE` matches four digits, so that a file with a greater number is not found.
abbrev pub is_listed : PolicyFile → Bool
is_listed f = leb f.number 9999

-- A stable sort by the number.
unfoldable pub insert_file : PolicyFile → List PolicyFile → List PolicyFile
insert_file f [] = f ∷ []
insert_file f (g ∷ gs) =
    let rest = insert_file f gs in if leb f.number g.number then f ∷ g ∷ gs else g ∷ rest

unfoldable pub sort_files : List PolicyFile → List PolicyFile
unfolding insert_file
sort_files [] = []
sort_files (f ∷ fs) = insert_file f (sort_files fs)

-- `_list_versions`
unfoldable pub list_versions : List PolicyFile → List PolicyFile
unfolding sort_files filter
list_versions dir = sort_files (filter is_listed dir)

unfoldable pub last_file : List PolicyFile → Option PolicyFile
last_file [] = none
last_file (f ∷ []) = some f
last_file (f ∷ g ∷ gs) = last_file (g ∷ gs)

-- `os.replace` writes the file, in the place of one with the same number.
unfoldable pub write_file : List PolicyFile → ℕ → Json → List PolicyFile
write_file [] n policy = record { number = n; content = policy } ∷ []
write_file (f ∷ fs) n policy =
    let rest = write_file fs n policy in
    if eqb f.number n then record { number = n; content = policy } ∷ fs else f ∷ rest

module _ (sha256_of_obj : Json → String) where
  abbrev pub snapshot : ℕ → Json → PolicySnapshot
  snapshot n policy = record { version = n; policy = policy; sha256 = sha256_of_obj policy }

  abbrev pub latest_of : Option PolicyFile → Result FlowError PolicySnapshot
  latest_of none = err file_not_found
  latest_of (some f) = ok (snapshot f.number f.content)

  unfoldable pub latest : List PolicyFile → Result FlowError PolicySnapshot
  unfolding list_versions last_file
  latest dir = latest_of (last_file (list_versions dir))

  unfoldable pub save_new_version :
      Json → List PolicyFile → Result FlowError (PolicySnapshot × List PolicyFile)
  unfolding latest write_file
  save_new_version policy dir = do
    last ← latest dir
    let version = suc last.version
    ok (snapshot version policy, write_file dir version policy)
