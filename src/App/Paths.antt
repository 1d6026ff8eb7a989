-- ===== src/App/Paths.antt =====
-- src/app/ai_process_supervisor.cpp: the check of the paths that the inference process is run from. `lstat`
-- and Qt's functions on paths are parameters, and a message is told by the path and what is wrong with it.
-- The walk to the root has fuel.
pub mod Secure
use Prim.Native.String.{String}
use ips_with_ai.Prelude.{
  ℕ, zero, suc, ◌==◌, Bool, true, false, not, ◌||◌, ◌&&◌, Option, none, some, List, [], ◌∷◌,
  if◌then◌else◌,
}

pub data FileType : Type 0 where
  symbolic_link directory regular_file other_type : FileType

-- What is read of `struct stat`.
pub record PathStat : Type 0 where
  pub file_type : FileType
  pub st_uid : ℕ
  pub group_writable : Bool
  pub other_writable : Bool

pub data Problem : Type 0 where
  lstat_failed is_symbolic_link wrong_type not_owned_by_root writable : Problem

pub data Validity (P : Type 0) : Type 0 where
  valid : Validity P
  invalid : P → Problem → Validity P
  out_of_fuel : Validity P

-- `canonical` is `QDir::cleanPath` of the absolute path, and `runtime_directory` the packages'.
pub record Files (P : Type 0) : Type 0 where
  pub lstat : P → Option PathStat
  pub canonical : P → P
  pub parent : P → P
  pub file_path : P → String → P
  pub same : P → P → Bool
  pub runtime_directory : P

abbrev is_symbolic : FileType → Bool
is_symbolic symbolic_link = true
is_symbolic _ = false

abbrev is_expected : Bool → FileType → Bool
is_expected true directory = true
is_expected false regular_file = true
is_expected _ _ = false

-- What `lstat` gave.
unfoldable pub check_stat : {P : Type 0} → P → Bool → Option PathStat → Validity P
check_stat path expect_directory none = invalid path lstat_failed
check_stat path expect_directory (some s) =
    if is_symbolic s.file_type
    then invalid path is_symbolic_link
    else if not (is_expected expect_directory s.file_type)
    then invalid path wrong_type
    else if not (s.st_uid == 0)
    then invalid path not_owned_by_root
    else if s.group_writable || s.other_writable
    then invalid path writable
    else valid

-- What follows a check that was passed.
infixl 5 ◌then_check◌
abbrev pub ◌then_check◌ : {P : Type 0} → Validity P → Validity P → Validity P
valid then_check v = v
(invalid path problem) then_check v = invalid path problem
out_of_fuel then_check v = out_of_fuel

abbrev pub required_modules : List String
required_modules =
    "ml/__init__.py" ∷ "ml/online_server.py" ∷ "ml/artifacts.py" ∷ "ml/features.py" ∷ "ml/model.py"
    ∷ []

module _ {P : Type 0} (files : Files P) where
  unfoldable pub validate_root_owned_path : P → Bool → Validity P
  validate_root_owned_path path expect_directory =
      check_stat path expect_directory (files.lstat path)

  unfoldable pub walk : ℕ → P → Validity P
  walk zero current = out_of_fuel
  walk (suc fuel) current =
      let rest = walk fuel (files.parent current) in
      validate_root_owned_path current true
      then_check (if files.same (files.parent current) current then valid else rest)

  unfoldable pub validate_secure_directory_tree : ℕ → P → Validity P
  validate_secure_directory_tree fuel path = walk fuel (files.canonical path)

  unfoldable pub validate_modules : P → List String → Validity P
  validate_modules checkout [] = valid
  validate_modules checkout (relative_path ∷ rest) =
      validate_root_owned_path (files.file_path checkout relative_path) false
      then_check validate_modules checkout rest

  unfoldable pub validate_python_paths : ℕ → P → Validity P
  validate_python_paths fuel checkout =
      validate_secure_directory_tree fuel checkout
      then_check validate_secure_directory_tree fuel (files.file_path checkout "ml")
      then_check validate_secure_directory_tree fuel files.runtime_directory
      then_check validate_modules checkout required_modules
