-- ===== src/App/Paths/Secure.antt =====
-- src/app/ai_process_supervisor.cpp: which paths are found valid, and that the walk comes to an end.
use Prim.Native.String.{String}
use ips_with_ai.Prelude.{
  ℕ, zero, suc, ◌<◌, ◌≡◌, ◌≢◌, ◌↔◌, refl, Bool, true, false, Option, none, some, List, [], ◌∷◌,
  if◌then◌else◌, All, arith, Bool-cases, if-branches, inl, inr,
}
use ips_with_ai.App.Paths.{
  FileType, directory, regular_file, PathStat, Validity, valid, invalid, out_of_fuel, Files,
  check_stat, validate_root_owned_path, ◌then_check◌, walk, validate_secure_directory_tree,
  required_modules, validate_modules, validate_python_paths,
}

abbrev expected_type : Bool → FileType
expected_type true = directory
expected_type false = regular_file

-- A path of the type that is expected, owned by root and writable for no one else.
abbrev pub IsSecure : {P : Type 0} → Files P → Bool → P → Type 0
IsSecure files expect_directory path =
    files.lstat path
    ≡ some (record {
      file_type = expected_type expect_directory;
      st_uid = 0;
      group_writable = false;
      other_writable = false;
    })

-- The path and all above it.
abbrev pub ancestor : {P : Type 0} → Files P → ℕ → P → P
ancestor files zero path = path
ancestor files (suc n) path = ancestor files n (files.parent path)

abbrev secure_stat : Bool → PathStat
secure_stat d = record {
  file_type = expected_type d;
  st_uid = 0;
  group_writable = false;
  other_writable = false;
}

check_stat-valid :
    {P : Type 0} (path : P) (d : Bool) (o : Option PathStat)
    → (check_stat path d o ≡ valid) ↔ (o ≡ some (secure_stat d))
unfolding check_stat
check_stat-valid path true none = ground arith
check_stat-valid path false none = ground arith
check_stat-valid path true (some s) = ground arith
check_stat-valid path false (some s) = ground arith

check_stat-ends :
    {P : Type 0} (path : P) (d : Bool) (o : Option PathStat) → check_stat path d o ≢ out_of_fuel
unfolding check_stat
check_stat-ends path d none = ground arith
check_stat-ends path d (some s) = ground arith

module _ {P : Type 0} (files : Files P) where
  validate_root_owned_path-valid :
      (path : P) (d : Bool)
      → (validate_root_owned_path files path d ≡ valid) ↔ IsSecure files d path
  unfolding validate_root_owned_path
  validate_root_owned_path-valid path d = check_stat-valid path d (files.lstat path)

  then_check-valid : (a b : Validity P) → ((a then_check b) ≡ valid) ↔ ((a ≡ valid) × (b ≡ valid))
  then_check-valid valid b = ground arith
  then_check-valid (invalid p x) b = ground arith
  then_check-valid out_of_fuel b = ground arith

  then_check-ends :
      (a b : Validity P) → a ≢ out_of_fuel → b ≢ out_of_fuel → (a then_check b) ≢ out_of_fuel
  then_check-ends valid b ha hb = hb
  then_check-ends (invalid p x) b ha hb = ha
  then_check-ends out_of_fuel b ha hb = ha

  validate_root_owned_path-ends :
      (path : P) (d : Bool) → validate_root_owned_path files path d ≢ out_of_fuel
  unfolding validate_root_owned_path
  validate_root_owned_path-ends path d = check_stat-ends path d (files.lstat path)

  step : (fuel : ℕ) (path : P) → walk files (suc fuel) path ≡ valid → IsSecure files true path
  unfolding walk
  step fuel path h =
      (validate_root_owned_path-valid path true).0
        ((then_check-valid (validate_root_owned_path files path true) _).0 h).0

  -- The walk has fuel for every step up to the root.
  module _ (same_iff : (p q : P) → (files.same p q ≡ true) ↔ (p ≡ q)) where
    reach : (b : Bool) (v : Validity P) → b ≡ false → (if b then valid else v) ≡ valid → v ≡ valid
    reach b v e h = ground arith

    above_root : (n : ℕ) (path : P) → files.parent path ≡ path → ancestor files n path ≡ path
    above_root zero path h = refl
    above_root (suc n) path h = rw (h) (above_root n path h)

    walk-valid :
        (fuel : ℕ) (path : P)
        → walk files fuel path ≡ valid
        → (n : ℕ) → IsSecure files true (ancestor files n path)
    unfolding walk
    walk-valid zero path h n = ground arith
    walk-valid (suc fuel) path h zero = step fuel path h
    walk-valid (suc fuel) path h (suc n) =
        let rest = ((then_check-valid (validate_root_owned_path files path true) _).0 h).1 in
        elim (Bool-cases (files.same (files.parent path) path)) [
          | inl e ↦
              let root = (same_iff (files.parent path) path).0 e in
              rw (root) (rw (above_root n path root) (step fuel path h))
          | inr e ↦
              walk-valid fuel (files.parent path)
                (reach (files.same (files.parent path) path) (walk files fuel (files.parent path)) e
                  rest)
                n
        ]

    walk_complete :
        (fuel : ℕ) (path : P) (k : ℕ)
        → k < fuel
        → files.parent (ancestor files k path) ≡ ancestor files k path
        → ((n : ℕ) → IsSecure files true (ancestor files n path))
        → walk files fuel path ≡ valid
    unfolding walk
    walk_complete zero path k lt root h = ground arith
    walk_complete (suc fuel) path zero lt root h =
        (then_check-valid (validate_root_owned_path files path true) _).1 (
          (validate_root_owned_path-valid path true).1 (h 0),
          if-branches (λ v. v ≡ valid) (files.same (files.parent path) path) (λ e. refl)
              (λ e. ground (arith, (same_iff (files.parent path) path).1 root)),
        )
    walk_complete (suc fuel) path (suc k) lt root h =
        (then_check-valid (validate_root_owned_path files path true) _).1 (
          (validate_root_owned_path-valid path true).1 (h 0),
          if-branches (λ v. v ≡ valid) (files.same (files.parent path) path) (λ e. refl)
              (λ e. walk_complete fuel (files.parent path) k (omega arith) root (λ n. h (suc n))),
        )

    walk-ends :
        (fuel : ℕ) (path : P) (k : ℕ)
        → k < fuel
        → files.parent (ancestor files k path) ≡ ancestor files k path
        → walk files fuel path ≢ out_of_fuel
    unfolding walk
    walk-ends zero path k lt root = ground arith
    walk-ends (suc fuel) path zero lt root =
        then_check-ends (validate_root_owned_path files path true) _
          (validate_root_owned_path-ends path true)
          (if-branches (λ v. v ≢ out_of_fuel) (files.same (files.parent path) path)
            (λ e. ground arith) (λ e. ground (arith, (same_iff (files.parent path) path).1 root)))
    walk-ends (suc fuel) path (suc k) lt root =
        then_check-ends (validate_root_owned_path files path true) _
          (validate_root_owned_path-ends path true)
          (if-branches (λ v. v ≢ out_of_fuel) (files.same (files.parent path) path)
            (λ e. ground arith) (λ e. walk-ends fuel (files.parent path) k (omega arith) root))

  validate_modules-ends :
      (checkout : P) (modules : List String) → validate_modules files checkout modules ≢ out_of_fuel
  unfolding validate_modules
  validate_modules-ends checkout [] = ground arith
  validate_modules-ends checkout (m ∷ rest) =
      then_check-ends _ _ (validate_root_owned_path-ends (files.file_path checkout m) false)
        (validate_modules-ends checkout rest)

  validate_modules-valid :
      (checkout : P) (modules : List String)
      → (validate_modules files checkout modules ≡ valid)
        ↔ All (λ m. IsSecure files false (files.file_path checkout m)) modules
  unfolding validate_modules
  validate_modules-valid checkout [] = (λ h. tt, λ h. refl)
  validate_modules-valid checkout (m ∷ rest) =
      let here = validate_root_owned_path-valid (files.file_path checkout m) false in
      let there = validate_modules-valid checkout rest in
      let joined =
        then_check-valid (validate_root_owned_path files (files.file_path checkout m) false)
          (validate_modules files checkout rest) in
      (
        λ h. let p = joined.0 h in (here.0 p.0, there.0 p.1),
        λ h. joined.1 (here.1 h.0, there.1 h.1),
      )

  -- All directories from a path up to the root are secure.
  abbrev pub IsSecureTree : P → Type 0
  IsSecureTree path = (n : ℕ) → IsSecure files true (ancestor files n (files.canonical path))

  -- The root is fewer steps above the path than there is fuel.
  abbrev pub IsBelowRoot : ℕ → P → Type 0
  IsBelowRoot fuel path =
      (k : ℕ) × (k < fuel)
      × (files.parent (ancestor files k (files.canonical path))
          ≡ ancestor files k (files.canonical path))

  validate_secure_directory_tree-valid :
      ((p q : P) → (files.same p q ≡ true) ↔ (p ≡ q))
      → (fuel : ℕ) (path : P) → IsBelowRoot fuel path
      → (validate_secure_directory_tree files fuel path ≢ out_of_fuel)
        × ((validate_secure_directory_tree files fuel path ≡ valid) ↔ IsSecureTree path)
  unfolding validate_secure_directory_tree
  validate_secure_directory_tree-valid same_iff fuel path (k, lt, root) = (
    walk-ends same_iff fuel (files.canonical path) k lt root,
    (
      walk-valid same_iff fuel (files.canonical path),
      walk_complete same_iff fuel (files.canonical path) k lt root,
    ),
  )

  -- Where paths are compared by equality and the root is above each of the three directories in fewer
  -- steps than there is fuel: the check comes to an end, and it finds the paths valid exactly when the
  -- checkout, its ml directory and the directory of the packages, with all directories above them, are
  -- directories of root that no one else may write, and the modules are such files.
  pub validate_python_paths-valid :
      ((p q : P) → (files.same p q ≡ true) ↔ (p ≡ q))
      → (fuel : ℕ) (checkout : P) → IsBelowRoot fuel checkout
      → IsBelowRoot fuel (files.file_path checkout "ml")
      → IsBelowRoot fuel files.runtime_directory
      → (validate_python_paths files fuel checkout ≢ out_of_fuel)
        × ((validate_python_paths files fuel checkout ≡ valid) ↔ (
            IsSecureTree checkout
            × IsSecureTree (files.file_path checkout "ml")
            × IsSecureTree files.runtime_directory
            × All (λ m. IsSecure files false (files.file_path checkout m)) required_modules))
  unfolding validate_python_paths
  validate_python_paths-valid same_iff fuel checkout below ml runtime =
      let (ends1, valid1) = validate_secure_directory_tree-valid same_iff fuel checkout below in
      let (ends2, valid2) =
        validate_secure_directory_tree-valid same_iff fuel (files.file_path checkout "ml") ml in
      let (ends3, valid3) =
        validate_secure_directory_tree-valid same_iff fuel files.runtime_directory runtime in
      let valid4 = validate_modules-valid checkout required_modules in
      (
        then_check-ends _ _ (then_check-ends _ _ (then_check-ends _ _ ends1 ends2) ends3)
            (validate_modules-ends checkout required_modules),
        (
          (λ h.
              let p = (then_check-valid _ _).0 h in
              let q = (then_check-valid _ _).0 p.0 in
              let r = (then_check-valid _ _).0 q.0 in
              (valid1.0 r.0, valid2.0 r.1, valid3.0 q.1, valid4.0 p.1)),
          (λ (a, b, c, d). (then_check-valid _ _).1 (
            (then_check-valid _ _).1
                ((then_check-valid _ _).1 (valid1.1 a, valid2.1 b), valid3.1 c),
            valid4.1 d,
          )),
        ),
      )
