-- ===== src/Prelude/Set.antt =====
-- `std::unordered_set` as a list without repetitions: `IsNodup`. Its elements are numbers and
-- tuples of numbers, so it lives at the lowest level.
use Prim.Native.Nat.{◌+◌}
use mathlib.Core.Path.{◌≡◌, refl}
use mathlib.Core.Logic.{◌≢◌, ite}
use mathlib.Core.Bool.{Bool, true, false, ◌||◌}
use mathlib.Core.List.{List, [], ◌∷◌, ◌++◌}
use native.Mathlib.Omega.{arith}
use ips_with_ai.Prelude.Lists.{length}

module _ {A : Type 0} (dec : Discrete A) where
  unfoldable pub contains : A → List A → Bool
  contains a [] = false
  contains a (x ∷ xs) = ite (dec x a) true (contains a xs)

  unfoldable pub insert : A → List A → List A
  insert a [] = a ∷ []
  insert a (x ∷ xs) = ite (dec x a) (x ∷ xs) (x ∷ insert a xs)

  unfoldable pub remove : A → List A → List A
  remove a [] = []
  remove a (x ∷ xs) = ite (dec x a) xs (x ∷ remove a xs)

  abbrev pub IsNodup : List A → Type 0
  IsNodup [] = Unit
  IsNodup (x ∷ xs) = (contains x xs ≡ false) × IsNodup xs

  pub contains-insert :
      (a b : A) (xs : List A) → contains b (insert a xs) ≡ ite (dec a b) true (contains b xs)
  unfolding contains insert
  contains-insert a b [] = ground arith
  contains-insert a b (x ∷ xs) = ground (arith, contains-insert a b xs)

  pub contains-remove :
      (a b : A) (xs : List A)
      → IsNodup xs
      → contains b (remove a xs) ≡ ite (dec a b) false (contains b xs)
  unfolding contains remove
  contains-remove a b [] u = ground arith
  contains-remove a b (x ∷ xs) u = ground (arith, contains-remove a b xs u.1)

  pub insert-IsNodup : (a : A) (xs : List A) → IsNodup xs → IsNodup (insert a xs)
  unfolding contains insert
  insert-IsNodup a [] u = ground arith
  insert-IsNodup a (x ∷ xs) u = ground (arith, insert-IsNodup a xs u.1, contains-insert a x xs)

  pub remove-IsNodup : (a : A) (xs : List A) → IsNodup xs → IsNodup (remove a xs)
  unfolding contains remove
  remove-IsNodup a [] u = u
  remove-IsNodup a (x ∷ xs) u = ground (arith, remove-IsNodup a xs u.1, contains-remove a x xs u.1)

  pub length-insert_new :
      (a : A) (xs : List A) → contains a xs ≡ false → length (insert a xs) ≡ length xs + 1
  unfolding contains insert
  length-insert_new a [] h = omega arith
  length-insert_new a (x ∷ xs) h = ground (arith, length-insert_new a xs)

  pub insert_old : (a : A) (xs : List A) → contains a xs ≡ true → insert a xs ≡ xs
  unfolding contains insert
  insert_old a [] h = cc
  insert_old a (x ∷ xs) h = ground (arith, insert_old a xs)

  pub contains_nil : (a : A) → contains a [] ≡ false
  unfolding contains
  contains_nil a = refl

  pub insert-ne-nil : (a : A) (xs : List A) → insert a xs ≢ []
  unfolding insert
  insert-ne-nil a [] = λ h. ground arith
  insert-ne-nil a (x ∷ xs) = λ h. ground arith

  pub contains-append :
      (a : A) (xs ys : List A) → contains a (xs ++ ys) ≡ (contains a xs || contains a ys)
  unfolding contains
  contains-append a [] ys = refl
  contains-append a (x ∷ xs) ys = ground (arith, contains-append a xs ys)
