-- ===== src/Base/Heap.antt =====
-- Objects that several parts of the program share, as a store: an object is its place in the list.
use Prim.Native.Nat.{ℕ, zero, suc}
use mathlib.Core.Path.{◌≡◌, refl}
use mathlib.Core.Option.{Option, none, some}
use mathlib.Core.List.{List, [], ◌∷◌, ◌++◌}
use native.Mathlib.Omega.{arith}
use kithkit.Base.Tests.{◌==◌, if◌then◌else◌}
use kithkit.Base.Lists.{length}

module _ {ℓ} {A : Type ℓ} where
  unfoldable pub read : ℕ → List A → Option A
  read i [] = none
  read zero (a ∷ l) = some a
  read (suc i) (a ∷ l) = read i l

  unfoldable pub write : ℕ → (A → A) → List A → List A
  write i f [] = []
  write zero f (a ∷ l) = f a ∷ l
  write (suc i) f (a ∷ l) = a ∷ write i f l

  abbrev pub written : (A → A) → Option A → Option A
  written f none = none
  written f (some a) = some (f a)

  pub read-write :
      (i j : ℕ) (f : A → A) (l : List A)
      → read j (write i f l) ≡ (if i == j then written f (read j l) else read j l)
  unfolding read write
  read-write i j f [] = ground arith
  read-write zero zero f (a ∷ l) = refl
  read-write zero (suc j) f (a ∷ l) = ground arith
  read-write (suc i) zero f (a ∷ l) = ground arith
  read-write (suc i) (suc j) f (a ∷ l) = ground (arith, read-write i j f l)

  -- A new object, in the place that comes next.
  pub read-append :
      (j : ℕ) (l : List A) (b : A)
      → read j (l ++ b ∷ []) ≡ (if length l == j then some b else read j l)
  unfolding read
  read-append zero [] b = refl
  read-append (suc j) [] b = ground arith
  read-append zero (a ∷ l) b = ground arith
  read-append (suc j) (a ∷ l) b = ground (arith, read-append j l b)

  pub length-write : (i : ℕ) (f : A → A) (l : List A) → length (write i f l) ≡ length l
  unfolding write
  length-write i f [] = refl
  length-write zero f (a ∷ l) = refl
  length-write (suc i) f (a ∷ l) = ground (arith, length-write i f l)
