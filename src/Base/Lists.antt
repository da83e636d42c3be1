-- ===== src/Base/Lists.antt =====
-- Lists indexed and counted by native numbers.
use Prim.Native.Nat.{ℕ, zero, suc, ◌+◌, ◌≤◌, ◌<◌}
use mathlib.Core.Path.{◌≡◌, refl}
use mathlib.Core.Bool.{Bool, true, false}
use mathlib.Core.List.{List, [], ◌∷◌, ◌++◌}
use mathlib.Core.Option.{Option, none, some}
use native.Mathlib.Omega.{arith}
use witchcraft_go_server.Base.Tests.{bit}

module _ {ℓ} {A : Type ℓ} where
  abbrev pub length : List A → ℕ
  length [] = 0
  length (x ∷ xs) = suc (length xs)

  abbrev pub get_elem? : List A → ℕ → Option A
  get_elem? [] i = none
  get_elem? (x ∷ xs) zero = some x
  get_elem? (x ∷ xs) (suc i) = get_elem? xs i

  -- A write out of bounds changes nothing.
  abbrev pub set : List A → ℕ → A → List A
  set [] i v = []
  set (x ∷ xs) zero v = v ∷ xs
  set (x ∷ xs) (suc i) v = x ∷ set xs i v

  pub length-append : (xs ys : List A) → length (xs ++ ys) ≡ length xs + length ys
  length-append [] ys = omega arith
  length-append (x ∷ xs) ys = omega (arith, length-append xs ys)

module _ {ℓ} {A : Type ℓ} where
  -- How many elements pass a test.
  unfoldable pub count_if : (A → Bool) → List A → ℕ
  count_if p [] = 0
  count_if p (x ∷ xs) = bit (p x) + count_if p xs

  pub count_if-set :
      (p : A → Bool) (xs : List A) (i : ℕ) (x v : A)
      → get_elem? xs i ≡ some x
      → count_if p (set xs i v) + bit (p x) ≡ count_if p xs + bit (p v)
  unfolding count_if
  count_if-set p [] i x v h = ground arith
  count_if-set p (y ∷ ys) zero x v h = ground arith
  count_if-set p (y ∷ ys) (suc i) x v h = omega (arith, count_if-set p ys i x v h)

  -- An element that passes the test is counted.
  pub count_if_pos :
      (p : A → Bool) (xs : List A) (i : ℕ) (x : A)
      → get_elem? xs i ≡ some x
      → bit (p x) ≤ count_if p xs
  unfolding count_if
  count_if_pos p [] i x h = ground arith
  count_if_pos p (y ∷ ys) zero x h = ground arith
  count_if_pos p (y ∷ ys) (suc i) x h = omega (arith, count_if_pos p ys i x h)

  -- An element of a list that passes a test, with its place.
  abbrev pub Found : (A → Bool) → List A → Type ℓ
  Found p xs = (i : ℕ) × (x : A) × (get_elem? xs i ≡ some x) × (p x ≡ true)

  -- A positive count has an element that passes the test.
  pub count_if_find : (p : A → Bool) (xs : List A) → 0 < count_if p xs → Found p xs
  unfolding count_if
  count_if_find p [] h = absurd (omega arith)
  count_if_find p (y ∷ ys) h = by_head (p y) refl (λ h'. count_if_find p ys h')
    where
      by_head : (b : Bool) → p y ≡ b → (0 < count_if p ys → Found p ys) → Found p (y ∷ ys)
      by_head true e ih = (0, y, refl, e)
      by_head false e ih = let r = ih (ground arith) in (suc r.0, r.1, r.2, r.3)

module _ {ℓ} {A : Type ℓ} where
  pub get_elem?-set_self :
      (xs : List A) (i : ℕ) (x v : A) → get_elem? xs i ≡ some x → get_elem? (set xs i v) i ≡ some v
  get_elem?-set_self [] i x v h = ground arith
  get_elem?-set_self (y ∷ ys) zero x v h = refl
  get_elem?-set_self (y ∷ ys) (suc i) x v h = get_elem?-set_self ys i x v h

  abbrev pub drop : ℕ → List A → List A
  drop zero xs = xs
  drop (suc n) [] = []
  drop (suc n) (x ∷ xs) = drop n xs

  pub count_if-append :
      (p : A → Bool) (xs ys : List A) → count_if p (xs ++ ys) ≡ count_if p xs + count_if p ys
  unfolding count_if
  count_if-append p [] ys = omega arith
  count_if-append p (x ∷ xs) ys = omega (arith, count_if-append p xs ys)

abbrev pub map_option {ℓ κ} : {A : Type ℓ} {B : Type κ} → (A → B) → Option A → Option B
map_option f none = none
map_option f (some a) = some (f a)
