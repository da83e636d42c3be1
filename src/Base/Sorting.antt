-- ===== src/Base/Sorting.antt =====
-- The sort of strings that the standard library provides, as insertion, with the facts about it
-- that the reports rest on: it keeps the elements.
use Prim.Native.Nat.{Ordering}
use Prim.Native.String.{compare}
use text.Mathlib.Text.{◌==◌ as str_eq}
use witchcraft_go_server.Base.Lists.{length}
use Prim.Native.Nat.{suc}
use Prim.Native.String.{String}
use mathlib.Core.Path.{◌≡◌, refl}
use mathlib.Core.Bool.{Bool, false, ◌||◌}
use mathlib.Core.List.{List, [], ◌∷◌}
use native.Mathlib.Omega.{arith}

insert : String → List String → List String
insert s [] = s ∷ []
insert s (t ∷ ts) = elim (compare s t) [ Ordering.gt ↦ t ∷ insert s ts | _ ↦ s ∷ t ∷ ts ]

unfoldable pub sort : List String → List String
unfolding insert
sort [] = []
sort (s ∷ ss) = insert s (sort ss)

unfoldable pub contains : String → List String → Bool
contains s [] = false
contains s (t ∷ ts) = str_eq t s || contains s ts

length-insert : (s : String) (ts : List String) → length (insert s ts) ≡ suc (length ts)
unfolding insert
length-insert s [] = refl
length-insert s (t ∷ ts) = ground (arith, length-insert s ts)

pub length-sort : (ss : List String) → length (sort ss) ≡ length ss
unfolding sort
length-sort [] = refl
length-sort (s ∷ ss) = omega (arith, length-insert s (sort ss), length-sort ss)

contains-insert :
    (a s : String) (ts : List String) → contains a (insert s ts) ≡ (str_eq s a || contains a ts)
unfolding insert contains
contains-insert a s [] = refl
contains-insert a s (t ∷ ts) = ground (arith, contains-insert a s ts)

pub contains-sort : (a : String) (ss : List String) → contains a (sort ss) ≡ contains a ss
unfolding sort contains
contains-sort a [] = refl
contains-sort a (s ∷ ss) = ground (arith, contains-insert a s (sort ss), contains-sort a ss)
