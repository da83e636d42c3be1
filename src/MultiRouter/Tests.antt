-- ===== src/MultiRouter/Tests.antt =====
-- Two root routers, which are Booleans; a router is its root. What they hold is a list for each.
use witchcraft_go_server.Base.{arith, ℕ, ◌≡◌, refl, Bool, true, false, List, [], ◌∷◌, ◌++◌}
use witchcraft_go_server.MultiRouter.{Routers, new_multi_router, root_router, add}
use witchcraft_go_server.MultiRouter.Middleware.{descend, added-add_once}

abbrev same : Bool → Bool → Bool
same true b = b
same false true = false
same false false = true

abbrev add_to : Bool → List ℕ → List ℕ × List ℕ → List ℕ × List ℕ
add_to true hs (l, r) = (l ++ hs, r)
add_to false hs (l, r) = (l, r ++ hs)

abbrev added_to : Bool → List ℕ × List ℕ → List ℕ
added_to true (l, r) = l
added_to false (l, r) = r

same_sound : (a b : Bool) → same a b ≡ true → a ≡ b
same_sound true true h = refl
same_sound true false h = absurd (ground arith)
same_sound false true h = absurd (ground arith)
same_sound false false h = refl

same_refl : (a : Bool) → same a a ≡ true
same_refl true = refl
same_refl false = refl

add-same :
    (a : Bool) (hs : List ℕ) (s : List ℕ × List ℕ) → added_to a (add_to a hs s) ≡ added_to a s ++ hs
add-same true hs (l, r) = refl
add-same false hs (l, r) = refl

add-other :
    (a b : Bool) (hs : List ℕ) (s : List ℕ × List ℕ)
    → same a b ≡ false
    → added_to b (add_to a hs s) ≡ added_to b s
add-other true true hs s h = absurd (ground arith)
add-other true false hs (l, r) h = refl
add-other false true hs (l, r) h = refl
add-other false false hs s h = absurd (ground arith)

abbrev two_roots : Routers Bool Bool ℕ (List ℕ × List ℕ)
two_roots = record {
  root_router = λ r. r;
  as_router = λ r. r;
  subrouter = λ r p. r;
  parent = λ r. r;
  path = λ r. "";
  same_root = same;
  add = add_to;
  added = added_to;
  same_root-sound = same_sound;
  same_root-refl = same_refl;
  root-subrouter = λ r p. refl;
  added-add_same = add-same;
  added-add_other = add-other;
}

added-add_once_example :
    added_to false (
      add two_roots
        (root_router two_roots
          (descend two_roots ("/a" ∷ []) (new_multi_router two_roots true false)))
        (7 ∷ [])
        ([], []))
    ≡ 7 ∷ []
added-add_once_example = added-add_once two_roots true false ("/a" ∷ []) false (7 ∷ []) ([], [])
