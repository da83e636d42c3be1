-- ===== src/MultiRouter/Middleware.antt =====
-- Where middleware goes that is added through a router over two.
use witchcraft_go_server.Base.{
  ◌≡◌, ◌∙◌, refl, sym, ap, Bool, true, false, ◌||◌, List, [], ◌∷◌, ◌++◌, String, arith, Bool-cases,
  inl, inr, if◌then◌else◌,
}
use witchcraft_go_server.MultiRouter.{
  Routers, Router, main_only, multi, root_only, multi_root, new_multi_router, subrouter,
  root_router, add,
}

only_one :
    {A : Type 0} (x y : Bool)
    → (x ≡ true → y ≡ false)
    → (u hs : List A)
    → (if y then (if x then u ++ hs else u) ++ hs else (if x then u ++ hs else u))
      ≡ (if x || y then u ++ hs else u)
only_one true y h u hs = rw (h refl) refl
only_one false true h u hs = refl
only_one false false h u hs = refl

one_root :
    {A : Type 0} (x y : Bool)
    → x ≡ y
    → (u hs : List A) → (if x then u ++ hs else u) ≡ (if x || y then u ++ hs else u)
one_root true y h u hs = refl
one_root false y h u hs = rw (← h) refl

module _ {R Root Added S : Type 0} (ops : Routers R Root Added S) where
  -- Subrouters of subrouters.
  abbrev pub descend : List String → Router R → Router R
  descend [] r = r
  descend (p ∷ ps) r = descend ps (subrouter ops p r)

  root-descend :
      (ps : List String) (r : Router R) → root_router ops (descend ps r) ≡ root_router ops r
  unfolding root_router subrouter
  root-descend [] r = refl
  root-descend (p ∷ ps) (main_only r) =
      root-descend ps (main_only (ops.subrouter r p))
      ∙ ap (λ a. root_only a) (ops.root-subrouter r p)
  root-descend (p ∷ ps) (multi a b) =
      root-descend ps (multi (ops.subrouter a p) (ops.subrouter b p))
      ∙ ap (λ c. multi_root c (ops.root_router (ops.subrouter b p))) (ops.root-subrouter a p)
      ∙ ap (λ c. multi_root (ops.root_router a) c) (ops.root-subrouter b p)

  added-add :
      (a q : Root) (hs : List Added) (s : S)
      → ops.added q (ops.add a hs s)
        ≡ (if ops.same_root a q then ops.added q s ++ hs else ops.added q s)
  added-add a q hs s = elim (Bool-cases (ops.same_root a q)) [
    | inl e ↦
        let p : a ≡ q = ops.same_root-sound a q e in
        rw e (
          ap (λ b. ops.added b (ops.add a hs s)) (sym p)
          ∙ ops.added-add_same a hs s
          ∙ ap (λ b. ops.added b s ++ hs) p)
    | inr e ↦ rw e (ops.added-add_other a q hs s e)
  ]

  not_both :
      (a b q : Root)
      → ops.same_root a b ≡ false
      → ops.same_root a q ≡ true
      → ops.same_root b q ≡ false
  not_both a b q h x = elim (Bool-cases (ops.same_root b q)) [
    | inl y ↦
        let p : a ≡ b = ops.same_root-sound a q x ∙ sym (ops.same_root-sound b q y) in
        absurd (ground (arith, sym h ∙ ap (λ c. ops.same_root c b) p ∙ ops.same_root-refl b))
    | inr n ↦ n
  ]

  -- Both roots, or the one that they are, get what is added; no root gets it twice.
  added-both :
      (a b q : Root) (hs : List Added) (s : S)
      → ops.same_root a b ≡ false
      → ops.added q (ops.add b hs (ops.add a hs s))
        ≡ (if ops.same_root a q || ops.same_root b q then ops.added q s ++ hs else ops.added q s)
  added-both a b q hs s h =
      added-add b q hs (ops.add a hs s)
      ∙ ap (λ u. if ops.same_root b q then u ++ hs else u) (added-add a q hs s)
      ∙ only_one (ops.same_root a q) (ops.same_root b q) (not_both a b q h) (ops.added q s) hs

  added-new :
      (a b : R) (q : Root) (hs : List Added) (s : S)
      → ops.added q (add ops (root_router ops (new_multi_router ops a b)) hs s) ≡ (
          if ops.same_root (ops.root_router a) q || ops.same_root (ops.root_router b) q
          then ops.added q s ++ hs
          else ops.added q s)
  unfolding add root_router new_multi_router
  added-new a b q hs s = elim (Bool-cases (ops.same_root (ops.root_router a) (ops.root_router b))) [
    | inl e ↦ rw e (
        added-add (ops.root_router a) q hs s
        ∙ one_root (ops.same_root (ops.root_router a) q) (ops.same_root (ops.root_router b) q)
            (ap (λ c. ops.same_root c q)
              (ops.same_root-sound (ops.root_router a) (ops.root_router b) e))
            (ops.added q s) hs)
    | inr e ↦ rw (e, e) (added-both (ops.root_router a) (ops.root_router b) q hs s e)
  ]

  -- Middleware, or a handler, that is added through the root of any subrouter of the router over a
  -- main and a management router is added once to the root of each, also if they are the same, and
  -- to no other root.
  pub added-add_once :
      (a b : R) (ps : List String) (q : Root) (hs : List Added) (s : S)
      → ops.added q (add ops (root_router ops (descend ps (new_multi_router ops a b))) hs s) ≡ (
          if ops.same_root (ops.root_router a) q || ops.same_root (ops.root_router b) q
          then ops.added q s ++ hs
          else ops.added q s)
  added-add_once a b ps q hs s =
      ap (λ r. ops.added q (add ops r hs s)) (root-descend ps (new_multi_router ops a b))
      ∙ added-new a b q hs s
