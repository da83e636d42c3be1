-- ===== src/Config/Secrets/Decrypted.antt =====
-- The scalars of a decrypted document.
use witchcraft_go_server.Base.{
  ℕ, suc, ◌<◌, count_if, count_if-append, bit, ◌∙◌, sym, ◌≡◌, refl, ap, Bool, true, false, ◌&&◌,
  inl, inr, Option, none, some, List, [], ◌∷◌, ◌++◌, arith, String, if◌then◌else◌, map_option, map,
  Bool-cases,
}
use witchcraft_go_server.Config.Secrets.{
  Kind, is_scalar, Node, Nodes, node, done, absent, child, decrypt_value, with_value, with_child,
  decrypt_node, decrypt_all,
}

-- All nodes of a document, in order, each with its depth, its kind and its value; a nil child has
-- none.
unfoldable mutual
  pub flat : ℕ → Node → List (ℕ × Option (Kind × String))
  flat d (node k v ns) = (d, some (k, v)) ∷ flat_all (suc d) ns

  pub flat_all : ℕ → Nodes → List (ℕ × Option (Kind × String))
  flat_all d done = []
  flat_all d (absent ns) = (d, none) ∷ flat_all d ns
  flat_all d (child n ns) = flat d n ++ flat_all d ns

module _ (contains : String → Bool) (decrypt : String → String) where
  -- A scalar that is encrypted and stays so.
  abbrev pub is_stuck : ℕ × Option (Kind × String) → Bool
  is_stuck (d, none) = false
  is_stuck (d, some (k, v)) = (is_scalar k && contains v) && contains (decrypt v)

  -- An entry with its value decrypted if it is an encrypted scalar.
  abbrev pub plain : ℕ × Option (Kind × String) → ℕ × Option (Kind × String)
  plain (d, none) = (d, none)
  plain (d, some (k, v)) = (d, some (k, if is_scalar k && contains v then decrypt v else v))

  -- A result against the entries that it should come from.
  abbrev pub ComesFrom :
      Option (List (ℕ × Option (Kind × String))) → List (ℕ × Option (Kind × String)) → Type 0
  ComesFrom none es = 0 < count_if is_stuck es
  ComesFrom (some fs) es = (count_if is_stuck es ≡ 0) × (fs ≡ map plain es)

  map-append :
      (es fs : List (ℕ × Option (Kind × String)))
      → map plain (es ++ fs) ≡ map plain es ++ map plain fs
  map-append [] fs = refl
  map-append (e ∷ es) fs = ap (λ gs. plain e ∷ gs) (map-append es fs)

  child-ComesFrom :
      (d : ℕ) (n : Option Node) (ns : Option Nodes) (es fs : List (ℕ × Option (Kind × String)))
      → ComesFrom (map_option (flat d) n) es
      → ComesFrom (map_option (flat_all d) ns) fs
      → ComesFrom (map_option (flat_all d) (with_child n ns)) (es ++ fs)
  unfolding flat
  child-ComesFrom d none ns es fs i j = omega (arith, i, count_if-append is_stuck es fs)
  child-ComesFrom d (some n) none es fs i j = omega (arith, j, count_if-append is_stuck es fs)
  child-ComesFrom d (some n) (some ns) es fs i j = (
    omega (arith, i.0, j.0, count_if-append is_stuck es fs),
    ap (λ gs. gs ++ flat_all d ns) i.1 ∙ ap (λ gs. map plain es ++ gs) j.1 ∙ sym (map-append es fs),
  )

  absent-ComesFrom :
      (d : ℕ) (ns : Option Nodes) (es : List (ℕ × Option (Kind × String)))
      → ComesFrom (map_option (flat_all d) ns) es
      → ComesFrom (map_option (flat_all d) (map_option absent ns)) ((d, none) ∷ es)
  unfolding flat count_if
  absent-ComesFrom d none es i = omega (arith, i)
  absent-ComesFrom d (some ns) es i = (omega (arith, i.0), ap (λ fs. (d, none) ∷ fs) i.1)

  stuck-bit :
      (d : ℕ) (k : Kind) (v : String) (b c : Bool)
      → (is_scalar k && contains v) ≡ b
      → contains (decrypt v) ≡ c
      → bit (is_stuck (d, some (k, v))) ≡ bit (b && c)
  stuck-bit d k v b c e f = rw (e, f) refl

  plain_entry :
      (d : ℕ) (k : Kind) (v : String) (b : Bool)
      → (is_scalar k && contains v) ≡ b
      → (d, some (k, if b then decrypt v else v)) ≡ plain (d, some (k, v))
  plain_entry d k v b e = rw e refl

  value-ComesFrom :
      (d : ℕ) (k : Kind) (v : String) (ns : Option Nodes) (es : List (ℕ × Option (Kind × String)))
      → ComesFrom (map_option (flat_all (suc d)) ns) es
      → ComesFrom
          (map_option (flat d) (with_value k (decrypt_value contains decrypt k v) ns))
          ((d, some (k, v)) ∷ es)
  unfolding flat count_if
  value-ComesFrom d k v none es i = elim (Bool-cases (is_scalar k && contains v)) [
    | inl e ↦ elim (Bool-cases (contains (decrypt v))) [
      | inl c ↦ rw (e, c) (omega (arith, stuck-bit d k v true true e c, i))
      | inr c ↦ rw (e, c) (omega (arith, stuck-bit d k v true false e c, i))
    ]
    | inr e ↦ rw e (omega (arith, stuck-bit d k v false _ e refl, i))
  ]
  value-ComesFrom d k v (some ns) es i = elim (Bool-cases (is_scalar k && contains v)) [
    | inl e ↦ elim (Bool-cases (contains (decrypt v))) [
      | inl c ↦ rw (e, c) (omega (arith, stuck-bit d k v true true e c, i))
      | inr c ↦
          rw (e, c)
            ((
              omega (arith, stuck-bit d k v true false e c, i.0),
              ap (λ fs. (d, some (k, decrypt v)) ∷ fs) i.1
                  ∙ ap (λ f. f ∷ map plain es) (plain_entry d k v true e),
            ))
    ]
    | inr e ↦ rw e (
        (
          omega (arith, stuck-bit d k v false _ e refl, i.0),
          ap (λ fs. (d, some (k, v)) ∷ fs) i.1
              ∙ ap (λ f. f ∷ map plain es) (plain_entry d k v false e),
        ))
  ]

  mutual
    unfolding flat decrypt_node count_if

    decrypt_node-flat :
        (n : Node) (d : ℕ)
        → ComesFrom (map_option (flat d) (decrypt_node contains decrypt n)) (flat d n)
    decrypt_node-flat (node k v ns) d =
        value-ComesFrom d k v (decrypt_all contains decrypt ns) (flat_all (suc d) ns)
          (decrypt_all-flat ns (suc d))

    decrypt_all-flat :
        (ns : Nodes) (d : ℕ)
        → ComesFrom (map_option (flat_all d) (decrypt_all contains decrypt ns)) (flat_all d ns)
    decrypt_all-flat done d = (refl, refl)
    decrypt_all-flat (absent ns) d =
        absent-ComesFrom d (decrypt_all contains decrypt ns) (flat_all d ns) (decrypt_all-flat ns d)
    decrypt_all-flat (child n ns) d =
        child-ComesFrom d (decrypt_node contains decrypt n) (decrypt_all contains decrypt ns)
          (flat d n) (flat_all d ns) (decrypt_node-flat n d) (decrypt_all-flat ns d)

  -- A document is decrypted exactly when no encrypted scalar of it stays encrypted; and then it
  -- has the same nodes, at the same depths and of the same kinds, with every encrypted scalar
  -- decrypted and every other value as it was.
  pub decrypt_node-plain :
      (n : Node) → ComesFrom (map_option (flat 0) (decrypt_node contains decrypt n)) (flat 0 n)
  decrypt_node-plain n = decrypt_node-flat n 0
