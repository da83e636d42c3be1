-- ===== src/Config/Secrets/Plain.antt =====
-- The decryption of a document against what it is to do.
use witchcraft_go_server.Base.{
  ◌&&◌, ◌||◌, false, Bool-cases, if◌then◌else◌, map_option, ◌≡◌, refl, Bool, true, inl, inr, none,
  some, String,
}
use witchcraft_go_server.Config.Secrets.{
  Kind, document, sequence, mapping, scalar, alias, Node, Nodes, node, done, absent, child,
  decrypt_value, with_value, with_child, decrypt_node, decrypt_all,
}

-- What decryption is to do, on the whole tree: every scalar that is encrypted is replaced, and nothing
-- else is changed.
module _ (contains : String → Bool) (decrypt : String → String) where
  abbrev pub plain_value : Kind → String → String
  plain_value scalar v = if contains v then decrypt v else v
  plain_value _ v = v

  unfoldable mutual
    pub plain_node : Node → Node
    plain_node (node k v ns) = node k (plain_value k v) (plain_all ns)

    pub plain_all : Nodes → Nodes
    plain_all done = done
    plain_all (absent ns) = absent (plain_all ns)
    plain_all (child n ns) = child (plain_node n) (plain_all ns)

  -- An encrypted scalar is stuck if decryption leaves something encrypted in it.
  abbrev pub is_stuck_value : Kind → String → Bool
  is_stuck_value scalar v = contains v && contains (decrypt v)
  is_stuck_value _ v = false

  unfoldable mutual
    pub has_stuck : Node → Bool
    has_stuck (node k v ns) = is_stuck_value k v || any_stuck ns

    pub any_stuck : Nodes → Bool
    any_stuck done = false
    any_stuck (absent ns) = any_stuck ns
    any_stuck (child n ns) = has_stuck n || any_stuck ns

  decrypt_value_lem :
      (k : Kind) (v : String)
      → decrypt_value contains decrypt k v
        ≡ (if is_stuck_value k v then none else some (plain_value k v))
  decrypt_value_lem document v = refl
  decrypt_value_lem sequence v = refl
  decrypt_value_lem mapping v = refl
  decrypt_value_lem alias v = refl
  decrypt_value_lem scalar v = elim (Bool-cases (contains v)) [
    | inl e ↦ elim (Bool-cases (contains (decrypt v))) [
      | inl f ↦ rw (e, f) refl
      | inr f ↦ rw (e, f) refl
    ]
    | inr e ↦ rw e refl
  ]

  with_value_lem :
      (k : Kind) (v : String) (ns : Nodes) (a b : Bool)
      → with_value k (if a then none else some v) (if b then none else some ns)
        ≡ (if a || b then none else some (node k v ns))
  with_value_lem k v ns true b = refl
  with_value_lem k v ns false true = refl
  with_value_lem k v ns false false = refl

  with_child_lem :
      (n : Node) (ns : Nodes) (a b : Bool)
      → with_child (if a then none else some n) (if b then none else some ns)
        ≡ (if a || b then none else some (child n ns))
  with_child_lem n ns true b = refl
  with_child_lem n ns false true = refl
  with_child_lem n ns false false = refl

  absent_lem :
      (ns : Nodes) (b : Bool)
      → map_option absent (if b then none else some ns) ≡ (if b then none else some (absent ns))
  absent_lem ns true = refl
  absent_lem ns false = refl

  mutual
    unfolding decrypt_node plain_node has_stuck

    pub decrypt_node_lem :
        (n : Node)
        → decrypt_node contains decrypt n ≡ (if has_stuck n then none else some (plain_node n))
    decrypt_node_lem (node k v ns) =
        rw (decrypt_value_lem k v, decrypt_all_lem ns) (with_value_lem k _ _ _ _)

    decrypt_all_lem :
        (ns : Nodes)
        → decrypt_all contains decrypt ns ≡ (if any_stuck ns then none else some (plain_all ns))
    decrypt_all_lem done = refl
    decrypt_all_lem (absent ns) = rw (decrypt_all_lem ns) (absent_lem _ _)
    decrypt_all_lem (child n ns) =
        rw (decrypt_node_lem n, decrypt_all_lem ns) (with_child_lem _ _ _ _)
