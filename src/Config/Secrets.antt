-- ===== src/Config/Secrets.antt =====
-- The decryption of a configuration: decryptConfigBytes and decryptNodeValues.
pub mod Decrypted
pub mod Plain
use witchcraft_go_server.Base.{
  ℕ, Bool, true, false, not, ◌&&◌, ◌⊎◌, inl, inr, Option, none, some, List, [], ◌∷◌, String,
  if◌then◌else◌, map_option,
}

-- The kinds of yaml.v3's nodes.
pub data Kind : Type 0 where
  document sequence mapping scalar alias : Kind

abbrev pub is_scalar : Kind → Bool
is_scalar scalar = true
is_scalar _ = false

-- yaml.v3's Node, with the fields that are read. A nil child is `none`.
mutual
  pub data Node : Type 0 where
    node : Kind → String → Nodes → Node

  pub data Nodes : Type 0 where
    done : Nodes
    absent : Nodes → Nodes
    child : Node → Nodes → Nodes

-- A node from its value and its children, unless one has failed.
abbrev pub with_value : Kind → Option String → Option Nodes → Option Node
with_value k none ns = none
with_value k (some v) none = none
with_value k (some v) (some ns) = some (node k v ns)

abbrev pub with_child : Option Node → Option Nodes → Option Nodes
with_child none ns = none
with_child (some n) none = none
with_child (some n) (some ns) = some (child n ns)

-- `contains` and `decrypt` are ContainsEncryptedConfigValueStringVars and
-- DecryptAllEncryptedValueStringVars, with the key.
module _ (contains : String → Bool) (decrypt : String → String) where
  -- The value of a node after its own step; none is the error.
  abbrev pub decrypt_value : Kind → String → Option String
  decrypt_value k v =
      if is_scalar k && contains v
      then (if contains (decrypt v) then none else some (decrypt v))
      else some v

  -- decryptNodeValues on a node, and its loop over the children of one.
  unfoldable mutual
    pub decrypt_node : Node → Option Node
    decrypt_node (node k v ns) = with_value k (decrypt_value k v) (decrypt_all ns)

    pub decrypt_all : Nodes → Option Nodes
    decrypt_all done = some done
    decrypt_all (absent ns) = map_option absent (decrypt_all ns)
    decrypt_all (child n ns) = with_child (decrypt_node n) (decrypt_all ns)
