-- ===== src/Config/Nodes.antt =====
-- decryptECVYAMLNodes of witchcraft/witchcraft.go, as what decryptConfigBytes decrypts with. YAML is a
-- parameter: what the bytes unmarshal to, and what a document is marshalled to.
use witchcraft_go_server.Base.{
  false, Bool-cases, if◌then◌else◌, ◌≡◌, ◌↔◌, refl, ap, sym, ◌∙◌, Bool, true, ◌⊎◌, inl, inr, Option,
  none, some, String, arith,
}
use witchcraft_go_server.Config.Runtime.{decrypt_config_bytes, DecryptError}
use witchcraft_go_server.Config.Secrets.Plain.{plain_node, has_stuck, decrypt_node_lem}
use witchcraft_go_server.Config.Secrets.{Node, decrypt_node}

module _ {Bytes Key Err : Type 0} (unmarshal : Bytes → Err ⊎ Node) (marshal : Node → Err ⊎ Bytes)
    (contains : String → Bool) (decrypt : Key → String → String) (still_encrypted : Err) where
  marshalled : Option Node → Err ⊎ Bytes
  marshalled none = inl still_encrypted
  marshalled (some n) = marshal n

  decrypted : Key → Err ⊎ Node → Err ⊎ Bytes
  unfolding marshalled
  decrypted key (inl e) = inl e
  decrypted key (inr n) = marshalled (decrypt_node contains (decrypt key) n)

  unfoldable pub decrypt_ecv_yaml_nodes : Key → Bytes → Err ⊎ Bytes
  unfolding decrypted
  decrypt_ecv_yaml_nodes key bytes = decrypted key (unmarshal bytes)

  -- The bytes hold no encrypted values and are left as they are, or there is a key, and `plain` is what
  -- their document is marshalled to with every encrypted scalar decrypted, none of them being stuck.
  pub data IsPlain (contains_encrypted : Bytes → Bool) (provider : Option (Err ⊎ Option Key))
      (bytes plain : Bytes) : Type 0 where
    nothing_encrypted :
        contains_encrypted bytes ≡ false
        → plain ≡ bytes
        → IsPlain contains_encrypted provider bytes plain
    all_decrypted :
        (key : Key) (n : Node)
        → contains_encrypted bytes ≡ true
        → provider ≡ some (inr (some key))
        → unmarshal bytes ≡ inr n
        → has_stuck contains (decrypt key) n ≡ false
        → marshal (plain_node contains (decrypt key) n) ≡ inr plain
        → IsPlain contains_encrypted provider bytes plain

  module _ (contains_encrypted : Bytes → Bool) where
    -- decryptConfigBytes with this decryption.
    abbrev pub decrypt_bytes : Option (Err ⊎ Option Key) → Bytes → Bytes × Option (DecryptError Err)
    decrypt_bytes = decrypt_config_bytes contains_encrypted decrypt_ecv_yaml_nodes

    clear_lem :
        (provider : Option (Err ⊎ Option Key)) (bytes : Bytes)
        → contains_encrypted bytes ≡ false
        → decrypt_bytes provider bytes ≡ (bytes, none)
    unfolding decrypt_config_bytes
    clear_lem none bytes h = rw h refl
    clear_lem (some loaded) bytes h = rw h refl

    key_lem :
        (key : Key) (bytes plain : Bytes)
        → contains_encrypted bytes ≡ true
        → (decrypt_bytes (some (inr (some key))) bytes ≡ (plain, none))
          ↔ (decrypt_ecv_yaml_nodes key bytes ≡ inr plain)
    unfolding decrypt_config_bytes
    key_lem key bytes plain h = (λ e. ground arith, λ e. ground arith)

    nodes_lem :
        (key : Key) (bytes : Bytes) (n : Node)
        → unmarshal bytes ≡ inr n
        → decrypt_ecv_yaml_nodes key bytes ≡ (
            if has_stuck contains (decrypt key) n
            then inl still_encrypted
            else marshal (plain_node contains (decrypt key) n))
    unfolding decrypt_ecv_yaml_nodes
    nodes_lem key bytes n h =
        rw (h, decrypt_node_lem contains (decrypt key) n)
          (by_stuck (has_stuck contains (decrypt key) n))
      where
        by_stuck :
            (b : Bool)
            → marshalled (if b then none else some (plain_node contains (decrypt key) n))
              ≡ (if b then inl still_encrypted else marshal (plain_node contains (decrypt key) n))
        by_stuck true = refl
        by_stuck false = refl

    unread_lem :
        (key : Key) (bytes : Bytes) (e : Err)
        → unmarshal bytes ≡ inl e
        → decrypt_ecv_yaml_nodes key bytes ≡ inl e
    unfolding decrypt_ecv_yaml_nodes
    unread_lem key bytes e h = rw h refl

    with_key-IsPlain :
        (key : Key) (bytes plain : Bytes) (u : Err ⊎ Node)
        → contains_encrypted bytes ≡ true
        → unmarshal bytes ≡ u
        → decrypt_ecv_yaml_nodes key bytes ≡ inr plain
        → IsPlain contains_encrypted (some (inr (some key))) bytes plain
    with_key-IsPlain key bytes plain (inl e) h u r = absurd (let l = unread_lem key bytes e u in cc)
    with_key-IsPlain key bytes plain (inr n) h u r =
        let l = nodes_lem key bytes n u in
        elim (Bool-cases (has_stuck contains (decrypt key) n)) [
          | inl t ↦ absurd (ground (arith, l))
          | inr f ↦ all_decrypted key n h refl u f (ground (arith, l))
        ]

    encrypted-IsPlain :
        (provider : Option (Err ⊎ Option Key)) (bytes plain : Bytes)
        → contains_encrypted bytes ≡ true
        → decrypt_bytes provider bytes ≡ (plain, none)
        → IsPlain contains_encrypted provider bytes plain
    unfolding decrypt_config_bytes
    encrypted-IsPlain none bytes plain h e = absurd (ground arith)
    encrypted-IsPlain (some (inl x)) bytes plain h e = absurd (ground arith)
    encrypted-IsPlain (some (inr none)) bytes plain h e = absurd (ground arith)
    encrypted-IsPlain (some (inr (some key))) bytes plain h e =
        with_key-IsPlain key bytes plain (unmarshal bytes) h refl ((key_lem key bytes plain h).0 e)

    IsPlain-decrypt_bytes :
        (provider : Option (Err ⊎ Option Key)) (bytes plain : Bytes)
        → IsPlain contains_encrypted provider bytes plain
        → decrypt_bytes provider bytes ≡ (plain, none)
    IsPlain-decrypt_bytes provider bytes plain (nothing_encrypted h e) =
        clear_lem provider bytes h ∙ ap (λ b. (b, none)) (sym e)
    IsPlain-decrypt_bytes provider bytes plain (all_decrypted key n h p u f m) =
        let l = nodes_lem key bytes n u in
        ap (λ o. decrypt_bytes o bytes) p ∙ (key_lem key bytes plain h).1 (ground (arith, l))

    kept :
        (provider : Option (Err ⊎ Option Key)) (bytes : Bytes)
        → ((decrypt_bytes provider bytes).1 ≡ none) ⊎ ((decrypt_bytes provider bytes).0 ≡ bytes)
    unfolding decrypt_config_bytes
    kept provider bytes = ground arith

    -- Whatever provider of a key there is: the bytes of a configuration are decrypted to others
    -- without an error if and only if they hold no encrypted values and are left as they are, or the
    -- provider gives a key, the bytes unmarshal to a document, no encrypted scalar of it is still
    -- encrypted after its decryption, and the document with exactly its encrypted scalars decrypted
    -- is marshalled to those others. Where there is an error, the bytes stay as they are.
    pub decrypt_config_bytes_iff :
        (provider : Option (Err ⊎ Option Key)) (bytes plain : Bytes)
        → ((decrypt_bytes provider bytes ≡ (plain, none))
            ↔ IsPlain contains_encrypted provider bytes plain)
          × (((decrypt_bytes provider bytes).1 ≡ none) ⊎ ((decrypt_bytes provider bytes).0 ≡ bytes))
    decrypt_config_bytes_iff provider bytes plain = (
      (
        λ e. elim (Bool-cases (contains_encrypted bytes)) [
          | inl t ↦ encrypted-IsPlain provider bytes plain t e
          | inr f ↦ nothing_encrypted f (let l = clear_lem provider bytes f in cc)
        ],
        IsPlain-decrypt_bytes provider bytes plain,
      ),
      kept provider bytes,
    )
