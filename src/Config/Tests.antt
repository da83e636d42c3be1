-- ===== src/Config/Tests.antt =====
-- The configuration at concrete bytes, which are numbers: 0 cannot be read, and 13 does not
-- validate.
use witchcraft_go_server.Base.{
  ℕ, ◌↔◌, ◌≡◌, refl, Bool, true, false, ◌⊎◌, inl, inr, Option, none, some, List, [], ◌∷◌, ◌==◌,
  String, if◌then◌else◌, map_option,
}
use text.Mathlib.Text.{◌==◌ as str_eq}
use witchcraft_go_server.Config.Given.{
  with_install_config, ecv_key_from_file, not_exist, does_not_exist,
}
use witchcraft_go_server.Config.Install.{InstallError, init_install_config}
use witchcraft_go_server.Config.Runtime.{
  decrypt_config_bytes, DecryptError, ValidationOptions, LoadError, Loader, validation_failed,
  unmarshal_failed,
}
use witchcraft_go_server.Config.Runtime.Reloads.{Validated, reloads, reloads-verdicts}
use witchcraft_go_server.Config.Nodes.{
  decrypt_ecv_yaml_nodes, IsPlain, decrypt_bytes, decrypt_config_bytes_iff,
}
use witchcraft_go_server.Config.Secrets.{Node, node, child, done, mapping, scalar, decrypt_node}
use witchcraft_go_server.Config.Secrets.Decrypted.{ComesFrom, flat, decrypt_node-plain}

abbrev update_pair : LoadError ℕ ⊎ ℕ → ℕ × Option (LoadError ℕ) → ℕ × Option (LoadError ℕ)
update_pair (inl e) (r, o) = (r, some e)
update_pair (inr r) (s, o) = (r, none)

-- A refreshable as its value and the error of the last call.
abbrev pairs : Validated ℕ (LoadError ℕ) (ℕ × Option (LoadError ℕ))
pairs = record {
  start = λ r. (r, none);
  current = λ v. v.0;
  validation = λ v. v.1;
  update = update_pair;
  current-start = λ r. refl;
  validation-start = λ r. refl;
  current-update_error = λ e v. refl;
  validation-update_error = λ e v. refl;
  current-update = λ r v. refl;
  validation-update = λ r v. refl;
}

abbrev as_is : ℕ → ℕ × Bool
as_is b = (b, false)

abbrev read_number : ℕ → ℕ ⊎ ℕ
read_number b = if b == 0 then inl 0 else inr b

abbrev superstitious : Option (ℕ → Option ℕ)
superstitious = some (λ cfg. if cfg == 13 then some 1 else none)

abbrev rejecting : Option ValidationOptions
rejecting = some (record {
  strict_unmarshaling = false;
  log_on_failure = true;
  metric_on_failure = false;
  health_check_on_failure = none;
  fail_startup_on_error = false;
  reject_invalid_reload = true;
})

abbrev bytes : List ℕ
bytes = 7 ∷ 13 ∷ 0 ∷ []

abbrev started_loader : Loader ℕ
started_loader = record { is_startup = false; last_error = none }

reloads-verdicts_example :
    let (v, l) =
      reloads pairs as_is read_number read_number superstitious rejecting bytes
        ((5, none), started_loader) in
    (v.0 ≡ 7) × (v.1 ≡ some (unmarshal_failed 0)) × (l.last_error ≡ some (validation_failed 1))
reloads-verdicts_example =
    reloads-verdicts pairs as_is read_number read_number superstitious rejecting bytes (5, none)
      started_loader refl

-- A mapping of a key to a secret.
abbrev with_secret : Node
with_secret =
    node mapping "" (child (node scalar "key" done) (child (node scalar "secret" done) done))

abbrev is_secret : String → Bool
is_secret s = str_eq s "secret"

abbrev reveal : String → String
reveal s = "plain"

decrypt_node-plain_example :
    ComesFrom is_secret reveal
      (map_option (flat 0) (decrypt_node is_secret reveal with_secret))
      (flat 0 with_secret)
decrypt_node-plain_example = decrypt_node-plain is_secret reveal with_secret

abbrev decrypt_none : ℕ → ℕ × Option (DecryptError ℕ)
decrypt_none b = (b, none)

-- The bytes 99 hold an encrypted value.
abbrev holds_secret : ℕ → Bool
holds_secret b = b == 99

abbrev no_cipher : ℕ → ℕ → ℕ ⊎ ℕ
no_cipher key b = inl key

abbrev write_number : ℕ → ℕ ⊎ ℕ
write_number c = inr c

abbrev read_any : ℕ → ℕ ⊎ ℕ
read_any b = inr b

validated :
    init_install_config
      (decrypt_config_bytes holds_secret no_cipher (some (inr none)))
      read_any
      read_any
      superstitious
      (some true)
      (with_install_config write_number 13)
    ≡ inl (InstallError.validation_failed 1)
unfolding init_install_config with_install_config decrypt_config_bytes
validated = refl

abbrev no_parse : String → ℕ ⊎ ℕ
no_parse s = inl 0

no_key_file : ecv_key_from_file no_parse (not_exist 2) ≡ inl (does_not_exist 2)
unfolding ecv_key_from_file
no_key_file = refl

-- Bytes 1 unmarshal to the document with the secret; a document is marshalled to its value's length.
abbrev one_document : ℕ → ℕ ⊎ Node
one_document b = if b == 1 then inr with_secret else inl b

abbrev print_two : Node → ℕ ⊎ ℕ
print_two n = inr 2

abbrev with_key_of : ℕ → String → String
with_key_of key s = reveal s

decrypt_config_bytes_iff_example :
    ((decrypt_bytes one_document print_two is_secret with_key_of 0
          (λ b. true)
          (some (inr (some 5)))
          1
        ≡ (2, none))
      ↔ IsPlain one_document print_two is_secret with_key_of 0
          (λ b. true)
          (some (inr (some 5)))
          1
          2)
    × (((decrypt_bytes one_document print_two is_secret with_key_of 0
            (λ b. true)
            (some (inr (some 5)))
            1).1
          ≡ none)
        ⊎ ((decrypt_bytes one_document print_two is_secret with_key_of 0
              (λ b. true)
              (some (inr (some 5)))
              1).0
            ≡ 1))
decrypt_config_bytes_iff_example =
    decrypt_config_bytes_iff one_document print_two is_secret with_key_of 0 (λ b. true)
      (some (inr (some 5))) 1 2

printed :
    decrypt_bytes one_document print_two is_secret with_key_of 0 (λ b. true) (some (inr (some 5))) 1
    ≡ (2, none)
unfolding decrypt_config_bytes decrypt_ecv_yaml_nodes decrypt_node
printed = refl
