-- ===== src/Certificates/Generator.antt =====
-- The program of integration/testdata/generator.go, which writes the keys and certificates of the
-- integration tests. A panic is the value it is called with; the environment gives the three keys
-- that are drawn, the readings of the clock, and which files can be written.
pub mod Issued
pub mod Generated
use witchcraft_go_server.Base.{
  ℕ, ◌+◌, ◌*◌, Bool, true, false, Option, none, some, List, [], ◌∷◌, ◌++◌, String, ◌⊎◌, inl, inr,
  if◌then◌else◌,
}
use witchcraft_go_server.Certificates.{
  Template, KeyUsage, key_encipherment, digital_signature, cert_sign, ExtKeyUsage, any_usage,
  server_auth, client_auth, Certificate, Block, block, Crypto, and_then,
}

abbrev pub ten_years : ℕ
ten_years = 10 * 365 * 24 * 3600

abbrev pub server_template : ℕ → ℕ → Template
server_template now later = record {
  serial_number = 0;
  organization = [];
  common_name = "";
  not_before = now;
  not_after = later + ten_years;
  key_usage = key_encipherment ∷ digital_signature ∷ [];
  basic_constraints_valid = true;
  is_ca = false;
  ext_key_usage = server_auth ∷ [];
  dns_names = "localhost" ∷ [];
  ip_addresses = "127.0.0.1" ∷ [];
}

abbrev pub client_template : ℕ → ℕ → Template
client_template now later = record {
  serial_number = 0;
  organization = [];
  common_name = "";
  not_before = now;
  not_after = later + ten_years;
  key_usage = key_encipherment ∷ digital_signature ∷ [];
  basic_constraints_valid = true;
  is_ca = false;
  ext_key_usage = client_auth ∷ [];
  dns_names = [];
  ip_addresses = [];
}

abbrev pub ca_template : ℕ → String → ℕ → ℕ → Template
ca_template serial org now later = record {
  serial_number = serial;
  organization = org ∷ [];
  common_name = "";
  not_before = now;
  not_after = later + ten_years;
  key_usage = key_encipherment ∷ digital_signature ∷ cert_sign ∷ [];
  basic_constraints_valid = true;
  is_ca = true;
  ext_key_usage = any_usage ∷ [];
  dns_names = [];
  ip_addresses = [];
}

-- tmplCopy of newSignedKeyPair.
abbrev pub copied : Template → ℕ → String → String → Template
copied template serial org cn = record template {
  serial_number = serial;
  organization = org ∷ [];
  common_name = cn;
}

-- What a panic is called with.
pub data Panic (Err : Type 0) : Type 0 where
  panic_error : Err → Panic Err
  no_pem cannot_write : Panic Err

abbrev pub must : {Err A : Type 0} → Err ⊎ A → Panic Err ⊎ A
must (inl e) = inl (panic_error e)
must (inr a) = inr a

abbrev pub must_decode : {Err Bytes : Type 0} → Option (Block Bytes) → Panic Err ⊎ Bytes
must_decode none = inl no_pem
must_decode (some (block name bytes)) = inr bytes

-- The environment of a run: the keys, the clock and the file system.
pub record World (Key Err : Type 0) : Type 0 where
  pub ca_key : Err ⊎ Key
  pub server_key : Err ⊎ Key
  pub client_key : Err ⊎ Key
  pub now : ℕ
  pub later : ℕ
  pub is_writable : String → Bool

-- The files that a run has written, and its panic.
pub record Outcome (Bytes Err : Type 0) : Type 0 where
  pub files : List (String × Bytes)
  pub panicked : Option (Panic Err)

module _ {Bytes Key Pub Err : Type 0} (c : Crypto Bytes Key Pub Err) where
  abbrev pub der_bytes_to_strings : Bytes → Bytes → Panic Err ⊎ (Bytes × Bytes)
  der_bytes_to_strings cert_der key_der =
      and_then (must (c.encode (block "CERTIFICATE" cert_der))) (λ cert.
        and_then (must (c.encode (block "RSA PRIVATE KEY" key_der))) (λ key. inr (cert, key)))

  -- What newCAKeyPair does with its key, and what newSignedKeyPair does with both.
  abbrev pub issue :
      Template → Option (Certificate Bytes Pub) → Key → Key → Panic Err ⊎ (Bytes × Bytes)
  issue t parent signer k =
      and_then (must (c.create_certificate t parent (c.public k) signer))
        (λ der. der_bytes_to_strings der (c.marshal_key k))

  unfoldable pub new_ca_key_pair : Err ⊎ Key → ℕ → String → ℕ → ℕ → Panic Err ⊎ (Bytes × Bytes)
  new_ca_key_pair generated serial org now later =
      and_then (must generated) (λ k. issue (ca_template serial org now later) none k k)

  unfoldable pub new_signed_key_pair :
      Err ⊎ Key
      → ℕ
      → String
      → String
      → Template
      → Certificate Bytes Pub
      → Bytes
      → Panic Err ⊎ (Bytes × Bytes)
  new_signed_key_pair generated serial org cn template ca_cert ca_priv_key =
      and_then (must_decode (c.decode ca_priv_key)) (λ key_bytes.
        and_then (must (c.parse_key key_bytes)) (λ signer.
          and_then (must generated)
            (λ k. issue (copied template serial org cn) (some ca_cert) signer k)))

  -- main up to the first file: the files that it is to write, in their order.
  unfoldable pub generate : World Key Err → Panic Err ⊎ List (String × Bytes)
  unfolding new_ca_key_pair new_signed_key_pair
  generate w = and_then (new_ca_key_pair w.ca_key 1 "Root CA" w.now w.later) (λ ca.
      and_then (must_decode (c.decode ca.0)) (λ ca_bytes.
        and_then (must (c.parse_certificate ca_bytes)) (λ ca_cert.
          and_then
            (new_signed_key_pair w.server_key 2 "Test Org" "localhost"
              (server_template w.now w.later) ca_cert ca.1)
            (λ server.
              and_then
                (new_signed_key_pair w.client_key 3 "Test Org" "client"
                  (client_template w.now w.later) ca_cert ca.1)
                (λ client. inr (
                  ("ca-cert.pem", ca.0)
                  ∷ ("ca-key.pem", ca.1)
                  ∷ ("server-cert.pem", server.0)
                  ∷ ("server-key.pem", server.1)
                  ∷ ("client-cert.pem", client.0)
                  ∷ ("client-key.pem", client.1)
                  ∷ []))))))

-- The calls of mustWriteFile, after the files that are written already.
unfoldable pub write_all :
    {Bytes Err : Type 0}
    → (String → Bool)
    → List (String × Bytes)
    → List (String × Bytes)
    → Outcome Bytes Err
write_all is_writable [] written = record { files = written; panicked = none }
write_all is_writable ((name, data_bytes) ∷ rest) written =
    let done = write_all is_writable rest (written ++ ((name, data_bytes) ∷ [])) in
    if is_writable name then done else record { files = written; panicked = some cannot_write }

-- main
unfoldable pub run_main :
    {Bytes Key Pub Err : Type 0} → Crypto Bytes Key Pub Err → World Key Err → Outcome Bytes Err
run_main c w = elim (generate c w) [
  | inl p ↦ record { files = []; panicked = some p }
  | inr files ↦ write_all w.is_writable files []
]
