-- ===== src/Certificates/SelfSigned.antt =====
-- newSelfSignedCertificate of witchcraft/server_run.go.
use mathlib.Core.Path.{subst}
use witchcraft_go_server.Base.{
  ℕ, ◌+◌, ◌-◌, ◌*◌, true, false, Option, none, [], ◌∷◌, ◌≡◌, ◌↔◌, ◌⊎◌, inl, inr, refl,
}
use witchcraft_go_server.Certificates.{
  Template, Certificate, block, KeyPair, Crypto, IsLawful, and_then,
}

-- The template at the two readings of the clock, which counts the seconds from a day long past.
abbrev pub self_signed_template : ℕ → ℕ → Template
self_signed_template now later = record {
  serial_number = 1;
  organization = "Palantir" ∷ [];
  common_name = "localhost";
  not_before = now - 30;
  not_after = later + 365 * 24 * 3600;
  key_usage = [];
  basic_constraints_valid = false;
  is_ca = false;
  ext_key_usage = [];
  dns_names = [];
  ip_addresses = [];
}

module _ {Bytes Key Pub Err : Type 0} (c : Crypto Bytes Key Pub Err) where
  -- What follows the drawing of the key, and what follows the creation of the certificate.
  abbrev pub with_certificate : Key → Bytes → Err ⊎ KeyPair Bytes Key
  with_certificate k der = and_then (c.parse_certificate der) (λ cert.
      c.x509_key_pair (c.encode_to_memory (block "CERTIFICATE" cert.raw))
        (c.encode_to_memory (block "RSA PRIVATE KEY" (c.marshal_key k))))

  abbrev pub with_key : Template → Key → Err ⊎ KeyPair Bytes Key
  with_key t k = and_then (c.create_certificate t none (c.public k) k) (with_certificate k)

  unfoldable pub new_self_signed_certificate : Err ⊎ Key → ℕ → ℕ → Err ⊎ KeyPair Bytes Key
  new_self_signed_certificate generated now later =
      and_then generated (with_key (self_signed_template now later))

  module _ (lawful : IsLawful c) where
    -- No step after the creation fails.
    pub with_certificate_lem :
        (t : Template) (parent : Option (Certificate Bytes Pub)) (signer k : Key) (der : Bytes)
        → c.create_certificate t parent (c.public k) signer ≡ inr der
        → with_certificate k der ≡ inr (record { certificate = der; private_key = k })
    with_certificate_lem t parent signer k der e =
        let p = lawful.parses t parent (c.public k) signer der e in
        rw (p.parsed, p.same_bytes) (lawful.pairs p.certificate der k p.parsed p.same_key)

  -- The certificate of a pair is made for its key, which was drawn, and signed with it; it is for
  -- localhost, and valid from 30 seconds before the first reading of the clock until a year after
  -- the second.
  pub record IsSelfSigned (generated : Err ⊎ Key) (now later : ℕ) (pair : KeyPair Bytes Key)
      : Type 0 where
    pub drawn : generated ≡ inr pair.private_key
    pub created :
        c.create_certificate
          (self_signed_template now later)
          none
          (c.public pair.private_key)
          pair.private_key
        ≡ inr pair.certificate
    pub certificate : Certificate Bytes Pub
    pub parsed : c.parse_certificate pair.certificate ≡ inr certificate
    pub for_key : certificate.public_key ≡ c.public pair.private_key
    pub for_localhost : certificate.common_name ≡ "localhost"
    pub valid_from : certificate.not_before ≡ now - 30
    pub valid_until : certificate.not_after ≡ later + 31536000
    pub signed : c.check_signature (c.public pair.private_key) pair.certificate ≡ true

  module _ (lawful : IsLawful c) where
    created-IsSelfSigned :
        (generated : Err ⊎ Key) (now later : ℕ) (k : Key) (der : Bytes)
        → generated ≡ inr k
        → c.create_certificate (self_signed_template now later) none (c.public k) k ≡ inr der
        → IsSelfSigned generated now later (record { certificate = der; private_key = k })
    created-IsSelfSigned generated now later k der g e =
        let p = lawful.parses (self_signed_template now later) none (c.public k) k der e in
        record {
          drawn = g;
          created = e;
          certificate = p.certificate;
          parsed = p.parsed;
          for_key = p.same_key;
          for_localhost = p.same_name;
          valid_from = p.same_start;
          valid_until = p.same_end;
          signed = lawful.signs (self_signed_template now later) none (c.public k) k der e;
        }

    with_key-IsSelfSigned :
        (generated : Err ⊎ Key) (now later : ℕ) (k : Key) (pair : KeyPair Bytes Key)
        (created : Err ⊎ Bytes)
        → generated ≡ inr k
        → c.create_certificate (self_signed_template now later) none (c.public k) k ≡ created
        → and_then created (with_certificate k) ≡ inr pair
        → IsSelfSigned generated now later pair
    with_key-IsSelfSigned generated now later k pair (inl e) g q h = absurd (cc)
    with_key-IsSelfSigned generated now later k pair (inr der) g q h =
        let r = with_certificate_lem lawful (self_signed_template now later) none k k der q in
        let same : record { certificate = der; private_key = k } ≡ pair = cc in
        subst (IsSelfSigned generated now later) same
          (created-IsSelfSigned generated now later k der g q)

    with_key_lem :
        (t : Template) (k k' : Key) (der : Bytes)
        → k ≡ k'
        → c.create_certificate t none (c.public k') k' ≡ inr der
        → with_key t k ≡ inr (record { certificate = der; private_key = k' })
    with_key_lem t k k' der d e = rw (d, e) (with_certificate_lem lawful t none k' k' der e)

    -- The server has a self-signed certificate if and only if a key was drawn and the libraries
    -- created a certificate for it: none of the steps that follow, the parsing of the certificate,
    -- its PEM form and that of the key, and the pairing of the two, fails. The pair is then of that
    -- key and that certificate, which parses, is for localhost and the key, is signed with it, and
    -- is valid from 30 seconds before it is made, if the clock does not read less, until 365 days
    -- after.
    pub new_self_signed_certificate_iff :
        (generated : Err ⊎ Key) (now later : ℕ) (pair : KeyPair Bytes Key)
        → (new_self_signed_certificate generated now later ≡ inr pair)
          ↔ IsSelfSigned generated now later pair
    unfolding new_self_signed_certificate
    new_self_signed_certificate_iff (inl e) now later pair =
        (λ h. absurd (cc), λ s. absurd (let d = s.drawn in cc))
    new_self_signed_certificate_iff (inr k) now later pair = (
      with_key-IsSelfSigned (inr k) now later k pair _ refl refl,
      λ s.
          let same : k ≡ pair.private_key = (let d = s.drawn in cc) in
          with_key_lem (self_signed_template now later) k pair.private_key pair.certificate same
            s.created,
    )
