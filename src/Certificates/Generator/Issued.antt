-- ===== src/Certificates/Generator/Issued.antt =====
-- The key pairs that newCAKeyPair and newSignedKeyPair of integration/testdata/generator.go make.
use mathlib.Core.Path.{subst}
use witchcraft_go_server.Base.{
  ℕ, true, Option, none, some, String, ◌⊎◌, inl, inr, ◌≡◌, refl, sym, ◌∙◌, ap,
}
use witchcraft_go_server.Certificates.{
  Template, Certificate, block, Crypto, IsParsed, IsLawful, and_then, and_then-inr,
}
use witchcraft_go_server.Certificates.Generator.{
  ca_template, copied, must, must_decode, der_bytes_to_strings, issue, new_ca_key_pair,
  new_signed_key_pair,
}

pub must-inr : {Err A : Type 0} (x : Err ⊎ A) (a : A) → must x ≡ inr a → x ≡ inr a
must-inr (inl e) a h = absurd (cc)
must-inr (inr b) a h = cc

module _ {Bytes Key Pub Err : Type 0} (c : Crypto Bytes Key Pub Err) where
  abbrev pub pem_certificate : Bytes → Bytes
  pem_certificate der = c.encode_to_memory (block "CERTIFICATE" der)

  abbrev pub pem_key : Key → Bytes
  pem_key k = c.encode_to_memory (block "RSA PRIVATE KEY" (c.marshal_key k))

  -- The files of a certificate and its key load as a pair, and the certificate, which was made from
  -- the template for the key, is signed by the signer.
  pub record IsIssued (t : Template) (parent : Option (Certificate Bytes Pub)) (signer k : Key)
      (files : Bytes × Bytes) : Type 0 where
    pub der : Bytes
    pub created : c.create_certificate t parent (c.public k) signer ≡ inr der
    pub parsed : IsParsed c t (c.public k) der
    pub signed : c.check_signature (c.public signer) der ≡ true
    pub cert_file : files.0 ≡ pem_certificate der
    pub key_file : files.1 ≡ pem_key k
    pub loads :
        c.x509_key_pair files.0 files.1 ≡ inr (record { certificate = der; private_key = k })

  module _ (lawful : IsLawful c) where
    strings_lem :
        (der key_der : Bytes)
        → der_bytes_to_strings c der key_der
          ≡ inr (pem_certificate der, c.encode_to_memory (block "RSA PRIVATE KEY" key_der))
    strings_lem der key_der =
        rw
          (
            lawful.encodes (block "CERTIFICATE" der),
            lawful.encodes (block "RSA PRIVATE KEY" key_der),
          )
          refl

    created-IsIssued :
        (t : Template) (parent : Option (Certificate Bytes Pub)) (signer k : Key) (der : Bytes)
        → c.create_certificate t parent (c.public k) signer ≡ inr der
        → IsIssued t parent signer k (pem_certificate der, pem_key k)
    created-IsIssued t parent signer k der e =
        let p = lawful.parses t parent (c.public k) signer der e in
        record {
          der = der;
          created = e;
          parsed = p;
          signed = lawful.signs t parent (c.public k) signer der e;
          cert_file = refl;
          key_file = refl;
          loads = lawful.pairs p.certificate der k p.parsed p.same_key;
        }

    issue-IsIssued :
        (t : Template) (parent : Option (Certificate Bytes Pub)) (signer k : Key)
        (files : Bytes × Bytes)
        → issue c t parent signer k ≡ inr files
        → IsIssued t parent signer k files
    issue-IsIssued t parent signer k files h =
        let (der, e, r) =
          and_then-inr (must (c.create_certificate t parent (c.public k) signer)) _ files h in
        let s = strings_lem der (c.marshal_key k) in
        let same : (pem_certificate der, pem_key k) ≡ files = cc in
        subst (IsIssued t parent signer k) same
          (created-IsIssued t parent signer k der (must-inr _ der e))

    IsIssued-issue :
        (t : Template) (parent : Option (Certificate Bytes Pub)) (signer k : Key)
        (files : Bytes × Bytes)
        → IsIssued t parent signer k files
        → issue c t parent signer k ≡ inr files
    IsIssued-issue t parent signer k files i =
        let s = strings_lem i.der (c.marshal_key k) in
        let same : (pem_certificate i.der, pem_key k) ≡ files =
          ap (λ a. (a, pem_key k)) (sym i.cert_file) ∙ ap (λ b. (files.0, b)) (sym i.key_file) in
        rw i.created (s ∙ ap inr same)

    pub ca-IsIssued :
        (g : Err ⊎ Key) (serial : ℕ) (org : String) (now later : ℕ) (files : Bytes × Bytes)
        → new_ca_key_pair c g serial org now later ≡ inr files
        → (k : Key) × (g ≡ inr k) × IsIssued (ca_template serial org now later) none k k files
    unfolding new_ca_key_pair
    ca-IsIssued g serial org now later files h =
        let (k, e, r) = and_then-inr (must g) _ files h in
        (k, must-inr g k e, issue-IsIssued (ca_template serial org now later) none k k files r)

    pub IsIssued-ca :
        (g : Err ⊎ Key) (serial : ℕ) (org : String) (now later : ℕ) (files : Bytes × Bytes)
        (k : Key)
        → g ≡ inr k
        → IsIssued (ca_template serial org now later) none k k files
        → new_ca_key_pair c g serial org now later ≡ inr files
    unfolding new_ca_key_pair
    IsIssued-ca g serial org now later files k d i =
        rw d (IsIssued-issue (ca_template serial org now later) none k k files i)

    decoded_key :
        (priv : Bytes) (k : Key)
        → priv ≡ pem_key k
        → must_decode {Err = Err} (c.decode priv) ≡ inr (c.marshal_key k)
    decoded_key priv k e = rw (e, lawful.decodes (block "RSA PRIVATE KEY" (c.marshal_key k))) refl

    pub decoded_certificate :
        (file der : Bytes)
        → file ≡ pem_certificate der
        → must_decode {Err = Err} (c.decode file) ≡ inr der
    decoded_certificate file der e = rw (e, lawful.decodes (block "CERTIFICATE" der)) refl

    -- newSignedKeyPair, given the authority's key in its PEM form.
    signed_lem :
        (g : Err ⊎ Key) (serial : ℕ) (org cn : String) (t : Template)
        (ca_cert : Certificate Bytes Pub) (priv : Bytes) (signer : Key)
        → priv ≡ pem_key signer
        → new_signed_key_pair c g serial org cn t ca_cert priv
          ≡ and_then (must g) (issue c (copied t serial org cn) (some ca_cert) signer)
    unfolding new_signed_key_pair
    signed_lem g serial org cn t ca_cert priv signer e =
        rw (decoded_key priv signer e, lawful.parses_key signer) refl

    pub signed-IsIssued :
        (g : Err ⊎ Key) (serial : ℕ) (org cn : String) (t : Template)
        (ca_cert cert : Certificate Bytes Pub) (priv : Bytes) (signer : Key) (files : Bytes × Bytes)
        → priv ≡ pem_key signer
        → ca_cert ≡ cert
        → new_signed_key_pair c g serial org cn t ca_cert priv ≡ inr files
        → (k : Key) × (g ≡ inr k) × IsIssued (copied t serial org cn) (some cert) signer k files
    signed-IsIssued g serial org cn t ca_cert cert priv signer files e same h =
        let (k, d, r) =
          and_then-inr (must g) _ files
            (sym (signed_lem g serial org cn t ca_cert priv signer e) ∙ h) in
        let i = issue-IsIssued (copied t serial org cn) (some ca_cert) signer k files r in
        (
          k,
          must-inr g k d,
          subst (λ x. IsIssued (copied t serial org cn) (some x) signer k files) same i,
        )

    pub IsIssued-signed :
        (g : Err ⊎ Key) (serial : ℕ) (org cn : String) (t : Template)
        (ca_cert : Certificate Bytes Pub) (priv : Bytes) (signer k : Key) (files : Bytes × Bytes)
        → priv ≡ pem_key signer
        → g ≡ inr k
        → IsIssued (copied t serial org cn) (some ca_cert) signer k files
        → new_signed_key_pair c g serial org cn t ca_cert priv ≡ inr files
    IsIssued-signed g serial org cn t ca_cert priv signer k files e d i =
        signed_lem g serial org cn t ca_cert priv signer e
        ∙ rw d (IsIssued-issue (copied t serial org cn) (some ca_cert) signer k files i)
