-- ===== src/Certificates.antt =====
-- The interface of the cryptographic libraries (crypto/rsa, crypto/x509, crypto/tls, encoding/pem)
-- that certificates are made with, and what the documentation of Go says of them. A key that
-- rsa.GenerateKey has drawn is an argument of what draws it; a time is its seconds.
pub mod SelfSigned
pub mod Generator
mod Tests
use witchcraft_go_server.Base.{
  ℕ, Bool, true, Option, none, some, List, String, ◌≡◌, ◌⊎◌, inl, inr, refl,
}

pub data KeyUsage : Type 0 where
  key_encipherment digital_signature cert_sign : KeyUsage

pub data ExtKeyUsage : Type 0 where
  any_usage server_auth client_auth : ExtKeyUsage

-- The fields of an x509.Certificate that a template sets.
pub record Template : Type 0 where
  pub serial_number : ℕ
  pub organization : List String
  pub common_name : String
  pub not_before : ℕ
  pub not_after : ℕ
  pub key_usage : List KeyUsage
  pub basic_constraints_valid : Bool
  pub is_ca : Bool
  pub ext_key_usage : List ExtKeyUsage
  pub dns_names : List String
  pub ip_addresses : List String

-- A certificate that was parsed.
pub record Certificate (Bytes Pub : Type 0) : Type 0 where
  pub common_name : String
  pub not_before : ℕ
  pub not_after : ℕ
  pub public_key : Pub
  pub raw : Bytes

-- pem.Block
pub data Block (Bytes : Type 0) : Type 0 where
  block : String → Bytes → Block Bytes

-- tls.Certificate
pub record KeyPair (Bytes Key : Type 0) : Type 0 where
  pub certificate : Bytes
  pub private_key : Key

-- The functions of the libraries. The parent of `create_certificate` is the template itself if it is
-- none. `encode` is what pem.Encode leaves in a buffer.
pub record Crypto (Bytes Key Pub Err : Type 0) : Type 0 where
  pub public : Key → Pub
  pub marshal_key : Key → Bytes
  pub parse_key : Bytes → Err ⊎ Key
  pub create_certificate : Template → Option (Certificate Bytes Pub) → Pub → Key → Err ⊎ Bytes
  pub parse_certificate : Bytes → Err ⊎ Certificate Bytes Pub
  pub check_signature : Pub → Bytes → Bool
  pub encode : Block Bytes → Err ⊎ Bytes
  pub encode_to_memory : Block Bytes → Bytes
  pub decode : Bytes → Option (Block Bytes)
  pub x509_key_pair : Bytes → Bytes → Err ⊎ KeyPair Bytes Key

-- What a certificate that was created parses to.
pub record IsParsed {Bytes Key Pub Err : Type 0} (c : Crypto Bytes Key Pub Err) (t : Template)
    (pub_key : Pub) (der : Bytes) : Type 0 where
  pub certificate : Certificate Bytes Pub
  pub parsed : c.parse_certificate der ≡ inr certificate
  pub same_bytes : certificate.raw ≡ der
  pub same_key : certificate.public_key ≡ pub_key
  pub same_name : certificate.common_name ≡ t.common_name
  pub same_start : certificate.not_before ≡ t.not_before
  pub same_end : certificate.not_after ≡ t.not_after

-- What the libraries document.
pub record IsLawful {Bytes Key Pub Err : Type 0} (c : Crypto Bytes Key Pub Err) : Type 0 where
  pub parses :
      (t : Template) (parent : Option (Certificate Bytes Pub)) (pub_key : Pub) (k : Key)
      (der : Bytes)
      → c.create_certificate t parent pub_key k ≡ inr der
      → IsParsed c t pub_key der
  pub signs :
      (t : Template) (parent : Option (Certificate Bytes Pub)) (pub_key : Pub) (k : Key)
      (der : Bytes)
      → c.create_certificate t parent pub_key k ≡ inr der
      → c.check_signature (c.public k) der ≡ true
  pub encodes : (b : Block Bytes) → c.encode b ≡ inr (c.encode_to_memory b)
  pub decodes : (b : Block Bytes) → c.decode (c.encode_to_memory b) ≡ some b
  pub parses_key : (k : Key) → c.parse_key (c.marshal_key k) ≡ inr k
  pub pairs :
      (cert : Certificate Bytes Pub) (der : Bytes) (k : Key)
      → c.parse_certificate der ≡ inr cert
      → cert.public_key ≡ c.public k
      → c.x509_key_pair
          (c.encode_to_memory (block "CERTIFICATE" der))
          (c.encode_to_memory (block "RSA PRIVATE KEY" (c.marshal_key k)))
        ≡ inr (record { certificate = der; private_key = k })

-- The rest of a function after a call that may fail.
abbrev pub and_then : {E A B : Type 0} → E ⊎ A → (A → E ⊎ B) → E ⊎ B
and_then (inl e) f = inl e
and_then (inr a) f = f a

pub and_then-inr :
    {E A B : Type 0} (x : E ⊎ A) (f : A → E ⊎ B) (b : B)
    → and_then x f ≡ inr b
    → (a : A) × (x ≡ inr a) × (f a ≡ inr b)
and_then-inr (inl e) f b h = absurd (cc)
and_then-inr (inr a) f b h = (a, refl, h)
