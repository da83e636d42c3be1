-- ===== src/Certificates/Tests.antt =====
-- The certificates with concrete libraries: a key is a number, which is its public key too, and
-- bytes are what they hold.
use witchcraft_go_server.Base.{
  sym, arith, ℕ, Bool, true, false, Option, none, some, List, String, ◌≡◌, ◌↔◌, ◌⊎◌, inl, inr, refl,
  ◌==◌, if◌then◌else◌,
}
use witchcraft_go_server.Certificates.{
  Template, Certificate, Block, block, KeyPair, Crypto, IsParsed, IsLawful,
}
use witchcraft_go_server.Certificates.SelfSigned.{
  self_signed_template, new_self_signed_certificate, IsSelfSigned, new_self_signed_certificate_iff,
}
use witchcraft_go_server.Certificates.Generator.{write_all, World, run_main, generate}
use witchcraft_go_server.Certificates.Generator.Generated.{IsGenerated, run_main_iff}

data Wire : Type 0 where
  key_wire : ℕ → Wire
  certificate_wire : Template → ℕ → ℕ → Wire
  pem_wire : String → Wire → Wire

abbrev parse_key_wire : Wire → ℕ ⊎ ℕ
parse_key_wire (key_wire k) = inr k
parse_key_wire _ = inl 1

abbrev parse_wire : Wire → ℕ ⊎ Certificate Wire ℕ
parse_wire (certificate_wire t p k) = inr (record {
  common_name = t.common_name;
  not_before = t.not_before;
  not_after = t.not_after;
  public_key = p;
  raw = certificate_wire t p k;
})
parse_wire _ = inl 2

abbrev signed_by : ℕ → Wire → Bool
signed_by p (certificate_wire t q k) = k == p
signed_by p _ = false

abbrev decode_wire : Wire → Option (Block Wire)
decode_wire (pem_wire name bytes) = some (block name bytes)
decode_wire _ = none

abbrev encode_wire : Block Wire → Wire
encode_wire (block name bytes) = pem_wire name bytes

abbrev pair_wires : Wire → Wire → ℕ ⊎ KeyPair Wire ℕ
pair_wires (pem_wire n (certificate_wire t p k)) (pem_wire m (key_wire q)) =
    if p == q then inr (record { certificate = certificate_wire t p k; private_key = q }) else inl 3
pair_wires _ _ = inl 4

abbrev wires : Crypto Wire ℕ ℕ ℕ
wires = record {
  public = λ k. k;
  marshal_key = key_wire;
  parse_key = parse_key_wire;
  create_certificate = λ t parent p k. inr (certificate_wire t p k);
  parse_certificate = parse_wire;
  check_signature = signed_by;
  encode = λ b. inr (encode_wire b);
  encode_to_memory = encode_wire;
  decode = decode_wire;
  x509_key_pair = pair_wires;
}

eq_self : (k : ℕ) → (k == k) ≡ true
eq_self k = ground arith

created_wire :
    (t : Template) (p k : ℕ) (der : Wire)
    → ◌≡◌ {A = ℕ ⊎ Wire} (inr (certificate_wire t p k)) (inr der)
    → certificate_wire t p k ≡ der
created_wire t p k der h = cc

wires-parses :
    (t : Template) (p k : ℕ) (der : Wire) → certificate_wire t p k ≡ der → IsParsed wires t p der
wires-parses t p k der h = record {
  certificate = record {
    common_name = t.common_name;
    not_before = t.not_before;
    not_after = t.not_after;
    public_key = p;
    raw = der;
  };
  parsed = rw (sym h) refl;
  same_bytes = refl;
  same_key = refl;
  same_name = refl;
  same_start = refl;
  same_end = refl;
}

wires-pairs :
    (cert : Certificate Wire ℕ) (der : Wire) (k : ℕ)
    → parse_wire der ≡ inr cert
    → cert.public_key ≡ k
    → pair_wires (pem_wire "CERTIFICATE" der) (pem_wire "RSA PRIVATE KEY" (key_wire k))
      ≡ inr (record { certificate = der; private_key = k })
wires-pairs cert (key_wire j) k h e = absurd (cc)
wires-pairs cert (pem_wire n b) k h e = absurd (cc)
wires-pairs cert (certificate_wire t p j) k h e = let same : p ≡ k = cc in rw (same, eq_self k) refl

wires-IsLawful : IsLawful wires
wires-IsLawful = record {
  parses = λ t parent p k der h. wires-parses t p k der (created_wire t p k der h);
  signs = λ t parent p k der h. rw (sym (created_wire t p k der h)) (eq_self k);
  encodes = λ b. refl;
  decodes = λ b. by_block b;
  parses_key = λ k. refl;
  pairs = wires-pairs;
}
  where
    by_block : (b : Block Wire) → decode_wire (encode_wire b) ≡ some b
    by_block (block name bytes) = refl

abbrev test_world : World ℕ ℕ
test_world = record {
  ca_key = inr 5;
  server_key = inr 6;
  client_key = inr 7;
  now = 1000;
  later = 1001;
  is_writable = λ name. true;
}

abbrev test_files : List (String × Wire)
test_files = (run_main wires test_world).files

abbrev test_pair : KeyPair Wire ℕ
test_pair = record {
  certificate = certificate_wire (self_signed_template 1000 1001) 9 9;
  private_key = 9;
}

new_self_signed_certificate_iff_example :
    (new_self_signed_certificate wires (inr 9) 1000 1001 ≡ inr test_pair)
    ↔ IsSelfSigned wires (inr 9) 1000 1001 test_pair
new_self_signed_certificate_iff_example =
    new_self_signed_certificate_iff wires wires-IsLawful (inr 9) 1000 1001 test_pair

written_files :
    (run_main wires test_world ≡ record { files = test_files; panicked = none })
    ↔ IsGenerated wires test_world test_files
written_files = run_main_iff wires wires-IsLawful test_world test_files (λ name. refl)

six_written : run_main wires test_world ≡ record { files = test_files; panicked = none }
unfolding run_main generate write_all
six_written = refl
