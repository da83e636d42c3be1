-- ===== src/Certificates/Generator/Generated.antt =====
-- What the program of integration/testdata/generator.go writes.
use mathlib.Core.List.{append-nil, append_assoc}
use witchcraft_go_server.Base.{
  ◌↔◌, ◌++◌, Bool, true, none, some, List, [], ◌∷◌, String, ◌⊎◌, inl, inr, ◌≡◌, refl, sym, ◌∙◌, ap,
}
use witchcraft_go_server.Certificates.{Crypto, IsLawful, and_then-inr}
use witchcraft_go_server.Certificates.Generator.{
  server_template, client_template, ca_template, copied, Panic, write_all, run_main, must,
  must_decode, World, new_ca_key_pair, new_signed_key_pair, generate,
}
use witchcraft_go_server.Certificates.Generator.Issued.{
  must-inr, IsIssued, ca-IsIssued, IsIssued-ca, decoded_certificate, signed-IsIssued,
  IsIssued-signed,
}

inr-same : {E A : Type 0} {a b : A} → ◌≡◌ {A = E ⊎ A} (inr a) (inr b) → a ≡ b
inr-same h = cc

result-cases : {E A : Type 0} (x : E ⊎ A) → ((e : E) × (x ≡ inl e)) ⊎ ((a : A) × (x ≡ inr a))
result-cases (inl e) = inl (e, refl)
result-cases (inr a) = inr (a, refl)

module _ {Bytes Key Pub Err : Type 0} (c : Crypto Bytes Key Pub Err) where
  -- The files of a run are those of a certificate authority and of two certificates that it has
  -- issued, each with its key.
  pub record IsGenerated (w : World Key Err) (files : List (String × Bytes)) : Type 0 where
    pub ca_key : Key
    pub server_key : Key
    pub client_key : Key
    pub ca_drawn : w.ca_key ≡ inr ca_key
    pub server_drawn : w.server_key ≡ inr server_key
    pub client_drawn : w.client_key ≡ inr client_key
    pub ca : Bytes × Bytes
    pub server : Bytes × Bytes
    pub client : Bytes × Bytes
    pub ca_issued : IsIssued c (ca_template 1 "Root CA" w.now w.later) none ca_key ca_key ca
    pub server_issued :
        IsIssued c
          (copied (server_template w.now w.later) 2 "Test Org" "localhost")
          (some ca_issued.parsed.certificate)
          ca_key
          server_key
          server
    pub client_issued :
        IsIssued c
          (copied (client_template w.now w.later) 3 "Test Org" "client")
          (some ca_issued.parsed.certificate)
          ca_key
          client_key
          client
    pub six_files :
        files
        ≡ ("ca-cert.pem", ca.0)
          ∷ ("ca-key.pem", ca.1)
          ∷ ("server-cert.pem", server.0)
          ∷ ("server-key.pem", server.1)
          ∷ ("client-cert.pem", client.0)
          ∷ ("client-key.pem", client.1)
          ∷ []

  module _ (lawful : IsLawful c) where
    generate-IsGenerated :
        (w : World Key Err) (files : List (String × Bytes))
        → generate c w ≡ inr files
        → IsGenerated w files
    unfolding generate
    generate-IsGenerated w files h =
        let (ca, h1, r1) =
          and_then-inr (new_ca_key_pair c w.ca_key 1 "Root CA" w.now w.later) _ files h in
        let (ca_bytes, h2, r2) = and_then-inr (must_decode (c.decode ca.0)) _ files r1 in
        let (ca_cert, h3, r3) = and_then-inr (must (c.parse_certificate ca_bytes)) _ files r2 in
        let (server, h4, r4) =
          and_then-inr
            (new_signed_key_pair c w.server_key 2 "Test Org" "localhost"
              (server_template w.now w.later) ca_cert ca.1)
            _ files r3 in
        let (client, h5, r5) =
          and_then-inr
            (new_signed_key_pair c w.client_key 3 "Test Org" "client"
              (client_template w.now w.later) ca_cert ca.1)
            _ files r4 in
        let (ca_key, drawn, issued) =
          ca-IsIssued c lawful w.ca_key 1 "Root CA" w.now w.later ca h1 in
        let d = decoded_certificate c lawful ca.0 issued.der issued.cert_file in
        let p = must-inr (c.parse_certificate ca_bytes) ca_cert h3 in
        let q = issued.parsed.parsed in
        let same_bytes : ca_bytes ≡ issued.der = inr-same {E = Panic Err} (sym h2 ∙ d) in
        let same : ca_cert ≡ issued.parsed.certificate =
          inr-same {E = Err} (sym p ∙ ap c.parse_certificate same_bytes ∙ q) in
        let (server_key, server_drawn, server_issued) =
          signed-IsIssued c lawful w.server_key 2 "Test Org" "localhost"
            (server_template w.now w.later) ca_cert issued.parsed.certificate ca.1 ca_key server
            issued.key_file same h4 in
        let (client_key, client_drawn, client_issued) =
          signed-IsIssued c lawful w.client_key 3 "Test Org" "client"
            (client_template w.now w.later) ca_cert issued.parsed.certificate ca.1 ca_key client
            issued.key_file same h5 in
        record {
          ca_key = ca_key;
          server_key = server_key;
          client_key = client_key;
          ca_drawn = drawn;
          server_drawn = server_drawn;
          client_drawn = client_drawn;
          ca = ca;
          server = server;
          client = client;
          ca_issued = issued;
          server_issued = server_issued;
          client_issued = client_issued;
          six_files = inr-same {E = Panic Err} (sym r5);
        }

    IsGenerated-generate :
        (w : World Key Err) (files : List (String × Bytes))
        → IsGenerated w files
        → generate c w ≡ inr files
    unfolding generate
    IsGenerated-generate w files g =
        let ca =
          IsIssued-ca c lawful w.ca_key 1 "Root CA" w.now w.later g.ca g.ca_key g.ca_drawn
            g.ca_issued in
        let bytes = decoded_certificate c lawful g.ca.0 g.ca_issued.der g.ca_issued.cert_file in
        let cert = g.ca_issued.parsed.certificate in
        let server =
          IsIssued-signed c lawful w.server_key 2 "Test Org" "localhost"
            (server_template w.now w.later) cert g.ca.1 g.ca_key g.server_key g.server
            g.ca_issued.key_file g.server_drawn g.server_issued in
        let client =
          IsIssued-signed c lawful w.client_key 3 "Test Org" "client"
            (client_template w.now w.later) cert g.ca.1 g.ca_key g.client_key g.client
            g.ca_issued.key_file g.client_drawn g.client_issued in
        rw (ca, bytes, g.ca_issued.parsed.parsed, server, client) (ap inr (sym g.six_files))

write_all_lem :
    {Bytes Err : Type 0} (is_writable : String → Bool) (files written : List (String × Bytes))
    → ((name : String) → is_writable name ≡ true)
    → write_all {Bytes = Bytes} {Err = Err} is_writable files written
      ≡ record { files = written ++ files; panicked = none }
unfolding write_all
write_all_lem is_writable [] written h =
    ap (λ fs. record { files = fs; panicked = none }) (sym (append-nil written))
write_all_lem is_writable ((name, data_bytes) ∷ rest) written h = rw (h name) (
    write_all_lem is_writable rest (written ++ ((name, data_bytes) ∷ [])) h
    ∙ ap (λ fs. record { files = fs; panicked = none })
        (append_assoc written ((name, data_bytes) ∷ []) rest))

run_main_lem :
    {Bytes Key Pub Err : Type 0} (c : Crypto Bytes Key Pub Err) (w : World Key Err)
    (files : List (String × Bytes))
    → ((name : String) → w.is_writable name ≡ true)
    → generate c w ≡ inr files
    → run_main c w ≡ record { files = files; panicked = none }
unfolding run_main
run_main_lem c w files h e = rw (run_main, e) (write_all_lem w.is_writable files [] h)

run_main-panics :
    {Bytes Key Pub Err : Type 0} (c : Crypto Bytes Key Pub Err) (w : World Key Err) (p : Panic Err)
    → generate c w ≡ inl p
    → (run_main c w).panicked ≡ some p
unfolding run_main
run_main-panics c w p e = rw (run_main, e) refl

-- Where all files can be written, the generator ends without a panic, having written some files, if
-- and only if these are the six of a certificate authority and of two certificates, for the server
-- and the client, which were made for the keys that were drawn and signed with the authority's: each
-- pair of files loads, and the PEM round trips of the authority's certificate and key give back what
-- was created.
pub run_main_iff :
    {Bytes Key Pub Err : Type 0} (c : Crypto Bytes Key Pub Err) (lawful : IsLawful c)
    (w : World Key Err) (files : List (String × Bytes))
    → ((name : String) → w.is_writable name ≡ true)
    → (run_main c w ≡ record { files = files; panicked = none }) ↔ IsGenerated c w files
run_main_iff c lawful w files h = elim (result-cases (generate c w)) [
  | inl (p, e) ↦ (
    λ r. absurd (let q = run_main-panics c w p e in let s = ap (λ o. o.panicked) r in cc),
    λ g. run_main_lem c w files h (IsGenerated-generate c lawful w files g),
  )
  | inr (fs, e) ↦ (
    λ r.
        let same = ap (λ o. o.files) (sym (run_main_lem c w fs h e) ∙ r) in
        generate-IsGenerated c lawful w files (e ∙ ap inr same),
    λ g. run_main_lem c w files h (IsGenerated-generate c lawful w files g),
  )
]
