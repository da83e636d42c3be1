-- ===== src/Routes/Heap.antt =====
-- The handler of heap profiles of witchcraft/server_routes.go. The writes of the profile, and whether
-- it fails after them, are the runtime's: the sizes of the writes, and that of the error's text.
use witchcraft_go_server.Base.{
  ℕ, Bool, Option, none, some, List, [], ◌∷◌, ◌++◌, map, ◌≡◌, refl, ◌∙◌, arith,
}
use witchcraft_go_server.Telemetry.Writer.{
  Op, set_op, header_op, write_op, run, new_response_writer, status,
}
use witchcraft_go_server.Telemetry.Writer.Outputs.{HaveCodes, last_code}
use witchcraft_go_server.Telemetry.Writer.Sent.{first_header, first_code, writer_sends}

abbrev failure : Option ℕ → List Op
failure none = []
failure (some n) =
    set_op "Content-Type" "text/plain; charset=utf-8" ∷ header_op 500 ∷ write_op n ∷ []

-- heap
unfoldable pub heap : List ℕ → Option ℕ → List Op
heap profile error =
    set_op "Content-Type" "application/octet-stream" ∷ (map write_op profile ++ failure error)

heap_tail-HaveCodes : (ns : List ℕ) (e : ℕ) → HaveCodes (map write_op ns ++ failure (some e))
heap_tail-HaveCodes [] e = (tt, (omega arith, (tt, tt)))
heap_tail-HaveCodes (n ∷ ns) e = (tt, heap_tail-HaveCodes ns e)

heap_tail-last_code :
    (d e : ℕ) (ns : List ℕ) → last_code d (map write_op ns ++ failure (some e)) ≡ 500
heap_tail-last_code d e [] = refl
heap_tail-last_code d e (n ∷ ns) = heap_tail-last_code d e ns

-- A heap profile that fails after it has written something: the client has the status 200, and the
-- status that is logged and counted is 500.
pub heap_fails-statuses :
    (is_flusher : Bool) (n : ℕ) (ns : List ℕ) (e : ℕ)
    → let w = run (heap (n ∷ ns) (some e)) (new_response_writer is_flusher) in
      (first_header w.out ≡ some 200) × (status w ≡ 500)
unfolding heap first_code
heap_fails-statuses b n ns e =
    let (sent, remembered, size, ordered) =
      writer_sends b (heap (n ∷ ns) (some e)) (tt, heap_tail-HaveCodes (n ∷ ns) e) in
    (sent, remembered ∙ heap_tail-last_code 200 e (n ∷ ns))
