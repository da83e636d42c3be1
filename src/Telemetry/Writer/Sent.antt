-- ===== src/Telemetry/Writer/Sent.antt =====
-- The status that reaches the wrapped writer first, which is the one that a client gets, against the
-- status that the writer remembers. The handler of heap profiles (server_routes.go) is one whose
-- statuses differ.
use witchcraft_go_server.Base.{
  ℕ, Bool, true, false, Option, none, some, List, [], ◌∷◌, ◌≡◌, refl, ◌∙◌, arith, ap, sym,
  Bool-cases, inl, inr,
}
use witchcraft_go_server.Telemetry.Writer.{
  Output, set_header, before_call, header, body, flushed, Writer, new_response_writer, call_before,
  write_header, write, flush, before, Op, set_op, header_op, write_op, flush_op, before_op, do_op,
  run, status,
}
use witchcraft_go_server.Telemetry.Writer.Outputs.{
  HaveCodes, last_code, total, header_first, writer_reports,
}

abbrev pub or_else : Option ℕ → ℕ → ℕ
or_else none d = d
or_else (some s) d = s

-- The first header of the outputs, the latest output being the first of the list.
unfoldable pub first_header : List Output → Option ℕ
first_header [] = none
first_header (header s ∷ out) = some (or_else (first_header out) s)
first_header (set_header k v ∷ out) = first_header out
first_header (before_call f ∷ out) = first_header out
first_header (body n ∷ out) = first_header out
first_header (flushed ∷ out) = first_header out

-- The status of the first use that sends one: a write or, with a flusher, a flush sends 200.
unfoldable pub first_code : Bool → List Op → Option ℕ
first_code is_flusher [] = none
first_code is_flusher (header_op s ∷ os) = some s
first_code is_flusher (write_op n ∷ os) = some 200
first_code true (flush_op ∷ os) = some 200
first_code false (flush_op ∷ os) = first_code false os
first_code is_flusher (set_op k v ∷ os) = first_code is_flusher os
first_code is_flusher (before_op f ∷ os) = first_code is_flusher os

first_header-call_before :
    (fs : List ℕ) (out : List Output) → first_header (call_before fs out) ≡ first_header out
unfolding call_before first_header
first_header-call_before [] out = refl
first_header-call_before (f ∷ fs) out = first_header-call_before fs out

do_op-first_header :
    (o : Op) (w : Writer) (t : ℕ)
    → first_header w.out ≡ some t
    → first_header (do_op o w).out ≡ some t
unfolding do_op write_header write flush before first_header
do_op-first_header (set_op k v) w t h = h
do_op-first_header (header_op s) w t h = grind (arith, first_header-call_before)
do_op-first_header (write_op n) w t h = grind (arith, first_header-call_before)
do_op-first_header flush_op w t h = grind (arith, first_header-call_before)
do_op-first_header (before_op f) w t h = h

run-first_header :
    (os : List Op) (w : Writer) (t : ℕ)
    → first_header w.out ≡ some t
    → first_header (run os w).out ≡ some t
unfolding run
run-first_header [] w t h = h
run-first_header (o ∷ os) w t h = run-first_header os (do_op o w) t (do_op-first_header o w t h)

header_op-first_header :
    (s : ℕ) (w : Writer)
    → first_header w.out ≡ none
    → first_header (do_op (header_op s) w).out ≡ some s
unfolding do_op write_header first_header
header_op-first_header s w h = grind (arith, first_header-call_before)

write_op-first_header :
    (n : ℕ) (w : Writer)
    → w.status ≡ 0
    → first_header w.out ≡ none
    → first_header (do_op (write_op n) w).out ≡ some 200
unfolding do_op write write_header first_header
write_op-first_header n w z h = grind (arith, first_header-call_before)

flush_op-first_header :
    (w : Writer)
    → w.status ≡ 0
    → first_header w.out ≡ none
    → w.is_flusher ≡ true
    → first_header (do_op flush_op w).out ≡ some 200
unfolding do_op flush write_header first_header
flush_op-first_header w z h b = grind (arith, first_header-call_before)

flush_op_same : (w : Writer) → w.is_flusher ≡ false → do_op flush_op w ≡ w
unfolding do_op flush
flush_op_same w b = rw b refl

-- With nothing written yet, the first header is that of the first use that sends one.
run-first_code :
    (os : List Op) (w : Writer)
    → w.status ≡ 0
    → first_header w.out ≡ none
    → first_header (run os w).out ≡ first_code w.is_flusher os
unfolding run first_code do_op before first_header
run-first_code [] w z h = h
run-first_code (header_op s ∷ os) w z h =
    run-first_header os (do_op (header_op s) w) s (header_op-first_header s w h)
run-first_code (write_op n ∷ os) w z h =
    run-first_header os (do_op (write_op n) w) 200 (write_op-first_header n w z h)
run-first_code (flush_op ∷ os) w z h = elim (Bool-cases w.is_flusher) [
  | inl e ↦
      run-first_header os (do_op flush_op w) 200 (flush_op-first_header w z h e)
      ∙ ap (λ b. first_code b (flush_op ∷ os)) (sym e)
  | inr e ↦
      ap (λ x. first_header (run os x).out) (flush_op_same w e)
      ∙ run-first_code os w z h
      ∙ ap (λ b. first_code b os) e
      ∙ ap (λ b. first_code b (flush_op ∷ os)) (sym e)
]
run-first_code (set_op k v ∷ os) w z h = run-first_code os (do_op (set_op k v) w) z h
run-first_code (before_op f ∷ os) w z h = run-first_code os (do_op (before_op f) w) z h

-- Whatever a handler does with a new writer, its status codes being positive: the status line that
-- is sent first is that of its first use that sends one, while the status that the writer
-- remembers is the last one written, or 200; the size is that of all writes together; and neither
-- a body nor a flush goes out before a status line.
pub writer_sends :
    (is_flusher : Bool) (os : List Op)
    → HaveCodes os
    → let w = run os (new_response_writer is_flusher) in
      (first_header w.out ≡ first_code is_flusher os)
      × (status w ≡ last_code 200 os)
      × (w.size ≡ total os)
      × (header_first w.out ≡ true)
unfolding first_header
writer_sends b os c =
    let (remembered, size, ordered) = writer_reports b os c in
    (run-first_code os (new_response_writer b) refl refl, remembered, size, ordered)
