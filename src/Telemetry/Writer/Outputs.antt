-- ===== src/Telemetry/Writer/Outputs.antt =====
-- What the writer reports against what a handler did.
use witchcraft_go_server.Base.{
  ℕ, ◌+◌, ◌<◌, ◌≡◌, ◌∙◌, refl, ap, Bool, true, false, ◌&&◌, List, [], ◌∷◌, arith,
}
use witchcraft_go_server.Telemetry.Writer.{
  Output, header, body, flushed, Writer, new_response_writer, written, status, call_before,
  write_header, write, flush, before, Op, set_op, header_op, write_op, flush_op, before_op, do_op,
  run,
}

-- Status codes are positive; net/http panics at others.
abbrev pub HasCode : Op → Type 0
HasCode (header_op s) = 0 < s
HasCode _ = Unit

abbrev pub HaveCodes : List Op → Type 0
HaveCodes [] = Unit
HaveCodes (o ∷ os) = HasCode o × HaveCodes os

-- The last status code that was written, or a default.
abbrev code_of : ℕ → Op → ℕ
code_of d (header_op s) = s
code_of d _ = d

abbrev pub last_code : ℕ → List Op → ℕ
last_code d [] = d
last_code d (o ∷ os) = last_code (code_of d o) os

abbrev size_of : Op → ℕ
size_of (write_op n) = n
size_of _ = 0

abbrev pub total : List Op → ℕ
total [] = 0
total (o ∷ os) = size_of o + total os

-- Some status line went out.
opened : List Output → Bool
opened [] = false
opened (header s ∷ out) = true
opened (_ ∷ out) = opened out

-- Nothing of a body went out before a status line.
pub header_first : List Output → Bool
unfolding opened
header_first [] = true
header_first (body n ∷ out) = opened out && header_first out
header_first (flushed ∷ out) = opened out && header_first out
header_first (_ ∷ out) = header_first out

opened-call_before : (fs : List ℕ) (out : List Output) → opened (call_before fs out) ≡ opened out
unfolding call_before opened
opened-call_before [] out = refl
opened-call_before (f ∷ fs) out = opened-call_before fs out

first-call_before :
    (fs : List ℕ) (out : List Output) → header_first (call_before fs out) ≡ header_first out
unfolding call_before header_first
first-call_before [] out = refl
first-call_before (f ∷ fs) out = first-call_before fs out

-- A writer that counts as written has sent a status line, and sent no body before one.
abbrev IsOrdered : Writer → Type 0
IsOrdered w = (written w ≡ true → opened w.out ≡ true) × (header_first w.out ≡ true)

do_op-status : (o : Op) (w : Writer) → HasCode o → status (do_op o w) ≡ code_of (status w) o
unfolding do_op write_header write flush before
do_op-status (set_op k v) w c = refl
do_op-status (header_op s) w c = ground arith
do_op-status (write_op n) w c = ground arith
do_op-status flush_op w c = ground arith
do_op-status (before_op f) w c = refl

do_op-size : (o : Op) (w : Writer) → (do_op o w).size ≡ w.size + size_of o
unfolding do_op write_header write flush before
do_op-size (set_op k v) w = ground arith
do_op-size (header_op s) w = ground arith
do_op-size (write_op n) w = ground arith
do_op-size flush_op w = ground arith
do_op-size (before_op f) w = ground arith

do_op-IsOrdered : (o : Op) (w : Writer) → IsOrdered w → IsOrdered (do_op o w)
unfolding do_op write_header write flush before opened header_first
do_op-IsOrdered (set_op k v) w i = i
do_op-IsOrdered (header_op s) w i = ground (arith, first-call_before w.before_funcs w.out)
do_op-IsOrdered (write_op n) w i = ground (arith, first-call_before w.before_funcs w.out)
do_op-IsOrdered flush_op w i = ground (arith, first-call_before w.before_funcs w.out)
do_op-IsOrdered (before_op f) w i = i

run-IsOrdered : (os : List Op) (w : Writer) → IsOrdered w → IsOrdered (run os w)
unfolding run
run-IsOrdered [] w i = i
run-IsOrdered (o ∷ os) w i = run-IsOrdered os (do_op o w) (do_op-IsOrdered o w i)

pub run-status :
    (os : List Op) (w : Writer) → HaveCodes os → status (run os w) ≡ last_code (status w) os
unfolding run
run-status [] w c = refl
run-status (o ∷ os) w c =
    run-status os (do_op o w) c.1 ∙ ap (λ d. last_code d os) (do_op-status o w c.0)

run-size : (os : List Op) (w : Writer) → (run os w).size ≡ w.size + total os
unfolding run
run-size [] w = omega arith
run-size (o ∷ os) w = omega (arith, run-size os (do_op o w), do_op-size o w)

-- Whatever a handler does with a new writer, its status codes being positive: the status is the
-- last one written, or 200; the size is that of all writes together; and neither a body nor a flush
-- reaches the wrapped writer before a status line.
pub writer_reports :
    (is_flusher : Bool) (os : List Op)
    → HaveCodes os
    → let w = run os (new_response_writer is_flusher) in
      (status w ≡ last_code 200 os) × (w.size ≡ total os) × (header_first w.out ≡ true)
unfolding header_first
writer_reports is_flusher os c =
    let w = new_response_writer is_flusher in
    (
      run-status os w c,
      omega (arith, run-size os w),
      (run-IsOrdered os w ((λ h. absurd (ground arith)), refl)).1,
    )
