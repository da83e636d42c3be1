-- ===== src/Telemetry/Writer.antt =====
-- response_writer.go: the writer that remembers status and size.
pub mod Outputs
pub mod Sent
pub mod Wrapping
use witchcraft_go_server.Base.{
  ℕ, ◌+◌, Bool, true, false, not, List, [], ◌∷◌, ◌++◌, ◌==◌, String, if◌then◌else◌,
}

-- What reaches the wrapped writer. A function given to Before is a number; what it does to the
-- headers is its own.
pub data Output : Type 0 where
  set_header : String → String → Output
  before_call : ℕ → Output
  header : ℕ → Output
  body : ℕ → Output
  flushed : Output

-- responseWriter; `out` has the outputs of the wrapped writer, the latest first.
pub record Writer : Type 0 where
  pub status : ℕ
  pub size : ℕ
  pub before_funcs : List ℕ
  pub is_flusher : Bool
  pub out : List Output

abbrev pub new_response_writer : Bool → Writer
new_response_writer is_flusher = record {
  status = 0;
  size = 0;
  before_funcs = [];
  is_flusher = is_flusher;
  out = [];
}

abbrev pub written : Writer → Bool
written w = not (w.status == 0)

abbrev pub status : Writer → ℕ
status w = if w.status == 0 then 200 else w.status

-- The functions are called from the last to the first.
unfoldable pub call_before : List ℕ → List Output → List Output
call_before [] out = out
call_before (f ∷ fs) out = before_call f ∷ call_before fs out

unfoldable pub write_header : ℕ → Writer → Writer
unfolding call_before
write_header s w = record w { status = s; out = header s ∷ call_before w.before_funcs w.out }

abbrev ensure_header : Writer → Writer
ensure_header w = if written w then w else write_header 200 w

-- `n` is the size that the wrapped writer answers.
unfoldable pub write : ℕ → Writer → Writer
write n w = let w' = ensure_header w in record w' { size = w'.size + n; out = body n ∷ w'.out }

unfoldable pub flush : Writer → Writer
flush w =
    let w' = ensure_header w in if w.is_flusher then record w' { out = flushed ∷ w'.out } else w

unfoldable pub before : ℕ → Writer → Writer
before f w = record w { before_funcs = w.before_funcs ++ (f ∷ []) }

-- The uses that a handler makes of a writer.
pub data Op : Type 0 where
  set_op : String → String → Op
  header_op : ℕ → Op
  write_op : ℕ → Op
  flush_op : Op
  before_op : ℕ → Op

unfoldable pub do_op : Op → Writer → Writer
unfolding write_header write flush before
do_op (set_op k v) w = record w { out = set_header k v ∷ w.out }
do_op (header_op s) w = write_header s w
do_op (write_op n) w = write n w
do_op flush_op w = flush w
do_op (before_op f) w = before f w

unfoldable pub run : List Op → Writer → Writer
unfolding do_op
run [] w = w
run (o ∷ os) w = run os (do_op o w)
