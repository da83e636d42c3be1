-- ===== src/Loggers/Audit/Meters.antt =====
-- The meters of the audit loggers against what is in the logs.
use Prim.Native.String.{len}
use witchcraft_go_server.Base.{
  ℕ, ◌≤◌, ◌≡◌, refl, ap, Bool, true, false, List, [], ◌∷◌, ◌++◌, String, arith, map, length,
  length-append, count_if, count_if-append,
}
use witchcraft_go_server.Loggers.Output.{Host}
use witchcraft_go_server.Loggers.Audit.{
  Log, audit, audit_v3, State, Wiring, Call, call_audit2, call_audit3, reload, do_call, run, audit2,
  audit3, update_audit_logger_config,
}
use witchcraft_go_server.Loggers.Audit.Lines.{lines_of, lines_of-append}

abbrev pub is_audit : Log → Bool
is_audit audit = true
is_audit audit_v3 = false

abbrev pub is_audit_v3 : Log → Bool
is_audit_v3 audit = false
is_audit_v3 audit_v3 = true

abbrev pub measured : Log × String → Log × ℕ
measured (l, x) = (l, len x)

-- The audit.3 meter counts the lines of the audit.3 log; the audit.2 meter counts at least those of
-- the audit.2 log; and the histograms have the length of each line, in order.
abbrev pub Metered : State → Type 0
Metered s =
    (count_if is_audit_v3 s.marks ≡ length (lines_of audit_v3 s.lines))
    × (length (lines_of audit s.lines) ≤ count_if is_audit s.marks)
    × (s.lengths ≡ map measured s.lines)

map_snoc :
    (l : Log) (x : String) (ls : List (Log × String))
    → map measured (ls ++ ((l, x) ∷ [])) ≡ map measured ls ++ ((l, len x) ∷ [])
map_snoc l x [] = refl
map_snoc l x (y ∷ ls) = ap (λ z. measured y ∷ z) (map_snoc l x ls)

do_call-Metered :
    (h : Host) (wiring : Wiring) (c : Call) (s : State) → Metered s → Metered (do_call h wiring c s)
unfolding audit2 audit3 update_audit_logger_config lines_of count_if
do_call-Metered h wiring (call_audit2 (l2, l3)) s (m2, m3, ml) =
    grind (arith, lines_of-append, length-append, count_if-append, map_snoc)
do_call-Metered h wiring (call_audit3 (l2, l3)) s (m2, m3, ml) =
    grind (arith, lines_of-append, length-append, count_if-append, map_snoc)
do_call-Metered h wiring (reload cfg) s m = grind arith

-- The meters stay true to the logs under any calls of the audit loggers and any reloads: what the
-- audit.3 meter counts is what the audit.3 log holds, the audit.2 meter never counts less than the
-- audit.2 log holds, and every line of either log has its length recorded, once.
pub run-Metered :
    (h : Host) (wiring : Wiring) (cs : List Call) (s : State)
    → Metered s
    → Metered (run h wiring cs s)
unfolding run
run-Metered h wiring [] s m = m
run-Metered h wiring (c ∷ cs) s m = run-Metered h wiring cs _ (do_call-Metered h wiring c s m)
