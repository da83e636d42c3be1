-- ===== src/Loggers/Audit/Lines.antt =====
-- What is in the audit logs after any calls and reloads.
use witchcraft_go_server.Base.{
  ◌≡◌, refl, sym, ap, ◌∙◌, Bool, List, [], ◌∷◌, ◌++◌, String, if◌then◌else◌, arith,
}
use mathlib.Core.List.{append-nil, append_assoc}
use witchcraft_go_server.Loggers.Output.{Host}
use witchcraft_go_server.Loggers.Audit.{
  Log, audit, audit_v3, State, Wiring, Call, call_audit2, call_audit3, reload, do_call, run, audit2,
  audit3, update_audit_logger_config, audit2_enabled, dual_v2_to_v3, dual_v3_to_v2,
}

unfoldable pub lines_of : Log → List (Log × String) → List String
lines_of l [] = []
lines_of audit ((audit, s) ∷ ls) = s ∷ lines_of audit ls
lines_of audit_v3 ((audit_v3, s) ∷ ls) = s ∷ lines_of audit_v3 ls
lines_of l (_ ∷ ls) = lines_of l ls

-- What a call adds to the audit.2 log: while the configuration produces it, the entry of the audit.2
-- logger, and that of the audit.3 logger where it logs to both.
abbrev pub written2 : Wiring → Bool → Call → List String
written2 wiring on (call_audit2 e) = if on then e.0 ∷ [] else []
written2 wiring on (call_audit3 e) =
    if dual_v3_to_v2 wiring then (if on then e.0 ∷ [] else []) else []
written2 wiring on (reload cfg) = []

-- What a call adds to the audit.3 log, whatever the configuration.
abbrev pub written3 : Wiring → Call → List String
written3 wiring (call_audit2 e) = if dual_v2_to_v3 wiring then e.1 ∷ [] else []
written3 wiring (call_audit3 e) = e.1 ∷ []
written3 wiring (reload cfg) = []

abbrev pub on_after : Bool → Call → Bool
on_after on (reload cfg) = audit2_enabled cfg
on_after on _ = on

unfoldable pub audit2_entries : Wiring → Bool → List Call → List String
audit2_entries wiring on [] = []
audit2_entries wiring on (c ∷ cs) = written2 wiring on c ++ audit2_entries wiring (on_after on c) cs

unfoldable pub audit3_entries : Wiring → List Call → List String
audit3_entries wiring [] = []
audit3_entries wiring (c ∷ cs) = written3 wiring c ++ audit3_entries wiring cs

pub lines_of-append :
    (l : Log) (xs ys : List (Log × String)) → lines_of l (xs ++ ys) ≡ lines_of l xs ++ lines_of l ys
unfolding lines_of
lines_of-append l [] ys = refl
lines_of-append audit ((audit, s) ∷ xs) ys = ap (λ z. s ∷ z) (lines_of-append audit xs ys)
lines_of-append audit ((audit_v3, s) ∷ xs) ys = lines_of-append audit xs ys
lines_of-append audit_v3 ((audit, s) ∷ xs) ys = lines_of-append audit_v3 xs ys
lines_of-append audit_v3 ((audit_v3, s) ∷ xs) ys = ap (λ z. s ∷ z) (lines_of-append audit_v3 xs ys)

lines_of-snoc :
    (l k : Log) (x : String) (xs : List (Log × String))
    → lines_of l (xs ++ ((k, x) ∷ [])) ≡ lines_of l xs ++ lines_of l ((k, x) ∷ [])
lines_of-snoc l k x xs = lines_of-append l xs ((k, x) ∷ [])

do_call-lines2 :
    (h : Host) (wiring : Wiring) (c : Call) (s : State)
    → lines_of audit (do_call h wiring c s).lines
      ≡ lines_of audit s.lines ++ written2 wiring s.enabled c
unfolding audit2 audit3 update_audit_logger_config lines_of
do_call-lines2 h wiring (call_audit2 (l2, l3)) s = grind (arith, lines_of-append, append-nil)
do_call-lines2 h wiring (call_audit3 (l2, l3)) s = grind (arith, lines_of-append, append-nil)
do_call-lines2 h wiring (reload cfg) s = grind (arith, append-nil)

do_call-lines3 :
    (h : Host) (wiring : Wiring) (c : Call) (s : State)
    → lines_of audit_v3 (do_call h wiring c s).lines
      ≡ lines_of audit_v3 s.lines ++ written3 wiring c
unfolding audit2 audit3 update_audit_logger_config lines_of
do_call-lines3 h wiring (call_audit2 (l2, l3)) s = grind (arith, lines_of-append, append-nil)
do_call-lines3 h wiring (call_audit3 (l2, l3)) s = grind (arith, lines_of-append, append-nil)
do_call-lines3 h wiring (reload cfg) s = grind (arith, append-nil)

do_call-enabled :
    (h : Host) (wiring : Wiring) (c : Call) (s : State)
    → (do_call h wiring c s).enabled ≡ on_after s.enabled c
unfolding audit2 audit3 update_audit_logger_config
do_call-enabled h wiring (call_audit2 (l2, l3)) s = ground arith
do_call-enabled h wiring (call_audit3 (l2, l3)) s = ground arith
do_call-enabled h wiring (reload cfg) s = ground arith

extend_log : {a b : List String} (x w y : List String) → a ≡ b ++ y → b ≡ x ++ w → a ≡ x ++ (w ++ y)
extend_log x w y h k = h ∙ ap (λ z. z ++ y) k ∙ append_assoc x w y

-- After any calls of the audit loggers and reloads of the configuration: the audit.2 log has the
-- entries that were logged to it while the configuration in force produced it, those of the audit.3
-- logger with dual logging among them, and no other; the audit.3 log has all entries logged to it,
-- in their order, whatever the configuration.
pub run-lines :
    (h : Host) (wiring : Wiring) (cs : List Call) (s : State)
    → (lines_of audit (run h wiring cs s).lines
        ≡ lines_of audit s.lines ++ audit2_entries wiring s.enabled cs)
      × (lines_of audit_v3 (run h wiring cs s).lines
          ≡ lines_of audit_v3 s.lines ++ audit3_entries wiring cs)
unfolding run audit2_entries audit3_entries
run-lines h wiring [] s = (sym (append-nil _), sym (append-nil _))
run-lines h wiring (c ∷ cs) s =
    let s' = do_call h wiring c s in
    let rest = run-lines h wiring cs s' in
    (
      extend_log (lines_of audit s.lines) (written2 wiring s.enabled c)
          (audit2_entries wiring (on_after s.enabled c) cs)
          (rest.0
            ∙ ap (λ on. lines_of audit s'.lines ++ audit2_entries wiring on cs)
                (do_call-enabled h wiring c s))
          (do_call-lines2 h wiring c s),
      extend_log (lines_of audit_v3 s.lines) (written3 wiring c) (audit3_entries wiring cs) rest.1
          (do_call-lines3 h wiring c s),
    )
