-- ===== src/Loggers/Audit.antt =====
-- The audit loggers of witchcraft/loggers.go: audit.2 and audit.3, each of which may write what it
-- logs to the other's log too, and the configuration that can turn the audit.2 log off while they
-- run. Lines of a log that has its own file are kept under the name of that log.
pub mod Lines
pub mod Meters
use Prim.Native.String.{len}
use witchcraft_go_server.Base.{
  ℕ, ◌+◌, Bool, true, false, Option, none, some, List, [], ◌∷◌, ◌++◌, String, if◌then◌else◌,
}
use witchcraft_go_server.Loggers.Output.{Host, resolve_host_name}

pub data Log : Type 0 where
  audit audit_v3 : Log

-- config.AuditConfig
pub record AuditConfig : Type 0 where
  pub deployment : String
  pub product : String
  pub product_version : String
  pub stack : String
  pub service : String
  pub environment : String
  pub produce_audit2_logs : Option Bool

-- The parameters that updateAuditLoggerConfig puts on the audit.3 logger.
pub record Audit3Params : Type 0 where
  pub deployment : String
  pub host : String
  pub product : String
  pub product_version : String
  pub stack : String
  pub service : String
  pub environment : String

-- What is written and recorded, and the state that the configuration changes. `params` are those of
-- the audit.3 logger, the last ones last.
pub record State : Type 0 where
  pub enabled : Bool  -- the toggleable writer
  pub params : List Audit3Params
  pub lines : List (Log × String)
  pub lengths : List (Log × ℕ)
  pub marks : List Log
  pub warnings : ℕ

-- The kind of the loggers: initDefaultLoggers with the options for dual logging, or
-- initWrappedLoggers, which does not read these.
pub data Wiring : Type 0 where
  default_loggers : Bool → Bool → Wiring
  wrapped_loggers : Wiring

abbrev pub dual_v2_to_v3 : Wiring → Bool
dual_v2_to_v3 (default_loggers v2_to_v3 v3_to_v2) = v2_to_v3
dual_v2_to_v3 wrapped_loggers = false

abbrev pub dual_v3_to_v2 : Wiring → Bool
dual_v3_to_v2 (default_loggers v2_to_v3 v3_to_v2) = v3_to_v2
dual_v3_to_v2 wrapped_loggers = false

-- metricWriter.Write, for a line that is written in full.
abbrev pub metric_write : Log → String → State → State
metric_write l line s = record s {
  lines = s.lines ++ ((l, line) ∷ []);
  lengths = s.lengths ++ ((l, len line) ∷ []);
}

-- ToggleableWriter.Write, over the writer of the audit.2 log.
abbrev pub toggleable_write : String → State → State
toggleable_write line s = if s.enabled then metric_write audit line s else s

abbrev pub record_sls_log : Log → State → State
record_sls_log l s = record s { marks = s.marks ++ (l ∷ []) }

-- The other log of a dual logger.
abbrev pub when_dual : Bool → (State → State) → State → State
when_dual dual f s = if dual then f s else s

-- An entry: its line in the audit.2 format and its line in the audit.3 format.
abbrev pub Entry : Type 0
Entry = String × String

-- audit2Logger.Audit
unfoldable pub audit2 : Wiring → Entry → State → State
audit2 wiring (line2, line3) s =
    let dual = dual_v2_to_v3 wiring in
    let logged = when_dual dual (metric_write audit_v3 line3) (toggleable_write line2 s) in
    when_dual dual (record_sls_log audit_v3) (record_sls_log audit logged)

-- audit3Logger.Audit
unfoldable pub audit3 : Wiring → Entry → State → State
audit3 wiring (line2, line3) s =
    let dual = dual_v3_to_v2 wiring in
    let logged = when_dual dual (toggleable_write line2) (metric_write audit_v3 line3 s) in
    when_dual dual (record_sls_log audit) (record_sls_log audit_v3 logged)

abbrev pub audit2_enabled : Option AuditConfig → Bool
audit2_enabled none = true
audit2_enabled (some c) = elim c.produce_audit2_logs [ none ↦ true | some b ↦ b ]

abbrev pub audit3_params : Option AuditConfig → String → Audit3Params
audit3_params none host = record {
  deployment = "";
  host = host;
  product = "";
  product_version = "";
  stack = "";
  service = "";
  environment = "";
}
audit3_params (some c) host = record {
  deployment = c.deployment;
  host = host;
  product = c.product;
  product_version = c.product_version;
  stack = c.stack;
  service = c.service;
  environment = c.environment;
}

-- updateAuditLoggerConfig; a host name that cannot be resolved is empty.
unfoldable pub update_audit_logger_config : Host → Option AuditConfig → State → State
unfolding resolve_host_name
update_audit_logger_config h cfg s = elim (resolve_host_name h) [
  | none ↦ record s {
    enabled = audit2_enabled cfg;
    warnings = s.warnings + 1;
    params = s.params ++ (audit3_params cfg "" ∷ []);
  }
  | some host ↦ record s {
    enabled = audit2_enabled cfg;
    params = s.params ++ (audit3_params cfg host ∷ []);
  }
]

pub data Call : Type 0 where
  call_audit2 call_audit3 : Entry → Call
  reload : Option AuditConfig → Call

abbrev pub do_call : Host → Wiring → Call → State → State
do_call h wiring (call_audit2 e) s = audit2 wiring e s
do_call h wiring (call_audit3 e) s = audit3 wiring e s
do_call h wiring (reload cfg) s = update_audit_logger_config h cfg s

unfoldable pub run : Host → Wiring → List Call → State → State
unfolding audit2 audit3 update_audit_logger_config
run h wiring [] s = s
run h wiring (c ∷ cs) s = run h wiring cs (do_call h wiring c s)

-- initDefaultLoggers and initWrappedLoggers: the toggleable writer is enabled.
abbrev pub new_state : State
new_state = record {
  enabled = true;
  params = [];
  lines = [];
  lengths = [];
  marks = [];
  warnings = 0;
}
