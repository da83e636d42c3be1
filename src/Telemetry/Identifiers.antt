-- ===== src/Telemetry/Identifiers.antt =====
-- The identifiers of a request on its context and loggers: newRequestExtractIDs of request.go. What
-- the header of forwarding holds, and the origin that follows from it and the source address, are
-- audit3log's, and parameters here.
use text.Mathlib.Text.{◌==◌ as str_eq}
use text.Mathlib.TextEquality.{eq_iff}
use witchcraft_go_server.Base.{
  ◌≡◌, ◌∙◌, refl, ap, Bool, false, List, [], ◌∷◌, ◌++◌, map, String, bit, count_if, arith,
  Bool-cases, inl, inr, if◌then◌else◌,
}

-- What the extractor finds; a missing identifier is empty.
pub record Ids : Type 0 where
  pub uid : String
  pub sid : String
  pub token_id : String
  pub org_id : String
  pub user_agent : String
  pub source_ip : String
  pub forward_ips : String

-- An identifier on the context, and as a parameter of the trace logger.
pub data ContextValue : Type 0 where
  context_uid context_sid context_token_id context_org_id : String → ContextValue

pub data TraceParam : Type 0 where
  trace_uid trace_sid trace_token_id trace_org_id : String → TraceParam

pub data AuditParam : Type 0 where
  users user_agent_param source_origin origin event_id : String → AuditParam
  origins : List String → AuditParam

pub record Extracted : Type 0 where
  pub context : List ContextValue
  pub trace : List TraceParam
  pub audit : List AuditParam

abbrev pub unless_empty : {A : Type 0} → String → A → List A
unless_empty s a = if str_eq s "" then [] else a ∷ []

abbrev pub origins_param : List String → List AuditParam
origins_param [] = []
origins_param (o ∷ os) = origins (o ∷ os) ∷ []

abbrev pub on_context : TraceParam → ContextValue
on_context (trace_uid s) = context_uid s
on_context (trace_sid s) = context_sid s
on_context (trace_token_id s) = context_token_id s
on_context (trace_org_id s) = context_org_id s

abbrev pub is_origin : String → AuditParam → Bool
is_origin s (origin t) = str_eq t s
is_origin s _ = false

on_context-unless_empty :
    (v : String) (t : TraceParam) (ts : List TraceParam) (cs : List ContextValue)
    → map on_context ts ≡ cs
    → map on_context (unless_empty v t ++ ts) ≡ unless_empty v (on_context t) ++ cs
on_context-unless_empty v t ts cs h = elim (Bool-cases (str_eq v "")) [
  | inl e ↦ rw e h
  | inr e ↦ rw e (ap (λ l. on_context t ∷ l) h)
]

on_context_last :
    (v : String) (t : TraceParam)
    → map on_context (unless_empty v t) ≡ unless_empty v (on_context t)
on_context_last v t = elim (Bool-cases (str_eq v "")) [ inl e ↦ rw e refl | inr e ↦ rw e refl ]

skip :
    (s v : String) (a : AuditParam) (rest : List AuditParam)
    → is_origin s a ≡ false
    → count_if (is_origin s) (unless_empty v a ++ rest) ≡ count_if (is_origin s) rest
unfolding count_if
skip s v a rest h = elim (Bool-cases (str_eq v "")) [
  | inl e ↦ rw e refl
  | inr e ↦ rw e (ground (arith, h))
]

skip_origins :
    (s : String) (os : List String) (rest : List AuditParam)
    → count_if (is_origin s) (origins_param os ++ rest) ≡ count_if (is_origin s) rest
unfolding count_if
skip_origins s [] rest = refl
skip_origins s (o ∷ os) rest = ground arith

module _ (origins_of : String → List String) (origin_from : List String → String → String)
    (event : String) where
  abbrev pub forwarded : Ids → List String
  forwarded ids = if str_eq ids.forward_ips "" then [] else origins_of ids.forward_ips

  -- audit3Origin
  abbrev pub computed_origin : Ids → String
  computed_origin ids = origin_from (forwarded ids) ids.source_ip

  unfoldable pub extract_ids : Ids → Extracted
  extract_ids ids = record {
    context =
        unless_empty ids.uid (context_uid ids.uid)
        ++ (unless_empty ids.sid (context_sid ids.sid)
            ++ (unless_empty ids.token_id (context_token_id ids.token_id)
                ++ unless_empty ids.org_id (context_org_id ids.org_id)));
    trace =
        unless_empty ids.uid (trace_uid ids.uid)
        ++ (unless_empty ids.sid (trace_sid ids.sid)
            ++ (unless_empty ids.token_id (trace_token_id ids.token_id)
                ++ unless_empty ids.org_id (trace_org_id ids.org_id)));
    audit =
        unless_empty ids.uid (users ids.uid)
        ++ (unless_empty ids.user_agent (user_agent_param ids.user_agent)
            ++ (unless_empty ids.source_ip (source_origin ids.source_ip)
                ++ (origins_param (forwarded ids)
                    ++ (unless_empty (computed_origin ids) (origin ids.source_ip)
                        ++ (event_id event ∷ [])))));
  }

  -- The identifiers on the context are those of the trace logger, in the same order.
  pub trace-context :
      (ids : Ids) → map on_context (extract_ids ids).trace ≡ (extract_ids ids).context
  unfolding extract_ids
  trace-context ids = on_context-unless_empty ids.uid (trace_uid ids.uid) _ _ (
      on_context-unless_empty ids.sid (trace_sid ids.sid) _ _ (
        on_context-unless_empty ids.token_id (trace_token_id ids.token_id) _ _
          (on_context_last ids.org_id (trace_org_id ids.org_id))))

  only_last :
      (s : String) (ids : Ids)
      → str_eq (computed_origin ids) "" ≡ false
      → count_if (is_origin s) (extract_ids ids).audit ≡ bit (str_eq ids.source_ip s)
  unfolding extract_ids count_if
  only_last s ids h =
      skip s ids.uid (users ids.uid) _ refl
      ∙ skip s ids.user_agent (user_agent_param ids.user_agent) _ refl
      ∙ skip s ids.source_ip (source_origin ids.source_ip) _ refl
      ∙ skip_origins s (forwarded ids) _
      ∙ rw h (omega arith)

  -- If an origin is computed and it is not the source address, the audit logger's parameters have
  -- no such origin; they have the source address as the origin, once.
  pub origin_lost :
      (ids : Ids)
      → str_eq (computed_origin ids) "" ≡ false
      → str_eq ids.source_ip (computed_origin ids) ≡ false
      → (count_if (is_origin (computed_origin ids)) (extract_ids ids).audit ≡ 0)
        × (count_if (is_origin ids.source_ip) (extract_ids ids).audit ≡ 1)
  unfolding extract_ids count_if
  origin_lost ids h g = (
    only_last (computed_origin ids) ids h ∙ rw g refl,
    only_last ids.source_ip ids h ∙ rw ((eq_iff ids.source_ip ids.source_ip).1 refl) refl,
  )
