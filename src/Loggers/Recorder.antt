-- ===== src/Loggers/Recorder.antt =====
-- The recorder of metrics of witchcraft/internal/metricloggers/recorder.go: its meters and its
-- histogram in a registry. A level is its name; a meter is known by its name and tags.
use text.Mathlib.Text.{◌==◌ as str_eq}
use text.Mathlib.TextEquality.{eq_iff}
use witchcraft_go_server.Base.{
  ℕ, Bool-cases, Option, none, some, List, [], ◌∷◌, ◌++◌, String, ◌≡◌, inl, inr, refl, ap,
  if◌then◌else◌, map,
}

abbrev pub Tag : Type 0
Tag = String × String

-- The marks of the meters, each with the name and the tags of its meter, and the values of the
-- histograms.
pub record Registry : Type 0 where
  pub meters : List (String × List Tag)
  pub histograms : List (String × List Tag × ℕ)

abbrev pub create_level_tag : String → Tag
create_level_tag level = ("level", level)

abbrev pub level_tags : List (String × Tag)
level_tags =
    ("debug", create_level_tag "debug")
    ∷ ("info", create_level_tag "info")
    ∷ ("warn", create_level_tag "warn")
    ∷ ("error", create_level_tag "error")
    ∷ ("fatal", create_level_tag "fatal")
    ∷ []

unfoldable pub tag_of : List (String × Tag) → String → Option Tag
tag_of [] level = none
tag_of ((l, tag) ∷ tags) level = if str_eq l level then some tag else tag_of tags level

abbrev pub or_created : String → Option Tag → Tag
or_created level (some tag) = tag
or_created level none = create_level_tag level

-- newMetricRecorder: the type tag of a recorder.
abbrev pub new_metric_recorder : String → Tag
new_metric_recorder typ = ("type", typ)

unfoldable pub record_sls_log : Tag → Registry → Registry
record_sls_log type_tag r = record r { meters = r.meters ++ (("logging.sls", type_tag ∷ []) ∷ []) }

unfoldable pub record_leveled_sls_log : Tag → String → Registry → Registry
record_leveled_sls_log type_tag level r =
    let level_tag = or_created level (tag_of level_tags level) in
    record r { meters = r.meters ++ (("logging.sls", type_tag ∷ level_tag ∷ []) ∷ []) }

unfoldable pub record_sls_log_length : Tag → ℕ → Registry → Registry
record_sls_log_length type_tag len r = record r {
  histograms = r.histograms ++ (("logging.sls.length", type_tag ∷ [], len) ∷ []);
}

-- Every entry of the table is the tag that would be created.
all_created :
    (tags : List String) (level : String)
    → or_created level (tag_of (map (λ l. (l, create_level_tag l)) tags) level)
      ≡ create_level_tag level
unfolding tag_of
all_created [] level = refl
all_created (l ∷ tags) level = elim (Bool-cases (str_eq l level)) [
  | inl b ↦ let same = (eq_iff l level).0 b in rw b (ap create_level_tag same)
  | inr b ↦ rw b (all_created tags level)
]

-- The table of tags makes no difference: whatever the level, known or not, a leveled log marks the
-- meter of the type and that level, once, and nothing else.
pub record_leveled_sls_log_lem :
    (typ level : String) (r : Registry)
    → record_leveled_sls_log (new_metric_recorder typ) level r ≡ record r {
      meters = r.meters ++ (("logging.sls", ("type", typ) ∷ ("level", level) ∷ []) ∷ []);
    }
unfolding record_leveled_sls_log
record_leveled_sls_log_lem typ level r =
    ap (λ tag. record r { meters = r.meters ++ (("logging.sls", ("type", typ) ∷ tag ∷ []) ∷ []) })
      (all_created ("debug" ∷ "info" ∷ "warn" ∷ "error" ∷ "fatal" ∷ []) level)
