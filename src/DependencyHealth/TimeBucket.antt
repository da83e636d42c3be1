-- ===== src/DependencyHealth/TimeBucket.antt =====
-- counter.go: the marks of the last `bucket` of time. A time is a number of nanoseconds; the
-- readings of the clock are arguments, in the order in which the code takes them.
pub mod Window
use witchcraft_go_server.Base.{
  ℕ, suc, ◌+◌, Bool, Option, none, some, List, [], ◌∷◌, ◌++◌, length, drop, ltb, if◌then◌else◌,
  map_option,
}

pub record TimeBucket : Type 0 where
  pub bucket : ℕ
  pub slice : List ℕ

abbrev pub new_time_bucket : ℕ → TimeBucket
new_time_bucket bucket = record { bucket = bucket; slice = [] }

-- t.After(now - bucket)
abbrev pub is_recent : ℕ → ℕ → ℕ → Bool
is_recent bucket now t = ltb now (t + bucket)

-- The loop that looks for the first index whose time is after the horizon.
trim_idx : ℕ → ℕ → List ℕ → Option ℕ
trim_idx bucket now [] = none
trim_idx bucket now (t ∷ ts) =
    let rest = trim_idx bucket now ts in
    if is_recent bucket now t then some 0 else map_option suc rest

trimmed : List ℕ → Option ℕ → List ℕ
trimmed ts none = []
trimmed ts (some i) = drop i ts

prune_slice : ℕ → ℕ → List ℕ → List ℕ
unfolding trim_idx trimmed
prune_slice bucket now [] = []
prune_slice bucket now (t ∷ ts) =
    if is_recent bucket now t then t ∷ ts else trimmed (t ∷ ts) (trim_idx bucket now (t ∷ ts))

unfoldable pub prune : ℕ → TimeBucket → TimeBucket
unfolding prune_slice
prune now b = record b { slice = prune_slice b.bucket now b.slice }

-- Mark: `now` is read by the prune, `at` for the entry.
unfoldable pub mark : ℕ → ℕ → TimeBucket → TimeBucket
unfolding prune
mark now at b = let b' = prune now b in record b' { slice = b'.slice ++ (at ∷ []) }

unfoldable pub count : ℕ → TimeBucket → ℕ × TimeBucket
unfolding prune
count now b = let b' = prune now b in (length b'.slice, b')
