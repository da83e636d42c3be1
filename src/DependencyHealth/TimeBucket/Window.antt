-- ===== src/DependencyHealth/TimeBucket/Window.antt =====
-- A bucket against the whole history of its marks.
use native.Mathlib.Nat.{le_refl}
use witchcraft_go_server.DependencyHealth.TimeBucket.{trimmed, trim_idx, prune_slice}
use witchcraft_go_server.Base.{
  ℕ, suc, ◌+◌, ◌≤◌, ◌≡◌, ◌∙◌, refl, ap, Bool, true, Option, none, some, List, [], ◌∷◌, ◌++◌, arith,
  length, count_if, count_if-append, if◌then◌else◌, Bool-cases, inl, inr, map_option,
}
use witchcraft_go_server.DependencyHealth.TimeBucket.{
  TimeBucket, new_time_bucket, is_recent, prune, mark, count,
}

-- A use of the bucket, with the readings of the clock.
pub data Use : Type 0 where
  mark_at : ℕ → ℕ → Use
  count_at : ℕ → Use

-- The bucket after some uses, the latest first.
unfoldable pub after : ℕ → List Use → TimeBucket
unfolding mark count
after bucket [] = new_time_bucket bucket
after bucket (mark_at now at ∷ us) = mark now at (after bucket us)
after bucket (count_at now ∷ us) = (count now (after bucket us)).1

-- The times of all marks, and the latest reading of the clock.
unfoldable pub marks : List Use → List ℕ
marks [] = []
marks (mark_at now at ∷ us) = at ∷ marks us
marks (count_at now ∷ us) = marks us

unfoldable pub latest : List Use → ℕ
latest [] = 0
latest (mark_at now at ∷ us) = at
latest (count_at now ∷ us) = now

-- The clock does not go back.
abbrev pub IsMonotone : List Use → Type 0
IsMonotone [] = Unit
IsMonotone (mark_at now at ∷ us) = (latest us ≤ now) × (now ≤ at) × IsMonotone us
IsMonotone (count_at now ∷ us) = (latest us ≤ now) × IsMonotone us

-- What `prune` leaves of a slice.
drop_old : ℕ → ℕ → List ℕ → List ℕ
drop_old bucket now [] = []
drop_old bucket now (t ∷ ts) =
    let rest = drop_old bucket now ts in if is_recent bucket now t then t ∷ ts else rest

trimmed-suc :
    (t : ℕ) (ts : List ℕ) (o : Option ℕ) → trimmed (t ∷ ts) (map_option suc o) ≡ trimmed ts o
unfolding trimmed
trimmed-suc t ts none = refl
trimmed-suc t ts (some i) = refl

trimmed-drop_old :
    (bucket now : ℕ) (ts : List ℕ) → trimmed ts (trim_idx bucket now ts) ≡ drop_old bucket now ts
unfolding trimmed trim_idx drop_old
trimmed-drop_old bucket now [] = refl
trimmed-drop_old bucket now (t ∷ ts) = elim (Bool-cases (is_recent bucket now t)) [
  | inl r ↦ rw r
  | inr o ↦ rw o (trimmed-suc t ts (trim_idx bucket now ts) ∙ trimmed-drop_old bucket now ts)
]

-- The early return of `prune` is the same function.
prune-eq : (bucket now : ℕ) (ts : List ℕ) → prune_slice bucket now ts ≡ drop_old bucket now ts
unfolding prune_slice drop_old
prune-eq bucket now [] = refl
prune-eq bucket now (t ∷ ts) = elim (Bool-cases (is_recent bucket now t)) [
  | inl r ↦ rw r
  | inr o ↦ rw o (trimmed-suc t ts (trim_idx bucket now ts) ∙ trimmed-drop_old bucket now ts)
]

-- Each time is at most the later ones, and the last at most `m`.
abbrev AllBetween : ℕ → ℕ → List ℕ → Type 0
AllBetween lo hi [] = Unit
AllBetween lo hi (t ∷ ts) = (lo ≤ t) × (t ≤ hi) × AllBetween lo hi ts

abbrev IsSorted : ℕ → List ℕ → Type 0
IsSorted hi [] = Unit
IsSorted hi (t ∷ ts) = AllBetween t hi (t ∷ ts) × IsSorted hi ts

AllBetween-up :
    (lo hi hi' : ℕ) (ts : List ℕ) → hi ≤ hi' → AllBetween lo hi ts → AllBetween lo hi' ts
AllBetween-up lo hi hi' [] h b = tt
AllBetween-up lo hi hi' (t ∷ ts) h b = (b.0, omega arith, AllBetween-up lo hi hi' ts h b.2)

IsSorted-up : (hi hi' : ℕ) (ts : List ℕ) → hi ≤ hi' → IsSorted hi ts → IsSorted hi' ts
IsSorted-up hi hi' [] h s = tt
IsSorted-up hi hi' (t ∷ ts) h s =
    (AllBetween-up t hi hi' (t ∷ ts) h s.0, IsSorted-up hi hi' ts h s.1)

AllBetween-append :
    (lo hi at : ℕ) (ts : List ℕ)
    → lo ≤ at
    → at ≤ hi
    → AllBetween lo hi ts
    → AllBetween lo hi (ts ++ (at ∷ []))
AllBetween-append lo hi at [] l h b = (l, h, tt)
AllBetween-append lo hi at (t ∷ ts) l h b = (b.0, b.1, AllBetween-append lo hi at ts l h b.2)

IsSorted-append : (at : ℕ) (ts : List ℕ) → IsSorted at ts → IsSorted at (ts ++ (at ∷ []))
IsSorted-append at [] s = ((le_refl at, le_refl at, tt), tt)
IsSorted-append at (t ∷ ts) s =
    (AllBetween-append t at at (t ∷ ts) s.0.1 (le_refl at) s.0, IsSorted-append at ts s.1)

IsSorted-drop_old :
    (bucket now hi : ℕ) (ts : List ℕ) → IsSorted hi ts → IsSorted hi (drop_old bucket now ts)
unfolding drop_old
IsSorted-drop_old bucket now hi [] s = tt
IsSorted-drop_old bucket now hi (t ∷ ts) s = elim (Bool-cases (is_recent bucket now t)) [
  | inl r ↦ rw r s
  | inr o ↦ rw o (IsSorted-drop_old bucket now hi ts s.1)
]

-- What is dropped is no longer recent at any later time.
count-drop_old :
    (bucket now later : ℕ) (ts : List ℕ)
    → now ≤ later
    → count_if (is_recent bucket later) (drop_old bucket now ts)
      ≡ count_if (is_recent bucket later) ts
unfolding drop_old count_if
count-drop_old bucket now later [] h = refl
count-drop_old bucket now later (t ∷ ts) h = ground (arith, count-drop_old bucket now later ts)

count-all :
    (bucket now lo hi : ℕ) (ts : List ℕ)
    → is_recent bucket now lo ≡ true
    → AllBetween lo hi ts
    → count_if (is_recent bucket now) ts ≡ length ts
unfolding count_if
count-all bucket now lo hi [] r b = refl
count-all bucket now lo hi (t ∷ ts) r b = ground (arith, count-all bucket now lo hi ts r b.2)

-- In a sorted slice, all that is left is recent.
length-drop_old :
    (bucket now hi : ℕ) (ts : List ℕ)
    → IsSorted hi ts
    → length (drop_old bucket now ts) ≡ count_if (is_recent bucket now) ts
unfolding drop_old count_if
length-drop_old bucket now hi [] s = refl
length-drop_old bucket now hi (t ∷ ts) s =
    ground (arith, length-drop_old bucket now hi ts s.1, count-all bucket now t hi ts, s.0.2)

record Tracks (bucket : ℕ) (us : List Use) : Type 0 where
  window : (after bucket us).bucket ≡ bucket
  sorted : IsSorted (latest us) (after bucket us).slice
  exact :
      (later : ℕ)
      → latest us ≤ later
      → count_if (is_recent bucket later) (after bucket us).slice
        ≡ count_if (is_recent bucket later) (marks us)

prune-Tracks :
    (bucket now : ℕ) (us : List Use)
    → Tracks bucket us
    → latest us ≤ now
    → ((prune now (after bucket us)).bucket ≡ bucket)
      × IsSorted now (prune now (after bucket us)).slice
      × ((later : ℕ)
          → now ≤ later
          → count_if (is_recent bucket later) (prune now (after bucket us)).slice
            ≡ count_if (is_recent bucket later) (marks us))
unfolding prune
prune-Tracks bucket now us t h =
    rw (t.window, prune-eq)
      (
        refl,
        IsSorted-up (latest us) now _ h
            (IsSorted-drop_old bucket now (latest us) (after bucket us).slice t.sorted),
        λ later l.
            count-drop_old bucket now later (after bucket us).slice l ∙ t.exact later (omega arith),
      )

count_if_last :
    (p : ℕ → Bool) (at : ℕ) (ts : List ℕ)
    → count_if p ts + count_if p (at ∷ []) ≡ count_if p (at ∷ ts)
unfolding count_if
count_if_last p at ts = omega arith

after-Tracks : (bucket : ℕ) (us : List Use) → IsMonotone us → Tracks bucket us
unfolding after latest marks
after-Tracks bucket [] m = record { window = refl; sorted = tt; exact = λ later h. refl }
after-Tracks bucket (mark_at now at ∷ us) m =
    let (w, s, e) = prune-Tracks bucket now us (after-Tracks bucket us m.2) m.0 in
    record {
      window = w;
      sorted = IsSorted-append at _ (IsSorted-up now at _ m.1 s);
      exact = λ later l.
          count_if-append (is_recent bucket later) _ (at ∷ [])
          ∙ ap (λ k. k + count_if (is_recent bucket later) (at ∷ [])) (e later (omega arith))
          ∙ count_if_last (is_recent bucket later) at (marks us);
    }
after-Tracks bucket (count_at now ∷ us) m =
    let (w, s, e) = prune-Tracks bucket now us (after-Tracks bucket us m.1) m.0 in
    record { window = w; sorted = s; exact = e }

-- If the clock does not go back, then after any marks and counts a count is the number of all marks
-- so far that are younger than the bucket's window.
pub count_exact :
    (bucket now : ℕ) (us : List Use)
    → IsMonotone us
    → latest us ≤ now
    → (count now (after bucket us)).0 ≡ count_if (is_recent bucket now) (marks us)
unfolding count
count_exact bucket now us m h =
    let t = after-Tracks bucket us m in
    rw (t.window, prune-eq) (length-drop_old bucket now (latest us) _ t.sorted ∙ t.exact now h)
