-- ===== src/Options/Overlap.antt =====
-- Calls of WithHealth (witchcraft/witchcraft.go) that run at the same time, as those of an application
-- or of its tasks may after the start: a call reads the current sources, appends its own, and then
-- updates the refreshable. A slice is a part of a backing array, and Go's append writes into the
-- array of its argument while there is room, whoever else holds a slice of it.
use mathlib.Core.List.{append-nil, append_assoc}
use witchcraft_go_server.Base.{
  ℕ, zero, suc, ◌+◌, ◌≤◌, ◌==◌, leb, false, true, Bool-cases, inl, inr, List, [], ◌∷◌, ◌++◌,
  if◌then◌else◌, ◌≡◌, refl, sym, ap, ◌∙◌, arith, length,
}

-- A slice from the start of an array: the array's number, its length and its capacity.
pub record Slice : Type 0 where
  pub array : ℕ
  pub len : ℕ
  pub cap : ℕ

-- The arrays, with the number of the next new one, what the refreshable holds, and the slice that each
-- call holds: what it has read, and then what append has given it.
pub record Sources : Type 0 where
  pub arrays : ℕ → ℕ → ℕ
  pub next_array : ℕ
  pub current : Slice
  pub held : ℕ → Slice

abbrev pub updated : {A : Type 0} → (ℕ → A) → ℕ → A → ℕ → A
updated f k a j = if j == k then a else f j

-- Writes of elements into an array from an index on.
unfoldable pub write_from : ℕ → List ℕ → (ℕ → ℕ) → ℕ → ℕ
write_from n [] f = f
write_from n (x ∷ xs) f = write_from (suc n) xs (updated f n x)

-- The elements of an array below an index.
unfoldable pub elements : ℕ → (ℕ → ℕ) → List ℕ
elements zero f = []
elements (suc n) f = elements n f ++ (f n ∷ [])

-- What a slice holds.
abbrev pub contents : Slice → Sources → List ℕ
contents sl s = elements sl.len (s.arrays sl.array)

-- Call i reads Current, appends its own sources to what it has read, or updates the refreshable.
pub data Event : Type 0 where
  reads appends updates : ℕ → Event

abbrev pub caller : Event → ℕ
caller (reads i) = i
caller (appends i) = i
caller (updates i) = i

-- No event of the list is of call i.
abbrev pub AreOthers : ℕ → List Event → Type 0
AreOthers i [] = Unit
AreOthers i (e ∷ es) = ((i == caller e) ≡ false) × AreOthers i es

-- The runtime chooses the capacity of a new array, from the length that is needed.
module _ (grown : ℕ → ℕ) where
  -- The slice that append gives, and the arrays after it; with no room it copies to a new array.
  abbrev pub append_slice : Slice → List ℕ → Sources → Sources × Slice
  append_slice sl xs s =
      if leb (sl.len + length xs) sl.cap
      then (
        record s { arrays = updated s.arrays sl.array (write_from sl.len xs (s.arrays sl.array)) },
        record sl { len = sl.len + length xs },
      )
      else (
        record s {
          arrays = updated s.arrays s.next_array (write_from sl.len xs (s.arrays sl.array));
          next_array = suc s.next_array;
        },
        record { array = s.next_array; len = sl.len + length xs; cap = grown (sl.len + length xs) },
      )

module _ (grown : ℕ → ℕ) (sources_of : ℕ → List ℕ) where
  unfoldable pub with_health_step : Event → Sources → Sources
  with_health_step (reads i) s = record s { held = updated s.held i s.current }
  with_health_step (appends i) s =
      let (s', sl) = append_slice grown (s.held i) (sources_of i) s in
      record s' { held = updated s.held i sl }
  with_health_step (updates i) s = record s { current = s.held i }

  unfoldable pub run : List Event → Sources → Sources
  unfolding with_health_step
  run [] s = s
  run (e ∷ es) s = run es (with_health_step e s)

unfoldable pub one_by_one : List ℕ → List Event
one_by_one [] = []
one_by_one (i ∷ is) = reads i ∷ appends i ∷ updates i ∷ one_by_one is

unfoldable pub all_sources : (ℕ → List ℕ) → List ℕ → List ℕ
all_sources sources_of [] = []
all_sources sources_of (i ∷ is) = sources_of i ++ all_sources sources_of is

elements-updated : (m n x : ℕ) (f : ℕ → ℕ) → m ≤ n → elements m (updated f n x) ≡ elements m f
unfolding elements
elements-updated zero n x f h = refl
elements-updated (suc m) n x f h =
    let e : (m == n) ≡ false = ground (arith, h) in
    rw (elements-updated m n x f (omega (arith, h)), e) refl

elements-last :
    (n x : ℕ) (xs : List ℕ) (f : ℕ → ℕ)
    → elements (suc n) (updated f n x) ++ xs ≡ elements n f ++ x ∷ xs
unfolding elements
elements-last n x xs f =
    let same : (n == n) ≡ true = ground arith in
    rw (elements-updated n n x f (omega arith), same) (append_assoc (elements n f) (x ∷ []) xs)

elements-write_from :
    (xs : List ℕ) (n : ℕ) (f : ℕ → ℕ)
    → elements (n + length xs) (write_from n xs f) ≡ elements n f ++ xs
unfolding write_from
elements-write_from [] n f = ap (λ k. elements k f) (omega arith) ∙ sym (append-nil _)
elements-write_from (x ∷ xs) n f =
    ap (λ k. elements k (write_from (suc n) xs (updated f n x))) (omega arith)
    ∙ elements-write_from xs (suc n) (updated f n x)
    ∙ elements-last n x xs f

module _ (grown : ℕ → ℕ) (sources_of : ℕ → List ℕ) where
  -- What append gives holds the elements of its argument, and then the new ones.
  append_slice-contents :
      (sl : Slice) (xs : List ℕ) (s : Sources)
      → (let (s', sl') = append_slice grown sl xs s in contents sl' s') ≡ contents sl s ++ xs
  append_slice-contents sl xs s =
      let own_eq : (sl.array == sl.array) ≡ true = ground arith in
      let new_eq : (s.next_array == s.next_array) ≡ true = ground arith in
      let written = elements-write_from xs sl.len (s.arrays sl.array) in
      elim (Bool-cases (leb (sl.len + length xs) sl.cap)) [
        | inl e ↦ rw (e, own_eq) written
        | inr e ↦ rw (e, new_eq) written
      ]

  append_slice-len :
      (sl : Slice) (xs : List ℕ) (s : Sources)
      → (append_slice grown sl xs s).1.len ≡ sl.len + length xs
  append_slice-len sl xs s = elim (Bool-cases (leb (sl.len + length xs) sl.cap)) [
    | inl e ↦ rw (e) refl
    | inr e ↦ rw (e) refl
  ]

  run-append :
      (es fs : List Event) (s : Sources)
      → run grown sources_of (es ++ fs) s ≡ run grown sources_of fs (run grown sources_of es s)
  unfolding run
  run-append [] fs s = refl
  run-append (e ∷ es) fs s = run-append es fs (with_health_step grown sources_of e s)

  held-run :
      (i : ℕ) (es : List Event) (s : Sources)
      → AreOthers i es
      → (run grown sources_of es s).held i ≡ s.held i
  unfolding run with_health_step
  held-run i [] s _ = refl
  held-run i (e ∷ es) s (ne, h) = held-run i es (with_health_step grown sources_of e s) h ∙ one e ne
    where
      one :
          (e : Event)
          → (i == caller e) ≡ false
          → (with_health_step grown sources_of e s).held i ≡ s.held i
      one (reads j) ne = rw (ne) refl
      one (appends j) ne = rw (ne) refl
      one (updates j) ne = refl

  -- A call that appends and at once updates leaves what it has read, followed by its own sources.
  run-appends :
      (i : ℕ) (s : Sources)
      → let s' = run grown sources_of (appends i ∷ updates i ∷ []) s in
        contents s'.current s' ≡ contents (s.held i) s ++ sources_of i
  unfolding run with_health_step
  run-appends i s =
      let own_eq : (i == i) ≡ true = ground arith in
      rw (own_eq) (append_slice-contents (s.held i) (sources_of i) s)

  run-alone :
      (i : ℕ) (s : Sources)
      → let s' = run grown sources_of (reads i ∷ appends i ∷ updates i ∷ []) s in
        contents s'.current s' ≡ contents s.current s ++ sources_of i
  unfolding run with_health_step
  run-alone i s =
      let own_eq : (i == i) ≡ true = ground arith in
      let read : updated s.held i s.current i ≡ s.current = rw (own_eq) refl in
      run-appends i (with_health_step grown sources_of (reads i) s)
      ∙ ap (λ sl. contents sl s ++ sources_of i) read

  run-one_by_one :
      (is : List ℕ) (s : Sources)
      → let s' = run grown sources_of (one_by_one is) s in
        contents s'.current s' ≡ contents s.current s ++ all_sources sources_of is
  unfolding run one_by_one all_sources
  run-one_by_one [] s = sym (append-nil _)
  run-one_by_one (i ∷ is) s =
      let s' = run grown sources_of (reads i ∷ appends i ∷ updates i ∷ []) s in
      run-one_by_one is s'
      ∙ ap (λ xs. xs ++ all_sources sources_of is) (run-alone i s)
      ∙ append_assoc (contents s.current s) (sources_of i) (all_sources sources_of is)

  run-overlap :
      (i : ℕ) (es fs : List Event) (s : Sources)
      → AreOthers i es
      → AreOthers i fs
      → (run grown sources_of
          (reads i ∷ (es ++ (appends i ∷ (fs ++ (updates i ∷ [])))))
          s).current.len
        ≡ s.current.len + length (sources_of i)
  unfolding run with_health_step
  run-overlap i es fs s es_other fs_other =
      let s0 = with_health_step grown sources_of (reads i) s in
      let s1 = run grown sources_of es s0 in
      let s2 = with_health_step grown sources_of (appends i) s1 in
      let own_eq : (i == i) ≡ true = ground arith in
      let read : s1.held i ≡ s.current = held-run i es s0 es_other ∙ rw (own_eq) refl in
      let appended : (s2.held i).len ≡ (s1.held i).len + length (sources_of i) =
        rw (own_eq) (append_slice-len (s1.held i) (sources_of i) s1) in
      ap (λ t. t.current.len) (run-append es (appends i ∷ (fs ++ (updates i ∷ []))) s0)
      ∙ ap (λ t. t.current.len) (run-append fs (updates i ∷ []) s2)
      ∙ ap (λ sl. sl.len) (held-run i fs s2 fs_other)
      ∙ appended
      ∙ ap (λ sl. sl.len + length (sources_of i)) read

  -- Calls of WithHealth that follow each other leave the sources that were there, and after them those
  -- of each call, in their order, whatever capacities the runtime chooses. When reads, appends and
  -- updates of other calls stand between the read, the append and the update of a call, the list it
  -- leaves is only as long as the one that it has read and its own sources together, however many
  -- sources the others have added in between.
  pub with_health-overlap :
      (is : List ℕ) (i : ℕ) (es fs : List Event) (s : Sources)
      → AreOthers i es
      → AreOthers i fs
      → (let s' = run grown sources_of (one_by_one is) s in
          contents s'.current s' ≡ contents s.current s ++ all_sources sources_of is)
        × ((run grown sources_of
              (reads i ∷ (es ++ (appends i ∷ (fs ++ (updates i ∷ [])))))
              s).current.len
            ≡ s.current.len + length (sources_of i))
  unfolding run with_health_step
  with_health-overlap is i es fs s es_other fs_other =
      (run-one_by_one is s, run-overlap i es fs s es_other fs_other)
