-- ===== src/Diagnostics/Types/Accepted.antt =====
-- Names that Validate accepts.
use witchcraft_go_server.Base.{
  ℕ, Bool, true, not, ◌&&◌, ◌||◌, List, [], ◌∷◌, ◌++◌, ◌==◌, ◌≡◌, refl, ◌∙◌, ap, arith,
}
use witchcraft_go_server.Diagnostics.Types.{
  is_digit, is_lower_or_digit, Places, read, read_all, start_place,
}

abbrev pub all_of : (ℕ → Bool) → List ℕ → Bool
all_of p [] = true
all_of p (c ∷ cs) = p c && all_of p cs

-- A group of a name: its first character, the others, and the character that ends it.
pub record Group : Type 0 where
  pub first : ℕ
  pub others : List ℕ
  pub delimiter : ℕ

abbrev pub is_group : Group → Bool
is_group g =
    (is_lower_or_digit g.first && all_of is_lower_or_digit g.others) && not (g.delimiter == 10)

abbrev pub all_groups : List Group → Bool
all_groups [] = true
all_groups (g ∷ gs) = is_group g && all_groups gs

abbrev pub spell_group : Group → List ℕ → List ℕ
spell_group g rest = g.first ∷ (g.others ++ (g.delimiter ∷ rest))

abbrev pub spell : List Group → List ℕ → List ℕ
spell [] rest = rest
spell (g ∷ gs) rest = spell_group g (spell gs rest)

read-run :
    (cs : List ℕ) (p : Places)
    → all_of is_lower_or_digit cs ≡ true
    → p.in_run ≡ true
    → (read_all cs p).in_run ≡ true
unfolding read_all
read-run [] p h k = k
read-run (c ∷ cs) p h k = read-run cs (read c p) (ground arith) (ground arith)

read-digits :
    (cs : List ℕ) (p : Places)
    → all_of is_digit cs ≡ true
    → p.in_digits ≡ true
    → (read_all cs p).in_digits ≡ true
unfolding read_all
read-digits [] p h k = k
read-digits (c ∷ cs) p h k = read-digits cs (read c p) (ground arith) (ground arith)

read_all-append :
    (xs ys : List ℕ) (p : Places) → read_all (xs ++ ys) p ≡ read_all ys (read_all xs p)
unfolding read_all
read_all-append [] ys p = refl
read_all-append (x ∷ xs) ys p = read_all-append xs ys (read x p)

can_begin : Places → Bool
can_begin p = p.at_start || p.after_group

read-group :
    (g : Group) (rest : List ℕ) (p : Places)
    → is_group g ≡ true
    → can_begin p ≡ true
    → (q : Places) × (read_all (spell_group g rest) p ≡ read_all rest q) × (q.after_group ≡ true)
unfolding can_begin read_all
read-group g rest p h k =
    let q = read_all g.others (read g.first p) in
    let run = read-run g.others (read g.first p) (ground arith) (ground arith) in
    (
      read g.delimiter q,
      read_all-append g.others (g.delimiter ∷ rest) (read g.first p),
      ground arith,
    )

read-groups :
    (gs : List Group) (rest : List ℕ) (p : Places)
    → all_groups gs ≡ true
    → p.after_group ≡ true
    → (q : Places) × (read_all (spell gs rest) p ≡ read_all rest q) × (q.after_group ≡ true)
unfolding can_begin
read-groups [] rest p h k = (p, refl, k)
read-groups (g ∷ gs) rest p h k =
    let (q, e, a) = read-group g (spell gs rest) p (ground arith) (ground arith) in
    let (q', e', a') = read-groups gs rest q (ground arith) a in (q', e ∙ e', a')

-- A name of one or more groups, then a v and one or more digits, is accepted, whatever the
-- characters that end the groups, so long as they are no newlines: they need not be dots.
pub read_all-accepts :
    (g : Group) (gs : List Group) (d : ℕ) (ds : List ℕ)
    → all_groups (g ∷ gs) ≡ true
    → all_of is_digit (d ∷ ds) ≡ true
    → (read_all (spell (g ∷ gs) (b'v' ∷ d ∷ ds)) start_place).in_digits ≡ true
unfolding can_begin read_all
read_all-accepts g gs d ds h k =
    let rest = b'v' ∷ d ∷ ds in
    let (q, e, a) = read-group g (spell gs rest) start_place (ground arith) refl in
    let (q', e', a') = read-groups gs rest q (ground arith) a in
    ap (λ z. z.in_digits) (e ∙ e')
    ∙ read-digits ds (read d (read b'v' q')) (ground arith) (ground arith)
