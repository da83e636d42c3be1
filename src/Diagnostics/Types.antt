-- ===== src/Diagnostics/Types.antt =====
-- DiagnosticType.Validate of witchcraft/wdebug/api.go: the expression ^([a-z0-9]+.)+v[0-9]+$, as the
-- automaton that the expression stands for, over the code points of the type.
pub mod Accepted
use Prim.Native.Char.{code}
use Prim.Native.String.{String}
use witchcraft_go_server.Base.{
  ℕ, ◌-◌, ◌+◌, Bool, true, false, not, ◌&&◌, ◌||◌, List, [], ◌∷◌, ◌++◌, ◌==◌, ltb, leb, ◌≡◌, ◌≢◌,
  refl, ◌∙◌, ap, arith,
}

abbrev pub codes : String → List ℕ
codes String.[] = []
codes (String.◌∷◌ c s) = code c ∷ codes s

abbrev pub is_digit : ℕ → Bool
is_digit c = leb b'0' c && leb c b'9'

abbrev pub is_lower_or_digit : ℕ → Bool
is_lower_or_digit c = (leb b'a' c && leb c b'z') || is_digit c

-- Where a match can stand: before the first character; in a run of the class of a group; after a
-- group; after the `v`; in the digits after it.
pub record Places : Type 0 where
  pub at_start : Bool
  pub in_run : Bool
  pub after_group : Bool
  pub after_v : Bool
  pub in_digits : Bool

-- The places after one more character. The dot of the expression is any character but a newline.
unfoldable pub read : ℕ → Places → Places
read c p = record {
  at_start = false;
  in_run = is_lower_or_digit c && ((p.at_start || p.in_run) || p.after_group);
  after_group = p.in_run && not (c == 10);
  after_v = p.after_group && (c == b'v');
  in_digits = is_digit c && (p.after_v || p.in_digits);
}

unfoldable pub read_all : List ℕ → Places → Places
unfolding read
read_all [] p = p
read_all (c ∷ cs) p = read_all cs (read c p)

abbrev pub start_place : Places
start_place = record {
  at_start = true;
  in_run = false;
  after_group = false;
  after_v = false;
  in_digits = false;
}

-- Whether Validate returns no error.
unfoldable pub is_valid_type : String → Bool
unfolding read_all
is_valid_type t = (read_all (codes t) start_place).in_digits
