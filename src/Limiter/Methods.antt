-- ===== src/Limiter/Methods.antt =====
-- MatchReadOnly and MatchMutating of witchcraft/ratelimit/middleware.go, the functions that the
-- limiters of an application are usually made with.
use text.Mathlib.Text.{◌==◌ as str_eq}
use text.Mathlib.TextEquality.{eq_iff}
use witchcraft_go_server.Base.{
  arith, Bool, true, false, Bool-cases, ◌||◌, String, ◌≡◌, inl, inr, refl,
}

unfoldable pub match_read_only : String → Bool
match_read_only method = str_eq method "GET" || str_eq method "HEAD" || str_eq method "OPTIONS"

unfoldable pub match_mutating : String → Bool
match_mutating method =
    str_eq method "POST" || str_eq method "PUT" || str_eq method "DELETE" || str_eq method "PATCH"

-- A request that one of the two functions matches is not matched by the other, so with a limiter for
-- each it counts against one limit at most.
pub match_mutating-match_read_only :
    (method : String) → match_read_only method ≡ true → match_mutating method ≡ false
unfolding match_read_only match_mutating
match_mutating-match_read_only method h = elim (Bool-cases (str_eq method "GET")) [
  | inl b ↦ rw ((eq_iff method "GET").0 b) refl
  | inr b ↦ elim (Bool-cases (str_eq method "HEAD")) [
    | inl d ↦ rw ((eq_iff method "HEAD").0 d) refl
    | inr d ↦ elim (Bool-cases (str_eq method "OPTIONS")) [
      | inl e ↦ rw ((eq_iff method "OPTIONS").0 e) refl
      | inr e ↦ absurd (ground arith)
    ]
  ]
]
