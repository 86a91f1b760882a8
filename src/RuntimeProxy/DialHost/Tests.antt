-- ===== src/RuntimeProxy/DialHost/Tests.antt =====
-- The theorems on hosts at concrete hosts.
use botroost.Prelude.{List, ◌≡◌, refl, ℕ, none, some, [], ◌∷◌, All, arith}
use botroost.RuntimeProxy.DialHost.{
  dial_host, trim_start, trim_end, lower, strip_open, strip_close, judge, all_allowed, split,
  is_quad, is_private4, number_of, all_of,
}
use botroost.RuntimeProxy.DialHost.Numbers.{IsDigit, dial_host-digits}

-- 2852039166, which is 169.254.169.254.
abbrev metadata_number : List ℕ
metadata_number = 56 ∷ 53 ∷ 50 ∷ 48 ∷ 51 ∷ 57 ∷ 49 ∷ 54 ∷ 54 ∷ []

abbrev number_host : List ℕ
number_host = 50 ∷ metadata_number

number_host-digits : All IsDigit number_host
number_host-digits = (
  (omega arith, omega arith),
  (
    (omega arith, omega arith),
    (
      (omega arith, omega arith),
      (
        (omega arith, omega arith),
        (
          (omega arith, omega arith),
          (
            (omega arith, omega arith),
            (
              (omega arith, omega arith),
              (
                (omega arith, omega arith),
                ((omega arith, omega arith), ((omega arith, omega arith), tt)),
              ),
            ),
          ),
        ),
      ),
    ),
  ),
)

dial_host-digits_example : dial_host (some number_host) ≡ some number_host
dial_host-digits_example = dial_host-digits 50 metadata_number number_host-digits

-- 10.0.0.1
abbrev private_host : List ℕ
private_host = 49 ∷ 48 ∷ 46 ∷ 48 ∷ 46 ∷ 48 ∷ 46 ∷ 49 ∷ []

private_dialled : dial_host (some private_host) ≡ some private_host
unfolding dial_host trim_start trim_end lower strip_open strip_close judge all_allowed split is_quad
    is_private4 number_of all_of
private_dialled = refl

-- 169.254.169.254
metadata_refused :
    dial_host (some (49 ∷ 54 ∷ 57 ∷ 46 ∷ 50 ∷ 53 ∷ 52 ∷ 46 ∷ 49 ∷ 54 ∷ 57 ∷ 46 ∷ 50 ∷ 53 ∷ 52 ∷ []))
    ≡ none
unfolding dial_host trim_start trim_end lower strip_open strip_close judge all_allowed split is_quad
    is_private4 number_of all_of
metadata_refused = refl
