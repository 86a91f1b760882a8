-- ===== src/Prelude/CodeUnits.antt =====
-- The order of JavaScript strings, by UTF-16 code units, and `array.sort()` on texts.
use Prim.Native.Nat.{ℕ, ◌+◌, ◌-◌, ◌/◌, ◌%◌, ◌<◌}
use Prim.Native.Char.{char, code, IsScalar}
use Prim.Native.String.{String}
use text.Mathlib.TextEquality.{Char-path}
use mathlib.Core.Path.{◌≡◌, refl, ap, ap₂, ◌∙◌}
use mathlib.Core.Logic.{◌⊎◌}
use mathlib.Core.Bool.{Bool, true, false}
use mathlib.Core.List.{List, [], ◌∷◌}
use native.Mathlib.Omega.{arith}
use botroost.Prelude.Tests.{ltb, ◌==◌, number_test, if◌then◌else◌}

abbrev char_units : ℕ → List ℕ → List ℕ
char_units n rest =
    if ltb n 0x10000
    then n ∷ rest
    else (0xd800 + (n - 0x10000) / 1024) ∷ (0xdc00 + (n - 0x10000) % 1024) ∷ rest

-- The code units of a string: a code point past U+FFFF is a surrogate pair.
pub code_units : String → List ℕ
code_units String.[] = []
code_units (String.◌∷◌ c s) = char_units (code c) (code_units s)

scalar_cases : (n : ℕ) → IsScalar n → (n < 55296) ⊎ ((57343 < n) × (n < 1114112))
scalar_cases n h = ground arith

char_units-injective :
    (m n : ℕ) (xs ys : List ℕ)
    → IsScalar m
    → IsScalar n
    → char_units m xs ≡ char_units n ys
    → (m ≡ n) × (xs ≡ ys)
char_units-injective m n xs ys p q e = ground (arith, scalar_cases m p, scalar_cases n q)

-- `slice(0, n)`. Half of a surrogate pair, which no text can hold, is U+FFFD here, which is what the
-- encoding of a message makes of it.
unfoldable pub take_units : ℕ → String → String
take_units n String.[] = String.[]
take_units n (String.◌∷◌ c s) =
    let narrow = take_units (n - 1) s in
    let wide = take_units (n - 2) s in
    if n == 0
    then String.[]
    else if ltb (code c) 0x10000
    then String.◌∷◌ c narrow
    else if n == 1
    then "�"
    else String.◌∷◌ c wide

-- Different strings have different code units, so sorting by them leaves no ties.
pub code_units-injective : (s t : String) → code_units s ≡ code_units t → s ≡ t
unfolding code_units
code_units-injective String.[] String.[] e = refl
code_units-injective String.[] (String.◌∷◌ d t) e = ground arith
code_units-injective (String.◌∷◌ c s) String.[] e = ground arith
code_units-injective (String.◌∷◌ (char m p) s) (String.◌∷◌ (char n q) t) e =
    let (same, rest) = char_units-injective m n (code_units s) (code_units t) p q e in
    ap₂ String.◌∷◌ (Char-path (char m p) (char n q) same) (code_units-injective s t rest)

-- Lexicographic, a prefix first.
units_le : List ℕ → List ℕ → Bool
units_le [] ys = true
units_le (x ∷ xs) [] = false
units_le (x ∷ xs) (y ∷ ys) =
    let rest = units_le xs ys in if ltb x y then true else if x == y then rest else false

units_le_total : (xs ys : List ℕ) → units_le xs ys ≡ false → units_le ys xs ≡ true
unfolding units_le
units_le_total [] ys e = cc
units_le_total (x ∷ xs) [] e = refl
units_le_total (x ∷ xs) (y ∷ ys) e = ground (arith, units_le_total xs ys)

units_le_antisymm : (xs ys : List ℕ) → units_le xs ys ≡ true → units_le ys xs ≡ true → xs ≡ ys
unfolding units_le
units_le_antisymm [] [] e f = refl
units_le_antisymm [] (y ∷ ys) e f = cc
units_le_antisymm (x ∷ xs) [] e f = cc
units_le_antisymm (x ∷ xs) (y ∷ ys) e f = ground (arith, units_le_antisymm xs ys)

units_le_trans :
    (xs ys zs : List ℕ) → units_le xs ys ≡ true → units_le ys zs ≡ true → units_le xs zs ≡ true
unfolding units_le
units_le_trans [] ys zs e f = refl
units_le_trans (x ∷ xs) [] zs e f = cc
units_le_trans (x ∷ xs) (y ∷ ys) [] e f = cc
units_le_trans (x ∷ xs) (y ∷ ys) (z ∷ zs) e f = ground (arith, units_le_trans xs ys zs)

pub string_le : String → String → Bool
string_le s t = units_le (code_units s) (code_units t)

-- Where `s` is put before `t`, and where it is not.
string_le_total : (s t : String) → string_le s t ≡ false → string_le t s ≡ true
unfolding string_le
string_le_total s t = units_le_total (code_units s) (code_units t)

string_le_antisymm : (s t : String) → string_le s t ≡ true → string_le t s ≡ true → s ≡ t
unfolding string_le
string_le_antisymm s t e f = code_units-injective s t (units_le_antisymm _ _ e f)

string_le_trans :
    (r s t : String) → string_le r s ≡ true → string_le s t ≡ true → string_le r t ≡ true
unfolding string_le
string_le_trans r s t = units_le_trans (code_units r) (code_units s) (code_units t)

-- `array.sort()`, as an insertion sort.
insert_sorted : String → List String → List String
insert_sorted s [] = s ∷ []
insert_sorted s (t ∷ ts) =
    let rest = insert_sorted s ts in if string_le s t then s ∷ t ∷ ts else t ∷ rest

unfoldable pub sort : List String → List String
unfolding insert_sorted string_le units_le code_units
sort [] = []
sort (s ∷ ss) = insert_sorted s (sort ss)

insert_sorted_comm :
    (s t : String) (us : List String)
    → insert_sorted s (insert_sorted t us) ≡ insert_sorted t (insert_sorted s us)
unfolding insert_sorted
insert_sorted_comm s t [] =
    ground (arith, string_le_total s t, string_le_total t s, string_le_antisymm s t)
insert_sorted_comm s t (u ∷ us) = ground (
  arith,
  insert_sorted_comm s t us,
  string_le_total s t,
  string_le_total t s,
  string_le_antisymm s t,
  string_le_trans s t u,
  string_le_trans t s u,
)

-- Exchanging two neighbours does not change the sorted list.
pub sort_swap :
    (s t : String) (us vs : List String) → sort us ≡ sort vs → sort (s ∷ t ∷ us) ≡ sort (t ∷ s ∷ vs)
unfolding sort
sort_swap s t us vs e =
    ap (λ ws. insert_sorted s (insert_sorted t ws)) e ∙ insert_sorted_comm s t (sort vs)

pub sort-cons :
    (s : String) (us vs : List String) → sort us ≡ sort vs → sort (s ∷ us) ≡ sort (s ∷ vs)
unfolding sort
sort-cons s us vs e = ap (insert_sorted s) e
