-- ===== src/RuntimeProxy/DialHost.antt =====
-- `runtimeDialHost` of apps/api/src/runtime-proxy.ts, with `privateIPv4` and `privateIPv6`. A host
-- is the list of its character codes, which are ASCII.
pub mod Numbers
pub mod Blocks
mod Tests
use botroost.Prelude.{
  ℕ, zero, suc, ◌+◌, ◌*◌, ◌-◌, ◌≤◌, String, Bool, true, false, not, ◌&&◌, ◌||◌, Option, none, some,
  List, [], ◌∷◌, ◌==◌, number_test, leb, if◌then◌else◌, any, ◌≡◌, refl, sym, arith, All, ap,
}

-- A character between two, in a pattern.
abbrev between : ℕ → ℕ → ℕ → Bool
between low high c = leb low c && leb c high

abbrev pub is_digit : ℕ → Bool
is_digit c = between 48 57 c

abbrev is_alnum : ℕ → Bool
is_alnum c = is_digit c || between 97 122 c

abbrev is_hex : ℕ → Bool
is_hex c = is_digit c || between 97 102 c

abbrev is_space : ℕ → Bool
is_space c = between 9 13 c || (c == 32)

-- `trim`
unfoldable pub trim_start : List ℕ → List ℕ
trim_start [] = []
trim_start (c ∷ cs) = let rest = trim_start cs in if is_space c then rest else c ∷ cs

abbrev is_empty : List ℕ → Bool
is_empty [] = true
is_empty (c ∷ cs) = false

unfoldable pub trim_end : List ℕ → List ℕ
trim_end [] = []
trim_end (c ∷ cs) = let rest = trim_end cs in if is_empty rest && is_space c then [] else c ∷ rest

-- `toLowerCase`
unfoldable pub lower : List ℕ → List ℕ
lower [] = []
lower (c ∷ cs) = let rest = lower cs in (if between 65 90 c then c + 32 else c) ∷ rest

-- `replace(/^\[|\]$/g, "")`
unfoldable pub strip_open : List ℕ → List ℕ
strip_open [] = []
strip_open (c ∷ cs) = if c == 91 then cs else c ∷ cs

unfoldable pub strip_close : List ℕ → List ℕ
strip_close [] = []
strip_close (c ∷ []) = if c == 93 then [] else c ∷ []
strip_close (c ∷ d ∷ cs) = c ∷ strip_close (d ∷ cs)

-- `/^[a-z0-9._:-]+$/` on a host that is not empty
unfoldable pub all_allowed : List ℕ → Bool
all_allowed [] = true
all_allowed (c ∷ cs) = (is_alnum c || any (λ d. c == d) (46 ∷ 95 ∷ 58 ∷ 45 ∷ [])) && all_allowed cs

abbrev pub add_first : ℕ → List (List ℕ) → List (List ℕ)
add_first c [] = (c ∷ []) ∷ []
add_first c (part ∷ parts) = (c ∷ part) ∷ parts

-- `host.split(separator)`
unfoldable pub split : ℕ → List ℕ → List (List ℕ)
split separator [] = [] ∷ []
split separator (c ∷ cs) =
    let rest = split separator cs in if c == separator then [] ∷ rest else add_first c rest

unfoldable pub has : ℕ → List ℕ → Bool
has d [] = false
has d (c ∷ cs) = (c == d) || has d cs

unfoldable pub all_of : (ℕ → Bool) → List ℕ → Bool
all_of test [] = true
all_of test (c ∷ cs) = test c && all_of test cs

abbrev is_short : List ℕ → Bool
is_short (a ∷ []) = true
is_short (a ∷ b ∷ []) = true
is_short (a ∷ b ∷ c ∷ []) = true
is_short _ = false

abbrev pub is_octet : List ℕ → Bool
is_octet part = is_short part && all_of is_digit part

-- `/^\d{1,3}(?:\.\d{1,3}){3}$/`
unfoldable pub is_quad : List (List ℕ) → Bool
unfolding all_of
is_quad (a ∷ b ∷ c ∷ d ∷ []) = is_octet a && (is_octet b && (is_octet c && is_octet d))
is_quad _ = false

-- `Number` of digits
unfoldable pub number_of : ℕ → List ℕ → ℕ
number_of value [] = value
number_of value (c ∷ cs) = number_of (value * 10 + (c - 48)) cs

abbrev pub is_private_pair : ℕ → ℕ → Bool
is_private_pair a b =
    (a == 127)
    || ((a == 10)
        || (((a == 172) && between 16 31 b)
            || (((a == 192) && (b == 168)) || ((a == 100) && between 64 127 b))))

-- `privateIPv4`, of four parts that are digits
unfoldable pub is_private4 : List (List ℕ) → Bool
unfolding number_of
is_private4 (a ∷ b ∷ c ∷ d ∷ []) =
    (leb (number_of 0 a) 255
      && (leb (number_of 0 b) 255 && (leb (number_of 0 c) 255 && leb (number_of 0 d) 255)))
    && is_private_pair (number_of 0 a) (number_of 0 b)
is_private4 _ = false

-- `/^f[cd][0-9a-f]{0,2}$/` and `/^fe[89ab][0-9a-f]?$/`
unfoldable pub is_private_group : List ℕ → Bool
unfolding all_of
is_private_group (f ∷ g ∷ []) = (f == 102) && between 99 100 g
is_private_group (f ∷ g ∷ h ∷ []) =
    (f == 102)
    && ((between 99 100 g && is_hex h) || ((g == 101) && (between 56 57 h || between 97 98 h)))
is_private_group (f ∷ g ∷ h ∷ i ∷ []) =
    (f == 102)
    && ((between 99 100 g || ((g == 101) && (between 56 57 h || between 97 98 h)))
        && (is_hex h && is_hex i))
is_private_group _ = false

abbrev is_loopback : List ℕ → Bool
is_loopback (a ∷ b ∷ c ∷ []) = (a == 58) && ((b == 58) && (c == 49))
is_loopback _ = false

abbrev first_part : List (List ℕ) → List ℕ
first_part [] = []
first_part (part ∷ parts) = part

-- `privateIPv6`
unfoldable pub is_private6 : List ℕ → Bool
unfolding is_private_group split
is_private6 host = is_loopback host || is_private_group (first_part (split 58 host))

-- `[a-z0-9](?:[-a-z0-9]*[a-z0-9])?`
unfoldable pub ends_well : List ℕ → Bool
ends_well [] = true
ends_well (c ∷ []) = is_alnum c
ends_well (c ∷ d ∷ cs) = (is_alnum c || (c == 45)) && ends_well (d ∷ cs)

unfoldable pub is_label : List ℕ → Bool
unfolding ends_well
is_label [] = false
is_label (c ∷ cs) = is_alnum c && ends_well cs

unfoldable pub same_text : List ℕ → List ℕ → Bool
same_text [] [] = true
same_text (c ∷ cs) (d ∷ ds) = (c == d) && same_text cs ds
same_text _ _ = false

-- `svc`, or `svc.cluster.local`
unfoldable pub is_suffix : List (List ℕ) → Bool
unfolding same_text
is_suffix (svc ∷ []) = same_text svc (115 ∷ 118 ∷ 99 ∷ [])
is_suffix (svc ∷ cluster ∷ local ∷ []) =
    same_text svc (115 ∷ 118 ∷ 99 ∷ [])
    && (same_text cluster (99 ∷ 108 ∷ 117 ∷ 115 ∷ 116 ∷ 101 ∷ 114 ∷ [])
        && same_text local (108 ∷ 111 ∷ 99 ∷ 97 ∷ 108 ∷ []))
is_suffix _ = false

-- `service.test(host)`
unfoldable pub is_service : List (List ℕ) → Bool
unfolding is_label is_suffix
is_service [] = false
is_service (part ∷ parts) = is_label part && (is_suffix parts || is_service parts)

-- The host, after the trimming.
unfoldable pub judge : List ℕ → Option (List ℕ)
judge [] = none
judge (c ∷ cs) =
    let host = c ∷ cs in
    if not (all_allowed host)
    then none
    else if is_quad (split 46 host)
    then (if is_private4 (split 46 host) then some host else none)
    else if has 58 host
    then (if is_private6 host then some host else none)
    else if is_service (split 46 host) || not (has 46 host)
    then some host
    else none

-- The start of `runtimeDialHost`, up to `replace`.
abbrev pub normal : List ℕ → List ℕ
normal value = strip_close (strip_open (lower (trim_end (trim_start value))))

-- `runtimeDialHost`
unfoldable pub dial_host : Option (List ℕ) → Option (List ℕ)
dial_host none = none
dial_host (some value) = judge (normal value)
