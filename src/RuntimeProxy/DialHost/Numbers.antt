-- ===== src/RuntimeProxy/DialHost/Numbers.antt =====
-- Hosts that are numbers, in `runtimeDialHost` of apps/api/src/runtime-proxy.ts.
use botroost.Prelude.{
  ℕ, ◌≤◌, true, false, some, List, [], ◌∷◌, number_test, ◌≡◌, refl, ap, arith, All,
}
use botroost.RuntimeProxy.DialHost.{
  trim_start, trim_end, lower, strip_open, strip_close, all_allowed, split, has, is_quad, judge,
  dial_host,
}

abbrev pub IsDigit : ℕ → Type 0
IsDigit c = (48 ≤ c) × (c ≤ 57)

trim_start-digits : (cs : List ℕ) → All IsDigit cs → trim_start cs ≡ cs
unfolding trim_start
trim_start-digits [] h = refl
trim_start-digits (c ∷ cs) h = let l = h.0.0 in let u = h.0.1 in ground (arith, l, u)

trim_end-digits : (cs : List ℕ) → All IsDigit cs → trim_end cs ≡ cs
unfolding trim_end
trim_end-digits [] h = refl
trim_end-digits (c ∷ cs) h =
    let l = h.0.0 in let u = h.0.1 in ground (arith, l, u, trim_end-digits cs h.1)

lower-digits : (cs : List ℕ) → All IsDigit cs → lower cs ≡ cs
unfolding lower
lower-digits [] h = refl
lower-digits (c ∷ cs) h =
    let l = h.0.0 in let u = h.0.1 in ground (arith, l, u, lower-digits cs h.1)

strip_open-digits : (cs : List ℕ) → All IsDigit cs → strip_open cs ≡ cs
unfolding strip_open
strip_open-digits [] h = refl
strip_open-digits (c ∷ cs) h = let u = h.0.1 in ground (arith, u)

strip_close-digits : (cs : List ℕ) → All IsDigit cs → strip_close cs ≡ cs
unfolding strip_close
strip_close-digits [] h = refl
strip_close-digits (c ∷ []) h = let u = h.0.1 in ground (arith, u)
strip_close-digits (c ∷ d ∷ cs) h = ap (λ ds. c ∷ ds) (strip_close-digits (d ∷ cs) h.1)

all_allowed-digits : (cs : List ℕ) → All IsDigit cs → all_allowed cs ≡ true
unfolding all_allowed
all_allowed-digits [] h = refl
all_allowed-digits (c ∷ cs) h =
    let l = h.0.0 in let u = h.0.1 in ground (arith, l, u, all_allowed-digits cs h.1)

split-digits : (cs : List ℕ) → All IsDigit cs → split 46 cs ≡ cs ∷ []
unfolding split
split-digits [] h = refl
split-digits (c ∷ cs) h = let l = h.0.0 in ground (arith, l, split-digits cs h.1)

has-digits : (cs : List ℕ) → All IsDigit cs → (has 46 cs ≡ false) × (has 58 cs ≡ false)
unfolding has
has-digits [] h = (refl, refl)
has-digits (c ∷ cs) h =
    let l = h.0.0 in
    let u = h.0.1 in
    let rest = has-digits cs h.1 in
    let dot = rest.0 in
    let colon = rest.1 in (ground (arith, l, u, dot), ground (arith, l, u, colon))

judge-digits : (c : ℕ) (cs : List ℕ) → All IsDigit (c ∷ cs) → judge (c ∷ cs) ≡ some (c ∷ cs)
unfolding judge is_quad
judge-digits c cs h =
    let absent = has-digits (c ∷ cs) h in
    rw (all_allowed-digits (c ∷ cs) h, split-digits (c ∷ cs) h, absent.0, absent.1) (ground arith)

-- A host that is written in digits alone is accepted, whatever the digits are.
pub dial_host-digits :
    (c : ℕ) (cs : List ℕ) → All IsDigit (c ∷ cs) → dial_host (some (c ∷ cs)) ≡ some (c ∷ cs)
unfolding dial_host
dial_host-digits c cs h =
    rw
      (
        trim_start-digits (c ∷ cs) h,
        trim_end-digits (c ∷ cs) h,
        lower-digits (c ∷ cs) h,
        strip_open-digits (c ∷ cs) h,
        strip_close-digits (c ∷ cs) h,
      )
      (judge-digits c cs h)
