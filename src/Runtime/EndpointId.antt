-- ===== src/Runtime/EndpointId.antt =====
-- `endpointIdPattern`, which apps/agent/src/index.ts and the other runtimes share: a UUID of the
-- versions 1 to 5, in either case.
use Prim.Native.Char.{code}
use botroost.Prelude.{
  ℕ, String, Bool, true, false, ◌&&◌, ◌||◌, List, [], ◌∷◌, ◌++◌, leb, ◌==◌, number_test,
}

-- One place of the pattern: `[0-9a-f]`, `-`, `[1-5]` or `[89ab]`.
pub data Place : Type 0 where
  hex dash version variant : Place

abbrev pub between : ℕ → ℕ → ℕ → Bool
between low high n = leb low n && leb n high

unfoldable pub fits : Place → ℕ → Bool
fits hex n = between 48 57 n || (between 97 102 n || between 65 70 n)
fits dash n = n == 45
fits version n = between 49 53 n
fits variant n = between 56 57 n || (between 97 98 n || between 65 66 n)

abbrev pub four : List Place
four = hex ∷ hex ∷ hex ∷ hex ∷ []

abbrev pub three : List Place
three = hex ∷ hex ∷ hex ∷ []

abbrev pub places : List Place
places =
    four
    ++ four
    ++ dash ∷ four
    ++ dash ∷ version ∷ three
    ++ dash ∷ variant ∷ three
    ++ dash ∷ four
    ++ four
    ++ four

unfoldable pub matches : List Place → String → Bool
unfolding fits
matches [] String.[] = true
matches [] (String.◌∷◌ c s) = false
matches (p ∷ ps) String.[] = false
matches (p ∷ ps) (String.◌∷◌ c s) = fits p (code c) && matches ps s

-- `endpointIdPattern.test(endpointId)`
unfoldable pub is_endpoint_id : String → Bool
unfolding matches
is_endpoint_id id = matches places id
