-- ===== src/RuntimeProxy/DialHost/Blocks.antt =====
-- Hosts that are addresses of four numbers with dots, in `runtimeDialHost` of
-- apps/api/src/runtime-proxy.ts, against the blocks of addresses they are in.
use botroost.Prelude.{ℕ, ◌+◌, ◌*◌, ◌≤◌, ◌<◌, ◌⊎◌, true, List, [], ◌∷◌, number_test, ◌≡◌, All}
use botroost.RuntimeProxy.DialHost.{is_digit, all_of, number_of}

-- The 32-bit number of an address.
abbrev pub address : ℕ → ℕ → ℕ → ℕ → ℕ
address a b c d = ((a * 256 + b) * 256 + c) * 256 + d

-- The address lies among the `size` addresses from `first` on.
abbrev pub IsIn : ℕ → ℕ → ℕ → Type 0
IsIn first size n = (first ≤ n) × (n < first + size)

-- 127.0.0.0/8, 10.0.0.0/8, 172.16.0.0/12, 192.168.0.0/16 and 100.64.0.0/10
abbrev pub IsLocal : ℕ → Type 0
IsLocal n =
    IsIn 0x7f000000 0x1000000 n
    ⊎ (IsIn 0x0a000000 0x1000000 n
        ⊎ (IsIn 0xac100000 0x100000 n ⊎ (IsIn 0xc0a80000 0x10000 n ⊎ IsIn 0x64400000 0x400000 n)))

-- Four numbers of a byte each, whose address is a local one.
abbrev pub IsLocalQuad : List (List ℕ) → Type 0
IsLocalQuad (a ∷ b ∷ c ∷ d ∷ []) =
    (number_of 0 a ≤ 255)
    × (number_of 0 b ≤ 255)
    × (number_of 0 c ≤ 255)
    × (number_of 0 d ≤ 255)
    × IsLocal (address (number_of 0 a) (number_of 0 b) (number_of 0 c) (number_of 0 d))
IsLocalQuad _ = ⊥

abbrev AllDigits : List (List ℕ) → Type 0
AllDigits = All (λ (part : List ℕ). all_of is_digit part ≡ true)
