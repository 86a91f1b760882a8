-- ===== src/Runtime/LoginPorts.antt =====
-- `llbotLoginPorts` of apps/agent/src/llbot-runtime.ts and `snowlumaLoginPorts` of
-- apps/agent/src/snowluma-runtime.ts, of identifiers that `endpointIdPattern` takes.
use Prim.Native.Char.{code}
use botroost.Prelude.{ℕ, zero, suc, ◌+◌, ◌*◌, ◌-◌, String, leb, if◌then◌else◌}
use Prim.Native.Nat.{◌%◌}

hex_digit : ℕ → ℕ
hex_digit n = if leb 97 n then n - 87 else if leb 65 n then n - 55 else n - 48

-- `Number.parseInt(endpointId.slice(0, count), 16)`, with the value of what stands before.
hex_value : ℕ → ℕ → String → ℕ
unfolding hex_digit
hex_value zero value s = value
hex_value (suc count) value String.[] = value
hex_value (suc count) value (String.◌∷◌ c s) = hex_value count (value * 16 + hex_digit (code c)) s

-- `offset`
unfoldable pub offset_of : String → ℕ
unfolding hex_value
offset_of endpoint_id = hex_value 4 0 endpoint_id % 400
