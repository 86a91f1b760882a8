-- ===== src/Runtime/Members.antt =====
-- Readings of an entry of the console's WebSocket lists, which apps/agent/src/llbot-runtime.ts and
-- apps/agent/src/snowluma-runtime.ts share: `asJsonList`, `numberOr` and the tests on its members.
use botroost.Prelude.{
  Bool, false, not, String, Option, none, some, List, [], ◌∷◌, ◌==◌, text_test, if◌then◌else◌,
}
use botroost.Json.{Json, Items, Fields, bool, num, str, arr, obj, nil, cons}
use botroost.Runtime.Websockets.{member}

-- What the mappings ask of a number: `Number.isInteger(value) && value > 0`, `Number.isFinite(value)`
-- and `Math.max(1000, Math.trunc(value))`, of a number as the text that JSON has for it.
pub record Numbers : Type 0 where
  pub is_port : String → Bool
  pub is_finite : String → Bool
  pub as_interval : String → String

pub objects_of : Items → List Fields
objects_of nil = []
objects_of (cons (obj fields) vs) = fields ∷ objects_of vs
objects_of (cons _ vs) = objects_of vs

-- `asJsonList`
unfoldable pub as_list : Option Json → List Fields
unfolding objects_of
as_list (some (arr items)) = objects_of items
as_list _ = []

unfoldable pub is_bool : Bool → Option Json → Bool
is_bool wanted (some (bool b)) = if wanted then b else not b
is_bool wanted _ = false

unfoldable pub is_text : String → Option Json → Bool
is_text wanted (some (str s)) = s == wanted
is_text wanted _ = false

-- `typeof value === "string" && value ? value : other`
unfoldable pub text_or : String → Option Json → String
text_or other (some (str s)) = if s == "" then other else s
text_or other _ = other

-- `typeof value === "string" ? value : other`
unfoldable pub any_text_or : String → Option Json → String
any_text_or other (some (str s)) = s
any_text_or other _ = other

-- `typeof value === "number" && test(value) ? value : other`
unfoldable pub number_or : (String → Bool) → String → Option Json → String
number_or test other (some (num n)) = if test n then n else other
number_or test other _ = other

-- `previous?.[key]`
unfoldable pub previous_member : String → Option Fields → Option Json
unfolding member
previous_member key none = none
previous_member key (some fields) = member key fields

-- `value.messagePostFormat === "string" ? "string" : "array"`
unfoldable pub message_format : String → Fields → String
unfolding is_text member
message_format key value = if is_text "string" (member key value) then "string" else "array"
