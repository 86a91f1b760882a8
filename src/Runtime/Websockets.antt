-- ===== src/Runtime/Websockets.antt =====
-- The OneBot WebSocket lists of a configuration: `preserveTokens` of update-onebot-websockets in
-- apps/agent/src/index.ts, and the readings of JSON members around it.
use botroost.Prelude.{
  Bool, true, false, not, String, Option, none, some, List, [], ◌∷◌, ltb, length, if◌then◌else◌,
  ◌==◌, text_test,
}
use botroost.Json.{Json, Items, Fields, null, bool, num, str, arr, obj, nil, cons, end, field}
use botroost.Programs.{return, throw, ◌>>=◌}
use botroost.Runtime.{Task}

-- `fields[key]`
unfoldable pub member : String → Fields → Option Json
member key end = none
member key (field k v rest) = if key == k then some v else member key rest

-- `{ ...fields, [key]: value }`
unfoldable pub with_member : String → Json → Fields → Fields
with_member key value end = field key value end
with_member key value (field k v rest) =
    let rest' = with_member key value rest in
    if key == k then field k value rest else field k v rest'

-- `asJsonObject`: an object, or `{}`.
unfoldable pub as_object : Option Json → Fields
as_object (some (obj fields)) = fields
as_object _ = end

pub list_of : Items → List Json
list_of nil = []
list_of (cons v vs) = v ∷ list_of vs

pub items_of : List Json → Items
items_of [] = nil
items_of (v ∷ vs) = cons v (items_of vs)

-- `a === b` of two members, where objects and arrays are never the same one.
unfoldable pub same_value : Option Json → Option Json → Bool
same_value none none = true
same_value (some null) (some null) = true
same_value (some (bool a)) (some (bool b)) = if a then b else not b
same_value (some (num a)) (some (num b)) = a == b
same_value (some (str a)) (some (str b)) = a == b
same_value _ _ = false

-- `previous.find(...)`: the first object with the name.
unfoldable pub find_name : Option Json → List Json → Option Fields
unfolding member same_value
find_name name [] = none
find_name name (obj fields ∷ vs) =
    let rest = find_name name vs in
    if same_value (member "name" fields) name then some fields else rest
find_name name (_ ∷ vs) = find_name name vs

-- `Array.isArray(previous) ? previous.find(...) : undefined`
unfoldable pub old_entry : Option Json → Option Json → Option Fields
unfolding find_name list_of
old_entry (some (arr items)) name = find_name name (list_of items)
old_entry _ name = none

abbrev text_or_none : Option Json → Option String
text_or_none (some (str s)) = some s
text_or_none _ = none

abbrev or_text : Option String → String → String
or_text (some s) other = s
or_text none other = other

abbrev or_none : Option Fields → Fields
or_none (some fields) = fields
or_none none = end

-- The token of an entry: its own, or that of the old entry, or "".
unfoldable pub preserved_token : Fields → Option Fields → String
unfolding member
preserved_token value old =
    or_text (text_or_none (member "token" value))
      (or_text (text_or_none (member "token" (or_none old))) "")

-- `preserveTokens`
unfoldable pub preserve_tokens : List Json → Option Json → Task (List Json)
unfolding with_member old_entry preserved_token member
preserve_tokens [] previous = return []
preserve_tokens (obj value ∷ vs) previous = do
  rest ← preserve_tokens vs previous
  return (
      obj (
        with_member "token" (str (preserved_token value (old_entry previous (member "name" value))))
          value)
      ∷ rest)
preserve_tokens (_ ∷ vs) previous = throw "OneBot websocket entry is invalid"

-- `!Array.isArray(list) || list.length > 20`
unfoldable pub is_bad_list : Option (List Json) → Bool
is_bad_list none = true
is_bad_list (some vs) = ltb 20 (length vs)

abbrev pub or_empty : Option (List Json) → List Json
or_empty (some vs) = vs
or_empty none = []
