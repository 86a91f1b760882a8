-- ===== src/Runtime/SnowlumaWebsockets.antt =====
-- `mapOneBotWebsockets` of SnowLumaRuntime, in apps/agent/src/snowluma-runtime.ts: the console's
-- lists as the entries of `networks`.
use Prim.Native.Char.{code}
use botroost.Prelude.{
  ℕ, Bool, true, false, ◌&&◌, ◌||◌, String, Option, none, some, List, [], ◌∷◌, ◌==◌, text_test,
  if◌then◌else◌, any, number_test, leb,
}
use botroost.Json.{Json, Fields, bool, num, str, arr, obj, end, field}
use botroost.Programs.{return, throw, ◌>>=◌}
use botroost.Runtime.{Task}
use botroost.Runtime.Websockets.{member, with_member, as_object, items_of}
use botroost.Runtime.Members.{
  Numbers, as_list, is_bool, is_text, text_or, any_text_or, number_or, previous_member,
  message_format,
}

-- What `trim` takes away: white space and the ends of lines.
abbrev is_space : ℕ → Bool
is_space n =
    (leb 9 n && leb n 13)
    || any (λ m. n == m) (32 ∷ 160 ∷ 5760 ∷ 8232 ∷ 8233 ∷ 8239 ∷ 8287 ∷ 12288 ∷ 65279 ∷ [])
    || (leb 8192 n && leb n 8202)

-- `!text.trim()`
unfoldable pub is_blank : String → Bool
is_blank String.[] = true
is_blank (String.◌∷◌ c s) = is_space (code c) && is_blank s

-- `requireName`
unfoldable pub require_name : Fields → Task String
unfolding is_blank any_text_or member
require_name value =
    if is_blank (any_text_or "" (member "name" value))
    then throw "OneBot websocket entry name is required"
    else return (any_text_or "" (member "name" value))

-- `preservedToken`
unfoldable pub preserved_token : Fields → Option Fields → String
unfolding text_or any_text_or previous_member member
preserved_token value previous =
    text_or (any_text_or "" (previous_member "accessToken" previous)) (member "token" value)

-- `previous.find(entry => entry.name === name)`
unfoldable pub find_entry : String → List Fields → Option Fields
unfolding is_text member
find_entry name [] = none
find_entry name (entry ∷ rest) =
    let found = find_entry name rest in
    if is_text name (member "name" entry) then some entry else found

-- `...(value.enable === false ? { enabled: false } : {})`
unfoldable pub enabled_member : Fields → Fields → Fields
unfolding is_bool member
enabled_member value rest =
    if is_bool false (member "enable" value) then field "enabled" (bool false) rest else rest

-- The members of an entry up to `reportSelfMessage`.
unfoldable pub head_members : String → Fields → Option Fields → Fields → Fields
unfolding enabled_member preserved_token message_format is_bool member
head_members name value previous rest = field "name" (str name) (
    enabled_member value (
      field "accessToken" (str (preserved_token value previous)) (
        field "messageFormat" (str (message_format "messagePostFormat" value)) (
          field "reportSelfMessage" (bool (is_bool true (member "reportSelfMessage" value)))
            rest))))

unfoldable pub server_entry : Numbers → String → Fields → Option Fields → Task Fields
unfolding head_members text_or number_or previous_member member
server_entry numbers name value previous = return (
    head_members name value previous (
      field "host" (str (text_or "0.0.0.0" (member "host" value))) (
        field "port" (num (number_or numbers.is_port "3001" (member "port" value))) (
          field "path" (str (text_or "/" (previous_member "path" previous)))
            (field "role" (str (text_or "Universal" (previous_member "role" previous))) end)))))

-- `reconnectIntervalMs`
unfoldable pub interval_of : Numbers → Option Json → String
interval_of numbers (some (num n)) = if numbers.is_finite n then numbers.as_interval n else "5000"
interval_of numbers _ = "5000"

unfoldable pub client_entry : Numbers → String → Fields → Option Fields → Task Fields
unfolding head_members text_or interval_of previous_member member
client_entry numbers name value previous =
    if text_or "" (member "url" value) == ""
    then throw "OneBot websocket client url is required"
    else return (
        head_members name value previous (
          field "url" (str (text_or "" (member "url" value))) (
            field "role" (str (text_or "Universal" (previous_member "role" previous))) (
              field "reconnectIntervalMs"
                (num (interval_of numbers (member "reconnectInterval" value))) end))))

-- `raws.map(raw => ...)`, each with the previous entry of its name.
unfoldable pub map_entries :
    (String → Fields → Option Fields → Task Fields) → List Json → List Fields → Task (List Json)
unfolding require_name find_entry
map_entries entry_of [] previous = return []
map_entries entry_of (obj value ∷ raws) previous = do
  name ← require_name value
  entry ← entry_of name value (find_entry name previous)
  rest ← map_entries entry_of raws previous
  return (obj entry ∷ rest)
map_entries entry_of (_ ∷ raws) previous = throw "OneBot websocket entry is invalid"

-- `mapOneBotWebsockets`
unfoldable pub map_websockets : Numbers → Fields → List Json → List Json → Task Fields
unfolding map_entries server_entry client_entry as_list as_object with_member member
map_websockets numbers config clients servers =
    let networks = as_object (member "networks" config) in
    do
      mapped_servers ←
          map_entries (server_entry numbers) servers (as_list (member "wsServers" networks))
      mapped_clients ←
          map_entries (client_entry numbers) clients (as_list (member "wsClients" networks))
      return (
          with_member "networks"
            (obj (
              with_member "wsClients" (arr (items_of mapped_clients))
                (with_member "wsServers" (arr (items_of mapped_servers)) networks)))
            config)
