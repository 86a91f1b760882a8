-- ===== src/Runtime/LlbotWebsockets.antt =====
-- `mapOneBotWebsockets` of LLBotRuntime, in apps/agent/src/llbot-runtime.ts: the console's lists as
-- the entries of `ob11.connect`.
use botroost.Prelude.{
  Bool, true, false, not, ◌||◌, String, Option, none, some, List, [], ◌∷◌, ◌++◌, ◌==◌, text_test,
  if◌then◌else◌, keep,
}
use botroost.Json.{Json, Fields, bool, num, str, arr, obj, end, field}
use botroost.Programs.{return, throw, ◌>>=◌}
use botroost.Runtime.{Task}
use botroost.Runtime.Websockets.{member, with_member, as_object, items_of}
use botroost.Runtime.Members.{
  Numbers, as_list, is_bool, is_text, text_or, any_text_or, number_or, previous_member,
  message_format,
}

-- `entry.type === type`
unfoldable pub has_type : String → Fields → Bool
unfolding is_text member
has_type type entry = is_text type (member "type" entry)

-- The token of an entry: its own, or that of the entry that stood in its place.
unfoldable pub token_of : Fields → Option Fields → String
unfolding text_or any_text_or previous_member member
token_of value previous =
    text_or (any_text_or "" (previous_member "token" previous)) (member "token" value)

-- The members that servers and clients have in common, from `heartInterval` on.
unfoldable pub common_members : Numbers → Fields → Option Fields → Fields
unfolding number_or token_of is_bool previous_member message_format member
common_members numbers value previous =
    field "heartInterval" (num (number_or numbers.is_finite "60000" (member "heartInterval" value)))
      (field "token" (str (token_of value previous)) (
        field "reportSelfMessage" (bool (is_bool true (member "reportSelfMessage" value))) (
          field "reportOfflineMessage"
            (bool (is_bool true (previous_member "reportOfflineMessage" previous)))
            (field "messageFormat" (str (message_format "messagePostFormat" value))
              (field "debug" (bool false) end)))))

unfoldable pub server_entry : Numbers → Fields → Option Fields → Task Fields
unfolding common_members is_bool text_or number_or member
server_entry numbers value previous = return (
    field "type" (str "ws") (
      field "enable" (bool (not (is_bool false (member "enable" value)))) (
        field "host" (str (text_or "0.0.0.0" (member "host" value))) (
          field "port" (num (number_or numbers.is_port "3001" (member "port" value)))
            (common_members numbers value previous)))))

unfoldable pub client_entry : Numbers → Fields → Option Fields → Task Fields
unfolding common_members is_bool text_or member
client_entry numbers value previous =
    if text_or "" (member "url" value) == ""
    then throw "OneBot websocket client url is required"
    else return (
        field "type" (str "ws-reverse") (
          field "enable" (bool (not (is_bool false (member "enable" value)))) (
            field "url" (str (text_or "" (member "url" value)))
              (common_members numbers value previous))))

abbrev pub head : List Fields → Option Fields
head [] = none
head (entry ∷ rest) = some entry

abbrev pub tail : List Fields → List Fields
tail [] = []
tail (entry ∷ rest) = rest

-- `raws.map((raw, index) => ...)`, each with the previous entry of its index.
unfoldable pub map_entries :
    (Fields → Option Fields → Task Fields) → List Json → List Fields → Task (List Json)
map_entries entry_of [] previous = return []
map_entries entry_of (obj value ∷ raws) previous = do
  entry ← entry_of value (head previous)
  rest ← map_entries entry_of raws (tail previous)
  return (obj entry ∷ rest)
map_entries entry_of (_ ∷ raws) previous = throw "OneBot websocket entry is invalid"

objects : List Fields → List Json
objects [] = []
objects (entry ∷ rest) = obj entry ∷ objects rest

-- `mapOneBotWebsockets`
unfoldable pub map_websockets : Numbers → Fields → List Json → List Json → Task Fields
unfolding map_entries server_entry client_entry has_type as_list as_object with_member member
    objects
map_websockets numbers config clients servers =
    let ob11 = as_object (member "ob11" config) in
    let connect = as_list (member "connect" ob11) in
    let passthrough = keep (λ entry. has_type "http" entry || has_type "http-post" entry) connect in
    do
      mapped_servers ← map_entries (server_entry numbers) servers (keep (has_type "ws") connect)
      mapped_clients ←
          map_entries (client_entry numbers) clients (keep (has_type "ws-reverse") connect)
      return (
          with_member "ob11"
            (obj (
              with_member "connect"
                (arr (items_of (objects passthrough ++ (mapped_servers ++ mapped_clients))))
                (with_member "enable" (bool true) ob11)))
            config)
