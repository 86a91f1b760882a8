-- ===== src/Runtime/Discards/Websockets.antt =====
-- The mappings of the OneBot WebSocket lists make no calls: apps/agent/src/llbot-runtime.ts and
-- apps/agent/src/snowluma-runtime.ts.
use botroost.Prelude.{Bool, String, Option, List, [], ◌∷◌, text_test}
use botroost.Json.{Json, Fields, obj, null, bool, num, str, arr}
use botroost.Runtime.{Op, Reply, Task}
use botroost.Runtime.Members.{Numbers}
use botroost.Programs.Only.{Only, only_rules}
use botroost.Runtime.LlbotWebsockets
use botroost.Runtime.LlbotWebsockets.{tail}
use botroost.Runtime.SnowlumaWebsockets
use botroost.Runtime.SnowlumaWebsockets.{require_name}

llbot_entries-Only :
    (test : Op → Bool) (entry_of : Fields → Option Fields → Task Fields) (raws : List Json)
    (previous : List Fields)
    → ((value : Fields) (old : Option Fields) → Only Op Reply test (entry_of value old))
    → Only Op Reply test (LlbotWebsockets.map_entries entry_of raws previous)
unfolding LlbotWebsockets.map_entries
llbot_entries-Only test entry_of [] previous h = search only_rules
llbot_entries-Only test entry_of (obj value ∷ raws) previous h =
    let rest = llbot_entries-Only test entry_of raws (tail previous) h in
    search (only_rules, rest) depth 20
llbot_entries-Only test entry_of (null ∷ raws) previous h = search only_rules
llbot_entries-Only test entry_of (bool b ∷ raws) previous h = search only_rules
llbot_entries-Only test entry_of (num n ∷ raws) previous h = search only_rules
llbot_entries-Only test entry_of (str s ∷ raws) previous h = search only_rules
llbot_entries-Only test entry_of (arr items ∷ raws) previous h = search only_rules

pub llbot_map-Only :
    (test : Op → Bool) (numbers : Numbers) (config : Fields) (clients servers : List Json)
    → Only Op Reply test (LlbotWebsockets.map_websockets numbers config clients servers)
unfolding LlbotWebsockets.map_websockets LlbotWebsockets.server_entry LlbotWebsockets.client_entry
llbot_map-Only test numbers config clients servers =
    search (only_rules, llbot_entries-Only) depth 30

snowluma_entries-Only :
    (test : Op → Bool) (entry_of : String → Fields → Option Fields → Task Fields) (raws : List Json)
    (previous : List Fields)
    → ((name : String) (value : Fields) (old : Option Fields)
        → Only Op Reply test (entry_of name value old))
    → Only Op Reply test (SnowlumaWebsockets.map_entries entry_of raws previous)
unfolding SnowlumaWebsockets.map_entries require_name
snowluma_entries-Only test entry_of [] previous h = search only_rules
snowluma_entries-Only test entry_of (obj value ∷ raws) previous h =
    let rest = snowluma_entries-Only test entry_of raws previous h in search only_rules depth 30
snowluma_entries-Only test entry_of (null ∷ raws) previous h = search only_rules
snowluma_entries-Only test entry_of (bool b ∷ raws) previous h = search only_rules
snowluma_entries-Only test entry_of (num n ∷ raws) previous h = search only_rules
snowluma_entries-Only test entry_of (str s ∷ raws) previous h = search only_rules
snowluma_entries-Only test entry_of (arr items ∷ raws) previous h = search only_rules

pub snowluma_map-Only :
    (test : Op → Bool) (numbers : Numbers) (config : Fields) (clients servers : List Json)
    → Only Op Reply test (SnowlumaWebsockets.map_websockets numbers config clients servers)
unfolding SnowlumaWebsockets.map_websockets SnowlumaWebsockets.server_entry
    SnowlumaWebsockets.client_entry
snowluma_map-Only test numbers config clients servers =
    search (only_rules, snowluma_entries-Only) depth 30
