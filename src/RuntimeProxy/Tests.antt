-- ===== src/RuntimeProxy/Tests.antt =====
-- The theorems at concrete requests, and runs of the store and of the gate.
use botroost.Prelude.{
  ◌≤◌, ◌<◌, ◌≡◌, ◌≢◌, refl, ◌↔◌, ℕ, String, true, false, none, some, [], ◌∷◌, length, lookup,
  insert, text_test, eq_iff, Assoc, All, arith, ◌==◌, if◌then◌else◌,
}
use botroost.RuntimeProxy.{
  RuntimeTicket, TicketStore, mint, redeem, Request, RuntimeRoute, answered, Options, resolved,
  Target, resolve_target, from_console, is_safe, ticket_limit,
}
use botroost.RuntimeProxy.Tickets.{
  Minted, minted, redeemed, use_ticket, history, Mints, redeemed_was_minted,
}
use botroost.RuntimeProxy.Lifetime.{Before, use_all, history-bounded, minted_redeems}
use botroost.RuntimeProxy.Gate.{Entitled, resolve_iff, ticketed_was_minted}
use botroost.RuntimeProxy.Bridge.{bridge_http, redirect, redirect_is_good}
use botroost.RuntimeProxy.Headers.{
  Plugin, forwarded, forwarded_as, cookies_for, forwarded-lookup, console_cookie_withheld,
  is_withheld,
}
use botroost.RuntimeProxy.Response.{passed_back, passed_back-cors}

abbrev empty_store : TicketStore
empty_store = record { entries = []; ttl_ms = 100 }

abbrev tea : Minted
tea = record { now = 10; token = "tea"; endpoint_id = "ep"; port = 80; workspace_id = "ws" }

abbrev local_route : RuntimeRoute
local_route = record {
  host = "10.0.0.7";
  port = 6099;
  scheme = none;
  base_path = some "/webui";
  query = none;
}

abbrev options : Options
options = record {
  authorize = λ request id port. answered "ws";
  route = λ workspace_id id port. answered (some local_route);
}

abbrev document : Request
document = record {
  endpoint_id = "ep";
  port = some 80;
  ticket = none;
  method = "GET";
  marker = none;
  fetch_site = none;
  fetch_mode = none;
  accepts_html = true;
}

abbrev foreign_post : Request
foreign_post = record document { method = "POST"; fetch_site = some "cross-site" }

abbrev framed_post : Request
framed_post = record document { method = "POST"; ticket = some "tea" }

abbrev by_session : Target
by_session = record { target = local_route; workspace_id = "ws"; ticketed = false }

abbrev by_ticket : Target
by_ticket = record by_session { ticketed = true }

redeems_until_the_end : (redeem 109 "tea" "ep" 80 (history 100 (minted tea ∷ []))).0 ≡ some "ws"
unfolding redeem history use_ticket mint lookup insert
redeems_until_the_end = refl

not_for_another_port : (redeem 20 "tea" "ep" 81 (history 100 (minted tea ∷ []))).0 ≡ none
unfolding redeem history use_ticket mint lookup insert
not_for_another_port = refl

session_is_let_through :
    resolve_target options 5 document empty_store ≡ (resolved by_session, empty_store)
unfolding resolve_target from_console is_safe
session_is_let_through = refl

frame_is_let_through :
    (resolve_target options 50 framed_post (history 100 (minted tea ∷ []))).0 ≡ resolved by_ticket
unfolding resolve_target redeem history use_ticket mint lookup insert
frame_is_let_through = refl

early_uses : All (Before 110 "tea") (redeemed 20 "tea" "ep" 81 ∷ [])
unfolding Before
early_uses = (omega arith, tt)

foreign_post_is_foreign : from_console foreign_post ≡ false
unfolding from_console is_safe
foreign_post_is_foreign = refl

session_at_ten : resolve_target options 10 document empty_store ≡ (resolved by_session, empty_store)
unfolding resolve_target from_console is_safe
session_at_ten = refl

named : by_session.workspace_id ≢ ""
named e = let wrong : false ≡ true = (eq_iff "ws" "").1 e in ground (arith, wrong)

redeemed_was_minted_example :
    (t : RuntimeTicket) × (Mints 100 (minted tea ∷ []) "tea" t
      × ((t.endpoint_id ≡ "ep")
          × ((t.port ≡ 80) × ((t.workspace_id ≡ "ws") × (109 < t.expires_at)))))
redeemed_was_minted_example =
    redeemed_was_minted 100 (minted tea ∷ []) 109 "tea" "ep" 80 "ws" redeems_until_the_end

history-bounded_example :
    length (history 100 (redeemed 20 "tea" "ep" 80 ∷ minted tea ∷ [])).entries ≤ ticket_limit
history-bounded_example = history-bounded 100 (redeemed 20 "tea" "ep" 80 ∷ minted tea ∷ [])

minted_redeems_example :
    (redeem 109 "tea" "ep" 80
      (use_all (redeemed 20 "tea" "ep" 81 ∷ []) (use_ticket (minted tea) empty_store))).0
    ≡ some "ws"
minted_redeems_example =
    minted_redeems tea (redeemed 20 "tea" "ep" 81 ∷ []) 109 empty_store early_uses (omega arith)
      (omega arith)

resolve_iff_example : ((resolve_target options 5 document empty_store).0 ≡ resolved by_session) ↔ (
    (document.endpoint_id ≢ "")
    × ((port : ℕ) × (((some 80 ≡ some port) × ((0 < port) × (port ≤ 65535)))
          × Entitled options 5 document empty_store by_session port)))
resolve_iff_example = resolve_iff options 5 document empty_store by_session

ticketed_was_minted_example :
    (m : RuntimeTicket) × (Mints 100 (minted tea ∷ []) "tea" m
      × ((m.endpoint_id ≡ "ep")
          × ((some 80 ≡ some m.port) × ((m.workspace_id ≡ "ws") × (50 < m.expires_at)))))
ticketed_was_minted_example =
    ticketed_was_minted options 100 (minted tea ∷ []) 50 framed_post "tea" by_ticket refl
      frame_is_let_through

redirect_is_good_example :
    ((bridge_http options 10 "tea" document false empty_store).0 ≡ redirect "tea")
    × ((resolve_target options 50 framed_post
          (use_all [] (bridge_http options 10 "tea" document false empty_store).1)).0
        ≡ resolved by_ticket)
redirect_is_good_example =
    redirect_is_good options 10 50 "tea" document framed_post 80 by_session local_route empty_store
      [] false session_at_ten refl refl refl refl named refl refl refl refl tt (omega arith)
      (omega arith)

abbrev browser_headers : Assoc String String
browser_headers =
    ("cookie", "botroost_session=s; theme=dark; lang=en")
    ∷ ("origin", "https://console")
    ∷ ("accept", "*/*")
    ∷ []

abbrev jar : Assoc String String
jar = ("botroost_session", "s") ∷ ("theme", "dark") ∷ ("lang", "en") ∷ []

only_runtime_cookies : cookies_for (some jar) ≡ some "theme=dark; lang=en"
unfolding cookies_for
only_runtime_cookies = refl

-- A plugin that knows two Cookie headers.
abbrev plugin : Plugin
plugin none = some []
plugin (some header) =
    if header == "theme=dark; lang=en"
    then some (("theme", "dark") ∷ ("lang", "en") ∷ [])
    else if header == "botroost_session=s; theme=dark; lang=en"
    then some jar
    else none

forwarded_headers :
    forwarded plugin browser_headers "10.0.0.7:6099"
    ≡ ("accept", "*/*")
      ∷ ("host", "10.0.0.7:6099")
      ∷ ("accept-encoding", "identity")
      ∷ ("cookie", "theme=dark; lang=en")
      ∷ []
unfolding forwarded cookies_for is_withheld insert lookup
forwarded_headers = refl

forwarded-lookup_example :
    lookup "accept" (forwarded plugin browser_headers "10.0.0.7:6099")
    ≡ forwarded_as plugin "accept" browser_headers "10.0.0.7:6099"
forwarded-lookup_example = forwarded-lookup plugin "accept" browser_headers "10.0.0.7:6099"

console_cookie_withheld_example :
    forwarded plugin
      (insert "cookie" "botroost_session=s; theme=dark; lang=en" browser_headers)
      "10.0.0.7:6099"
    ≡ forwarded plugin (insert "cookie" "theme=dark; lang=en" browser_headers) "10.0.0.7:6099"
console_cookie_withheld_example =
    console_cookie_withheld plugin browser_headers "10.0.0.7:6099"
      "botroost_session=s; theme=dark; lang=en" "theme=dark; lang=en" "botroost_session" "s" []
      (("theme", "dark") ∷ ("lang", "en") ∷ []) refl refl refl

passed_back-cors_example :
    lookup "access-control-allow-origin"
      (passed_back true (("access-control-allow-origin", "https://evil") ∷ []))
    ≡ some "*"
passed_back-cors_example =
    passed_back-cors true (("access-control-allow-origin", "https://evil") ∷ [])
      "access-control-allow-origin" refl
