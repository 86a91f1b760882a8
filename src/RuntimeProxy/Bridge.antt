-- ===== src/RuntimeProxy/Bridge.antt =====
-- `bridgeHttp` of apps/api/src/runtime-proxy.ts, up to the call of the runtime: what a request is
-- answered, and what that does to the tickets. The path behind the mount is left to the caller.
use botroost.Prelude.{
  ℕ, suc, ◌+◌, ◌≤◌, ◌<◌, String, ◌≡◌, ◌≢◌, refl, ◌∙◌, ap, sym, subst, Bool, true, false, Option,
  none, some, List, not, ◌&&◌, ◌==◌, text_test, number_test, if◌then◌else◌, eq_iff, arith, is_some,
  length, All,
}
use botroost.RuntimeProxy.{
  TicketStore, redeem, mint, Request, RuntimeRoute, answered, Options, refused, resolved, Target,
  Resolved, resolve_target, status_of, ticket_limit,
}
use botroost.RuntimeProxy.Tickets.{Use, use_ticket}
use botroost.RuntimeProxy.Lifetime.{Before, use_all, minted_redeems}
use botroost.RuntimeProxy.Gate.{resolve_iff, Credential}

-- What a request is answered: a refusal with its status, readable by a sandboxed frame or not; a
-- redirect to the mount of a new ticket; the answer to a preflight; or what the runtime answers.
pub data Reply : Type 0 where
  refusal : ℕ → Bool → Reply
  redirect : String → Reply
  preflight : Reply
  forward : Target → Reply

module _ (options : Options) where
  -- The port is `Number(port)` of the mount again, which a resolved request has.
  mint_for : ℕ → String → Request → String → Option ℕ → TicketStore → TicketStore
  mint_for now token request workspace_id none s = s
  mint_for now token request workspace_id (some port) s =
      mint now token request.endpoint_id port workspace_id s

  answer_resolved : ℕ → String → Request → Bool → Target → TicketStore → Reply × TicketStore
  unfolding mint_for
  answer_resolved now token request asks_headers t s =
      if not t.ticketed && (request.method == "GET" && request.accepts_html)
      then (redirect token, mint_for now token request t.workspace_id request.port s)
      else if t.ticketed && (request.method == "OPTIONS" && asks_headers)
      then (preflight, s)
      else (forward t, s)

  answer : ℕ → String → Request → Bool → Resolved × TicketStore → Reply × TicketStore
  unfolding answer_resolved
  answer now token request asks_headers (refused e, s) =
      (refusal (status_of e) (is_some request.ticket), s)
  answer now token request asks_headers (resolved t, s) =
      answer_resolved now token request asks_headers t s

  -- `bridgeHttp`: `token` is what `mint` draws, `asks_headers` whether the request has the header
  -- access-control-request-method.
  unfoldable pub bridge_http : ℕ → String → Request → Bool → TicketStore → Reply × TicketStore
  unfolding answer
  bridge_http now token request asks_headers s =
      answer now token request asks_headers (resolve_target options now request s)

  document_redirects :
      (start : ℕ) (token : String) (first : Request) (port : ℕ) (t : Target) (s : TicketStore)
      (asks_headers : Bool)
      → resolve_target options start first s ≡ (resolved t, s)
      → t.ticketed ≡ false
      → first.method ≡ "GET"
      → first.accepts_html ≡ true
      → first.port ≡ some port
      → bridge_http start token first asks_headers s
        ≡ (redirect token, mint start token first.endpoint_id port t.workspace_id s)
  unfolding bridge_http answer_resolved
  document_redirects start token first port t s asks_headers r session get html at =
      let is_get : (first.method == "GET") ≡ true = (eq_iff first.method "GET").1 get in
      rw (r) (ground (arith, session, is_get, html, at))

  ticket_resolves :
      (now : ℕ) (token : String) (later : Request) (port : ℕ) (owner : String)
      (route : RuntimeRoute) (s : TicketStore)
      → later.endpoint_id ≢ ""
      → later.port ≡ some port
      → 0 < port
      → port ≤ 65535
      → later.ticket ≡ some token
      → owner ≢ ""
      → (redeem now token later.endpoint_id port s).0 ≡ some owner
      → options.route owner later.endpoint_id port ≡ answered (some route)
      → (resolve_target options now later s).0
        ≡ resolved (record { target = route; workspace_id = owner; ticketed = true })
  unfolding Credential
  ticket_resolves now token later port owner route s named at low high given owned redeems routed =
      let t : Target = record { target = route; workspace_id = owner; ticketed = true } in
      let credential : Credential options now later s port owner true later.ticket =
        subst (λ o. Credential options now later s port owner true o) (sym given)
          (refl, (owned, redeems)) in
      (resolve_iff options now later s t).1
        (named, (port, ((at, (low, high)), (credential, routed))))

  -- A document request that the gate lets through by the session is redirected to a ticketed mount.
  -- A request there, whatever its method and its headers, is let through to the same workspace and
  -- to where the database routes it, until the ticket ends and while the store has room.
  pub redirect_is_good :
      (start now : ℕ) (token : String) (first later : Request) (port : ℕ) (t : Target)
      (route : RuntimeRoute) (s : TicketStore) (us : List Use) (asks_headers : Bool)
      → (resolve_target options start first s) ≡ (resolved t, s)
      → t.ticketed ≡ false
      → first.method ≡ "GET"
      → first.accepts_html ≡ true
      → first.port ≡ some port
      → t.workspace_id ≢ ""
      → later.endpoint_id ≡ first.endpoint_id
      → later.port ≡ some port
      → later.ticket ≡ some token
      → options.route t.workspace_id first.endpoint_id port ≡ answered (some route)
      → All (Before (start + s.ttl_ms) token) us
      → now < start + s.ttl_ms
      → suc (length s.entries + length us) ≤ ticket_limit
      → ((bridge_http start token first asks_headers s).0 ≡ redirect token)
        × ((resolve_target options now later
              (use_all us (bridge_http start token first asks_headers s).1)).0
            ≡ resolved (record { target = route; workspace_id = t.workspace_id; ticketed = true }))
  unfolding use_ticket
  redirect_is_good start now token first later port t route s us asks_headers r session get html at
        owner same_id same_port given routed before time room =
      let shown =
        document_redirects start token first port t s asks_headers r session get html at in
      let (named, (n, ((at_n, (low, high)), _))) =
        (resolve_iff options start first s t).0 (ap (λ (x : Resolved × TicketStore). x.0) r) in
      let same_n : n ≡ port = ground (arith, at_n, at) in
      let redeems =
        minted_redeems
          (record {
            now = start;
            token = token;
            endpoint_id = first.endpoint_id;
            port = port;
            workspace_id = t.workspace_id;
          })
          us now s before time room in
      (
        ap (λ (x : Reply × TicketStore). x.0) shown,
        rw (shown) (
            ticket_resolves now token later port t.workspace_id route
              (use_all us (mint start token first.endpoint_id port t.workspace_id s))
              (λ e. named (sym same_id ∙ e)) same_port (omega (arith, low, same_n))
              (omega (arith, high, same_n)) given owner
              (subst
                (λ id.
                  (redeem now token id port
                    (use_all us (mint start token first.endpoint_id port t.workspace_id s))).0
                  ≡ some t.workspace_id)
                (sym same_id) redeems)
              (subst (λ id. options.route t.workspace_id id port ≡ answered (some route))
                (sym same_id) routed)),
      )
