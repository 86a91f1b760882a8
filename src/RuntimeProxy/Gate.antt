-- ===== src/RuntimeProxy/Gate.antt =====
-- The gate of apps/api/src/runtime-proxy.ts, `resolveTarget`: what it asks of a request.
use botroost.Prelude.{
  ℕ, ◌≤◌, ◌<◌, String, ◌≡◌, ◌≢◌, ◌↔◌, inl, inr, refl, ◌∙◌, ap, sym, subst, Bool, true, false,
  Option, none, some, List, ◌==◌, text_test, number_test, Bool-cases, eq_iff, arith,
}
use botroost.RuntimeProxy.{
  RuntimeTicket, TicketStore, redeem, Request, Answer, answered, threw, Options, resolved, Target,
  resolve_target, ticket_owner, route_to, session_owner, by_credential, at_port, valid_port,
  from_console,
}
use botroost.RuntimeProxy.Tickets.{Use, history, Mints, redeemed_was_minted}

module _ (options : Options) where
  -- The credential by which a request speaks for a workspace: the ticket in its path, which the
  -- store redeems for this mount, or, without one, the session, if the request comes from the
  -- console.
  unfoldable pub Credential : ℕ → Request → TicketStore → ℕ → String → Bool → Option String → Type 0
  Credential now request s port workspace_id ticketed (some token) =
      (ticketed ≡ true)
      × ((workspace_id ≢ "")
          × ((redeem now token request.endpoint_id port s).0 ≡ some workspace_id))
  Credential now request s port workspace_id ticketed none =
      (ticketed ≡ false)
      × ((from_console request ≡ true)
          × (options.authorize request request.endpoint_id port ≡ answered workspace_id))

  -- What a target is resolved from.
  abbrev pub Entitled : ℕ → Request → TicketStore → Target → ℕ → Type 0
  Entitled now request s t port =
      Credential now request s port t.workspace_id t.ticketed request.ticket
      × (options.route t.workspace_id request.endpoint_id port ≡ answered (some t.target))

  ticket_owner_iff :
      (id : String) (port : ℕ) (o : Option String) (t : Target)
      → (ticket_owner options id port o ≡ resolved t) ↔ (
          (t.ticketed ≡ true)
          × ((t.workspace_id ≢ "")
              × ((o ≡ some t.workspace_id)
                  × (options.route t.workspace_id id port ≡ answered (some t.target)))))
  unfolding ticket_owner route_to
  ticket_owner_iff id port none t = ground arith
  ticket_owner_iff id port (some owner) t =
      ground (arith, eq_iff owner "", eq_iff t.workspace_id "")

  session_owner_iff :
      (id : String) (port : ℕ) (a : Answer String) (t : Target)
      → (session_owner options id port a ≡ resolved t) ↔ (
          (t.ticketed ≡ false)
          × ((a ≡ answered t.workspace_id)
              × (options.route t.workspace_id id port ≡ answered (some t.target))))
  unfolding session_owner route_to
  session_owner_iff id port threw t = ground arith
  session_owner_iff id port (answered owner) t = ground arith

  in_range :
      (o : Option ℕ) (port : ℕ)
      → (valid_port o ≡ some port) ↔ ((o ≡ some port) × ((0 < port) × (port ≤ 65535)))
  unfolding valid_port
  in_range none port = ground arith
  in_range (some n) port = ground arith

  by_credential_iff :
      (now : ℕ) (request : Request) (s : TicketStore) (port : ℕ) (t : Target) (o : Option String)
      → ((by_credential options now request s request.endpoint_id port o).0 ≡ resolved t) ↔ (
          Credential now request s port t.workspace_id t.ticketed o
          × (options.route t.workspace_id request.endpoint_id port ≡ answered (some t.target)))
  unfolding by_credential Credential
  by_credential_iff now request s port t none = ground (
    arith,
    session_owner_iff request.endpoint_id port (options.authorize request request.endpoint_id port)
        t,
  )
  by_credential_iff now request s port t (some token) = ground (
    arith,
    ticket_owner_iff request.endpoint_id port (redeem now token request.endpoint_id port s).0 t,
  )

  at_port_iff :
      (now : ℕ) (request : Request) (s : TicketStore) (t : Target) (o : Option ℕ)
      → ((at_port options now request s o).0 ≡ resolved t)
        ↔ ((port : ℕ) × ((o ≡ some port) × Entitled now request s t port))
  unfolding at_port
  at_port_iff now request s t none = (λ e. ground (arith, e), λ (port, (e, h)). ground (arith, e))
  at_port_iff now request s t (some port) =
      let there = by_credential_iff now request s port t request.ticket in
      (
        λ e. (port, (refl, there.0 e)),
        λ (n, (e, h)).
            let same : n ≡ port = ground (arith, e) in
            there.1 (subst (λ k. Entitled now request s t k) same h),
      )

  -- A request is let through to a target exactly when it names an endpoint and a port from 1 to
  -- 65535, has a credential for this mount that gives the target's workspace, and the database
  -- routes that workspace's endpoint and port to the target.
  pub resolve_iff :
      (now : ℕ) (request : Request) (s : TicketStore) (t : Target)
      → ((resolve_target options now request s).0 ≡ resolved t) ↔ (
          (request.endpoint_id ≢ "")
          × ((port : ℕ) × (((request.port ≡ some port) × ((0 < port) × (port ≤ 65535)))
                × Entitled now request s t port)))
  unfolding resolve_target
  resolve_iff now request s t =
      let there = at_port_iff now request s t (valid_port request.port) in
      elim (Bool-cases (request.endpoint_id == "")) [
        | inl q ↦ rw (q) (
          λ e. ground (arith, e),
          λ (named, rest). ground (arith, named ((eq_iff request.endpoint_id "").0 q)),
        )
        | inr q ↦ rw (q) (
          λ e.
              let (port, (v, h)) = there.0 e in
              (
                λ n. ground (arith, q, (eq_iff request.endpoint_id "").1 n),
                (port, ((in_range request.port port).0 v, h)),
              ),
          λ (named, (port, (v, h))). there.1 (port, ((in_range request.port port).1 v, h)),
        )
      ]

  -- A mutation from elsewhere, with no ticket, is let through to nothing, and the ticket store is as
  -- it was.
  foreign_refused :
      (now : ℕ) (request : Request) (s : TicketStore) (t : Target)
      → request.ticket ≡ none
      → from_console request ≡ false
      → ((resolve_target options now request s).0 ≢ resolved t)
        × ((resolve_target options now request s).1 ≡ s)
  unfolding resolve_target at_port by_credential
  foreign_refused now request s t none_given foreign = ground (arith, none_given, foreign)

  -- Whatever the store has been used for before, a request that a ticket lets through carries a
  -- token that was minted for its endpoint and its port and for the workspace that is reached, and
  -- whose time is not over.
  pub ticketed_was_minted :
      (ttl_ms : ℕ) (us : List Use) (now : ℕ) (request : Request) (token : String) (t : Target)
      → request.ticket ≡ some token
      → (resolve_target options now request (history ttl_ms us)).0 ≡ resolved t
      → (m : RuntimeTicket) × (Mints ttl_ms us token m
          × ((m.endpoint_id ≡ request.endpoint_id)
              × ((request.port ≡ some m.port)
                  × ((m.workspace_id ≡ t.workspace_id) × (now < m.expires_at)))))
  unfolding Credential
  ticketed_was_minted ttl_ms us now request token t given e =
      let (named, (port, (at, (credential, route)))) =
        (resolve_iff now request (history ttl_ms us) t).0 e in
      let by_ticket : Credential now request (history ttl_ms us) port t.workspace_id t.ticketed
          (some token) =
        subst (λ o. Credential now request (history ttl_ms us) port t.workspace_id t.ticketed o)
          given credential in
      let (m, (minted_so, (same_id, (same_port, (same_workspace, time))))) =
        redeemed_was_minted ttl_ms us now token request.endpoint_id port t.workspace_id
          by_ticket.1.1 in
      (m, (minted_so, (same_id, (at.0 ∙ ap some (sym same_port), (same_workspace, time)))))
