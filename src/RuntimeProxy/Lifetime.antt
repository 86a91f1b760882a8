-- ===== src/RuntimeProxy/Lifetime.antt =====
-- The ticket store of apps/api/src/runtime-proxy.ts: its size, and the life of one ticket in it.
use botroost.Prelude.{
  ℕ, suc, ◌+◌, ◌≤◌, ◌<◌, String, ◌≡◌, ◌≢◌, inl, inr, ◌∙◌, ap, subst, false, Option, some, List, [],
  ◌∷◌, ltb, leb, not, ◌||◌, ◌==◌, text_test, number_test, if_rule, Bool-cases, Option-cases,
  eq_refl, eq_iff, length, keep, Assoc, lookup, arith, lookup-insert_self, lookup-insert,
  lookup-erase, length-keep-le, All, length-insert-le, length-erase-le, lookup-keep, length-drop,
}
use botroost.RuntimeProxy.{
  RuntimeTicket, TicketStore, ticket_limit, is_live, sweep, make_room, mint, redeem,
}
use botroost.RuntimeProxy.Tickets.{Minted, Use, minted, redeemed, use_ticket, history}

length-make_room :
    (es : Assoc String RuntimeTicket)
    → length es ≤ ticket_limit
    → suc (length (make_room es)) ≤ ticket_limit
unfolding make_room
length-make_room es h = ground (arith, h, length-drop 1 es)

length-redeem-le :
    (now : ℕ) (token endpoint_id : String) (port : ℕ) (s : TicketStore)
    → length (redeem now token endpoint_id port s).1.entries ≤ length s.entries
unfolding redeem
length-redeem-le now token endpoint_id port s = elim (Option-cases (lookup token s.entries)) [
  | inl q ↦ rw (q) (omega arith)
  | inr (t, q) ↦ rw (q) (ground (arith, length-erase-le token s.entries))
]

-- The store never holds more than 512 tickets, whatever is minted and redeemed.
pub history-bounded :
    (ttl_ms : ℕ) (us : List Use) → length (history ttl_ms us).entries ≤ ticket_limit
unfolding history use_ticket mint sweep
history-bounded ttl_ms [] = omega arith
history-bounded ttl_ms (minted m ∷ us) =
    let s = history ttl_ms us in
    let live = sweep m.now s.entries in
    omega (
      arith,
      length-make_room live
          (omega (arith, length-keep-le (is_live m.now) s.entries, history-bounded ttl_ms us)),
      length-insert-le m.token
          (record {
            endpoint_id = m.endpoint_id;
            port = m.port;
            workspace_id = m.workspace_id;
            expires_at = m.now + s.ttl_ms;
          })
          (make_room live),
    )
history-bounded ttl_ms (redeemed now token endpoint_id port ∷ us) = omega (
  arith,
  length-redeem-le now token endpoint_id port (history ttl_ms us),
  history-bounded ttl_ms us,
)

-- Uses of the store, oldest first.
unfoldable pub use_all : List Use → TicketStore → TicketStore
use_all [] s = s
use_all (u ∷ us) s = use_all us (use_ticket u s)

-- A use that is made before a time, and mints no second ticket under a token.
unfoldable pub Before : ℕ → String → Use → Type 0
Before end token (minted m) = (m.now < end) × (m.token ≢ token)
Before end token (redeemed now other endpoint_id port) = now < end

abbrev Holds : String → RuntimeTicket → TicketStore → Type 0
Holds token t s = lookup token s.entries ≡ some t

abbrev Step : String → RuntimeTicket → TicketStore → TicketStore → Type 0
Step token t s s' = Holds token t s' × (length s'.entries ≤ suc (length s.entries))

mint-Holds :
    (m : Minted) (token : String) (t : RuntimeTicket) (s : TicketStore)
    → m.now < t.expires_at
    → m.token ≢ token
    → length s.entries < ticket_limit
    → Holds token t s
    → Step token t s (use_ticket (minted m) s)
unfolding use_ticket mint sweep make_room
mint-Holds m token t s time other room h =
    let live = keep (is_live m.now) s.entries in
    let less = length-keep-le (is_live m.now) s.entries in
    let kept =
      lookup-keep (λ (e : RuntimeTicket). ltb m.now e.expires_at) token s.entries t h
        (ground (arith, time)) in
    let new : RuntimeTicket = record {
      endpoint_id = m.endpoint_id;
      port = m.port;
      workspace_id = m.workspace_id;
      expires_at = m.now + s.ttl_ms;
    } in
    let e : leb ticket_limit (length live) ≡ false = ground (arith, less, room) in
    rw (e) (
      lookup-insert m.token token new live ∙ ground (arith, kept, other, eq_iff m.token token),
      omega (arith, less, length-insert-le m.token new live),
    )

redeem-Holds :
    (now : ℕ) (token other endpoint_id : String) (port : ℕ) (t : RuntimeTicket) (s : TicketStore)
    → now < t.expires_at
    → Holds token t s
    → Holds token t (redeem now other endpoint_id port s).1
unfolding redeem
redeem-Holds now token other endpoint_id port t s time h =
    elim (Option-cases (lookup other s.entries)) [
      | inl q ↦ rw (q) h
      | inr (u, q) ↦ rw (q) (
          if_rule (λ (r : Option String × TicketStore). Holds token t r.1) (leb u.expires_at now) _
            _
            (λ e. elim (Bool-cases (other == token)) [
              | inl k ↦
                  let same : lookup token s.entries ≡ some u =
                    subst (λ x. lookup x s.entries ≡ some u) ((eq_iff other token).0 k) q in
                  ground (arith, same, h, e, time)
              | inr k ↦ lookup-erase other token s.entries ∙ rw (k) h
            ])
            (λ _.
              if_rule (λ (r : Option String × TicketStore). Holds token t r.1)
                (not (u.endpoint_id == endpoint_id) || not (u.port == port)) _ _ (λ _. h) (λ _. h)))
    ]

use_all-Holds :
    (us : List Use) (token : String) (t : RuntimeTicket) (s : TicketStore)
    → All (Before t.expires_at token) us
    → length s.entries + length us ≤ ticket_limit
    → Holds token t s
    → Holds token t (use_all us s)
unfolding use_all use_ticket Before
use_all-Holds [] token t s before room h = h
use_all-Holds (minted m ∷ us) token t s before room h =
    let (held, less) = mint-Holds m token t s before.0.0 before.0.1 (omega (arith, room)) h in
    use_all-Holds us token t (use_ticket (minted m) s) before.1 (omega (arith, room, less)) held
use_all-Holds (redeemed now other endpoint_id port ∷ us) token t s before room h =
    use_all-Holds us token t (redeem now other endpoint_id port s).1 before.1
      (omega (arith, room, length-redeem-le now other endpoint_id port s))
      (redeem-Holds now token other endpoint_id port t s before.0 h)

redeem_held :
    (now : ℕ) (token : String) (t : RuntimeTicket) (s : TicketStore)
    → now < t.expires_at
    → Holds token t s
    → redeem now token t.endpoint_id t.port s ≡ (some t.workspace_id, s)
unfolding redeem
redeem_held now token t s time h =
    rw (h) (ground (arith, time, eq_refl t.endpoint_id, eq_refl t.port))

-- A ticket is good for its mount again and again until its end, whatever else is minted and
-- redeemed meanwhile, as long as the store has room and the token is not drawn a second time.
pub minted_redeems :
    (m : Minted) (us : List Use) (now : ℕ) (s : TicketStore)
    → All (Before (m.now + s.ttl_ms) m.token) us
    → now < m.now + s.ttl_ms
    → suc (length s.entries + length us) ≤ ticket_limit
    → (redeem now m.token m.endpoint_id m.port (use_all us (use_ticket (minted m) s))).0
      ≡ some m.workspace_id
unfolding use_ticket mint sweep make_room
minted_redeems m us now s before time room =
    let live = keep (is_live m.now) s.entries in
    let less = length-keep-le (is_live m.now) s.entries in
    let t : RuntimeTicket = record {
      endpoint_id = m.endpoint_id;
      port = m.port;
      workspace_id = m.workspace_id;
      expires_at = m.now + s.ttl_ms;
    } in
    let e : leb ticket_limit (length live) ≡ false = ground (arith, less, room) in
    let held : Holds m.token t (use_ticket (minted m) s) =
      rw (e) (lookup-insert_self m.token t live) in
    let grown : length (use_ticket (minted m) s).entries ≤ suc (length s.entries) =
      rw (e) (omega (arith, less, length-insert-le m.token t live)) in
    ap (λ (r : Option String × TicketStore). r.0)
      (redeem_held now m.token t (use_all us (use_ticket (minted m) s)) time (
        use_all-Holds us m.token t (use_ticket (minted m) s) before (omega (arith, room, grown))
          held))
