-- ===== src/RuntimeProxy/Tickets.antt =====
-- The ticket store of apps/api/src/runtime-proxy.ts: where the tickets that it redeems come from.
use botroost.Prelude.{
  ℕ, suc, ◌+◌, ◌<◌, String, ◌≡◌, ◌⊎◌, inl, inr, refl, ◌∙◌, subst, Bool, Option, some, List, [], ◌∷◌,
  leb, not, ◌||◌, ◌==◌, text_test, number_test, if_rule, Bool-cases, Option-cases, eq_iff, length,
  keep, Assoc, lookup, insert, erase, arith, All,
}
use botroost.RuntimeProxy.{
  RuntimeTicket, TicketStore, ticket_limit, is_live, sweep, make_room, mint, redeem,
}

-- What a ticket proves: a mint of a token, with its mount, its workspace and its end.
pub record Minted : Type 0 where
  pub now : ℕ
  pub token : String
  pub endpoint_id : String
  pub port : ℕ
  pub workspace_id : String

pub data Use : Type 0 where
  minted : Minted → Use
  redeemed : ℕ → String → String → ℕ → Use

unfoldable pub use_ticket : Use → TicketStore → TicketStore
use_ticket (minted m) s = mint m.now m.token m.endpoint_id m.port m.workspace_id s
use_ticket (redeemed now token endpoint_id port) s = (redeem now token endpoint_id port s).1

-- A history of the store, the latest use first.
unfoldable pub history : ℕ → List Use → TicketStore
history ttl_ms [] = record { entries = []; ttl_ms = ttl_ms }
history ttl_ms (u ∷ us) = use_ticket u (history ttl_ms us)

abbrev ticket_of : ℕ → Minted → RuntimeTicket
ticket_of ttl_ms m = record {
  endpoint_id = m.endpoint_id;
  port = m.port;
  workspace_id = m.workspace_id;
  expires_at = m.now + ttl_ms;
}

-- The history mints the token, as this ticket.
unfoldable pub Mints : ℕ → List Use → String → RuntimeTicket → Type 0
Mints ttl_ms [] token t = ⊥
Mints ttl_ms (minted m ∷ us) token t =
    ((m.token ≡ token) × (ticket_of ttl_ms m ≡ t)) ⊎ Mints ttl_ms us token t
Mints ttl_ms (redeemed now other endpoint_id port ∷ us) token t = Mints ttl_ms us token t

abbrev Covered : (String → RuntimeTicket → Type 0) → Assoc String RuntimeTicket → Type 0
Covered P es = All (λ e. P e.0 e.1) es

module _ (P : String → RuntimeTicket → Type 0) where
  Covered-keep :
      (p : String × RuntimeTicket → Bool) (es : Assoc String RuntimeTicket)
      → Covered P es
      → Covered P (keep p es)
  Covered-keep p [] h = tt
  Covered-keep p (e ∷ es) h =
      if_rule (λ r. Covered P r) (p e) _ _ (λ _. (h.0, Covered-keep p es h.1))
        (λ _. Covered-keep p es h.1)

  Covered-make_room : (es : Assoc String RuntimeTicket) → Covered P es → Covered P (make_room es)
  unfolding make_room
  Covered-make_room [] h = tt
  Covered-make_room (e ∷ es) h =
      if_rule (λ r. Covered P r) (leb ticket_limit (suc (length es))) es (e ∷ es) (λ _. h.1)
        (λ _. h)

  Covered-insert :
      (token : String) (t : RuntimeTicket) (es : Assoc String RuntimeTicket)
      → P token t
      → Covered P es
      → Covered P (insert token t es)
  unfolding insert
  Covered-insert token t [] p h = (p, tt)
  Covered-insert token t (e ∷ es) p h = elim (Bool-cases (e.0 == token)) [
    | inl q ↦ rw (q) (rw ((eq_iff e.0 token).0 q) p, h.1)
    | inr q ↦ rw (q) (h.0, Covered-insert token t es p h.1)
  ]

  Covered-erase :
      (token : String) (es : Assoc String RuntimeTicket) → Covered P es → Covered P (erase token es)
  unfolding erase
  Covered-erase token [] h = tt
  Covered-erase token (e ∷ es) h =
      if_rule (λ r. Covered P r) (e.0 == token) _ _ (λ _. Covered-erase token es h.1)
        (λ _. (h.0, Covered-erase token es h.1))

  Covered-lookup :
      (token : String) (es : Assoc String RuntimeTicket) (t : RuntimeTicket)
      → Covered P es
      → lookup token es ≡ some t
      → P token t
  unfolding lookup
  Covered-lookup token [] t h e = ground (arith, e)
  Covered-lookup token (x ∷ es) t h e = elim (Bool-cases (x.0 == token)) [
    | inl q ↦
        subst (λ k. P k t) ((eq_iff x.0 token).0 q)
          (subst (λ u. P x.0 u) (ground (arith, e, q)) h.0)
    | inr q ↦ Covered-lookup token es t h.1 (ground (arith, e, q))
  ]

Covered-weaken :
    (P Q : String → RuntimeTicket → Type 0)
    → ((k : String) (t : RuntimeTicket) → P k t → Q k t)
    → (es : Assoc String RuntimeTicket) → Covered P es
    → Covered Q es
Covered-weaken P Q f [] h = tt
Covered-weaken P Q f (e ∷ es) h = (f e.0 e.1 h.0, Covered-weaken P Q f es h.1)

mint-Covered :
    (ttl_ms : ℕ) (m : Minted) (us : List Use) (s : TicketStore)
    → s.ttl_ms ≡ ttl_ms
    → Covered (Mints ttl_ms us) s.entries
    → Covered (Mints ttl_ms (minted m ∷ us)) (use_ticket (minted m) s).entries
unfolding use_ticket mint sweep Mints
mint-Covered ttl_ms m us s e h =
    let P = Mints ttl_ms (minted m ∷ us) in
    let more = Covered-weaken (Mints ttl_ms us) P (λ k t p. inr p) s.entries h in
    let live = Covered-keep P (is_live m.now) s.entries more in
    rw (e) (
      Covered-insert P m.token (ticket_of ttl_ms m) (make_room (sweep m.now s.entries))
        (inl (refl, refl)) (Covered-make_room P (sweep m.now s.entries) live))

redeem-Covered :
    (P : String → RuntimeTicket → Type 0) (now : ℕ) (token endpoint_id : String) (port : ℕ)
    (s : TicketStore)
    → Covered P s.entries
    → Covered P (redeem now token endpoint_id port s).1.entries
unfolding redeem
redeem-Covered P now token endpoint_id port s h = elim (Option-cases (lookup token s.entries)) [
  | inl q ↦ rw (q) h
  | inr (t, q) ↦ rw (q) (
      if_rule (λ (r : Option String × TicketStore). Covered P r.1.entries) (leb t.expires_at now) _
        _ (λ _. Covered-erase P token s.entries h)
        (λ _.
          if_rule (λ (r : Option String × TicketStore). Covered P r.1.entries)
            (not (t.endpoint_id == endpoint_id) || not (t.port == port)) _ _ (λ _. h) (λ _. h)))
]

redeem-ttl :
    (now : ℕ) (token endpoint_id : String) (port : ℕ) (s : TicketStore)
    → (redeem now token endpoint_id port s).1.ttl_ms ≡ s.ttl_ms
unfolding redeem
redeem-ttl now token endpoint_id port s = elim (Option-cases (lookup token s.entries)) [
  | inl q ↦ rw (q) refl
  | inr (t, q) ↦ rw (q) (
      if_rule (λ (r : Option String × TicketStore). r.1.ttl_ms ≡ s.ttl_ms) (leb t.expires_at now) _
        _ (λ _. refl)
        (λ _.
          if_rule (λ (r : Option String × TicketStore). r.1.ttl_ms ≡ s.ttl_ms)
            (not (t.endpoint_id == endpoint_id) || not (t.port == port)) _ _ (λ _. refl)
            (λ _. refl)))
]

history-ttl : (ttl_ms : ℕ) (us : List Use) → (history ttl_ms us).ttl_ms ≡ ttl_ms
unfolding history use_ticket mint
history-ttl ttl_ms [] = refl
history-ttl ttl_ms (minted m ∷ us) = history-ttl ttl_ms us
history-ttl ttl_ms (redeemed now token endpoint_id port ∷ us) =
    redeem-ttl now token endpoint_id port (history ttl_ms us) ∙ history-ttl ttl_ms us

history-Covered :
    (ttl_ms : ℕ) (us : List Use) → Covered (Mints ttl_ms us) (history ttl_ms us).entries
unfolding history use_ticket Mints
history-Covered ttl_ms [] = tt
history-Covered ttl_ms (minted m ∷ us) =
    mint-Covered ttl_ms m us (history ttl_ms us) (history-ttl ttl_ms us) (history-Covered ttl_ms us)
history-Covered ttl_ms (redeemed now token endpoint_id port ∷ us) =
    redeem-Covered (Mints ttl_ms us) now token endpoint_id port (history ttl_ms us)
      (history-Covered ttl_ms us)

-- A redeemed ticket was found, is for this mount and has not run out.
pub redeem_sound :
    (now : ℕ) (token endpoint_id : String) (port : ℕ) (workspace_id : String) (s : TicketStore)
    → (redeem now token endpoint_id port s).0 ≡ some workspace_id
    → (t : RuntimeTicket) × ((lookup token s.entries ≡ some t)
        × ((t.endpoint_id ≡ endpoint_id)
            × ((t.port ≡ port) × ((t.workspace_id ≡ workspace_id) × (now < t.expires_at)))))
unfolding redeem
redeem_sound now token endpoint_id port workspace_id s =
    elim (Option-cases (lookup token s.entries)) [
      | inl q ↦ rw (q) (λ e. ground (arith, e))
      | inr (t, q) ↦ rw (q) (λ e. (t, (refl, ground (arith, e, eq_iff t.endpoint_id endpoint_id))))
    ]

-- Whatever has been minted and redeemed before, a token that is redeemed for a mount was minted for
-- that mount and for the workspace that it gives, and the time is before the end of that ticket.
pub redeemed_was_minted :
    (ttl_ms : ℕ) (us : List Use) (now : ℕ) (token endpoint_id : String) (port : ℕ)
    (workspace_id : String)
    → (redeem now token endpoint_id port (history ttl_ms us)).0 ≡ some workspace_id
    → (t : RuntimeTicket) × (Mints ttl_ms us token t
        × ((t.endpoint_id ≡ endpoint_id)
            × ((t.port ≡ port) × ((t.workspace_id ≡ workspace_id) × (now < t.expires_at)))))
redeemed_was_minted ttl_ms us now token endpoint_id port workspace_id e =
    let (t, (found, rest)) = redeem_sound now token endpoint_id port workspace_id _ e in
    (t, (Covered-lookup (Mints ttl_ms us) token _ t (history-Covered ttl_ms us) found, rest))
