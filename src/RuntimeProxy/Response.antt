-- ===== src/RuntimeProxy/Response.antt =====
-- The headers of a runtime that apps/api/src/runtime-proxy.ts lets pass to a browser: how
-- `pipeResponse` begins them. The cookies that the runtime sets, redirects and bodies, which are
-- rewritten, are not modelled.
use botroost.Prelude.{
  String, ◌≡◌, inl, inr, refl, ◌∙◌, sym, subst, Bool, true, false, none, some, List, [], ◌∷◌, not,
  ◌||◌, ◌&&◌, ◌==◌, text_test, if◌then◌else◌, Bool-cases, eq_iff, arith, any, keep, Assoc, lookup,
  insert, lookup-insert,
}
use text.Mathlib.Text.{starts_with}
use botroost.RuntimeProxy.Headers.{keep_out}

-- `DROPPED_HEADERS`
abbrev dropped_headers : List String
dropped_headers =
    "location" ∷ "set-cookie" ∷ "content-length" ∷ "content-encoding" ∷ "transfer-encoding"
    ∷ "content-security-policy" ∷ "content-security-policy-report-only" ∷ "x-frame-options"
    ∷ "cross-origin-opener-policy" ∷ "cross-origin-embedder-policy" ∷ "cross-origin-resource-policy"
    ∷ "permissions-policy" ∷ "strict-transport-security" ∷ []

-- `UPSTREAM_CORS`
is_cors : String → Bool
is_cors name =
    starts_with name "access-control-"
    || (name == "cross-origin-resource-policy"
        || (name == "cross-origin-embedder-policy" || name == "cross-origin-opener-policy"))

unfoldable pub is_dropped : String → Bool
unfolding is_cors
is_dropped name = any (λ (dropped : String). name == dropped) dropped_headers || is_cors name

-- The response's headers as `pipeResponse` begins them: those of the runtime that pass, and, on a
-- ticketed mount, FRAME_CORS.
unfoldable pub passed_back : Bool → Assoc String String → Assoc String String
passed_back ticketed headers =
    let passed = keep (λ (h : String × String). not (is_dropped h.0)) headers in
    if ticketed
    then insert "cross-origin-resource-policy" "cross-origin"
        (insert "access-control-allow-origin" "*" passed)
    else passed

or_right : (a b : Bool) → b ≡ true → not (a || b) ≡ false
or_right true b e = refl
or_right false b e = rw (e) refl

cors_dropped :
    (name : String) → starts_with name "access-control-" ≡ true → not (is_dropped name) ≡ false
unfolding is_dropped is_cors
cors_dropped name e =
    or_right (any (λ (dropped : String). name == dropped) dropped_headers) (is_cors name)
      (rw (e) refl)

not_policy :
    (name : String)
    → starts_with name "access-control-" ≡ true
    → ("cross-origin-resource-policy" == name) ≡ false
not_policy name e = elim (Bool-cases ("cross-origin-resource-policy" == name)) [
  | inl q ↦
      let same = (eq_iff "cross-origin-resource-policy" name).0 q in
      let wrong : false ≡ true = subst (λ k. starts_with k "access-control-" ≡ true) (sym same) e in
      ground (arith, wrong)
  | inr q ↦ q
]

-- Whatever the runtime sends, of the headers whose names begin with access-control- the response
-- begins with one only, a wildcard for the origin, and with that exactly on a ticketed mount.
pub passed_back-cors :
    (ticketed : Bool) (headers : Assoc String String) (name : String)
    → starts_with name "access-control-" ≡ true
    → lookup name (passed_back ticketed headers)
      ≡ (if ticketed && "access-control-allow-origin" == name then some "*" else none)
unfolding passed_back
passed_back-cors ticketed headers name e =
    let passed = keep (λ (h : String × String). not (is_dropped h.0)) headers in
    let out : lookup name passed ≡ none =
      keep_out (λ k. not (is_dropped k)) name headers (cors_dropped name e) in
    let other = not_policy name e in
    elim (Bool-cases ticketed) [
      | inl q ↦ rw (q) (
          lookup-insert "cross-origin-resource-policy" name "cross-origin" _
          ∙ rw (other, lookup-insert "access-control-allow-origin" name "*" passed, out) refl)
      | inr q ↦ rw (q) out
    ]
