-- ===== src/RuntimeProxy/Headers.antt =====
-- The headers and cookies of a browser that apps/api/src/runtime-proxy.ts lets pass to a runtime. A
-- header record has one entry for a name; a header that is repeated has its values joined. What
-- @fastify/cookie makes of the request's Cookie header, `request.cookies`, is a parameter.
use botroost.Prelude.{
  String, ◌≡◌, inl, inr, refl, ◌∙◌, ap, sym, subst, Bool, true, false, Option, none, some, [], ◌∷◌,
  ◌++◌, not, ◌||◌, ◌==◌, text_test, if◌then◌else◌, Bool-cases, eq_comm, eq_iff, arith, keep, Assoc,
  lookup, insert, lookup-insert, lookup-insert_self,
}
use text.Mathlib.Text.{starts_with}
use Prim.Native.String.{◌++◌ as join_text}

-- `name.startsWith("botroost_")`: the console issued the cookie.
abbrev pub is_console : String → Bool
is_console name = starts_with name "botroost_"

abbrev cookie_text : String × String → String
cookie_text c = join_text c.0 (join_text "=" c.1)

-- `join("; ")`
cookie_list : Assoc String String → String
cookie_list [] = ""
cookie_list (c ∷ []) = cookie_text c
cookie_list (c ∷ d ∷ cs) = join_text (cookie_text c) (join_text "; " (cookie_list (d ∷ cs)))

runtime_cookies : Assoc String String → Assoc String String
runtime_cookies jar = keep (λ (c : String × String). not (is_console c.0)) jar

list_or_none : Assoc String String → Option String
unfolding cookie_list
list_or_none [] = none
list_or_none (c ∷ cs) = some (cookie_list (c ∷ cs))

-- `cookiesFor`
unfoldable pub cookies_for : Option (Assoc String String) → Option String
unfolding list_or_none runtime_cookies
cookies_for none = none
cookies_for (some jar) = list_or_none (runtime_cookies jar)

-- The names that the loop over the request's headers skips.
unfoldable pub is_withheld : String → Bool
is_withheld name =
    name == "cookie"
    || (name == "host" || (name == "origin" || (name == "referer" || name == "accept-encoding")))

set_some : String → Option String → Assoc String String → Assoc String String
set_some name none headers = headers
set_some name (some value) headers = insert name value headers

-- `request.cookies`: the jar that the plugin gives for the Cookie header, or for none.
abbrev pub Plugin : Type 0
Plugin = Option String → Option (Assoc String String)

abbrev pub jar_of : Plugin → Assoc String String → Option (Assoc String String)
jar_of parse headers = parse (lookup "cookie" headers)

-- The headers that `bridgeHttp` sends to the runtime, with the cookies that the plugin parses from
-- the same headers.
unfoldable pub forwarded : Plugin → Assoc String String → String → Assoc String String
unfolding set_some
forwarded parse headers host = set_some "cookie" (cookies_for (jar_of parse headers)) (
    insert "accept-encoding" "identity"
      (insert "host" host (keep (λ (h : String × String). not (is_withheld h.0)) headers)))

pub keep_out :
    (p : String → Bool) (name : String) (m : Assoc String String)
    → p name ≡ false
    → lookup name (keep (λ (h : String × String). p h.0) m) ≡ none
unfolding lookup
keep_out p name [] e = refl
keep_out p name (h ∷ m) e = elim (Bool-cases (h.0 == name)) [
  | inl q ↦
      let f : p h.0 ≡ false = subst (λ k. p k ≡ false) (sym ((eq_iff h.0 name).0 q)) e in
      ground (arith, q, f, keep_out p name m e)
  | inr q ↦ ground (arith, q, keep_out p name m e)
]

keep_in :
    (p : String → Bool) (name : String) (m : Assoc String String)
    → p name ≡ true
    → lookup name (keep (λ (h : String × String). p h.0) m) ≡ lookup name m
unfolding lookup
keep_in p name [] e = refl
keep_in p name (h ∷ m) e = elim (Bool-cases (h.0 == name)) [
  | inl q ↦
      let f : p h.0 ≡ true = subst (λ k. p k ≡ true) (sym ((eq_iff h.0 name).0 q)) e in
      ground (arith, q, f)
  | inr q ↦ ground (arith, q, keep_in p name m e)
]

-- What is forwarded under a name: of the request's own headers all but the withheld ones, with the
-- runtime's host, no compression, and the cookies of the runtime.
abbrev pub forwarded_as : Plugin → String → Assoc String String → String → Option String
forwarded_as parse name headers host =
    if "cookie" == name
    then cookies_for (jar_of parse headers)
    else if "accept-encoding" == name
    then some "identity"
    else if "host" == name
    then some host
    else if "origin" == name || "referer" == name
    then none
    else lookup name headers

set_some-lookup :
    (key name : String) (value : Option String) (m : Assoc String String)
    → lookup key m ≡ none
    → lookup name (set_some key value m) ≡ (if key == name then value else lookup name m)
unfolding set_some
set_some-lookup key name none m h = elim (Bool-cases (key == name)) [
  | inl q ↦ rw (q) (subst (λ k. lookup k m ≡ none) ((eq_iff key name).0 q) h)
  | inr q ↦ rw (q) refl
]
set_some-lookup key name (some value) m h = lookup-insert key name value m

-- The runtime gets its own host, no compression, the cookies that are not the console's, no origin
-- and no referer; every other header is the request's.
pub forwarded-lookup :
    (parse : Plugin) (name : String) (headers : Assoc String String) (host : String)
    → lookup name (forwarded parse headers host) ≡ forwarded_as parse name headers host
unfolding forwarded is_withheld
forwarded-lookup parse name headers host =
    let passed = keep (λ (h : String × String). not (is_withheld h.0)) headers in
    let named = insert "host" host passed in
    let out = keep_out (λ k. not (is_withheld k)) name headers in
    let kept_in = keep_in (λ k. not (is_withheld k)) name headers in
    let cookie : lookup "cookie" (insert "accept-encoding" "identity" named) ≡ none =
      lookup-insert "accept-encoding" "cookie" "identity" named
      ∙ lookup-insert "host" "cookie" host passed
      ∙ keep_out (λ k. not (is_withheld k)) "cookie" headers refl in
    set_some-lookup "cookie" name (cookies_for (jar_of parse headers)) _ cookie
    ∙ rw
        (
          lookup-insert "accept-encoding" name "identity" named,
          lookup-insert "host" name host passed,
        )
        (ground (
          arith,
          out,
          kept_in,
          eq_comm "cookie" name,
          eq_comm "host" name,
          eq_comm "origin" name,
          eq_comm "referer" name,
          eq_comm "accept-encoding" name,
        ))

keep-append :
    (p : String × String → Bool) (xs ys : Assoc String String)
    → keep p (xs ++ ys) ≡ keep p xs ++ keep p ys
keep-append p [] ys = refl
keep-append p (x ∷ xs) ys = elim (Bool-cases (p x)) [
  | inl q ↦ rw (q) (ap (λ r. x ∷ r) (keep-append p xs ys))
  | inr q ↦ rw (q) (keep-append p xs ys)
]

-- A header whose name the test refuses may have any value.
keep-insert_refused :
    (p : String → Bool) (name value : String) (m : Assoc String String)
    → p name ≡ false
    → keep (λ (h : String × String). p h.0) (insert name value m)
      ≡ keep (λ (h : String × String). p h.0) m
unfolding insert
keep-insert_refused p name value [] e = rw (e) refl
keep-insert_refused p name value (h ∷ m) e = elim (Bool-cases (h.0 == name)) [
  | inl q ↦
      let f : p h.0 ≡ false = subst (λ k. p k ≡ false) (sym ((eq_iff h.0 name).0 q)) e in
      rw (q, f) refl
  | inr q ↦ rw (q) (ground (arith, keep-insert_refused p name value m e))
]

runtime_cookies-console :
    (name value : String) (before after : Assoc String String)
    → is_console name ≡ true
    → runtime_cookies (before ++ (name, value) ∷ after) ≡ runtime_cookies (before ++ after)
unfolding runtime_cookies
runtime_cookies-console name value before after e =
    let test = λ (c : String × String). not (is_console c.0) in
    keep-append test before ((name, value) ∷ after) ∙ rw (e) (sym (keep-append test before after))

-- Of two requests that differ only in their Cookie headers, which parse to jars that differ only in
-- one cookie of the console, wherever it stands and whatever its value, the runtime is sent the
-- same headers.
pub console_cookie_withheld :
    (parse : Plugin) (headers : Assoc String String) (host with_it without_it name value : String)
    (before after : Assoc String String)
    → is_console name ≡ true
    → parse (some with_it) ≡ some (before ++ (name, value) ∷ after)
    → parse (some without_it) ≡ some (before ++ after)
    → forwarded parse (insert "cookie" with_it headers) host
      ≡ forwarded parse (insert "cookie" without_it headers) host
unfolding forwarded cookies_for is_withheld
console_cookie_withheld parse headers host with_it without_it name value before after e f g =
    let passes : String → Bool = λ k. not (is_withheld k) in
    rw
      (
        lookup-insert_self "cookie" with_it headers,
        lookup-insert_self "cookie" without_it headers,
        f,
        g,
        keep-insert_refused passes "cookie" with_it headers refl,
        keep-insert_refused passes "cookie" without_it headers refl,
        runtime_cookies-console name value before after e,
      )
      refl
