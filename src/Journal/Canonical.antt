-- ===== src/Journal/Canonical.antt =====
-- `canonicalize` and `equal` of packages/agent-journal/src/index.ts: the text by which the journal
-- compares two payloads. `quote` is what `JSON.stringify` prints for a string.
pub mod Order
use Prim.Native.Char.{Char, code}
use Prim.Native.String
use Prim.Native.String.{◌++◌}
use botroost.Prelude.{
  ℕ, zero, suc, ◌-◌, String, ◌≡◌, refl, Bool, true, false, List, [], ◌∷◌, map, ltb, ◌==◌,
  number_test, text_test, if◌then◌else◌, sort,
}
use botroost.Json.{Json, null, bool, num, str, arr, obj, Items, nil, cons, Fields, end, field}

abbrev hex_digits : List String
hex_digits =
    "0" ∷ "1" ∷ "2" ∷ "3" ∷ "4" ∷ "5" ∷ "6" ∷ "7" ∷ "8" ∷ "9" ∷ "a" ∷ "b" ∷ "c" ∷ "d" ∷ "e" ∷ "f"
    ∷ []

text_at : ℕ → List String → String
text_at n [] = ""
text_at zero (t ∷ ts) = t
text_at (suc n) (t ∷ ts) = text_at n ts

-- The escape of a control character, by its code point.
control_escape : ℕ → String
unfolding text_at
control_escape n =
    if n == 8
    then "\\b"
    else if n == 9
    then "\\t"
    else if n == 10
    then "\\n"
    else if n == 12
    then "\\f"
    else if n == 13
    then "\\r"
    else if ltb n 16
    then "\\u000" ++ text_at n hex_digits
    else "\\u001" ++ text_at (n - 16) hex_digits

escape : Char → String
unfolding control_escape
escape c =
    if code c == 34
    then "\\\""
    else if code c == 92
    then "\\\\"
    else if ltb (code c) 32
    then control_escape (code c)
    else String.◌∷◌ c String.[]

escapes : String → String
unfolding escape
escapes String.[] = ""
escapes (String.◌∷◌ c s) = escape c ++ escapes s

pub quote : String → String
unfolding escapes
quote s = "\"" ++ (escapes s ++ "\"")

-- `texts.join(",")`
join : List String → String
join [] = ""
join (t ∷ []) = t
join (t ∷ u ∷ ts) = t ++ ("," ++ join (u ∷ ts))

bool_text : Bool → String
bool_text true = "true"
bool_text false = "false"

-- The text of a member, by its key.
pub member_text : String → List (String × String) → String
member_text k [] = ""
member_text k ((j, t) ∷ ms) = if j == k then t else member_text k ms

pub keys : List (String × String) → List String
keys = map (λ m. m.0)

-- The members in the order of their sorted keys.
pub sorted_members : List (String × String) → List String
unfolding quote member_text keys
sorted_members ms = map (λ k. quote k ++ (":" ++ member_text k ms)) (sort (keys ms))

unfoldable mutual
  unfolding quote join bool_text sorted_members sort

  pub canonicalize : Json → String
  canonicalize null = "null"
  canonicalize (bool b) = bool_text b
  canonicalize (num t) = t
  canonicalize (str s) = quote s
  canonicalize (arr xs) = "[" ++ (join (item_texts xs) ++ "]")
  canonicalize (obj fs) = "{" ++ (join (sorted_members (member_texts fs)) ++ "}")

  pub item_texts : Items → List String
  item_texts nil = []
  item_texts (cons x xs) = canonicalize x ∷ item_texts xs

  pub member_texts : Fields → List (String × String)
  member_texts end = []
  member_texts (field k v fs) = (k, canonicalize v) ∷ member_texts fs

unfoldable pub equal : Fields → Fields → Bool
unfolding canonicalize
equal left right = canonicalize (obj left) == canonicalize (obj right)

sample_text :
    canonicalize
      (obj (field "b" (arr (cons (num "1.5") (cons null nil))) (field "a" (str "x\"\n") end)))
    ≡ "{\"a\":\"x\\\"\\n\",\"b\":[1.5,null]}"
unfolding canonicalize
sample_text = refl
