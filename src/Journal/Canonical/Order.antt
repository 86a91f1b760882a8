-- ===== src/Journal/Canonical/Order.antt =====
-- `canonicalize` of packages/agent-journal/src/index.ts and the order of members.
use Prim.Native.String.{◌++◌}
use botroost.Prelude.{
  String, ◌≡◌, refl, ◌∙◌, ◌≢◌, true, List, map, ◌∷◌, arith, eq_iff, text_test, sort, sort_swap,
  sort-cons,
}
use botroost.Json.{Json, arr, obj, Items, nil, cons, Fields, end, field}
use botroost.Journal.Canonical.{
  quote, keys, member_text, sorted_members, canonicalize, item_texts, member_texts, equal,
}

-- Equal but for the order of members: neighbours with different keys may be exchanged.
mutual
  pub data Same : Json → Json → Type 0 where
    same : (j : Json) → Same j j
    same_arr : {xs ys : Items} → SameItems xs ys → Same (arr xs) (arr ys)
    same_obj : {fs gs : Fields} → SameFields fs gs → Same (obj fs) (obj gs)

  pub data SameItems : Items → Items → Type 0 where
    no_items : SameItems nil nil
    more_items :
        {x y : Json} {xs ys : Items}
        → Same x y
        → SameItems xs ys
        → SameItems (cons x xs) (cons y ys)

  pub data SameFields : Fields → Fields → Type 0 where
    no_fields : SameFields end end
    more_fields :
        (k : String) {v w : Json} {fs gs : Fields}
        → Same v w
        → SameFields fs gs
        → SameFields (field k v fs) (field k w gs)
    exchange :
        {j k : String} (v w : Json) (fs : Fields)
        → j ≢ k
        → SameFields (field j v (field k w fs)) (field k w (field j v fs))
    then_fields : {fs gs hs : Fields} → SameFields fs gs → SameFields gs hs → SameFields fs hs

-- The same keys once sorted, and the same text at every key.
record SameTexts (ts us : List (String × String)) : Type 0 where
  sorted : sort (keys ts) ≡ sort (keys us)
  text : (k : String) → member_text k ts ≡ member_text k us

sorted_members-SameTexts :
    (ts us : List (String × String)) → SameTexts ts us → sorted_members ts ≡ sorted_members us
unfolding sorted_members
sorted_members-SameTexts ts us s = λ i. map (λ k. quote k ++ (":" ++ s.text k i)) (s.sorted i)

SameTexts-cons :
    (k t : String) (ts us : List (String × String))
    → SameTexts ts us
    → SameTexts ((k, t) ∷ ts) ((k, t) ∷ us)
unfolding keys member_text
SameTexts-cons k t ts us s = record {
  sorted = sort-cons k (keys ts) (keys us) s.sorted;
  text = λ j. ground (arith, s.text j);
}

SameTexts-exchange :
    (j k t u : String) (ts : List (String × String))
    → j ≢ k
    → SameTexts ((j, t) ∷ (k, u) ∷ ts) ((k, u) ∷ (j, t) ∷ ts)
unfolding keys member_text
SameTexts-exchange j k t u ts ne = record {
  sorted = sort_swap j k (keys ts) (keys ts) refl;
  text = λ i. ground (arith, eq_iff j i, eq_iff k i);
}

mutual
  unfolding canonicalize

  canonicalize_lem : {a b : Json} → Same a b → canonicalize a ≡ canonicalize b
  canonicalize_lem (same j) = refl
  canonicalize_lem (same_arr s) = rw (item_texts_lem s)
  canonicalize_lem (same_obj s) = rw (sorted_members-SameTexts _ _ (member_texts_lem s))

  item_texts_lem : {xs ys : Items} → SameItems xs ys → item_texts xs ≡ item_texts ys
  item_texts_lem no_items = refl
  item_texts_lem (more_items s t) = cc (canonicalize_lem s, item_texts_lem t)

  member_texts_lem :
      {fs gs : Fields} → SameFields fs gs → SameTexts (member_texts fs) (member_texts gs)
  member_texts_lem no_fields = record { sorted = refl; text = λ k. refl }
  member_texts_lem (more_fields k s t) =
      rw (canonicalize_lem s) (SameTexts-cons k _ _ _ (member_texts_lem t))
  member_texts_lem (exchange {j} {k} v w fs ne) = SameTexts-exchange j k _ _ _ ne
  member_texts_lem (then_fields s t) =
      let a = member_texts_lem s in
      let b = member_texts_lem t in
      record { sorted = a.sorted ∙ b.sorted; text = λ k. a.text k ∙ b.text k }

-- Payloads that differ only in the order of members, at any depth, are equal for the journal.
pub equal_of_Same : {fs gs : Fields} → SameFields fs gs → equal fs gs ≡ true
unfolding equal
equal_of_Same s = (eq_iff _ _).1 (canonicalize_lem (same_obj s))
