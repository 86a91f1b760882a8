-- ===== src/Prelude/Maps.antt =====
-- A JavaScript `Map`: its entries in the order of insertion. Setting a key that is there keeps
-- its place; a new key goes to the end.
use mathlib.Core.Path.{◌≡◌, refl, sym, subst}
use mathlib.Core.Option.{Option, none, some}
use mathlib.Core.List.{List, [], ◌∷◌, ◌++◌}
use native.Mathlib.Omega.{arith}
use Prim.Native.Nat.{suc, ◌≤◌}
use mathlib.Core.Bool.{Bool, true}
use mathlib.Core.Logic.{inl, inr}
use botroost.Prelude.Lists.{length, keep, All}
use botroost.Prelude.Tests.{Bool-cases, if_rule, SameTest, ◌==◌, eq_refl, if◌then◌else◌}

abbrev pub Assoc {ℓ κ} : Type ℓ → Type κ → Type (ℓ ⊔ κ)
Assoc K V = List (K × V)

module _ {ℓ κ} {K : Type ℓ} ⦃e : SameTest K⦄ {V : Type κ} where
  -- `map.get(key)`
  unfoldable pub lookup : K → Assoc K V → Option V
  lookup key [] = none
  lookup key ((other, value) ∷ rest) = if other == key then some value else lookup key rest

  -- `map.set(key, value)`
  unfoldable pub insert : K → V → Assoc K V → Assoc K V
  insert key value [] = (key, value) ∷ []
  insert key value ((other, old) ∷ rest) =
      if other == key then (other, value) ∷ rest else (other, old) ∷ insert key value rest

  -- `map.delete(key)`
  unfoldable pub erase : K → Assoc K V → Assoc K V
  erase k [] = []
  erase k ((j, w) ∷ m) = let rest = erase k m in if j == k then rest else (j, w) ∷ rest

  pub lookup-insert :
      (key j : K) (value : V) (m : Assoc K V)
      → lookup j (insert key value m) ≡ (if key == j then some value else lookup j m)
  unfolding lookup insert
  lookup-insert k j v [] = refl
  lookup-insert k j v ((i, w) ∷ m) =
      ground (arith, e.same_iff k j, e.same_iff i k, e.same_iff i j, lookup-insert k j v m)

  pub lookup-insert_self : (k : K) (v : V) (m : Assoc K V) → lookup k (insert k v m) ≡ some v
  lookup-insert_self k v m = ground (arith, lookup-insert k k v m, eq_refl k)

  pub lookup-erase :
      (k j : K) (m : Assoc K V) → lookup j (erase k m) ≡ (if k == j then none else lookup j m)
  unfolding lookup erase
  lookup-erase k j [] = ground arith
  lookup-erase k j ((i, w) ∷ m) =
      ground (arith, e.same_iff k j, e.same_iff i k, e.same_iff i j, lookup-erase k j m)

  pub insert-insert : (k : K) (v w : V) (m : Assoc K V) → insert k w (insert k v m) ≡ insert k w m
  unfolding insert
  insert-insert k v w [] = ground (arith, eq_refl k)
  insert-insert k v w ((j, u) ∷ m) = ground (arith, insert-insert k v w m)

  pub length-insert_present :
      (key : K) (v w : V) (m : Assoc K V)
      → lookup key m ≡ some w
      → length (insert key v m) ≡ length m
  unfolding lookup insert
  length-insert_present key v w [] h = ground (arith, h)
  length-insert_present key v w ((k, u) ∷ m) h = ground (arith, h, length-insert_present key v w m)

  pub length-insert-le :
      (key : K) (v : V) (m : Assoc K V) → length (insert key v m) ≤ suc (length m)
  unfolding insert
  length-insert-le key v [] = omega arith
  length-insert-le key v ((k, w) ∷ m) = ground (arith, length-insert-le key v m)

  pub length-erase-le : (key : K) (m : Assoc K V) → length (erase key m) ≤ length m
  unfolding erase
  length-erase-le key [] = omega arith
  length-erase-le key ((k, w) ∷ m) = ground (arith, length-erase-le key m)

  -- A key whose value passes the test keeps it.
  pub lookup-keep :
      (p : V → Bool) (key : K) (m : Assoc K V) (v : V)
      → lookup key m ≡ some v
      → p v ≡ true
      → lookup key (keep (λ (e : K × V). p e.1) m) ≡ some v
  unfolding lookup
  lookup-keep p key [] v h t = ground (arith, h)
  lookup-keep p key ((k, w) ∷ m) v h t = elim (Bool-cases (k == key)) [
    | inl q ↦ ground (arith, h, q, t)
    | inr q ↦ ground (arith, h, q, t, lookup-keep p key m v)
  ]

  pub insert_new :
      (key : K) (v : V) (m : Assoc K V) → lookup key m ≡ none → insert key v m ≡ m ++ (key, v) ∷ []
  unfolding lookup insert
  insert_new key v [] h = refl
  insert_new key v ((k, w) ∷ m) h = ground (arith, h, insert_new key v m)

-- What holds of every entry of a map.
module _ {ℓ κ μ} {K : Type ℓ} ⦃e : SameTest K⦄ {V : Type κ} (P : K → V → Type μ) where
  pub All-insert_entry :
      (key : K) (v : V) (m : Assoc K V)
      → P key v
      → All (λ (x : K × V). P x.0 x.1) m
      → All (λ (x : K × V). P x.0 x.1) (insert key v m)
  unfolding insert
  All-insert_entry key v [] p h = (p, tt)
  All-insert_entry key v ((k, w) ∷ m) p h =
      if_rule (λ r. All (λ (x : K × V). P x.0 x.1) r) (k == key) _ _
        (λ q. (subst (λ j. P j v) (sym ((e.same_iff k key).0 q)) p, h.1))
        (λ _. (h.0, All-insert_entry key v m p h.1))

  pub All-lookup_entry :
      (key : K) (v : V) (m : Assoc K V)
      → All (λ (x : K × V). P x.0 x.1) m
      → lookup key m ≡ some v
      → P key v
  unfolding lookup
  All-lookup_entry key v [] h f = ground (arith, f)
  All-lookup_entry key v ((k, w) ∷ m) h f = elim (Bool-cases (k == key)) [
    | inl q ↦
        let same = subst (λ j. P j w) ((e.same_iff k key).0 q) h.0 in
        subst (λ x. P key x) (ground (arith, f, q)) same
    | inr q ↦ All-lookup_entry key v m h.1 (ground (arith, f, q))
  ]

-- What holds of every value of a map.
module _ {ℓ κ μ} {K : Type ℓ} ⦃e : SameTest K⦄ {V : Type κ} (P : V → Type μ) where
  pub All-insert :
      (key : K) (v : V) (m : Assoc K V)
      → P v
      → All (λ (x : K × V). P x.1) m
      → All (λ (x : K × V). P x.1) (insert key v m)
  All-insert key v m p h = All-insert_entry (λ _ w. P w) key v m p h

  pub All-lookup :
      (key : K) (v : V) (m : Assoc K V) → All (λ (x : K × V). P x.1) m → lookup key m ≡ some v → P v
  All-lookup key v m h f = All-lookup_entry (λ _ w. P w) key v m h f
