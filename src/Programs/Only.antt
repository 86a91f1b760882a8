-- ===== src/Programs/Only.antt =====
-- Programs that make only calls of one kind, in every run.
use botroost.Prelude.{
  Bool, true, false, String, Option, none, some, ◌≡◌, if◌then◌else◌, refl, arith,
}
use botroost.Programs.{
  Answer, gave, raised, Program, return, throw, call, ◌>>=◌, catch, answer_of, given,
}

module _ (Op : Type 0) (Reply : Op → Type 0) (test : Op → Bool) where
  unfoldable pub Only : {A : Type 0} → Program Op Reply A → Type 0
  Only (return a) = Unit
  Only (throw e) = Unit
  Only (call op k) = (test op ≡ true) × ((r : Answer (Reply op)) → Only (k r))

  pub Only-bind :
      {A B : Type 0} (p : Program Op Reply A) (f : A → Program Op Reply B)
      → Only p
      → ((a : A) → Only (f a))
      → Only (p >>= f)
  unfolding Only ◌>>=◌
  Only-bind (return a) f h g = g a
  Only-bind (throw e) f h g = tt
  Only-bind (call op k) f h g = (h.0, λ r. Only-bind (k r) f (h.1 r) g)

  pub Only-call :
      {A : Type 0} (op : Op) (k : Answer (Reply op) → Program Op Reply A)
      → test op ≡ true
      → ((r : Answer (Reply op)) → Only (k r))
      → Only (call op k)
  unfolding Only
  Only-call op k h g = (h, g)

  pub Only-answer : {A : Type 0} (r : Answer A) → Only (answer_of r)
  unfolding Only answer_of
  Only-answer (gave a) = tt
  Only-answer (raised e) = tt

  pub Only-return : {A : Type 0} (a : A) → Only (return a)
  unfolding Only
  Only-return a = tt

  pub Only-throw : (A : Type 0) (e : String) → Only {A = A} (throw e)
  unfolding Only
  Only-throw A e = tt

  pub Only-if :
      {A : Type 0} (b : Bool) (p q : Program Op Reply A)
      → Only p
      → Only q
      → Only (if b then p else q)
  Only-if true p q hp hq = hp
  Only-if false p q hp hq = hq

  pub Only-else :
      {A : Type 0} (b : Bool) (p q : Program Op Reply A)
      → b ≡ false
      → Only q
      → Only (if b then p else q)
  Only-else true p q e hq = ground arith
  Only-else false p q e hq = hq

  pub Only-catch :
      {A : Type 0} (p : Program Op Reply A) (f : String → Program Op Reply A)
      → Only p
      → ((e : String) → Only (f e))
      → Only (catch p f)
  unfolding Only catch
  Only-catch (return a) f h g = tt
  Only-catch (throw e) f h g = g e
  Only-catch (call op k) f h g = (h.0, λ r. Only-catch (k r) f (h.1 r) g)

  pub Only-option :
      {A B : Type 0} (x : Option A) (p : Program Op Reply B) (f : A → Program Op Reply B)
      → Only p
      → ((a : A) → Only (f a))
      → Only (given x p f)
  unfolding given
  Only-option none p f hp hf = hp
  Only-option (some a) p f hp hf = hf a

pub ruleset only_rules = (
  refl, Only-bind, Only-call, Only-answer, Only-return, Only-throw, Only-if, Only-catch,
  Only-option,
)
