-- ===== src/Programs/Runs.antt =====
-- What holds of a program in every run, whatever its calls answer, and the runs themselves.
use botroost.Prelude.{Bool, true, false, String, List, [], ◌∷◌, ◌≡◌, refl, subst, sym}
use botroost.Programs.Only.{Only}
use botroost.Programs.{
  Answer, gave, raised, Program, return, throw, call, ◌>>=◌, catch, answer_of, perform, throw_if,
}

pub data Outcome (A : Type 0) : Type 0 where
  finished : A → Outcome A
  failed : String → Outcome A

-- A rule about runs: it watches the calls, with what it remembers of them, and says which calls may
-- be made next.
pub record Rule (Op : Type 0) (Reply : Op → Type 0) : Type 1 where
  pub Memory : Type 0
  pub Allows : Memory → Op → Type 0
  pub watch : Memory → (op : Op) → Answer (Reply op) → Memory

module _ {Op : Type 0} {Reply : Op → Type 0} (R : Rule Op Reply) where
  -- In every run from here each call is allowed, and the end is as `Q` says.
  unfoldable pub Always :
      {A : Type 0} → (R.Memory → Outcome A → Type 0) → R.Memory → Program Op Reply A → Type 0
  Always Q m (return a) = Q m (finished a)
  Always Q m (throw e) = Q m (failed e)
  Always Q m (call op k) =
      R.Allows m op × ((r : Answer (Reply op)) → Always Q (R.watch m op r) (k r))

  abbrev pub After :
      {A B : Type 0}
      → (R.Memory → Outcome B → Type 0)
      → (A → Program Op Reply B)
      → R.Memory
      → Outcome A
      → Type 0
  After Q f m (finished a) = Always Q m (f a)
  After Q f m (failed e) = Q m (failed e)

  pub Always-bind :
      {A B : Type 0}
      → (Q : R.Memory → Outcome B → Type 0) (m : R.Memory) (p : Program Op Reply A)
        (f : A → Program Op Reply B)
      → Always (After Q f) m p
      → Always Q m (p >>= f)
  unfolding Always ◌>>=◌
  Always-bind Q m (return a) f h = h
  Always-bind Q m (throw e) f h = h
  Always-bind Q m (call op k) f h = (h.0, λ r. Always-bind Q (R.watch m op r) (k r) f (h.1 r))

  pub Always-weaken :
      {A : Type 0}
      → (P Q : R.Memory → Outcome A → Type 0) (m : R.Memory) (p : Program Op Reply A)
      → ((n : R.Memory) (o : Outcome A) → P n o → Q n o)
      → Always P m p
      → Always Q m p
  unfolding Always
  Always-weaken P Q m (return a) f h = f m (finished a) h
  Always-weaken P Q m (throw e) f h = f m (failed e) h
  Always-weaken P Q m (call op k) f h =
      (h.0, λ r. Always-weaken P Q (R.watch m op r) (k r) f (h.1 r))

  -- A call in a chain: what follows has the value, and an exception ends it.
  pub Always-perform :
      {A : Type 0}
      → (Q : R.Memory → Outcome A → Type 0) (m : R.Memory) (op : Op)
        (f : Reply op → Program Op Reply A)
      → R.Allows m op
      → ((a : Reply op) → Always Q (R.watch m op (gave a)) (f a))
      → ((e : String) → Q (R.watch m op (raised e)) (failed e))
      → Always Q m (perform op >>= f)
  unfolding Always ◌>>=◌ answer_of
  Always-perform Q m op f allowed goes_on ends = (allowed, λ r. answered r)
    where
      answered : (r : Answer (Reply op)) → Always Q (R.watch m op r) (answer_of r >>= f)
      answered (gave a) = goes_on a
      answered (raised e) = ends e

  -- A call at the end.
  pub Always-last :
      (op : Op) (Q : R.Memory → Outcome (Reply op) → Type 0) (m : R.Memory)
      → R.Allows m op
      → ((a : Reply op) → Q (R.watch m op (gave a)) (finished a))
      → ((e : String) → Q (R.watch m op (raised e)) (failed e))
      → Always Q m (perform op)
  unfolding Always answer_of
  Always-last op Q m allowed goes_on ends = (allowed, λ r. answered r)
    where
      answered : (r : Answer (Reply op)) → Always Q (R.watch m op r) (answer_of r)
      answered (gave a) = goes_on a
      answered (raised e) = ends e

  -- `if (test) throw ...` in a chain.
  pub Always-throw_if :
      {A : Type 0}
      → (Q : R.Memory → Outcome A → Type 0) (m : R.Memory) (test : Bool) (e : String)
        (f : Unit {0} → Program Op Reply A)
      → Q m (failed e)
      → (test ≡ false → Always Q m (f tt))
      → Always Q m (throw_if test e >>= f)
  unfolding Always ◌>>=◌
  Always-throw_if Q m true e f ends goes_on = ends
  Always-throw_if Q m false e f ends goes_on = goes_on refl

  abbrev pub Handled :
      {A : Type 0}
      → (R.Memory → Outcome A → Type 0)
      → (String → Program Op Reply A)
      → R.Memory
      → Outcome A
      → Type 0
  Handled Q handle m (finished a) = Q m (finished a)
  Handled Q handle m (failed e) = Always Q m (handle e)

  pub Always-catch :
      {A : Type 0}
      → (Q : R.Memory → Outcome A → Type 0) (m : R.Memory) (p : Program Op Reply A)
        (handle : String → Program Op Reply A)
      → Always (Handled Q handle) m p
      → Always Q m (catch p handle)
  unfolding Always catch
  Always-catch Q m (return a) handle h = h
  Always-catch Q m (throw e) handle h = h
  Always-catch Q m (call op k) handle h =
      (h.0, λ r. Always-catch Q (R.watch m op r) (k r) handle (h.1 r))

  abbrev pub Stays : {A : Type 0} → R.Memory → R.Memory → Outcome A → Type 0
  Stays m n o = n ≡ m

  -- A program of calls that are allowed and leave the memory as it is.
  pub Only-Stays :
      {A : Type 0} (test : Op → Bool) (m : R.Memory)
      → ((op : Op) → test op ≡ true → R.Allows m op)
      → ((op : Op) (r : Answer (Reply op)) → test op ≡ true → R.watch m op r ≡ m)
      → (p : Program Op Reply A) → Only Op Reply test p
      → Always (Stays m) m p
  unfolding Always Only
  Only-Stays test m allows stays (return a) h = refl
  Only-Stays test m allows stays (throw e) h = refl
  Only-Stays test m allows stays (call op k) h = (
    allows op h.0,
    λ r.
        subst (λ n. Always (Stays m) n (k r)) (sym (stays op r h.0))
          (Only-Stays test m allows stays (k r) (h.1 r)),
  )

  pub Stays-bind :
      {A B : Type 0} (Q : R.Memory → Outcome B → Type 0) (m : R.Memory) (p : Program Op Reply A)
      (f : A → Program Op Reply B)
      → Always (Stays m) m p
      → ((a : A) → Always Q m (f a))
      → ((e : String) → Q m (failed e))
      → Always Q m (p >>= f)
  Stays-bind {A = A} Q m p f h goes_on ends =
      Always-bind Q m p f (Always-weaken (Stays m) (After Q f) m p (λ n o e. after n o e) h)
    where
      after : (n : R.Memory) (o : Outcome A) → n ≡ m → After Q f n o
      after n (finished a) e = subst (λ k. Always Q k (f a)) (sym e) (goes_on a)
      after n (failed message) e = subst (λ k. Q k (failed message)) (sym e) (ends message)

  -- Where a state of the memory allows every call and no call leaves it, every program may run.
  pub Always-free :
      {A : Type 0} (Free : R.Memory → Type 0)
      → ((m : R.Memory) (op : Op) → Free m → R.Allows m op)
      → ((m : R.Memory) (op : Op) (r : Answer (Reply op)) → Free m → Free (R.watch m op r))
      → (m : R.Memory) (p : Program Op Reply A) → Free m
      → Always (λ n o. Free n) m p
  unfolding Always
  Always-free Free allows stays m (return a) h = h
  Always-free Free allows stays m (throw e) h = h
  Always-free Free allows stays m (call op k) h =
      (allows m op h, λ r. Always-free Free allows stays (R.watch m op r) (k r) (stays m op r h))

-- A run against surroundings with a state of their own, and the calls that it makes, in order.
pub record Surroundings (Op : Type 0) (Reply : Op → Type 0) : Type 1 where
  pub State : Type 0
  pub answer : State → (op : Op) → Answer (Reply op) × State

module _ {Op : Type 0} {Reply : Op → Type 0} (E : Surroundings Op Reply) where
  unfoldable pub run : {A : Type 0} → Program Op Reply A → E.State → Outcome A × (List Op × E.State)
  run (return a) s = (finished a, ([], s))
  run (throw e) s = (failed e, ([], s))
  run (call op k) s =
      let rest = run (k (E.answer s op).0) (E.answer s op).1 in (rest.0, (op ∷ rest.1.0, rest.1.1))

  module _ (R : Rule Op Reply) where
    -- The calls of a run are allowed, one after the other.
    unfoldable pub Obeys : {A : Type 0} → Program Op Reply A → E.State → R.Memory → Type 0
    Obeys (return a) s m = Unit
    Obeys (throw e) s m = Unit
    Obeys (call op k) s m =
        R.Allows m op
        × Obeys (k (E.answer s op).0) (E.answer s op).1 (R.watch m op (E.answer s op).0)

    -- A rule that always holds is obeyed by the run in any surroundings.
    pub Always-Obeys :
        {A : Type 0}
        → (Q : R.Memory → Outcome A → Type 0) (p : Program Op Reply A) (s : E.State) (m : R.Memory)
        → Always R Q m p
        → Obeys p s m
    unfolding Always Obeys
    Always-Obeys Q (return a) s m h = tt
    Always-Obeys Q (throw e) s m h = tt
    Always-Obeys Q (call op k) s m h =
        (h.0, Always-Obeys Q (k (E.answer s op).0) (E.answer s op).1 _ (h.1 (E.answer s op).0))
