-- ===== src/Programs.antt =====
-- Code that awaits calls of its surroundings, as a tree: each call has a branch for every way in
-- which it may answer, an exception included. `async` functions become trees, `await` is a call,
-- and an uncaught exception ends the tree.
pub mod Runs
pub mod Only
use botroost.Prelude.{
  Bool, true, false, String, Option, none, some, List, [], ◌∷◌, ◌++◌, if◌then◌else◌,
}

-- How a call answers: with a value, or with an exception and its message.
pub data Answer {ℓ} (A : Type ℓ) : Type ℓ where
  gave : A → Answer A
  raised : String → Answer A

pub data Program (Op : Type 0) (Reply : Op → Type 0) (A : Type 0) : Type 0 where
  return : A → Program Op Reply A
  throw : String → Program Op Reply A
  call : (op : Op) → (Answer (Reply op) → Program Op Reply A) → Program Op Reply A

module _ {Op : Type 0} {Reply : Op → Type 0} where
  infixl 5 ◌>>=◌ ◌>>◌
  unfoldable pub ◌>>=◌ :
      {A B : Type 0} → Program Op Reply A → (A → Program Op Reply B) → Program Op Reply B
  return a >>= f = f a
  throw e >>= f = throw e
  call op k >>= f = call op (λ r. k r >>= f)

  abbrev pub ◌>>◌ : {A B : Type 0} → Program Op Reply A → Program Op Reply B → Program Op Reply B
  p >> q = p >>= λ _. q

  -- `await` of one call, which passes its exception on.
  unfoldable pub answer_of : {A : Type 0} → Answer A → Program Op Reply A
  answer_of (gave a) = return a
  answer_of (raised e) = throw e

  abbrev pub perform : (op : Op) → Program Op Reply (Reply op)
  perform op = call op (λ r. answer_of r)

  -- `try { p } catch (e) { handle(e) }`
  unfoldable pub catch :
      {A : Type 0} → Program Op Reply A → (String → Program Op Reply A) → Program Op Reply A
  catch (return a) handle = return a
  catch (throw e) handle = handle e
  catch (call op k) handle = call op (λ r. catch (k r) handle)

  -- `if (test) throw new Error(message)`, and a step that is taken only if the test holds.
  abbrev pub throw_if : Bool → String → Program Op Reply (Unit {0})
  throw_if test message = if test then throw message else return tt

  abbrev pub when : Bool → Program Op Reply (Unit {0}) → Program Op Reply (Unit {0})
  when test p = if test then p else return tt

  -- What is done where a value may be missing: `if (!x) absent`, and otherwise what goes on with it.
  unfoldable pub given :
      {A B : Type 0} → Option A → Program Op Reply B → (A → Program Op Reply B) → Program Op Reply B
  given none absent present = absent
  given (some a) absent present = present a
