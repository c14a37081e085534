-- ===== src/Cloud/Keeps.antt =====
-- Invariants of the log, one rule for each way to build an action. An action keeps `P` whether it
-- returns, fails or panics.
use aws_global_accelerator_c.Prelude.{Bool, true, false, ◌≡◌, ◌∷◌, if◌then◌else◌}
use aws_global_accelerator_c.Errors.{Error, Result, ok, err, panic}
use aws_global_accelerator_c.Cloud.Types.{Request, Answer, Log, CloudService}
use aws_global_accelerator_c.Cloud.Exec.{
  State, Exec, pure, throw, lift, attempt, continue, ◌>>=◌, call,
}

pub record Keeps {W A : Type 0} (P : Log → Type 0) (m : Exec W A) : Type 0 where
  pub at : (s : State W) → P s.log → P (m s).1.log

module _ {W A : Type 0} {P : Log → Type 0} where
  pub Keeps-pure : (a : A) → Keeps P (pure {W = W} a)
  unfolding pure
  Keeps-pure a = record { at = λ s p. p }

  pub Keeps-throw : (e : Error) → Keeps P (throw {W = W} {A = A} e)
  unfolding throw
  Keeps-throw e = record { at = λ s p. p }

  pub Keeps-lift : (r : Result A) → Keeps P (lift {W = W} r)
  unfolding lift
  Keeps-lift r = record { at = λ s p. p }

  pub Keeps-attempt : (m : Exec W A) → Keeps P m → Keeps P (attempt m)
  unfolding attempt
  Keeps-attempt m k = record { at = λ s p. k.at s p }

  pub Keeps-if : (b : Bool) (m n : Exec W A) → Keeps P m → Keeps P n → Keeps P (if b then m else n)
  Keeps-if true m n km kn = km
  Keeps-if false m n km kn = kn

module _ {W A B : Type 0} {P : Log → Type 0} where
  continue-keeps :
      (r : Result A) (f : A → Exec W B)
      → ((a : A) → Keeps P (f a))
      → (s : State W) → P s.log
      → P (continue r f s).1.log
  continue-keeps (ok a) f k s p = (k a).at s p
  continue-keeps (err e) f k s p = p
  continue-keeps panic f k s p = p

  pub Keeps-bind :
      (first : Exec W A) (next : A → Exec W B)
      → Keeps P first
      → ((a : A) → Keeps P (next a))
      → Keeps P (first >>= next)
  unfolding ◌>>=◌
  Keeps-bind first next k h = record {
    at = λ s p. let done = first s in continue-keeps done.0 next h done.1 (k.at s p);
  }

module _ {W A : Type 0} {P : Log → Type 0} (service : CloudService W) where
  pub Keeps-call :
      (q : Request) (result : Answer q → Result A)
      → ((answer : Answer q) (log : Log)
          → P log
          → P (record { request = q; answer = answer } ∷ log))
      → Keeps P (call service q result)
  unfolding call
  Keeps-call q result h = record { at = λ s p. h (service q s.world).0 s.log p }

-- Requests of this kind keep `P`, whatever their answers are.
abbrev pub Admits : (Request → Bool) → (Log → Type 0) → Type 0
Admits kind P =
    (q : Request) (answer : Answer q) (log : Log)
    → kind q ≡ true
    → P log
    → P (record { request = q; answer = answer } ∷ log)

pub Keeps-admitted :
    {W A : Type 0} {P : Log → Type 0} (service : CloudService W) (kind : Request → Bool)
    → Admits kind P
    → (q : Request) (result : Answer q → Result A) → kind q ≡ true
    → Keeps P (call service q result)
Keeps-admitted service kind admits q result h =
    Keeps-call service q result (λ answer log p. admits q answer log h p)

pub ruleset keeps_rules = (Keeps-pure, Keeps-throw, Keeps-lift, Keeps-attempt, Keeps-if, Keeps-bind)
