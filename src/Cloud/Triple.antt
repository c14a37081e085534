-- ===== src/Cloud/Triple.antt =====
-- Partial correctness over logs: from a log with `P`, a result leaves a log with `Q`, and an error
-- or a panic leaves a log with `E`.
use aws_global_accelerator_c.Prelude.{◌≡◌, refl, ◌⊎◌, inl, inr, ◌∷◌}
use aws_global_accelerator_c.Errors.{Error, Result, ok, err, panic}
use aws_global_accelerator_c.Cloud.Types.{Request, Answer, Log, CloudService}
use aws_global_accelerator_c.Cloud.Exec.{
  State, Exec, pure, throw, lift, attempt, attempted, continue, ◌>>=◌, perform, call,
}

module _ {A : Type 0} where
  abbrev pub After : (A → Log → Type 0) → (Log → Type 0) → Result A → Log → Type 0
  After Q E (ok a) log = Q a log
  After Q E (err e) log = E log
  After Q E panic log = E log

pub record Triple {W A : Type 0} (P : Log → Type 0) (m : Exec W A) (Q : A → Log → Type 0)
    (E : Log → Type 0) : Type 0 where
  pub at : (s : State W) → P s.log → After Q E (m s).0 (m s).1.log

After-lift :
    {A : Type 0} (Q : A → Log → Type 0) (E : Log → Type 0) (r : Result A) (log : Log)
    → ((a : A) → r ≡ ok a → Q a log)
    → E log
    → After Q E r log
After-lift Q E (ok a) log q e = q a refl
After-lift Q E (err c) log q e = e
After-lift Q E panic log q e = e

module _ {W A : Type 0} {P : Log → Type 0} {E : Log → Type 0} where
  pub Triple-pure :
      {Q : A → Log → Type 0} (a : A)
      → ((log : Log) → P log → Q a log)
      → Triple P (pure {W = W} a) Q E
  unfolding pure
  Triple-pure a h = record { at = λ s p. h s.log p }

  pub Triple-throw :
      {Q : A → Log → Type 0} (e : Error)
      → ((log : Log) → P log → E log)
      → Triple P (throw {W = W} e) Q E
  unfolding throw
  Triple-throw e h = record { at = λ s p. h s.log p }

  pub Triple-lift :
      {Q : A → Log → Type 0} (r : Result A)
      → ((a : A) → r ≡ ok a → (log : Log) → P log → Q a log)
      → ((log : Log) → P log → E log)
      → Triple P (lift {W = W} r) Q E
  unfolding lift
  Triple-lift {Q} r q e = record {
    at = λ s p. After-lift Q E r s.log (λ a eq. q a eq s.log p) (e s.log p);
  }

module _ {W A B : Type 0} {Q : A → Log → Type 0} {R : B → Log → Type 0} {E : Log → Type 0} where
  After-continue :
      (r : Result A) (f : A → Exec W B) (s : State W)
      → After Q E r s.log
      → ((a : A) → Triple (Q a) (f a) R E)
      → After R E (continue r f s).0 (continue r f s).1.log
  After-continue (ok a) f s h k = (k a).at s h
  After-continue (err e) f s h k = h
  After-continue panic f s h k = h

  pub Triple-bind :
      {P : Log → Type 0} (m : Exec W A) (f : A → Exec W B)
      → Triple P m Q E
      → ((a : A) → Triple (Q a) (f a) R E)
      → Triple P (m >>= f) R E
  unfolding ◌>>=◌
  Triple-bind m f h k = record { at = λ s p. After-continue (m s).0 f (m s).1 (h.at s p) k }

module _ {W : Type 0} (service : CloudService W) where
  pub Triple-perform :
      {P : Log → Type 0} {E : Log → Type 0} (q : Request) {Q : Answer q → Log → Type 0}
      → ((w : W) (log : Log)
          → P log
          → Q (service q w).0 (record { request = q; answer = (service q w).0 } ∷ log))
      → Triple P (perform service q) Q E
  unfolding perform
  Triple-perform q h = record { at = λ s p. h s.world s.log p }

  pub Triple-call :
      {A : Type 0} {P : Log → Type 0} {Q : A → Log → Type 0} {E : Log → Type 0} (q : Request)
      (result : Answer q → Result A)
      → ((answer : Answer q) (log : Log)
          → P log
          → After Q E (result answer) (record { request = q; answer = answer } ∷ log))
      → Triple P (call service q result) Q E
  unfolding call
  Triple-call q result h = record { at = λ s p. h (service q s.world).0 s.log p }

module _ {A : Type 0} {E R : Log → Type 0} (Q : Error ⊎ A → Log → Type 0) where
  After-attempted :
      ((e : Error) (log : Log) → R log → Q (inl e) log)
      → ((log : Log) → R log → E log)
      → (r : Result A) (log : Log) → After (λ a. Q (inr a)) R r log
      → After Q E (attempted r) log
  After-attempted failed panicked (ok a) log h = h
  After-attempted failed panicked (err e) log h = failed e log h
  After-attempted failed panicked panic log h = panicked log h

module _ {W A : Type 0} {P E R : Log → Type 0} {Q : Error ⊎ A → Log → Type 0} where
  -- What an error leaves is what the caller goes on from.
  pub Triple-attempt :
      (m : Exec W A)
      → Triple P m (λ a. Q (inr a)) R
      → ((e : Error) (log : Log) → R log → Q (inl e) log)
      → ((log : Log) → R log → E log)
      → Triple P (attempt m) Q E
  unfolding attempt
  Triple-attempt m h failed panicked = record {
    at = λ s p. After-attempted Q failed panicked (m s).0 (m s).1.log (h.at s p);
  }

always :
    {A : Type 0} (Q : A → Log → Type 0) (E R : Log → Type 0)
    → ((a : A) (log : Log) → Q a log → R log)
    → ((log : Log) → E log → R log)
    → (r : Result A) (log : Log) → After Q E r log
    → R log
always Q E R done failed (ok a) log h = done a log h
always Q E R done failed (err e) log h = failed log h
always Q E R done failed panic log h = failed log h

module _ {W A : Type 0} {P : Log → Type 0} where
  -- What both outcomes have in common holds of the log.
  pub Triple-always :
      {Q : A → Log → Type 0} {E R : Log → Type 0} (m : Exec W A)
      → Triple P m Q E
      → ((a : A) (log : Log) → Q a log → R log)
      → ((log : Log) → E log → R log)
      → (s : State W) → P s.log
      → R (m s).1.log
  Triple-always {Q} {E} {R} m h done failed s p =
      always Q E R done failed (m s).0 (m s).1.log (h.at s p)
