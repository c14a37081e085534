-- ===== src/Cloud/Sends.antt =====
-- What an action returns and which requests it sends, from every state.
use aws_global_accelerator_c.Prelude.{
  ℕ, zero, suc, Bool, true, false, ◌≡◌, refl, sym, ap, ◌∙◌, inr, List, [], ◌∷◌, ◌++◌, append_assoc,
  if◌then◌else◌,
}
use aws_global_accelerator_c.Errors.{Result, ok}
use aws_global_accelerator_c.Cloud.Types.{Request, Answer, Log, CloudService, request_count}
use aws_global_accelerator_c.Cloud.Exec.{State, Exec, pure, attempt, continue, call, ◌>>=◌}

abbrev pub times : ℕ → Request → List Request
times zero q = []
times (suc n) q = q ∷ times n q

-- The requests of a log, the newest first: one for each page of a paginator.
abbrev pub requests : Log → List Request
requests [] = []
requests (e ∷ log) = times (request_count e.request e.answer) e.request ++ requests log

-- It returns `a`, having sent the requests `qs`, the newest first.
pub record Sends {W A : Type 0} (m : Exec W A) (a : A) (qs : List Request) : Type 0 where
  pub at : (s : State W) → ((m s).0 ≡ ok a) × (requests (m s).1.log ≡ qs ++ requests s.log)

module _ {W A : Type 0} where
  pub Sends-pure : (a : A) → Sends (pure {W = W} a) a []
  unfolding pure
  Sends-pure a = record { at = λ s. (refl, refl) }

  pub Sends-attempt :
      {a : A} {qs : List Request} (m : Exec W A) → Sends m a qs → Sends (attempt m) (inr a) qs
  unfolding attempt
  Sends-attempt m h = record { at = λ s. let (e, l) = h.at s in (rw e refl, l) }

  pub Sends-else :
      {a : A} {qs : List Request} (b : Bool) (m n : Exec W A)
      → b ≡ false
      → Sends n a qs
      → Sends (if b then m else n) a qs
  Sends-else b m n e h = rw e h

  pub Sends-then :
      {a : A} {qs : List Request} (b : Bool) (m n : Exec W A)
      → b ≡ true
      → Sends m a qs
      → Sends (if b then m else n) a qs
  Sends-then b m n e h = rw e h

pub Sends-continue :
    {W A B : Type 0} {a : A} {b : B} {qs : List Request} (r : Result A) (f : A → Exec W B)
    (s : State W)
    → r ≡ ok a
    → Sends (f a) b qs
    → ((continue r f s).0 ≡ ok b) × (requests (continue r f s).1.log ≡ qs ++ requests s.log)
Sends-continue r f s e h = rw e (h.at s)

pub Sends-bind :
    {W A B : Type 0} {a : A} {b : B} {qs rs : List Request} (m : Exec W A) (f : A → Exec W B)
    → Sends m a qs
    → Sends (f a) b rs
    → Sends (m >>= f) b (rs ++ qs)
unfolding ◌>>=◌
Sends-bind {qs} {rs} m f h k = record {
  at = λ s.
      let (e, l) = h.at s in
      let (e', l') = Sends-continue (m s).0 f (m s).1 e k in
      (e', l' ∙ ap (λ t. rs ++ t) l ∙ sym (append_assoc rs qs (requests s.log)));
}

module _ {W : Type 0} (service : CloudService W) where
  pub Sends-call :
      {A : Type 0} {a : A} (n : ℕ) (q : Request) (result : Answer q → Result A)
      → ((w : W) → (result (service q w).0 ≡ ok a) × (request_count q (service q w).0 ≡ n))
      → Sends (call service q result) a (times n q)
  unfolding call
  Sends-call n q result h = record {
    at = λ s. ((h s.world).0, ap (λ k. times k q ++ requests s.log) (h s.world).1);
  }
