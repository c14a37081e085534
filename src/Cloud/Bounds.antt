-- ===== src/Cloud/Bounds.antt =====
-- How many requests an action sends at most, one rule for each way to build an action.
use aws_global_accelerator_c.Prelude.{ℕ, ◌+◌, ◌≤◌, Bool, true, false, [], ◌∷◌, arith, if◌then◌else◌}
use aws_global_accelerator_c.Errors.{Error, Result, ok, err, panic}
use aws_global_accelerator_c.Cloud.Types.{Request, Answer, Log, CloudService, request_count}
use aws_global_accelerator_c.Cloud.Exec.{State, Exec, pure, throw, attempt, continue, ◌>>=◌, call}

-- How many requests of a kind a log holds, each page of a paginator for one.
abbrev pub count_requests : (Request → Bool) → Log → ℕ
count_requests p [] = 0
count_requests p (e ∷ log) =
    (if p e.request then request_count e.request e.answer else 0) + count_requests p log

module _ (p : Request → Bool) where
  -- It sends at most `n` requests of the kind, whether it returns, fails or panics.
  pub record SendsAtMost {W A : Type 0} (n : ℕ) (m : Exec W A) : Type 0 where
    pub at : (s : State W) → count_requests p (m s).1.log ≤ count_requests p s.log + n

module _ {p : Request → Bool} {W A : Type 0} where
  pub SendsAtMost-pure : (a : A) → SendsAtMost p 0 (pure {W = W} a)
  unfolding pure
  SendsAtMost-pure a = record { at = λ s. omega arith }

  pub SendsAtMost-throw : (e : Error) → SendsAtMost p 0 (throw {W = W} {A = A} e)
  unfolding throw
  SendsAtMost-throw e = record { at = λ s. omega arith }

  pub SendsAtMost-attempt : (n : ℕ) (m : Exec W A) → SendsAtMost p n m → SendsAtMost p n (attempt m)
  unfolding attempt
  SendsAtMost-attempt n m h = record { at = λ s. h.at s }

  pub SendsAtMost-more : (n k : ℕ) (m : Exec W A) → n ≤ k → SendsAtMost p n m → SendsAtMost p k m
  SendsAtMost-more n k m le h = record { at = λ s. omega (arith, le, h.at s) }

  pub SendsAtMost-if :
      (n : ℕ) (b : Bool) (m m' : Exec W A)
      → SendsAtMost p n m
      → SendsAtMost p n m'
      → SendsAtMost p n (if b then m else m')
  SendsAtMost-if n true m m' h h' = h
  SendsAtMost-if n false m m' h h' = h'

module _ {p : Request → Bool} {W A B : Type 0} where
  continue_bound :
      (n k : ℕ) (r : Result A) (f : A → Exec W B) (s : State W) (start : ℕ)
      → count_requests p s.log ≤ start + n
      → ((a : A) → SendsAtMost p k (f a))
      → count_requests p (continue r f s).1.log ≤ start + (n + k)
  continue_bound n k (ok a) f s start h g = omega (arith, h, (g a).at s)
  continue_bound n k (err e) f s start h g = omega (arith, h)
  continue_bound n k panic f s start h g = omega (arith, h)

  pub SendsAtMost-bind :
      (n k : ℕ) (m : Exec W A) (f : A → Exec W B)
      → SendsAtMost p n m
      → ((a : A) → SendsAtMost p k (f a))
      → SendsAtMost p (n + k) (m >>= f)
  unfolding ◌>>=◌
  SendsAtMost-bind n k m f h g = record {
    at = λ s. continue_bound n k (m s).0 f (m s).1 (count_requests p s.log) (h.at s) g;
  }

-- At most `n` of the kind, if the request is of it.
pub SendsAtMost-call :
    {p : Request → Bool} {W A : Type 0} (n : ℕ) (service : CloudService W) (q : Request)
    (result : Answer q → Result A)
    → ((w : W) → (if p q then request_count q (service q w).0 else 0) ≤ n)
    → SendsAtMost p n (call service q result)
unfolding call
SendsAtMost-call n service q result h = record {
  at = λ s. let few = h s.world in omega (arith, few);
}
