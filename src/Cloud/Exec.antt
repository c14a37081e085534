-- ===== src/Cloud/Exec.antt =====
-- Code that calls a service: it returns, fails or panics, and what was requested before stays.
use aws_global_accelerator_c.Prelude.{List, ◌∷◌, ◌++◌, ◌⊎◌, inl, inr}
use aws_global_accelerator_c.Errors.{Error, Result, ok, err, panic}
use aws_global_accelerator_c.Cloud.Types.{
  Request, Answer, Log, CloudService, Pages, last_page, page,
}

pub record State (W : Type 0) : Type 0 where
  pub world : W
  pub log : Log

abbrev pub Exec : Type 0 → Type 0 → Type 0
Exec W A = State W → Result A × State W

abbrev pub attempted : {A : Type 0} → Result A → Result (Error ⊎ A)
attempted (ok a) = ok (inr a)
attempted (err e) = ok (inl e)
attempted panic = panic

module _ {W A : Type 0} where
  unfoldable pub pure : A → Exec W A
  pure a s = (ok a, s)

  unfoldable pub throw : Error → Exec W A
  throw e s = (err e, s)

  unfoldable pub lift : Result A → Exec W A
  lift r s = (r, s)

  -- A call whose error the caller looks at itself. A panic goes on.
  unfoldable pub attempt : Exec W A → Exec W (Error ⊎ A)
  attempt m s = let (r, s') = m s in (attempted r, s')

module _ {W A B : Type 0} where
  abbrev pub continue : Result A → (A → Exec W B) → Exec W B
  continue (ok a) f s = f a s
  continue (err e) f s = (err e, s)
  continue panic f s = (panic, s)

  infixl 5 ◌>>=◌
  unfoldable pub ◌>>=◌ : Exec W A → (A → Exec W B) → Exec W B
  unfolding pure throw lift attempt
  ◌>>=◌ m f s = let (r, s') = m s in continue r f s'

infixl 5 ◌>>◌
abbrev pub ◌>>◌ : {W A B : Type 0} → Exec W A → Exec W B → Exec W B
m >> n = m >>= λ _. n

-- The loop over a paginator: pages are joined until the last one, or until one fails.
unfoldable pub read_pages : {A : Type 0} → Pages A → List A → Result (List A)
read_pages (last_page (ok more)) found = ok (found ++ more)
read_pages (last_page (err e)) found = err e
read_pages (last_page panic) found = panic
read_pages (page more pages) found = read_pages pages (found ++ more)

module _ {W : Type 0} (service : CloudService W) where
  -- One request, whatever its answer.
  unfoldable pub perform : (q : Request) → Exec W (Answer q)
  perform q s =
      let (a, w) = service q s.world in
      (ok a, record { world = w; log = record { request = q; answer = a } ∷ s.log })

  -- A request with one answer: its error is the error of the call.
  unfoldable pub call : {A : Type 0} (q : Request) → (Answer q → Result A) → Exec W A
  unfolding perform
  call q result s =
      let (a, w) = service q s.world in
      (result a, record { world = w; log = record { request = q; answer = a } ∷ s.log })
