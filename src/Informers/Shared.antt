-- ===== src/Informers/Shared.antt =====
-- `InformerFor` hands out the same informer for a type.
use aws_global_accelerator_c.Prelude.{
  ℕ, Text, Bool, true, false, ◌≡◌, refl, ap, ◌∙◌, Option, none, some, List, [], ◌∷◌, lookup,
  lookup-insert, eq_refl, if◌then◌else◌,
}
use aws_global_accelerator_c.Informers.{
  Factory, start_informer, start_informers, start, begin_shutdown, informer_or_new, informer_for,
  informer_types, FactoryCall, call_start, call_shutdown, call_informer_for, after_call,
  after_calls,
}
use aws_global_accelerator_c.Informers.Once.{found_later}

module _ {C T F I : Type 0} where
  pub start_informer_informers :
      (t : Text) (o : Option I) (b : Bool) (f : Factory C T F I)
      → (start_informer t o b f).informers ≡ f.informers
  unfolding start_informer
  start_informer_informers t none b f = refl
  start_informer_informers t (some informer) true f = refl
  start_informer_informers t (some informer) false f = refl

  pub start_informers_informers :
      (ts : List Text) (f : Factory C T F I) → (start_informers ts f).informers ≡ f.informers
  unfolding start_informers
  start_informers_informers [] f = refl
  start_informers_informers (t ∷ ts) f =
      start_informers_informers ts _ ∙ start_informer_informers t _ _ f

  start_informers_of :
      (b : Bool) (f : Factory C T F I) (ts : List Text)
      → (if b then f else start_informers ts f).informers ≡ f.informers
  start_informers_of true f ts = refl
  start_informers_of false f ts = start_informers_informers ts f

  module _ (set_transform : F → I → I) where
    module _ (t : Text) (informer : I) where
      -- What was handed out for a type is found again.
      kept_or_new :
          (o : Option I) (u : Text) (new_func : C → ℕ → I) (f : Factory C T F I)
          → lookup u f.informers ≡ o
          → lookup t f.informers ≡ some informer
          → lookup t (informer_or_new set_transform o u new_func f).1.informers ≡ some informer
      unfolding informer_or_new
      kept_or_new (some other) u new_func f e h = h
      kept_or_new none u new_func f e h = found_later u t _ informer f.informers e h

      kept_by_call :
          (call : FactoryCall C I) (f : Factory C T F I)
          → lookup t f.informers ≡ some informer
          → lookup t (after_call set_transform call f).informers ≡ some informer
      unfolding start begin_shutdown informer_for
      kept_by_call (call_start order) f h =
          ap (λ m. lookup t m) (start_informers_of f.shutting_down f (order (informer_types f))) ∙ h
      kept_by_call call_shutdown f h = h
      kept_by_call (call_informer_for u new_func) f h = kept_or_new _ u new_func f refl h

      kept_by_calls :
          (calls : List (FactoryCall C I)) (f : Factory C T F I)
          → lookup t f.informers ≡ some informer
          → lookup t (after_calls set_transform calls f).informers ≡ some informer
      unfolding after_calls
      kept_by_calls [] f h = h
      kept_by_calls (call ∷ calls) f h = kept_by_calls calls _ (kept_by_call call f h)

    handed_out :
        (o : Option I) (t : Text) (new_func : C → ℕ → I) (f : Factory C T F I)
        → lookup t f.informers ≡ o
        → lookup t (informer_or_new set_transform o t new_func f).1.informers
          ≡ some (informer_or_new set_transform o t new_func f).0
    unfolding informer_or_new
    handed_out (some informer) t new_func f e = e
    handed_out none t new_func f e = lookup-insert t t _ f.informers ∙ rw eq_refl refl

    -- However often `InformerFor` is called for a type, and whatever is called in between, it hands out
    -- the informer that the first of these calls handed out.
    pub informer_for-shared :
        (t : Text) (new_func other_func : C → ℕ → I) (calls : List (FactoryCall C I))
        (f : Factory C T F I)
        → (informer_for set_transform t other_func
            (after_calls set_transform calls (informer_for set_transform t new_func f).1)).0
          ≡ (informer_for set_transform t new_func f).0
    unfolding informer_for informer_or_new
    informer_for-shared t new_func other_func calls f =
        let found = handed_out _ t new_func f refl in
        let later = after_calls set_transform calls (informer_for set_transform t new_func f).1 in
        let kept = kept_by_calls t _ calls _ found in
        ap (λ o. (informer_or_new set_transform o t other_func later).0) kept
