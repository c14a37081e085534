-- ===== src/Informers/Starts.antt =====
-- `Start` runs each informer of the factory, once.
use aws_global_accelerator_c.Prelude.{
  Text, Bool, true, false, ◌==◌, ◌≡◌, refl, sym, ap, subst, ◌∙◌, inl, inr, Option, none, some, List,
  [], ◌∷◌, map, lookup, contains, eq_iff, eq_refl, Bool-cases, if◌then◌else◌, arith,
}
use aws_global_accelerator_c.Informers.{
  Factory, start_informer, start_informers, start, informer_types,
}
use aws_global_accelerator_c.Informers.Once.{IsConsistent, count_type, one_if, start-IsConsistent}
use aws_global_accelerator_c.Informers.Shared.{start_informer_informers, start_informers_informers}

if_false {ℓ} : {A : Type ℓ} (b : Bool) (x y : A) → b ≡ false → (if b then x else y) ≡ y
if_false b x y e = rw e refl

either {ℓ} : {A : Type ℓ} (b : Bool) (x y : A) → y ≡ x → (if b then x else y) ≡ x
either true x y e = refl
either false x y e = e

type_of_informer :
    {I : Type 0} (t : Text) (informer : I) (m : List (Text × I))
    → lookup t m ≡ some informer
    → contains t (map (λ (u, other). u) m) ≡ true
unfolding lookup contains
type_of_informer t informer [] h = cc
type_of_informer t informer ((u, other) ∷ m) h =
    let rest = type_of_informer t informer m in
    elim (Bool-cases (u == t)) [
      | inl e ↦ rw e refl
      | inr e ↦ rw e (rest (sym (if_false (u == t) (some other) (lookup t m) e) ∙ h))
    ]

module _ {C T F I : Type 0} where
  start_informer_shutting :
      (t : Text) (o : Option I) (b : Bool) (f : Factory C T F I)
      → (start_informer t o b f).shutting_down ≡ f.shutting_down
  unfolding start_informer
  start_informer_shutting t none b f = refl
  start_informer_shutting t (some informer) true f = refl
  start_informer_shutting t (some informer) false f = refl

  stays_started :
      (t u : Text) (o : Option I) (b : Bool) (f : Factory C T F I)
      → f.started_informers t ≡ true
      → (start_informer u o b f).started_informers t ≡ true
  unfolding start_informer
  stays_started t u none b f h = h
  stays_started t u (some informer) true f h = h
  stays_started t u (some informer) false f h = ground (arith, h)

  stay_started :
      (t : Text) (us : List Text) (f : Factory C T F I)
      → f.started_informers t ≡ true
      → (start_informers us f).started_informers t ≡ true
  unfolding start_informers
  stay_started t [] f h = h
  stay_started t (u ∷ us) f h = stay_started t us _ (stays_started t u _ _ f h)

  is_started :
      (t : Text) (informer : I) (o : Option I) (b : Bool) (f : Factory C T F I)
      → o ≡ some informer
      → f.started_informers t ≡ b
      → (start_informer t o b f).started_informers t ≡ true
  unfolding start_informer
  is_started t informer none b f e s = cc
  is_started t informer (some other) true f e s = s
  is_started t informer (some other) false f e s = rw eq_refl refl

  are_started :
      (t : Text) (informer : I) (us : List Text) (f : Factory C T F I)
      → contains t us ≡ true
      → lookup t f.informers ≡ some informer
      → (start_informers us f).started_informers t ≡ true
  unfolding start_informers contains
  are_started t informer [] f c h = cc
  are_started t informer (u ∷ us) f c h = elim (Bool-cases (u == t)) [
    | inl e ↦
        let here = ap (λ v. lookup v f.informers) ((eq_iff u t).0 e) ∙ h in
        let started = is_started u informer _ _ f here refl in
        stay_started t us _ (
          ap
            (λ v.
              (start_informer u (lookup u f.informers) (f.started_informers u) f).started_informers
                v)
            (sym ((eq_iff u t).0 e))
          ∙ started)
    | inr e ↦
        are_started t informer us _ (ground (arith, c, e))
          (ap (λ m. lookup t m) (start_informer_informers u _ _ f) ∙ h)
  ]

  start_informers_shutting :
      (ts : List Text) (f : Factory C T F I)
      → (start_informers ts f).shutting_down ≡ f.shutting_down
  unfolding start_informers
  start_informers_shutting [] f = refl
  start_informers_shutting (t ∷ ts) f =
      start_informers_shutting ts _ ∙ start_informer_shutting t _ _ f

  -- Every informer of the factory was started.
  abbrev AllStarted : Factory C T F I → Type 0
  AllStarted f =
      (t : Text) (informer : I)
      → lookup t f.informers ≡ some informer
      → f.started_informers t ≡ true

  nothing_to_start :
      (t : Text) (o : Option I) (b : Bool) (f : Factory C T F I)
      → lookup t f.informers ≡ o
      → f.started_informers t ≡ b
      → AllStarted f
      → start_informer t o b f ≡ f
  unfolding start_informer
  nothing_to_start t none b f e s h = refl
  nothing_to_start t (some informer) true f e s h = refl
  nothing_to_start t (some informer) false f e s h = let all = h t informer e in cc

  start_informers_again :
      (ts : List Text) (f : Factory C T F I) → AllStarted f → start_informers ts f ≡ f
  unfolding start_informers
  start_informers_again [] f h = refl
  start_informers_again (t ∷ ts) f h =
      ap (λ g. start_informers ts g) (nothing_to_start t _ _ f refl refl h)
      ∙ start_informers_again ts f h

  start_again :
      (order : List Text → List Text) (f : Factory C T F I) → AllStarted f → start order f ≡ f
  unfolding start
  start_again order f h = either f.shutting_down f _ (start_informers_again _ f h)

  starts :
      (order : List Text → List Text) (f : Factory C T F I)
      → f.shutting_down ≡ false
      → start order f ≡ start_informers (order (informer_types f)) f
  unfolding start
  starts order f e = if_false f.shutting_down f _ e

  ranged :
      (f : Factory C T F I) (order : List Text → List Text)
      → ((t : Text)
          → contains t (informer_types f) ≡ true
          → contains t (order (informer_types f)) ≡ true)
      → (t : Text) (informer : I) → lookup t f.informers ≡ some informer
      → (start_informers (order (informer_types f)) f).started_informers t ≡ true
  ranged f order ranges t informer found =
      are_started t informer (order (informer_types f)) f
        (ranges t (type_of_informer t informer f.informers found)) found

  -- Where nobody has shut the factory down and the range over its map leaves no type out, `Start`
  -- leaves exactly one goroutine for each type that has an informer, whether it was started before or
  -- not; and a further `Start` changes nothing.
  pub start_runs_each :
      (f : Factory C T F I) (order other_order : List Text → List Text)
      → IsConsistent f
      → f.shutting_down ≡ false
      → ((t : Text)
          → contains t (informer_types f) ≡ true
          → contains t (order (informer_types f)) ≡ true)
      → ((t : Text) (informer : I)
          → lookup t f.informers ≡ some informer
          → count_type t (start order f).running ≡ 1)
        × (start other_order (start order f) ≡ start order f)
  start_runs_each f order other_order h active ranges =
      let each = ranged f order ranges in
      let same = starts order f active in
      (
        λ t informer found.
            (start-IsConsistent order f h).run_once t
            ∙ ap one_if (ap (λ g. g.started_informers t) same ∙ each t informer found),
        start_again other_order (start order f) (
            subst AllStarted (sym same) (λ t informer found.
              each t informer
                (ap (λ m. lookup t m) (sym (start_informers_informers _ f)) ∙ found))),
      )
