-- ===== src/Informers/Once.antt =====
-- Each type has one informer, which is run once.
use aws_global_accelerator_c.Prelude.{
  ℕ, ◌+◌, Text, Bool, true, false, ◌==◌, ◌||◌, ◌≡◌, refl, sym, ap, ◌∙◌, inl, inr, Option, none,
  some, List, [], ◌∷◌, ◌++◌, All, All-append, All-map, lookup, insert, map, lookup-insert, is_some,
  eq_iff, Bool-cases, if◌then◌else◌, arith,
}
use aws_global_accelerator_c.Informers.{
  Factory, start_informer, start_informers, start, begin_shutdown, informer_or_new, informer_for,
  informer_types, FactoryCall, call_start, call_shutdown, call_informer_for, after_call,
  after_calls, new_shared_informer_factory_with_options, apply_options, FactoryOption, as_option,
  custom_resync_config, tweak_list_options, namespace, transform, informer_name,
}

-- How often a type is in the list.
unfoldable pub count_type : {A : Type 0} → Text → List (Text × A) → ℕ
count_type t [] = 0
count_type t ((u, a) ∷ rest) = (if u == t then 1 else 0) + count_type t rest

abbrev pub one_if : Bool → ℕ
one_if b = if b then 1 else 0

count_type-append :
    {A : Type 0} (t : Text) (xs ys : List (Text × A))
    → count_type t (xs ++ ys) ≡ count_type t xs + count_type t ys
unfolding count_type
count_type-append t [] ys = omega arith
count_type-append t (x ∷ xs) ys = omega (arith, count_type-append t xs ys)

missing_key :
    {A : Type 0} (b : Bool) (a : A) (o : Option A)
    → (if b then some a else o) ≡ none
    → (b ≡ false) × (o ≡ none)
missing_key true a o h = cc
missing_key false a o h = (refl, h)

-- A new key is put at the end.
count_type-insert :
    {A : Type 0} (t u : Text) (a : A) (m : List (Text × A))
    → lookup t m ≡ none
    → count_type u (insert t a m) ≡ count_type u m + one_if (t == u)
unfolding count_type insert lookup
count_type-insert t u a [] h = omega arith
count_type-insert t u a ((v, b) ∷ m) h =
    let (e, rest) = missing_key (v == t) b (lookup t m) h in
    rw e (omega (arith, count_type-insert t u a m rest))

-- What is found under a key stays when a new key is put in.
pub found_later :
    {A : Type 0} (t u : Text) (a b : A) (m : List (Text × A))
    → lookup t m ≡ none
    → lookup u m ≡ some b
    → lookup u (insert t a m) ≡ some b
found_later t u a b m missing found = elim (Bool-cases (t == u)) [
  | inl e ↦ let same = ap (λ v. lookup v m) ((eq_iff t u).0 e) in cc
  | inr e ↦ lookup-insert t u a m ∙ rw e found
]

one_more :
    {A : Type 0} (t u : Text) (a : A) (m : List (Text × A))
    → lookup t m ≡ none
    → count_type u m ≡ one_if (is_some (lookup u m))
    → count_type u (insert t a m) ≡ one_if (is_some (lookup u (insert t a m)))
one_more t u a m missing h =
    let counted = count_type-insert t u a m missing in
    elim (Bool-cases (t == u)) [
      | inl e ↦
          let same = ap (λ v. lookup v m) ((eq_iff t u).0 e) in
          let none_yet = h ∙ ap (λ o. one_if (is_some o)) (sym same ∙ missing) in
          counted ∙ rw e (rw none_yet (rw (lookup-insert t u a m) (rw e (omega arith))))
      | inr e ↦ counted ∙ rw e (rw (lookup-insert t u a m) (rw e (omega (arith, h))))
    ]

module _ {C T F I : Type 0} where
  -- The informers are kept one for each type; one that was run is the informer of its type; and a
  -- type was run once where the factory says that it was started, and else not.
  pub record IsConsistent (f : Factory C T F I) : Type 0 where
    pub one_each : (t : Text) → count_type t f.informers ≡ one_if (is_some (lookup t f.informers))
    pub its_own : All (λ (t, informer). lookup t f.informers ≡ some informer) f.running
    pub run_once : (t : Text) → count_type t f.running ≡ one_if (f.started_informers t)

  started_once :
      (t u : Text) (f : Factory C T F I)
      → f.started_informers t ≡ false
      → count_type u f.running ≡ one_if (f.started_informers u)
      → (informer : I)
      → count_type u (f.running ++ ((t, informer) ∷ [])) ≡ one_if (t == u || f.started_informers u)
  unfolding count_type
  started_once t u f s h informer =
      let append = count_type-append u f.running ((t, informer) ∷ []) in
      elim (Bool-cases (t == u)) [
        | inl e ↦
            let same = ap f.started_informers ((eq_iff t u).0 e) in
            ground (arith, append, e, same, s, h)
        | inr e ↦ ground (arith, append, e, h)
      ]

  start_informer-IsConsistent :
      (t : Text) (o : Option I) (b : Bool) (f : Factory C T F I)
      → lookup t f.informers ≡ o
      → f.started_informers t ≡ b
      → IsConsistent f
      → IsConsistent (start_informer t o b f)
  unfolding start_informer count_type
  start_informer-IsConsistent t none b f e s h = h
  start_informer-IsConsistent t (some informer) true f e s h = h
  start_informer-IsConsistent t (some informer) false f e s h = record {
    one_each = h.one_each;
    its_own = All-append _ f.running _ h.its_own (e, tt);
    run_once = λ u. started_once t u f s (h.run_once u) informer;
  }

  start_informers-IsConsistent :
      (ts : List Text) (f : Factory C T F I) → IsConsistent f → IsConsistent (start_informers ts f)
  unfolding start_informers
  start_informers-IsConsistent [] f h = h
  start_informers-IsConsistent (t ∷ ts) f h =
      start_informers-IsConsistent ts _ (start_informer-IsConsistent t _ _ f refl refl h)

  if-IsConsistent :
      (b : Bool) (f g : Factory C T F I)
      → IsConsistent f
      → IsConsistent g
      → IsConsistent (if b then f else g)
  if-IsConsistent true f g h k = h
  if-IsConsistent false f g h k = k

  pub start-IsConsistent :
      (order : List Text → List Text) (f : Factory C T F I)
      → IsConsistent f
      → IsConsistent (start order f)
  unfolding start
  start-IsConsistent order f h =
      if-IsConsistent f.shutting_down f _ h
        (start_informers-IsConsistent (order (informer_types f)) f h)

  as_option-IsConsistent :
      (option : FactoryOption T F) (f : Factory C T F I)
      → IsConsistent f
      → IsConsistent (as_option option f)
  as_option-IsConsistent (custom_resync_config config) f h = record {
    one_each = h.one_each;
    its_own = h.its_own;
    run_once = h.run_once;
  }
  as_option-IsConsistent (tweak_list_options tweak) f h = record {
    one_each = h.one_each;
    its_own = h.its_own;
    run_once = h.run_once;
  }
  as_option-IsConsistent (namespace ns) f h = record {
    one_each = h.one_each;
    its_own = h.its_own;
    run_once = h.run_once;
  }
  as_option-IsConsistent (transform function) f h = record {
    one_each = h.one_each;
    its_own = h.its_own;
    run_once = h.run_once;
  }
  as_option-IsConsistent (informer_name name) f h = record {
    one_each = h.one_each;
    its_own = h.its_own;
    run_once = h.run_once;
  }

  module _ (set_transform : F → I → I) where
    informer_or_new-IsConsistent :
        (o : Option I) (t : Text) (new_func : C → ℕ → I) (f : Factory C T F I)
        → lookup t f.informers ≡ o
        → IsConsistent f
        → IsConsistent (informer_or_new set_transform o t new_func f).1
    unfolding informer_or_new
    informer_or_new-IsConsistent (some informer) t new_func f e h = h
    informer_or_new-IsConsistent none t new_func f e h = record {
      one_each = λ u. one_more t u _ f.informers e (h.one_each u);
      its_own =
          All-map _ _ (λ (u, b) found. found_later t u _ b f.informers e found) f.running h.its_own;
      run_once = h.run_once;
    }

    after_call-IsConsistent :
        (call : FactoryCall C I) (f : Factory C T F I)
        → IsConsistent f
        → IsConsistent (after_call set_transform call f)
    unfolding begin_shutdown informer_for
    after_call-IsConsistent (call_start order) f h = start-IsConsistent order f h
    after_call-IsConsistent call_shutdown f h = record {
      one_each = h.one_each;
      its_own = h.its_own;
      run_once = h.run_once;
    }
    after_call-IsConsistent (call_informer_for t new_func) f h =
        informer_or_new-IsConsistent _ t new_func f refl h

    after_calls-IsConsistent :
        (calls : List (FactoryCall C I)) (f : Factory C T F I)
        → IsConsistent f
        → IsConsistent (after_calls set_transform calls f)
    unfolding after_calls
    after_calls-IsConsistent [] f h = h
    after_calls-IsConsistent (call ∷ calls) f h =
        after_calls-IsConsistent calls _ (after_call-IsConsistent call f h)

    apply_options-IsConsistent :
        (options : List (FactoryOption T F)) (f : Factory C T F I)
        → IsConsistent f
        → IsConsistent (apply_options (map as_option options) f)
    apply_options-IsConsistent [] f h = h
    apply_options-IsConsistent (option ∷ options) f h =
        apply_options-IsConsistent options _ (as_option-IsConsistent option f h)

    new-IsConsistent :
        (client : C) (default_resync : ℕ) (options : List (FactoryOption T F))
        → IsConsistent
            (new_shared_informer_factory_with_options client default_resync (map as_option options))
    unfolding new_shared_informer_factory_with_options lookup count_type
    new-IsConsistent client default_resync options =
        apply_options-IsConsistent options _
          (record { one_each = λ t. refl; its_own = tt; run_once = λ t. refl })

    -- In every state that a factory comes to, whichever options it was made with, whatever calls were
    -- made and in whatever order its map was ranged over: it has one informer for each type at most;
    -- every goroutine runs the informer of its type; and of each type one goroutine was started where
    -- the factory says that it was started, and none where it does not.
    pub factory-IsConsistent :
        (client : C) (default_resync : ℕ) (options : List (FactoryOption T F))
        (calls : List (FactoryCall C I))
        → IsConsistent (
            after_calls set_transform calls (
              new_shared_informer_factory_with_options client default_resync
                (map as_option options)))
    factory-IsConsistent client default_resync options calls =
        after_calls-IsConsistent calls _ (new-IsConsistent client default_resync options)
