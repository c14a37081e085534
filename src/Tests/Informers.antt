-- ===== src/Tests/Informers.antt =====
-- The theorems on the factory of informers, at examples.
use aws_global_accelerator_c.Prelude.{
  ℕ, Text, ◌≡◌, refl, ◌==◌, some, List, [], ◌∷◌, codes, map, lookup, insert,
}
use aws_global_accelerator_c.Informers.{
  Factory, FactoryCall, call_start, call_informer_for, after_calls, start, start_informers,
  start_informer, FactoryOption, as_option, custom_resync_config,
  new_shared_informer_factory_with_options, informer_for, informer_or_new,
}
use aws_global_accelerator_c.Informers.Once.{IsConsistent, count_type, factory-IsConsistent}
use aws_global_accelerator_c.Informers.Starts.{start_runs_each}

-- An informer is the time between its resyncs here.
abbrev keep_it : ℕ → ℕ → ℕ
keep_it function informer = informer

abbrev new_informer : ℕ → ℕ → ℕ
new_informer client resync = resync

abbrev options : List (FactoryOption ℕ ℕ)
options = custom_resync_config ((codes "binding", 60) ∷ []) ∷ []

abbrev two_informers : List (FactoryCall ℕ ℕ)
two_informers =
    call_informer_for (codes "binding") new_informer
    ∷ call_start (λ types. types)
    ∷ call_informer_for (codes "service") new_informer
    ∷ []

abbrev made : Factory ℕ ℕ ℕ ℕ
made =
    after_calls keep_it two_informers
      (new_shared_informer_factory_with_options 0 30 (map as_option options))

factory-IsConsistent_example : IsConsistent made
factory-IsConsistent_example = factory-IsConsistent keep_it 0 30 options two_informers

start_runs_each_example :
    ((t : Text) (informer : ℕ)
      → lookup t made.informers ≡ some informer
      → count_type t (start (λ types. types) made).running ≡ 1)
    × (start (λ types. []) (start (λ types. types) made) ≡ start (λ types. types) made)
unfolding lookup insert start informer_for informer_or_new after_calls start_informers
    start_informer new_shared_informer_factory_with_options ◌==◌
start_runs_each_example =
    start_runs_each made (λ types. types) (λ types. []) factory-IsConsistent_example refl (λ t h. h)
