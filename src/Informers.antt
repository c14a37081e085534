-- ===== src/Informers.antt =====
-- pkg/client/informers/externalversions/factory.go: the factory of the informers for bindings. The
-- clients, the informers and the functions that list options and transforms are, are parameters; a
-- time is a number of seconds. A goroutine that runs an informer is kept by the informer's type.
pub mod Once
pub mod Shared
pub mod Starts
mod Sync
use aws_global_accelerator_c.Prelude.{
  ℕ, Text, Bool, true, false, ◌==◌, ◌||◌, Option, none, some, List, [], ◌∷◌, ◌++◌, map, lookup,
  insert, if◌then◌else◌,
}

-- `sharedInformerFactory`, with the goroutines that it has started, the oldest first.
pub record Factory (C T F I : Type 0) : Type 0 where
  pub client : C
  pub namespace : Text
  pub tweak_list_options : Option T
  pub default_resync : ℕ
  pub custom_resync : List (Text × ℕ)
  pub transform : Option F
  pub informer_name : Option Text
  pub informers : List (Text × I)
  -- a type that is not in the map reads as false
  pub started_informers : Text → Bool
  pub running : List (Text × I)
  pub shutting_down : Bool

-- `SharedInformerOption`
abbrev pub SharedInformerOption : Type 0 → Type 0 → Type 0 → Type 0 → Type 0
SharedInformerOption C T F I = Factory C T F I → Factory C T F I

abbrev add_resyncs : List (Text × ℕ) → List (Text × ℕ) → List (Text × ℕ)
add_resyncs [] resyncs = resyncs
add_resyncs ((informer_type, resync) ∷ config) resyncs =
    add_resyncs config (insert informer_type resync resyncs)

abbrev pub or_default : ℕ → Option ℕ → ℕ
or_default default_resync none = default_resync
or_default default_resync (some resync) = resync

abbrev pub transformed : {F I : Type 0} → (F → I → I) → Option F → I → I
transformed set_transform none informer = informer
transformed set_transform (some function) informer = set_transform function informer

module _ {C T F I : Type 0} where
  -- `WithCustomResyncConfig`
  abbrev pub with_custom_resync_config : List (Text × ℕ) → SharedInformerOption C T F I
  with_custom_resync_config config f = record f {
    custom_resync = add_resyncs config f.custom_resync;
  }

  -- `WithTweakListOptions`
  abbrev pub with_tweak_list_options : Option T → SharedInformerOption C T F I
  with_tweak_list_options tweak f = record f { tweak_list_options = tweak }

  -- `WithNamespace`
  abbrev pub with_namespace : Text → SharedInformerOption C T F I
  with_namespace ns f = record f { namespace = ns }

  -- `WithTransform`
  abbrev pub with_transform : Option F → SharedInformerOption C T F I
  with_transform function f = record f { transform = function }

  -- `WithInformerName`
  abbrev pub with_informer_name : Option Text → SharedInformerOption C T F I
  with_informer_name name f = record f { informer_name = name }

  abbrev pub apply_options : List (SharedInformerOption C T F I) → SharedInformerOption C T F I
  apply_options [] f = f
  apply_options (option ∷ options) f = apply_options options (option f)

  -- `NewSharedInformerFactoryWithOptions`, before the options; the namespace is `NamespaceAll`.
  abbrev pub empty_factory : C → ℕ → Factory C T F I
  empty_factory client default_resync = record {
    client = client;
    namespace = [];
    tweak_list_options = none;
    default_resync = default_resync;
    custom_resync = [];
    transform = none;
    informer_name = none;
    informers = [];
    started_informers = λ t. false;
    running = [];
    shutting_down = false;
  }

  -- `NewSharedInformerFactoryWithOptions`
  unfoldable pub new_shared_informer_factory_with_options :
      C → ℕ → List (SharedInformerOption C T F I) → Factory C T F I
  new_shared_informer_factory_with_options client default_resync options =
      apply_options options (empty_factory client default_resync)

  -- `NewSharedInformerFactory`
  unfoldable pub new_shared_informer_factory : C → ℕ → Factory C T F I
  new_shared_informer_factory client default_resync =
      new_shared_informer_factory_with_options client default_resync []

  -- `NewFilteredSharedInformerFactory`
  unfoldable pub new_filtered_shared_informer_factory : C → ℕ → Text → Option T → Factory C T F I
  new_filtered_shared_informer_factory client default_resync ns tweak =
      new_shared_informer_factory_with_options client default_resync
        (with_namespace ns ∷ with_tweak_list_options tweak ∷ [])

  -- A goroutine for an informer, unless one was started.
  unfoldable pub start_informer : Text → Option I → Bool → Factory C T F I → Factory C T F I
  start_informer t none started f = f
  start_informer t (some informer) true f = f
  start_informer t (some informer) false f = record f {
    running = f.running ++ ((t, informer) ∷ []);
    started_informers = λ u. t == u || f.started_informers u;
  }

  -- The loop over the types of the informers.
  unfoldable pub start_informers : List Text → Factory C T F I → Factory C T F I
  start_informers [] f = f
  start_informers (t ∷ ts) f =
      start_informers ts (start_informer t (lookup t f.informers) (f.started_informers t) f)

  abbrev pub informer_types : Factory C T F I → List Text
  informer_types f = map (λ (t, informer). t) f.informers

  -- `StartWithContext`; Go ranges over the map in the order that `order` gives.
  unfoldable pub start : (List Text → List Text) → Factory C T F I → Factory C T F I
  start order f = if f.shutting_down then f else start_informers (order (informer_types f)) f

  -- `Shutdown`, up to its wait for the goroutines.
  unfoldable pub begin_shutdown : Factory C T F I → Factory C T F I
  begin_shutdown f = record f { shutting_down = true }

  module _ (set_transform : F → I → I) where
    -- The rest of `InformerFor`, from what the map has for the type on.
    unfoldable pub informer_or_new :
        Option I → Text → (C → ℕ → I) → Factory C T F I → I × Factory C T F I
    informer_or_new (some informer) t new_func f = (informer, f)
    informer_or_new none t new_func f =
        let resync = or_default f.default_resync (lookup t f.custom_resync) in
        let informer = transformed set_transform f.transform (new_func f.client resync) in
        (informer, record f { informers = insert t informer f.informers })

    -- `InformerFor`
    unfoldable pub informer_for : Text → (C → ℕ → I) → Factory C T F I → I × Factory C T F I
    informer_for t new_func f = informer_or_new (lookup t f.informers) t new_func f

-- The options that there are.
pub data FactoryOption (T F : Type 0) : Type 0 where
  custom_resync_config : List (Text × ℕ) → FactoryOption T F
  tweak_list_options : Option T → FactoryOption T F
  namespace : Text → FactoryOption T F
  transform : Option F → FactoryOption T F
  informer_name : Option Text → FactoryOption T F

abbrev pub as_option : {C T F I : Type 0} → FactoryOption T F → SharedInformerOption C T F I
as_option (custom_resync_config config) f = with_custom_resync_config config f
as_option (tweak_list_options tweak) f = with_tweak_list_options tweak f
as_option (namespace ns) f = with_namespace ns f
as_option (transform function) f = with_transform function f
as_option (informer_name name) f = with_informer_name name f

-- A call of the factory.
pub data FactoryCall (C I : Type 0) : Type 0 where
  call_start : (List Text → List Text) → FactoryCall C I
  call_shutdown : FactoryCall C I
  call_informer_for : Text → (C → ℕ → I) → FactoryCall C I

module _ {C T F I : Type 0} (set_transform : F → I → I) where
  -- The lock of the factory lets one call in after the other.
  abbrev pub after_call : FactoryCall C I → Factory C T F I → Factory C T F I
  after_call (call_start order) f = start order f
  after_call call_shutdown f = begin_shutdown f
  after_call (call_informer_for t new_func) f = (informer_for set_transform t new_func f).1

  unfoldable pub after_calls : List (FactoryCall C I) → Factory C T F I → Factory C T F I
  after_calls [] f = f
  after_calls (call ∷ calls) f = after_calls calls (after_call call f)
