-- ===== src/Informers/Sync.antt =====
-- `WaitForCacheSync` of the factory: which caches it tells to be there, and when it tells an error.
use aws_global_accelerator_c.Prelude.{
  Text, Bool, true, false, not, ◌||◌, ◌≡◌, ◌≢◌, ◌↔◌, ◌⊎◌, refl, inl, inr, Option, none, List, [],
  ◌∷◌, keep, all, insert, if◌then◌else◌, arith,
}
use aws_global_accelerator_c.Errors.{Error}
use aws_global_accelerator_c.Informers.{Factory}

-- `cache.SyncResult`
pub record SyncResult : Type 0 where
  pub synced : List (Text × Bool)
  pub error : Option Error

module _ {C T F I : Type 0} where
  -- The informers that were started, as read under the lock.
  unfoldable pub informers_to_wait_for : Factory C T F I → List (Text × I)
  informers_to_wait_for f = keep (λ (t, informer). f.started_informers t) f.informers

module _ {I : Type 0} (has_synced : I → Bool) where
  -- The loop over these informers: whether one has failed, and the map of the results.
  unfoldable pub sync_results :
      List (Text × I) → Bool → List (Text × Bool) → Bool × List (Text × Bool)
  sync_results [] failed synced = (failed, synced)
  sync_results ((t, informer) ∷ informers) failed synced =
      sync_results informers (failed || not (has_synced informer))
        (insert t (has_synced informer) synced)

  sync_results-failed :
      (informers : List (Text × I)) (failed : Bool) (synced : List (Text × Bool))
      → (sync_results informers failed synced).0
        ≡ (failed || not (all (λ (t, informer). has_synced informer) informers))
  unfolding sync_results
  sync_results-failed [] failed synced = ground arith
  sync_results-failed ((t, informer) ∷ informers) failed synced =
      let rest =
        sync_results-failed informers (failed || not (has_synced informer))
          (insert t (has_synced informer) synced) in
      ground (arith, rest)

-- An error is told if one has failed; and then there is one to tell.
told_iff :
    (failed there : Bool) (cause : Option Error)
    → failed ≡ (false || not there)
    → (there ≡ true) ⊎ (cause ≢ none)
    → ((if failed then cause else none) ≡ none) ↔ (there ≡ true)
told_iff failed true cause e ends = rw e (λ h. refl, λ h. refl)
told_iff failed false cause e (inl t) = cc
told_iff failed false cause e (inr c) = rw e (λ h. elim (c h) [ ], λ h. cc)

module _ {C T F I : Type 0} (has_synced : I → Bool) (cause : Option Error)
    (f : Factory C T F I) where
  -- `WaitForCacheSyncWithContext`, after its wait; `cause` is `context.Cause(ctx)` by then.
  unfoldable pub wait_for_cache_sync_with_context : SyncResult
  unfolding sync_results
  wait_for_cache_sync_with_context =
      let loop = sync_results has_synced (informers_to_wait_for f) false [] in
      record { synced = loop.1; error = if loop.0 then cause else none }

  -- `WaitForCacheSync`
  unfoldable pub wait_for_cache_sync : List (Text × Bool)
  wait_for_cache_sync = wait_for_cache_sync_with_context.synced

  -- Where the wait ends only once all caches that it waits for are there or the context has a cause,
  -- an error is told exactly if the cache of some started informer is not there.
  wait_for_cache_sync_with_context-error :
      (all (λ (t, informer). has_synced informer) (informers_to_wait_for f) ≡ true) ⊎ (cause ≢ none)
      → (wait_for_cache_sync_with_context.error ≡ none)
        ↔ (all (λ (t, informer). has_synced informer) (informers_to_wait_for f) ≡ true)
  unfolding wait_for_cache_sync_with_context
  wait_for_cache_sync_with_context-error ends =
      told_iff _ _ cause (sync_results-failed has_synced (informers_to_wait_for f) false []) ends
