-- ===== src/GlobalAccelerator/Cleanup.antt =====
-- `CleanupGlobalAccelerator` and `listRelatedGlobalAccelerator`.
use aws_global_accelerator_c.Prelude.{ℕ, Text, ◌⊎◌, inl, inr, Option, none, some}
use aws_global_accelerator_c.Errors.{Error}
use aws_global_accelerator_c.Listener.{Listener}
use aws_global_accelerator_c.Cloud.Types.{Accelerator, EndpointGroup, CloudService}
use aws_global_accelerator_c.Cloud.Exec.{Exec, pure, attempt, ◌>>=◌}
use aws_global_accelerator_c.Accelerator.{get_accelerator, delete_accelerator}
use aws_global_accelerator_c.Endpoint.{
  get_listener, get_endpoint_group, delete_listener, delete_endpoint_group,
}

-- The three results of `listRelatedGlobalAccelerator`.
pub record Related : Type 0 where
  pub accelerator : Option Accelerator
  pub listener : Option Listener
  pub endpoint : Option EndpointGroup

abbrev pub found_endpoint : Accelerator → Listener → Error ⊎ EndpointGroup → Related
found_endpoint accelerator listener (inl e) = record {
  accelerator = some accelerator;
  listener = some listener;
  endpoint = none;
}
found_endpoint accelerator listener (inr endpoint) = record {
  accelerator = some accelerator;
  listener = some listener;
  endpoint = some endpoint;
}

module _ {W : Type 0} (service : CloudService W) where
  unfoldable pub related_endpoint : Accelerator → Error ⊎ Listener → Exec W Related
  related_endpoint accelerator (inl e) =
      pure (record { accelerator = some accelerator; listener = none; endpoint = none })
  related_endpoint accelerator (inr listener) = do
    endpoint ← attempt (get_endpoint_group service listener.listener_arn)
    pure (found_endpoint accelerator listener endpoint)

  unfoldable pub related_listener : Error ⊎ Accelerator → Exec W Related
  related_listener (inl e) = pure (record { accelerator = none; listener = none; endpoint = none })
  related_listener (inr accelerator) = do
    listener ← attempt (get_listener service accelerator.accelerator_arn)
    related_endpoint accelerator listener

  -- `listRelatedGlobalAccelerator`: each error ends the search and is dropped.
  unfoldable pub list_related_global_accelerator : Text → Exec W Related
  list_related_global_accelerator arn = do
    accelerator ← attempt (get_accelerator service arn)
    related_listener accelerator

  unfoldable pub delete_found_endpoint : Option EndpointGroup → Exec W (Unit {0})
  delete_found_endpoint none = pure tt
  delete_found_endpoint (some endpoint) = delete_endpoint_group service endpoint.endpoint_group_arn

  unfoldable pub delete_found_listener : Option Listener → Exec W (Unit {0})
  delete_found_listener none = pure tt
  delete_found_listener (some listener) = delete_listener service listener.listener_arn

  unfoldable pub delete_found_accelerator : ℕ → Option Accelerator → Exec W (Unit {0})
  delete_found_accelerator attempts none = pure tt
  delete_found_accelerator attempts (some accelerator) =
      delete_accelerator service attempts accelerator.accelerator_arn

  -- `CleanupGlobalAccelerator`: from the innermost out; the first error ends it.
  unfoldable pub cleanup_global_accelerator : ℕ → Text → Exec W (Unit {0})
  cleanup_global_accelerator attempts arn = do
    related ← list_related_global_accelerator arn
    _ ← delete_found_endpoint related.endpoint
    _ ← delete_found_listener related.listener
    delete_found_accelerator attempts related.accelerator
