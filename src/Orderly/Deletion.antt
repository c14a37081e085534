-- ===== src/Orderly/Deletion.antt =====
-- The owner of what `CleanupGlobalAccelerator` disables and deletes.
use aws_global_accelerator_c.Prelude.{
  ℕ, Text, Bool, ◌≡◌, refl, sym, subst, ◌⊎◌, inl, inr, Option, none, some, List, [], ◌∷◌, All,
  All-map,
}
use aws_global_accelerator_c.Errors.{Error, Result, ok, err, panic}
use aws_global_accelerator_c.Listener.{Listener}
use aws_global_accelerator_c.Cloud.Types.{
  EndpointGroup, Accelerator, Request, Answer, Log, CloudService,
}
use aws_global_accelerator_c.Cloud.Exec.{attempt, attempted, call}
use aws_global_accelerator_c.Cloud.Triple.{After, Triple, Triple-bind, Triple-pure}
use aws_global_accelerator_c.Cloud.Keeps.{Keeps, Keeps-bind, Keeps-pure, Keeps-attempt}
use aws_global_accelerator_c.Accelerator.{get_accelerator}
use aws_global_accelerator_c.Endpoint.{
  get_listener, get_endpoint_group, delete_listener, delete_endpoint_group,
}
use aws_global_accelerator_c.GlobalAccelerator.Cleanup.{
  Related, found_endpoint, related_endpoint, related_listener, list_related_global_accelerator,
  delete_found_endpoint, delete_found_listener, delete_found_accelerator,
  cleanup_global_accelerator,
}
use aws_global_accelerator_c.Controller.Accelerators.{cleanup_each}
use aws_global_accelerator_c.Cloud.Rules.{Keeps-Triple, Triple-given}
use aws_global_accelerator_c.Orderly.Named.{WasNamed, Named, DescribesIt, call_quiet, delete-Named}

module _ (shows : Text → (q : Request) → Answer q → Bool) where
  module _ {W : Type 0} (service : CloudService W) where
    abbrev IsIt : Text → Error ⊎ Accelerator → Type 0
    IsIt arn (inl e) = Unit {0}
    IsIt arn (inr a) = a.accelerator_arn ≡ arn

    abbrev IsFound : Text → Option Accelerator → Type 0
    IsFound arn none = Unit {0}
    IsFound arn (some a) = a.accelerator_arn ≡ arn

    described :
        (found : List Accelerator) (arn : Text) (r : Result Accelerator) (log : Log)
        → ((a : Accelerator) → r ≡ ok a → a.accelerator_arn ≡ arn)
        → Named shows found log
        → After (λ x log. Named shows found log × IsIt arn x) (Named shows found) (attempted r) log
    described found arn (ok a) log i h = (h, i a refl)
    described found arn (err e) log i h = (h, tt)
    described found arn panic log i h = h

    get-Named :
        DescribesIt shows service
        → (found : List Accelerator) (arn : Text)
        → Triple
            (Named shows found)
            (attempt (get_accelerator service arn))
            (λ x log. Named shows found log × IsIt arn x)
            (Named shows found)
    unfolding attempt get_accelerator call
    get-Named it found arn = record {
      at = λ s p.
          described found arn (service (Request.describe_accelerator arn) s.world).0 _
            (it arn s.world) ((tt, p.0), All-map _ _ (λ a w. inr w) found p.1);
    }

    found_endpoint-IsFound :
        (arn : Text) (a : Accelerator) (l : Listener) (x : Error ⊎ EndpointGroup)
        → a.accelerator_arn ≡ arn
        → IsFound arn (found_endpoint a l x).accelerator
    found_endpoint-IsFound arn a l (inl e) i = i
    found_endpoint-IsFound arn a l (inr g) i = i

    -- What the search for the related resources leaves.
    abbrev Searched : List Accelerator → Text → Related → Log → Type 0
    Searched found arn related log = Named shows found log × IsFound arn related.accelerator

    endpoint-Named :
        (found : List Accelerator) (arn : Text) (a : Accelerator) (x : Error ⊎ Listener)
        → a.accelerator_arn ≡ arn
        → Triple
            (Named shows found)
            (related_endpoint service a x)
            (Searched found arn)
            (Named shows found)
    unfolding related_endpoint get_endpoint_group
    endpoint-Named found arn a (inl e) i = Triple-pure _ (λ log h. (h, i))
    endpoint-Named found arn a (inr l) i =
        Triple-bind _ _
          (Keeps-Triple (
            Keeps-attempt _ (
              call_quiet shows service found (Request.list_endpoint_groups l.listener_arn 100) _
                (λ log. tt))))
          (λ x. Triple-pure _ (λ log h. (h, found_endpoint-IsFound arn a l x i)))

    listener-Named :
        (found : List Accelerator) (arn : Text) (x : Error ⊎ Accelerator)
        → IsIt arn x
        → Triple
            (Named shows found)
            (related_listener service x)
            (Searched found arn)
            (Named shows found)
    unfolding related_listener get_listener
    listener-Named found arn (inl e) i = Triple-pure _ (λ log h. (h, tt))
    listener-Named found arn (inr a) i =
        Triple-bind _ _
          (Keeps-Triple (
            Keeps-attempt _ (
              call_quiet shows service found (Request.list_listeners a.accelerator_arn 100) _
                (λ log. tt))))
          (λ x. endpoint-Named found arn a x i)

    related-Named :
        DescribesIt shows service
        → (found : List Accelerator) (arn : Text)
        → Triple
            (Named shows found)
            (list_related_global_accelerator service arn)
            (Searched found arn)
            (Named shows found)
    unfolding list_related_global_accelerator
    related-Named it found arn =
        Triple-bind _ _ (get-Named it found arn)
          (λ x. Triple-given (λ i. listener-Named found arn x i))

    delete_endpoint-Named :
        (found : List Accelerator) (o : Option EndpointGroup)
        → Keeps (Named shows found) (delete_found_endpoint service o)
    unfolding delete_found_endpoint delete_endpoint_group
    delete_endpoint-Named found none = Keeps-pure tt
    delete_endpoint-Named found (some g) =
        call_quiet shows service found (Request.delete_endpoint_group g.endpoint_group_arn) _
          (λ log. tt)

    delete_listener-Named :
        (found : List Accelerator) (o : Option Listener)
        → Keeps (Named shows found) (delete_found_listener service o)
    unfolding delete_found_listener delete_listener
    delete_listener-Named found none = Keeps-pure tt
    delete_listener-Named found (some l) =
        call_quiet shows service found (Request.delete_listener l.listener_arn) _ (λ log. tt)

    delete_found-Named :
        (found : List Accelerator) (attempts : ℕ) (arn : Text) (o : Option Accelerator)
        → IsFound arn o
        → ((log : Log) → Named shows found log → WasNamed shows arn log)
        → Keeps (Named shows found) (delete_found_accelerator service attempts o)
    unfolding delete_found_accelerator
    delete_found-Named found attempts arn none i g = Keeps-pure tt
    delete_found-Named found attempts arn (some a) i g =
        delete-Named shows service found attempts a.accelerator_arn
          (λ log h. subst (λ t. WasNamed shows t log) (sym i) (g log h))

    pub cleanup-Named :
        DescribesIt shows service
        → (found : List Accelerator) (attempts : ℕ) (arn : Text)
        → ((log : Log) → Named shows found log → WasNamed shows arn log)
        → Triple
            (Named shows found)
            (cleanup_global_accelerator service attempts arn)
            (λ _. Named shows found)
            (Named shows found)
    unfolding cleanup_global_accelerator
    cleanup-Named it found attempts arn g = Triple-bind _ _ (related-Named it found arn) (λ related.
        Triple-given (λ i. Keeps-Triple (
          Keeps-bind _ _ (delete_endpoint-Named found related.endpoint) (λ _.
            Keeps-bind _ _ (delete_listener-Named found related.listener)
              (λ _. delete_found-Named found attempts arn related.accelerator i g)))))

    pub each-Named :
        DescribesIt shows service
        → (found : List Accelerator) (attempts : ℕ) (cluster_name : Text) (rest : List Accelerator)
        → ((log : Log)
            → Named shows found log
            → All (λ a. WasNamed shows a.accelerator_arn log) rest)
        → Triple
            (Named shows found)
            (cleanup_each service attempts cluster_name rest)
            (λ _. Named shows found)
            (Named shows found)
    unfolding cleanup_each
    each-Named it found attempts cluster_name [] g = Triple-pure tt (λ log h. h)
    each-Named it found attempts cluster_name (a ∷ rest) g =
        Triple-bind _ _ (cleanup-Named it found attempts a.accelerator_arn (λ log h. (g log h).0))
          (λ _. each-Named it found attempts cluster_name rest (λ log h. (g log h).1))
