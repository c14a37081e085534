-- ===== src/GlobalAccelerator/Steady.antt =====
-- `updateGlobalAcceleratorForService` and `updateGlobalAcceleratorForIngress` when all is as it was
-- sent.
use aws_global_accelerator_c.Prelude.{
  Text, Bool, true, false, if◌then◌else◌, not, ◌≡◌, refl, sym, ap, subst, ◌∙◌, List, [], ◌∷◌, ◌++◌,
  eq_iff, eq_refl, ◌==◌, contains, contains-append, ◌⊎◌, inl, inr, Bool-cases, arith,
}
use aws_global_accelerator_c.Errors.{ok}
use aws_global_accelerator_c.Apis.{Service, Ingress}
use aws_global_accelerator_c.Tags.{
  Tag, tags_contains_all_values, target_tags, accelerator_name, accelerator_tags, create_tags,
  update_tags, accelerator_owner_tag_value, managed_tag_key, owner_tag_key, target_hostname_key,
  cluster_tag_key,
}
use aws_global_accelerator_c.Tags.Contains.{last_value}
use aws_global_accelerator_c.Tags.Target.{update_tags_converge}
use aws_global_accelerator_c.Listener.{Listener, UnmarshalPorts}
use aws_global_accelerator_c.Listener.Changed.{
  listener_unchanged_for_service, listener_unchanged_for_ingress,
}
use aws_global_accelerator_c.Cloud.Types.{
  Accelerator, LoadBalancer, EndpointGroup, CreateAcceleratorInput, Request, CloudService,
  last_page,
}
use aws_global_accelerator_c.Cloud.Exec.{Exec, pure, read_pages}
use aws_global_accelerator_c.Accelerator.{create_input, list_tags_for_accelerator}
use aws_global_accelerator_c.Endpoint.{
  get_listener, get_endpoint_group, endpoint_contains_lb, listener_input,
}
use aws_global_accelerator_c.GlobalAccelerator.Lookup.{accelerator_changed}
use aws_global_accelerator_c.GlobalAccelerator.Update.{
  Wanted, wanted_for_service, wanted_for_ingress, sync_accelerator, listener_or_create,
  sync_listener, endpoint_group_or_create, sync_endpoint_group, update_global_accelerator,
  update_global_accelerator_for_service, update_global_accelerator_for_ingress,
}
use aws_global_accelerator_c.Cloud.Sends.{
  Sends, Sends-pure, Sends-attempt, Sends-else, Sends-then, Sends-bind, Sends-call,
}

at_cluster :
    (owner hostname cluster_name : Text) (specified : List Tag)
    → last_value cluster_tag_key (create_tags owner hostname cluster_name specified) []
      ≡ last_value cluster_tag_key (update_tags owner hostname specified) (
          last_value cluster_tag_key
            (record { key = cluster_tag_key; value = cluster_name } ∷ [])
            [])
unfolding create_tags update_tags cluster_tag_key managed_tag_key owner_tag_key target_hostname_key
    ◌==◌
at_cluster owner hostname cluster_name specified = refl

if_not : (b : Bool) (x y : Text) → b ≡ false → (if b then x else y) ≡ y
if_not b x y e = rw e refl

-- The tags of a creation and those of an update over the tag of the cluster are the same map.
create_tags-update_tags :
    (k owner hostname cluster_name : Text) (specified : List Tag)
    → last_value k (create_tags owner hostname cluster_name specified) []
      ≡ last_value k
          (update_tags owner hostname specified)
          (last_value k (record { key = cluster_tag_key; value = cluster_name } ∷ []) [])
unfolding create_tags update_tags
create_tags-update_tags k owner hostname cluster_name specified =
    elim (Bool-cases (cluster_tag_key == k)) [
      | inl e ↦
          subst
            (λ k.
              last_value k (create_tags owner hostname cluster_name specified) []
              ≡ last_value k (update_tags owner hostname specified)
                  (last_value k (record { key = cluster_tag_key; value = cluster_name } ∷ []) []))
            ((eq_iff cluster_tag_key k).0 e) (at_cluster owner hostname cluster_name specified)
      | inr e ↦
          ap (λ start. last_value k specified start)
            (if_not (cluster_tag_key == k) cluster_name _ e)
          ∙ ap (λ old. last_value k (update_tags owner hostname specified) old)
              (sym (if_not (cluster_tag_key == k) cluster_name [] e))
    ]

-- A service, or an ingress with the decoder of its annotation.
abbrev pub wanted_of : Service ⊎ (UnmarshalPorts × Ingress) → Wanted
wanted_of (inl svc) = wanted_for_service svc
wanted_of (inr (unmarshal, ingress)) = wanted_for_ingress unmarshal ingress

-- The input of the creation of its accelerator.
abbrev pub sent_accelerator : Wanted → LoadBalancer → Text → Text → CreateAcceleratorInput
sent_accelerator wanted lb cluster_name address_type =
    create_input (accelerator_name wanted.resource wanted.meta) cluster_name
      (accelerator_owner_tag_value wanted.resource wanted.meta.namespace wanted.meta.name)
      lb.dns_name address_type (accelerator_tags wanted.meta)

sent_listener_unchanged :
    (object : Service ⊎ (UnmarshalPorts × Ingress)) (l : Listener)
    → l.protocol ≡ (listener_input (wanted_of object).ports (wanted_of object).protocol).protocol
    → l.port_ranges
      ≡ (listener_input (wanted_of object).ports (wanted_of object).protocol).port_ranges
    → (wanted_of object).listener_changed l ≡ false
unfolding wanted_for_service wanted_for_ingress listener_input
sent_listener_unchanged (inl svc) l p r =
    let (a, b) = listener_unchanged_for_service svc l p r in rw a (rw b refl)
sent_listener_unchanged (inr (unmarshal, ingress)) l p r =
    let (a, b) = listener_unchanged_for_ingress unmarshal ingress l p r in rw a (rw b refl)

contained_in :
    (group : EndpointGroup) (lb : LoadBalancer) (before after : List Text)
    → group.endpoint_ids ≡ before ++ (lb.load_balancer_arn ∷ after)
    → endpoint_contains_lb group lb ≡ true
unfolding endpoint_contains_lb contains
contained_in group lb before after e =
    ap (λ ids. contains lb.load_balancer_arn ids) e
    ∙ contains-append lb.load_balancer_arn before (lb.load_balancer_arn ∷ after)
    ∙ rw eq_refl (ground arith)

module _ {W : Type 0} (service : CloudService W) (accelerator : Accelerator) (lb : LoadBalancer)
    (wanted : Wanted) (tags : List Tag) (listener : Listener) (group : EndpointGroup) where
  -- The accelerator has the name, the state and the tags of the input of its creation, the tags in
  -- any order and with any repetition that leaves the last of each key; the listener has the protocol
  -- and the port ranges that are sent; the load balancer is among the endpoints of the group; and AWS
  -- answers with them.
  pub record IsAsSent (cluster_name address_type : Text) : Type 0 where
    pub enabled :
        accelerator.is_enabled ≡ (sent_accelerator wanted lb cluster_name address_type).is_enabled
    pub named : accelerator.name ≡ (sent_accelerator wanted lb cluster_name address_type).name
    pub tagged :
        (k : Text)
        → last_value k tags []
          ≡ last_value k (sent_accelerator wanted lb cluster_name address_type).tags []
    pub speaking : listener.protocol ≡ (listener_input wanted.ports wanted.protocol).protocol
    pub listening : listener.port_ranges ≡ (listener_input wanted.ports wanted.protocol).port_ranges
    pub before : List Text
    pub after : List Text
    pub contained : group.endpoint_ids ≡ before ++ (lb.load_balancer_arn ∷ after)
    pub tags_answer :
        (w : W)
        → (service (Request.list_tags_for_resource accelerator.accelerator_arn) w).0 ≡ ok tags
    pub listener_answer :
        (w : W)
        → (service (Request.list_listeners accelerator.accelerator_arn 100) w).0
          ≡ last_page (ok (listener ∷ []))
    pub group_answer :
        (w : W)
        → (service (Request.list_endpoint_groups listener.listener_arn 100) w).0
          ≡ last_page (ok (group ∷ []))

  -- The three requests of such a round, the newest first.
  abbrev pub reads : List Request
  reads =
      Request.list_endpoint_groups listener.listener_arn 100
      ∷ Request.list_listeners accelerator.accelerator_arn 100
      ∷ Request.list_tags_for_resource accelerator.accelerator_arn
      ∷ []

  module _ (cluster_name address_type : Text) (h : IsAsSent cluster_name address_type) where
    has_tags :
        tags_contains_all_values tags (target_tags lb.dns_name wanted.resource wanted.meta) ≡ true
    unfolding create_input
    has_tags =
        update_tags_converge lb.dns_name wanted.resource wanted.meta
          (record { key = cluster_tag_key; value = cluster_name } ∷ []) tags
          (λ k. h.tagged k ∙ create_tags-update_tags k _ lb.dns_name cluster_name _)

    changed-Sends :
        Sends
          (accelerator_changed service accelerator lb.dns_name wanted.resource wanted.meta)
          false
          (Request.list_tags_for_resource accelerator.accelerator_arn ∷ [])
    unfolding accelerator_changed list_tags_for_accelerator create_input
    changed-Sends = Sends-else (not accelerator.is_enabled) _ _ (ap not h.enabled) (
        Sends-else (not (accelerator.name == accelerator_name wanted.resource wanted.meta)) _ _
          (ap not
            ((eq_iff accelerator.name (accelerator_name wanted.resource wanted.meta)).1 h.named))
          (Sends-bind _ _
            (Sends-attempt _ (
              Sends-call service 1 (Request.list_tags_for_resource accelerator.accelerator_arn)
                (λ r. r) (λ w. (h.tags_answer w, refl))))
            (subst (λ b. Sends (pure {W = W} (not b)) false []) (sym has_tags) (Sends-pure false))))

    quiet-Sends :
        (region : Text)
        → wanted.listener_changed listener ≡ false
        → Sends (update_global_accelerator service wanted lb region accelerator) tt reads
    unfolding update_global_accelerator sync_accelerator get_listener get_endpoint_group
        listener_or_create endpoint_group_or_create sync_listener sync_endpoint_group read_pages
    quiet-Sends region unchanged = Sends-bind _ _ (Sends-bind _ _ changed-Sends (Sends-pure tt)) (
        Sends-bind _ _
          (Sends-attempt _ (
            Sends-call service 1 (Request.list_listeners accelerator.accelerator_arn 100) _
              (λ w. rw (h.listener_answer w) (refl, refl))))
          (Sends-bind _ _ (Sends-pure listener) (
            Sends-bind _ _
              (Sends-else (wanted.listener_changed listener) _ _ unchanged (Sends-pure listener))
              (Sends-bind _ _
                (Sends-attempt _ (
                  Sends-call service 1 (Request.list_endpoint_groups listener.listener_arn 100) _
                    (λ w. rw (h.group_answer w) (refl, refl))))
                (Sends-bind _ _ (Sends-pure group) (
                  Sends-then (endpoint_contains_lb group lb) _ _
                    (contained_in group lb h.before h.after h.contained) (Sends-pure tt)))))))

module _ {W : Type 0} (service : CloudService W) where
  -- The update for a service or for an ingress.
  abbrev pub update_of :
      Service ⊎ (UnmarshalPorts × Ingress) → Accelerator → LoadBalancer → Text → Exec W (Unit {0})
  update_of (inl svc) accelerator lb region =
      update_global_accelerator_for_service service accelerator lb svc region
  update_of (inr (unmarshal, ingress)) accelerator lb region =
      update_global_accelerator_for_ingress service unmarshal accelerator lb ingress region

  -- If the accelerator, its tags and its listener are as they are sent when they are created for a
  -- service or an ingress, the load balancer is among the endpoints of the group, and AWS answers with
  -- them on one page each, then the update for that object succeeds and sends exactly three requests,
  -- all of which only read.
  pub update_global_accelerator-Sends :
      (object : Service ⊎ (UnmarshalPorts × Ingress)) (accelerator : Accelerator)
      (lb : LoadBalancer) (tags : List Tag) (listener : Listener) (group : EndpointGroup)
      (cluster_name address_type region : Text)
      → IsAsSent service accelerator lb
          (wanted_of object)
          tags
          listener
          group
          cluster_name
          address_type
      → Sends
          (update_of object accelerator lb region)
          tt
          (reads service accelerator lb (wanted_of object) tags listener group)
  unfolding update_global_accelerator_for_service update_global_accelerator_for_ingress
  update_global_accelerator-Sends (inl svc) accelerator lb tags listener group cluster_name
        address_type region h =
      quiet-Sends service accelerator lb _ tags listener group cluster_name address_type h region
        (sent_listener_unchanged (inl svc) listener h.speaking h.listening)
  update_global_accelerator-Sends (inr (unmarshal, ingress)) accelerator lb tags listener group
        cluster_name address_type region h =
      quiet-Sends service accelerator lb _ tags listener group cluster_name address_type h region
        (sent_listener_unchanged (inr (unmarshal, ingress)) listener h.speaking h.listening)
