-- ===== src/Cloud/Types.antt =====
-- The types of the AWS SDK that the program uses, and its requests. Pointers that the code
-- dereferences without a test are plain values: AWS sets these fields in every answer.
use aws_global_accelerator_c.Prelude.{ℕ, suc, Text, Bool, Option, List}
use aws_global_accelerator_c.Errors.{Result}
use aws_global_accelerator_c.Apis.{ObjectMeta, Service, Ingress, EndpointGroupBinding}
use aws_global_accelerator_c.Tags.{Tag}
use aws_global_accelerator_c.Listener.{PortRange, Protocol, Listener}

-- elbv2types.LoadBalancerStateEnum
pub data LoadBalancerState : Type 0 where
  active provisioning active_impaired failed : LoadBalancerState

pub record LoadBalancer : Type 0 where
  pub load_balancer_arn : Text
  pub load_balancer_name : Text
  pub dns_name : Text
  pub state : LoadBalancerState

-- gatypes.AcceleratorStatus
pub data AcceleratorStatus : Type 0 where
  deployed in_progress : AcceleratorStatus

pub record Accelerator : Type 0 where
  pub accelerator_arn : Text
  pub name : Text
  pub dns_name : Text
  pub is_enabled : Bool
  pub status : AcceleratorStatus

pub data IpAddressType : Type 0 where
  ipv4 dual_stack : IpAddressType

pub data ClientAffinity : Type 0 where
  no_affinity source_ip : ClientAffinity

pub record CreateAcceleratorInput : Type 0 where
  pub is_enabled : Bool
  pub ip_address_type : IpAddressType
  pub name : Text
  pub tags : List Tag

-- What `CreateListenerInput` and `UpdateListenerInput` share.
pub record ListenerInput : Type 0 where
  pub client_affinity : ClientAffinity
  pub port_ranges : List PortRange
  pub protocol : Protocol

pub record EndpointConfiguration : Type 0 where
  pub endpoint_id : Text
  pub client_ip_preservation_enabled : Option Bool
  pub weight : Option ℕ

-- The descriptions are kept by their `EndpointId`.
pub record EndpointGroup : Type 0 where
  pub endpoint_group_arn : Text
  pub endpoint_ids : List Text

pub record HostedZone : Type 0 where
  pub id : Text
  pub name : Text

pub data RecordType : Type 0 where
  a txt other_type : RecordType

pub record AliasTarget : Type 0 where
  pub dns_name : Text
  pub evaluate_target_health : Bool
  pub hosted_zone_id : Text

-- The resource records are kept by their `Value`.
pub record RecordSet : Type 0 where
  pub name : Text
  pub record_type : RecordType
  pub ttl : Option ℕ
  pub resource_records : List Text
  pub alias_target : Option AliasTarget

pub data ChangeAction : Type 0 where
  create delete upsert : ChangeAction

pub record Change : Type 0 where
  pub action : ChangeAction
  pub record_set : RecordSet

pub data Request : Type 0 where
  -- `config.LoadDefaultConfig` in `NewAWS`
  load_config : Text → Request
  -- the region of the client, and the names
  describe_load_balancers : Text → List Text → Request
  list_accelerators : ℕ → Request
  describe_accelerator : Text → Request
  list_tags_for_resource : Text → Request
  create_accelerator : CreateAcceleratorInput → Request
  -- the new state of `Enabled`, and the name if it is sent
  update_accelerator : Text → Bool → Option Text → Request
  tag_resource : Text → List Tag → Request
  delete_accelerator : Text → Request
  list_listeners : Text → ℕ → Request
  create_listener : Text → ListenerInput → Request
  update_listener : Text → ListenerInput → Request
  delete_listener : Text → Request
  describe_endpoint_group : Text → Request
  list_endpoint_groups : Text → ℕ → Request
  -- the listener, the region and the endpoints
  create_endpoint_group : Text → Text → List EndpointConfiguration → Request
  update_endpoint_group : Text → List EndpointConfiguration → Request
  delete_endpoint_group : Text → Request
  add_endpoints : Text → List EndpointConfiguration → Request
  remove_endpoints : Text → List Text → Request
  list_hosted_zones : ℕ → Request
  list_hosted_zones_by_name : Text → ℕ → Request
  list_resource_record_sets : Text → ℕ → Request
  change_resource_record_sets : Text → List Change → Request
  -- the listers, by namespace and name
  get_service : Text → Text → Request
  get_ingress : Text → Text → Request
  get_binding : Text → Text → Request
  -- `Update` and `UpdateStatus` of the clientset
  update_binding : EndpointGroupBinding → Request
  update_binding_status : EndpointGroupBinding → Request
  -- the recorder: the object, the reason and the message
  record_event : ObjectMeta → Text → Text → Request

-- What the pages of a paginator hold, as many as were requested: the last one says that there are no
-- more, or is an error.
pub data Pages (A : Type 0) : Type 0 where
  last_page : Result (List A) → Pages A
  page : List A → Pages A → Pages A

abbrev pub page_count : {A : Type 0} → Pages A → ℕ
page_count (last_page r) = 1
page_count (page found pages) = suc (page_count pages)

-- A call that creates something answers with the fields of it that the code goes on to read.
abbrev pub Answer : Request → Type 0
Answer (load_config region) = Result (Unit {0})
Answer (describe_load_balancers region names) = Result (List LoadBalancer)
Answer (list_accelerators size) = Pages Accelerator
Answer (describe_accelerator arn) = Result Accelerator
Answer (list_tags_for_resource arn) = Result (List Tag)
Answer (create_accelerator input) = Result Accelerator
Answer (update_accelerator arn enabled name) = Result Accelerator
Answer (tag_resource arn tags) = Result (Unit {0})
Answer (delete_accelerator arn) = Result (Unit {0})
Answer (list_listeners arn size) = Pages Listener
Answer (create_listener arn input) = Result Listener
Answer (update_listener arn input) = Result Listener
Answer (delete_listener arn) = Result (Unit {0})
Answer (describe_endpoint_group arn) = Result EndpointGroup
Answer (list_endpoint_groups arn size) = Pages EndpointGroup
Answer (create_endpoint_group arn region endpoints) = Result EndpointGroup
Answer (update_endpoint_group arn endpoints) = Result EndpointGroup
Answer (delete_endpoint_group arn) = Result (Unit {0})
Answer (add_endpoints arn endpoints) = Result (List Text)
Answer (remove_endpoints arn endpoints) = Result (Unit {0})
Answer (list_hosted_zones size) = Pages HostedZone
Answer (list_hosted_zones_by_name dns_name size) = Result (List HostedZone)
Answer (list_resource_record_sets zone size) = Pages RecordSet
Answer (change_resource_record_sets zone changes) = Result (Unit {0})
Answer (get_service ns name) = Result Service
Answer (get_ingress ns name) = Result Ingress
Answer (get_binding ns name) = Result EndpointGroupBinding
Answer (update_binding binding) = Result (Unit {0})
Answer (update_binding_status binding) = Result (Unit {0})
Answer (record_event obj reason message) = Result (Unit {0})

pub record Event : Type 0 where
  pub request : Request
  pub answer : Answer request

-- How many requests were sent for an answer: a paginator sends one for each page. The requests for
-- the pages after the first have a token besides, which is not kept.
abbrev pub request_count : (q : Request) → Answer q → ℕ
request_count (list_accelerators size) pages = page_count pages
request_count (list_listeners arn size) pages = page_count pages
request_count (list_endpoint_groups arn size) pages = page_count pages
request_count (list_hosted_zones size) pages = page_count pages
request_count (list_resource_record_sets zone size) pages = page_count pages
request_count _ answer = 1

-- The newest event comes first; the pages of a paginator are one event.
abbrev pub Log : Type 0
Log = List Event

-- AWS and Kubernetes, over a state of their own.
abbrev pub CloudService : Type 0 → Type 0
CloudService W = (q : Request) → W → Answer q × W
