-- ===== src/Tests/Granting.antt =====
-- A cloud service for the examples: it grants everything. Its state is how often an accelerator is
-- still seen in progress.
use aws_global_accelerator_c.Prelude.{
  ℕ, zero, suc, ◌-◌, Text, true, some, none, List, [], ◌∷◌, codes,
}
use aws_global_accelerator_c.Errors.{ok, err, listener_not_found}
use aws_global_accelerator_c.Apis.{ObjectMeta, Service, Ingress, EndpointGroupBinding}
use aws_global_accelerator_c.Listener.{Listener, tcp, port_ranges}
use aws_global_accelerator_c.Tags.{Tag, create_tags}
use aws_global_accelerator_c.Cloud.Types.{
  LoadBalancer, active, Accelerator, AcceleratorStatus, deployed, in_progress, EndpointGroup,
  Request, Answer, CloudService, last_page,
}
use aws_global_accelerator_c.Cloud.Exec.{State}

abbrev pub meta : ObjectMeta
meta = record { namespace = codes "default"; name = codes "app"; annotations = [] }

abbrev pub host : Text
host = codes "app-0a1.elb.eu-west-1.amazonaws.com"

abbrev pub app_service : Service
app_service = record {
  meta = meta;
  service_type = codes "LoadBalancer";
  load_balancer_class = none;
  ports =
      record { port = 80; protocol = codes "TCP" }
      ∷ record { port = 443; protocol = codes "TCP" }
      ∷ [];
  lb_ingress = record { ip = []; hostname = host } ∷ [];
}

abbrev pub app_ingress : Ingress
app_ingress = record {
  meta = meta;
  ingress_class_name = none;
  default_backend = some (record { service = some 80 });
  rules = [];
  lb_ingress = record { ip = []; hostname = host } ∷ [];
}

abbrev pub binding : List Text → EndpointGroupBinding
binding ids = record {
  meta = meta;
  generation = 1;
  is_deleting = true;
  finalizers = [];
  spec = record {
    endpoint_group_arn = codes "group";
    client_ip_preservation = true;
    weight = none;
    service_ref = none;
    ingress_ref = none;
  };
  status = record { endpoint_ids = ids; observed_generation = 1 };
}

abbrev pub lb : LoadBalancer
lb = record {
  load_balancer_arn = codes "arn:aws:elasticloadbalancing:eu-west-1:1:loadbalancer/app";
  load_balancer_name = codes "app";
  dns_name = host;
  state = active;
}

abbrev status_at : ℕ → AcceleratorStatus
status_at zero = deployed
status_at (suc n) = in_progress

abbrev pub seen : ℕ → Accelerator
seen n = record {
  accelerator_arn = codes "acc";
  name = codes "service-default-app";
  dns_name = codes "acc.awsglobalaccelerator.com";
  is_enabled = true;
  status = status_at n;
}

-- The tags of the accelerator of the service, in the cluster `prod`.
abbrev pub app_tags : List Tag
app_tags = create_tags (codes "service/default/app") host (codes "prod") []

abbrev pub listener : Listener
listener = record {
  listener_arn = codes "listener";
  port_ranges = port_ranges (80 ∷ 443 ∷ []);
  protocol = tcp;
}

abbrev pub group : EndpointGroup
group = record { endpoint_group_arn = codes "group"; endpoint_ids = lb.load_balancer_arn ∷ [] }

abbrev reply : (q : Request) → ℕ → Answer q
reply (Request.load_config region) n = ok tt
reply (Request.describe_load_balancers region names) n = ok (lb ∷ [])
reply (Request.list_accelerators size) n = last_page (ok (seen 0 ∷ []))
reply (Request.describe_accelerator arn) n = ok (record (seen n) { accelerator_arn = arn })
reply (Request.list_tags_for_resource arn) n = ok app_tags
reply (Request.create_accelerator input) n = ok (seen 1)
reply (Request.update_accelerator arn enabled name) n = ok (seen 1)
reply (Request.tag_resource arn tags) n = ok tt
reply (Request.delete_accelerator arn) n = ok tt
reply (Request.list_listeners arn size) n = last_page (ok (listener ∷ []))
reply (Request.create_listener arn input) n = ok listener
reply (Request.update_listener arn input) n = ok listener
reply (Request.delete_listener arn) n = ok tt
reply (Request.describe_endpoint_group arn) n = ok group
reply (Request.list_endpoint_groups arn size) n = last_page (ok (group ∷ []))
reply (Request.create_endpoint_group arn region endpoints) n = ok group
reply (Request.update_endpoint_group arn endpoints) n = ok group
reply (Request.delete_endpoint_group arn) n = ok tt
reply (Request.add_endpoints arn endpoints) n = ok (lb.load_balancer_arn ∷ [])
reply (Request.remove_endpoints arn endpoints) n = ok tt
reply (Request.list_hosted_zones size) n = last_page (ok [])
reply (Request.list_hosted_zones_by_name dns_name size) n = ok []
reply (Request.list_resource_record_sets zone size) n = last_page (ok [])
reply (Request.change_resource_record_sets zone changes) n = ok tt
reply (Request.get_service ns name) n = ok app_service
reply (Request.get_ingress ns name) n = ok app_ingress
reply (Request.get_binding ns name) n = ok (binding [])
reply (Request.update_binding b) n = ok tt
reply (Request.update_binding_status b) n = ok tt
reply (Request.record_event obj reason message) n = ok tt

abbrev pub granting : CloudService ℕ
granting q n = (reply q n, n - 1)

-- It grants all but new listeners.
abbrev pub refusing : CloudService ℕ
refusing (Request.create_listener arn input) n = (err listener_not_found, n)
refusing (Request.create_accelerator input) n = (ok (seen 1), n)
refusing q n = (reply q n, n)

abbrev pub from : ℕ → State ℕ
from n = record { world = n; log = [] }
