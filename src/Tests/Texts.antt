-- ===== src/Tests/Texts.antt =====
-- The theorems on host names, tags and listeners, at examples, and what is read from some real
-- host names.
use aws_global_accelerator_c.Prelude.{
  ℕ, Text, true, false, ◌≡◌, ◌≢◌, ◌↔◌, refl, some, none, List, [], ◌∷◌, ◌++◌, codes, join, get,
  lookup, split, ends_with, ◌==◌, to_lower, Lacks, arith,
}
use aws_global_accelerator_c.Errors.{ok, panic}
use aws_global_accelerator_c.Apis.{ObjectMeta, tags_annotation}
use aws_global_accelerator_c.LoadBalancer.{
  get_lb_name_from_hostname, match_alb_hostname, match_nlb_hostname, internal_alb_name,
  public_alb_name, nlb_name, match_nlb_suffix, match_region_tail, is_word_tail, alb_suffix,
  elb_label, amazonaws_suffix, match_name, is_name_char, is_word, detect_cloud_provider,
}
use aws_global_accelerator_c.LoadBalancer.Match.{IsSubdomain, match_name_iff}
use aws_global_accelerator_c.LoadBalancer.Hostname.{
  IsNamed, subdomain, get_lb_name_from_hostname-public, get_lb_name_from_hostname-nlb,
  detect_cloud_provider_panics,
}
use aws_global_accelerator_c.Tags.{
  Tag, tags_contains_all_values, target_tags, update_tags, accelerator_owner_tag_value,
  accelerator_tags,
}
use aws_global_accelerator_c.Tags.Contains.{HasValues, tags_contains_all_values_iff}
use aws_global_accelerator_c.Tags.Target.{update_tags_converge}
use aws_global_accelerator_c.Tags.Owner.{
  IsPlain, accelerator_owner_tag_value_injective, accelerator_tags-written,
}
use aws_global_accelerator_c.Listener.{
  Listener, tcp, port_ranges, port_changed, listener_for_service, service_ports_loop, next_protocol,
  listener_for_ingress, listener_protocol_changed_from_service, listener_port_changed_from_service,
  listener_protocol_changed_from_ingress, listener_port_changed_from_ingress,
}
use aws_global_accelerator_c.Listener.Changed.{
  NoRepeat, port_changed_iff_same_ports, port_changed_misses_repeated,
  listener_unchanged_for_service, listener_unchanged_for_ingress,
}
use aws_global_accelerator_c.Listener.Ports.{count}
use aws_global_accelerator_c.Tests.Granting.{meta, app_service, app_ingress}

named : IsNamed (codes "my-app") (codes "0a1")
unfolding is_name_char is_word
named = record {
  name_nonempty = λ e. ground arith;
  name_chars = (refl, (refl, (refl, (refl, (refl, (refl, tt))))));
  hash_nonempty = λ e. ground arith;
  hash_chars = (refl, (refl, (refl, tt)));
}

abbrev region : Text
region = codes "eu-west-1"

dotless : Lacks b'.' region
dotless = omega arith

get_lb_name_from_hostname-public_example :
    get_lb_name_from_hostname
      (subdomain (codes "my-app") (codes "0a1") ++ (b'.' ∷ (region ++ alb_suffix)))
    ≡ ok (codes "my-app", region)
get_lb_name_from_hostname-public_example =
    get_lb_name_from_hostname-public (codes "my-app") (codes "0a1") region named dotless
      (λ t e. ground arith)

get_lb_name_from_hostname-nlb_example :
    get_lb_name_from_hostname
      (subdomain (codes "my-app") (codes "0a1") ++ (elb_label ++ (region ++ amazonaws_suffix)))
    ≡ ok (codes "my-app", region)
get_lb_name_from_hostname-nlb_example =
    get_lb_name_from_hostname-nlb (codes "my-app") (codes "0a1") region named dotless (omega arith)
      (λ e. ground arith) (λ e. ground arith)

-- The host name of an NLB, as AWS writes it.
real_nlb :
    get_lb_name_from_hostname (codes "aa5849cde256f49f-0123.elb.ap-northeast-1.amazonaws.com")
    ≡ ok (codes "aa5849cde256f49f", codes "ap-northeast-1")
unfolding get_lb_name_from_hostname match_alb_hostname match_nlb_hostname internal_alb_name
    public_alb_name nlb_name match_nlb_suffix match_region_tail is_word_tail alb_suffix elb_label
    amazonaws_suffix ends_with ◌==◌ split
real_nlb = refl

match_name_iff_example :
    (match_name (codes "my-app-0a1") ≡ some (codes "my-app"))
    ↔ ((codes "my-app" ≢ []) × IsSubdomain (codes "my-app") (codes "my-app-0a1"))
match_name_iff_example = match_name_iff (codes "my-app-0a1") (codes "my-app")

detect_cloud_provider_panics_example :
    Lacks b'.' (codes "localhost") ↔ (detect_cloud_provider (codes "localhost") ≡ panic)
detect_cloud_provider_panics_example = detect_cloud_provider_panics (codes "localhost")

abbrev team : Tag
team = record { key = codes "team"; value = codes "a" }

abbrev env : Tag
env = record { key = codes "env"; value = codes "prod" }

tags_contains_all_values_iff_example :
    (tags_contains_all_values (team ∷ env ∷ []) ((codes "env", codes "prod") ∷ []) ≡ true)
    ↔ HasValues (team ∷ env ∷ []) ((codes "env", codes "prod") ∷ [])
tags_contains_all_values_iff_example =
    tags_contains_all_values_iff (team ∷ env ∷ []) ((codes "env", codes "prod") ∷ [])

abbrev sent : List Tag
sent =
    update_tags (accelerator_owner_tag_value (codes "service") meta.namespace meta.name)
      (codes "lb.example.com") (accelerator_tags meta)

update_tags_converge_example :
    tags_contains_all_values
      (team ∷ sent)
      (target_tags (codes "lb.example.com") (codes "service") meta)
    ≡ true
update_tags_converge_example =
    update_tags_converge (codes "lb.example.com") (codes "service") meta (team ∷ []) (team ∷ sent)
      (λ k. refl)

accelerator_owner_tag_value_injective_example :
    (codes "service" ≡ codes "service")
    × (codes "default" ≡ codes "default")
    × (codes "app" ≡ codes "app")
accelerator_owner_tag_value_injective_example =
    accelerator_owner_tag_value_injective (codes "service") (codes "service") (codes "default")
      (codes "default") (codes "app") (codes "app") (omega arith) (omega arith) (omega arith)
      (omega arith) refl

team-IsPlain : IsPlain team
team-IsPlain = record {
  key_comma = omega arith;
  key_equals = omega arith;
  value_comma = omega arith;
  value_equals = omega arith;
}

env-IsPlain : IsPlain env
env-IsPlain = record {
  key_comma = omega arith;
  key_equals = omega arith;
  value_comma = omega arith;
  value_equals = omega arith;
}

abbrev tagged : ObjectMeta
tagged = record meta { annotations = (tags_annotation, codes "team=a,env=prod") ∷ [] }

accelerator_tags-written_example : accelerator_tags tagged ≡ team ∷ env ∷ []
unfolding join get ◌==◌ tags_annotation
accelerator_tags-written_example =
    accelerator_tags-written tagged (team ∷ env ∷ []) (team-IsPlain, (env-IsPlain, tt)) refl

port_changed_misses_repeated_example : port_changed (80 ∷ []) (53 ∷ 53 ∷ 80 ∷ []) ≡ false
port_changed_misses_repeated_example = port_changed_misses_repeated (80 ∷ []) 53

abbrev app_listener : Listener
app_listener = record {
  listener_arn = codes "listener";
  port_ranges = port_ranges (80 ∷ 443 ∷ []);
  protocol = tcp;
}

ab-NoRepeat : NoRepeat (80 ∷ 443 ∷ [])
ab-NoRepeat p = ground arith

ba-NoRepeat : NoRepeat (443 ∷ 80 ∷ [])
ba-NoRepeat p = ground arith

port_changed_iff_same_ports_example :
    (port_changed (80 ∷ 443 ∷ []) (443 ∷ 80 ∷ []) ≡ false)
    ↔ ((p : ℕ) → count p (80 ∷ 443 ∷ []) ≡ count p (443 ∷ 80 ∷ []))
port_changed_iff_same_ports_example =
    port_changed_iff_same_ports (80 ∷ 443 ∷ []) (443 ∷ 80 ∷ []) ab-NoRepeat ba-NoRepeat

listener_unchanged_for_service_example :
    (listener_protocol_changed_from_service app_listener app_service ≡ false)
    × (listener_port_changed_from_service app_listener app_service ≡ false)
unfolding listener_for_service service_ports_loop next_protocol ◌==◌ to_lower
listener_unchanged_for_service_example =
    listener_unchanged_for_service app_service app_listener refl refl

abbrev ingress_listener : Listener
ingress_listener = record {
  listener_arn = codes "listener";
  port_ranges = port_ranges (80 ∷ []);
  protocol = tcp;
}

listener_unchanged_for_ingress_example :
    (listener_protocol_changed_from_ingress ingress_listener ≡ false)
    × (listener_port_changed_from_ingress (λ t. none) ingress_listener app_ingress ≡ false)
unfolding listener_for_ingress ◌==◌ lookup
listener_unchanged_for_ingress_example =
    listener_unchanged_for_ingress (λ t. none) app_ingress ingress_listener refl refl
