-- ===== src/Apis.antt =====
-- pkg/apis/type.go, and the fields of the Kubernetes objects that the program reads.
-- Machine integers (int32 ports and weights) are kept as their bit patterns.
pub mod DeepCopy
pub mod Copies
pub mod Pointers
use aws_global_accelerator_c.Prelude.{ℕ, Text, Bool, Dict, List, Option, codes}

unfoldable pub managed_annotation : Text
managed_annotation =
    codes "aws-global-accelerator-controller.h3poteto.dev/global-accelerator-managed"

unfoldable pub route53_hostname_annotation : Text
route53_hostname_annotation =
    codes "aws-global-accelerator-controller.h3poteto.dev/route53-hostname"

unfoldable pub client_ip_preservation_annotation : Text
client_ip_preservation_annotation =
    codes "aws-global-accelerator-controller.h3poteto.dev/client-ip-preservation"

unfoldable pub name_annotation : Text
name_annotation = codes "aws-global-accelerator-controller.h3poteto.dev/global-accelerator-name"

unfoldable pub tags_annotation : Text
tags_annotation = codes "aws-global-accelerator-controller.h3poteto.dev/global-accelerator-tags"

unfoldable pub ip_address_type_annotation : Text
ip_address_type_annotation = codes "aws-global-accelerator-controller.h3poteto.dev/ip-address-type"

unfoldable pub load_balancer_type_annotation : Text
load_balancer_type_annotation = codes "service.beta.kubernetes.io/aws-load-balancer-type"

unfoldable pub ingress_class_annotation : Text
ingress_class_annotation = codes "kubernetes.io/ingress.class"

-- `metav1.Object`
pub record ObjectMeta : Type 0 where
  pub namespace : Text
  pub name : Text
  pub annotations : Dict

pub record ServicePort : Type 0 where
  pub port : ℕ
  pub protocol : Text

-- `corev1.LoadBalancerIngress` and `networkingv1.IngressLoadBalancerIngress`; of these the program
-- reads the host name.
pub record LoadBalancerIngress : Type 0 where
  pub ip : Text
  pub hostname : Text

pub record Service : Type 0 where
  pub meta : ObjectMeta
  pub service_type : Text
  pub load_balancer_class : Option Text
  pub ports : List ServicePort
  pub lb_ingress : List LoadBalancerIngress

-- `IngressBackend`: its `Service`, if any, by the number of its port.
pub record IngressBackend : Type 0 where
  pub service : Option ℕ

-- `IngressRule`: its `HTTP`, if any, by the backends of its paths.
pub record IngressRule : Type 0 where
  pub http : Option (List IngressBackend)

pub record Ingress : Type 0 where
  pub meta : ObjectMeta
  pub ingress_class_name : Option Text
  pub default_backend : Option IngressBackend
  pub rules : List IngressRule
  pub lb_ingress : List LoadBalancerIngress

-- pkg/apis/endpointgroupbinding/v1alpha1/types.go. A reference is the name of its object.
pub record EndpointGroupBindingSpec : Type 0 where
  pub endpoint_group_arn : Text
  pub client_ip_preservation : Bool
  pub weight : Option ℕ
  pub service_ref : Option Text
  pub ingress_ref : Option Text

pub record EndpointGroupBindingStatus : Type 0 where
  pub endpoint_ids : List Text
  pub observed_generation : ℕ

-- `DeletionTimestamp != nil` is `is_deleting`.
pub record EndpointGroupBinding : Type 0 where
  pub meta : ObjectMeta
  pub generation : ℕ
  pub is_deleting : Bool
  pub finalizers : List Text
  pub spec : EndpointGroupBindingSpec
  pub status : EndpointGroupBindingStatus
