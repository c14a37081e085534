-- ===== src/Process/Command.antt =====
-- cmd/controller/controller.go, cmd/webhook/webhook.go and `Server` of pkg/webhoook/webhook.go: the
-- flags, and what is started with them. Flags are parsed by cobra and viper, and the environment is a
-- parameter.
use aws_global_accelerator_c.Prelude.{
  ℕ, Text, Bool, not, ◌&&◌, ◌||◌, Option, none, some, [], codes, is_empty, ◌++◌, if◌then◌else◌,
  true,
}

-- `options` of the controller
pub record Options : Type 0 where
  pub workers : ℕ
  pub cluster_name : Text

-- The flags of `ControllerCmd` where they are not given.
abbrev pub default_options : Options
default_options = record { workers = 1; cluster_name = codes "default" }

-- `GlobalAcceleratorConfig` and `Route53Config`
pub record WorkersOfCluster : Type 0 where
  pub workers : ℕ
  pub cluster_name : Text

-- `ControllerConfig`; of the last one `EndpointGroupBindingConfig` has the workers only.
pub record ControllerConfig : Type 0 where
  pub global_accelerator : WorkersOfCluster
  pub route53 : WorkersOfCluster
  pub endpoint_group_binding : ℕ

-- The configuration that `run` builds from the flags.
unfoldable pub config_of : Options → ControllerConfig
config_of o = record {
  global_accelerator = record { workers = o.workers; cluster_name = o.cluster_name };
  route53 = record { workers = o.workers; cluster_name = o.cluster_name };
  endpoint_group_binding = o.workers;
}

-- The namespace of the lease: `POD_NAMESPACE`, or the default one.
unfoldable pub lease_namespace : Text → Text
lease_namespace pod_namespace = if is_empty pod_namespace then codes "default" else pod_namespace

-- `controllerConfig`: the flag, then `KUBECONFIG`, then the file in the home directory if `os.Stat`
-- finds it.
unfoldable pub kubeconfig_path : Text → Text → Text → (Text → Bool) → Text
kubeconfig_path flag variable home exists =
    if not (is_empty flag)
    then flag
    else if not (is_empty variable)
    then variable
    else if exists (home ++ codes "/.kube/config")
    then home ++ codes "/.kube/config"
    else codes ""

-- `options` of the webhook
pub record WebhookOptions : Type 0 where
  pub tls_cert_file : Text
  pub tls_key_file : Text
  pub enable_ssl : Bool
  pub port : ℕ

-- The flags of `WebhookCmd` where they are not given.
abbrev pub default_webhook_options : WebhookOptions
default_webhook_options = record {
  tls_cert_file = [];
  tls_key_file = [];
  enable_ssl = true;
  port = 8443;
}

-- What the server listens with.
pub data Listen : Type 0 where
  plain : ℕ → Listen
  tls : ℕ → Text → Text → Listen

-- `Server`
unfoldable pub server : ℕ → Text → Text → Listen
server port tls_cert_file tls_key_file =
    if not (not (is_empty tls_cert_file) && not (is_empty tls_key_file))
    then plain port
    else tls port tls_cert_file tls_key_file

-- `run` of the webhook: none where the flags are refused.
unfoldable pub run_webhook : WebhookOptions → Option Listen
run_webhook o =
    if o.enable_ssl && (is_empty o.tls_cert_file || is_empty o.tls_key_file)
    then none
    else some (server o.port o.tls_cert_file o.tls_key_file)
