-- ===== src/Webhook.antt =====
-- pkg/webhoook/webhook.go and pkg/webhoook/endpointgroupbinding/validator.go. `encoding/json` is a
-- parameter: its decoders give a value or an error message. The answer is kept as a value.
pub mod Immutable
use aws_global_accelerator_c.Prelude.{
  ℕ, Text, Bool, true, false, not, Option, none, some, List, [], codes, ◌++◌, ◌==◌, is_empty, ◌⊎◌,
  inl, inr, if◌then◌else◌,
}
use aws_global_accelerator_c.Apis.{EndpointGroupBinding}

-- `admissionv1.Operation`
pub data Operation : Type 0 where
  create update delete connect : Operation

-- `AdmissionRequest`: the fields that are read. A nil `Raw` of the old object is none.
pub record AdmissionRequest : Type 0 where
  pub uid : Text
  pub kind : Text
  pub operation : Operation
  pub old_object : Option Text
  pub object : Text

-- `AdmissionReview` as an answer: its kind and version are constants.
pub record AdmissionResponse : Type 0 where
  pub uid : Text
  pub allowed : Bool
  pub code : ℕ
  pub message : Text

-- `reviewResponse`
unfoldable pub review_response : Text → Bool → ℕ → Text → AdmissionResponse
review_response uid allowed code reason = record {
  uid = uid;
  allowed = allowed;
  code = code;
  message = reason;
}

-- `validate`: none, or the error.
unfoldable pub validate_update : EndpointGroupBinding → EndpointGroupBinding → Option Text
validate_update previous new =
    if not (previous.spec.endpoint_group_arn == new.spec.endpoint_group_arn)
    then some (codes "Spec.EndpointGroupArn is immutable")
    else none

abbrev is_update : Operation → Bool
is_update update = true
is_update _ = false

-- The decoder of a binding: an error message, or the binding.
abbrev pub Unmarshal : Type 0 → Type 0
Unmarshal A = Text → Text ⊎ A

abbrev judged : Text → Option Text → AdmissionResponse
judged uid (some message) = review_response uid false 403 message
judged uid none = review_response uid true 200 (codes "valid")

abbrev judge_new : Text → EndpointGroupBinding → Text ⊎ EndpointGroupBinding → AdmissionResponse
judge_new uid previous (inl message) = review_response uid false 500 message
judge_new uid previous (inr new) = judged uid (validate_update previous new)

abbrev judge_old :
    Text → Text ⊎ EndpointGroupBinding → Text ⊎ EndpointGroupBinding → AdmissionResponse
judge_old uid (inl message) decoded = review_response uid false 500 message
judge_old uid (inr previous) decoded = judge_new uid previous decoded

-- `Validate`
unfoldable pub validate : Unmarshal EndpointGroupBinding → AdmissionRequest → AdmissionResponse
unfolding review_response validate_update
validate unmarshal request =
    if not (request.kind == codes "EndpointGroupBinding")
    then review_response request.uid false 400 (request.kind ++ codes " is not supported")
    else if not (is_update request.operation)
    then review_response request.uid true 200 []
    else elim request.old_object [
      | none ↦ review_response request.uid true 200 []
      | some raw ↦ judge_old request.uid (unmarshal raw) (unmarshal request.object)
    ]

-- What the handler is sent: the content type and the body.
pub record HttpRequest : Type 0 where
  pub content_type : Text
  pub body : Text

-- What it writes: the status, and the review if there is one.
pub record HttpResponse : Type 0 where
  pub status : ℕ
  pub review : Option AdmissionResponse

abbrev requested : Text ⊎ Option AdmissionRequest → Text ⊎ AdmissionRequest
requested (inl message) = inl (codes "failed to unmarshal body: " ++ message)
requested (inr none) = inl (codes "empty request")
requested (inr (some request)) = inr request

-- `parseRequest`. The decoder of a review gives its `Request`, which may be nil.
unfoldable pub parse_request :
    Unmarshal (Option AdmissionRequest) → HttpRequest → Text ⊎ AdmissionRequest
parse_request unmarshal_review r =
    if not (r.content_type == codes "application/json")
    then inl (codes "invalid Content-Type")
    else if is_empty r.body
    then inl (codes "empty body")
    else requested (unmarshal_review r.body)

abbrev answered : Unmarshal EndpointGroupBinding → Text ⊎ AdmissionRequest → HttpResponse
answered unmarshal (inl message) = record { status = 400; review = none }
answered unmarshal (inr request) = record {
  status = 200;
  review = some (validate unmarshal request);
}

-- `ValidateEndpointGroupBinding`; a review of this kind can always be encoded.
unfoldable pub validate_endpoint_group_binding :
    Unmarshal (Option AdmissionRequest)
    → Unmarshal EndpointGroupBinding
    → HttpRequest
    → HttpResponse
unfolding parse_request validate
validate_endpoint_group_binding unmarshal_review unmarshal r =
    answered unmarshal (parse_request unmarshal_review r)

-- `Healthz`
unfoldable pub healthz : HttpRequest → HttpResponse
healthz r = record { status = 200; review = none }

-- The handlers that `Server` registers, by their paths.
unfoldable pub handler_of :
    Unmarshal (Option AdmissionRequest)
    → Unmarshal EndpointGroupBinding
    → Text
    → Option (HttpRequest → HttpResponse)
handler_of unmarshal_review unmarshal path =
    if path == codes "/healthz"
    then some healthz
    else if path == codes "/validate-endpointgroupbinding"
    then some (validate_endpoint_group_binding unmarshal_review unmarshal)
    else none
