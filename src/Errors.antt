-- ===== src/Errors.antt =====
-- pkg/errors/errors.go, and the other errors that the code tells apart.
use aws_global_accelerator_c.Prelude.{Text, Bool, true, false, Option, none, some, codes}

-- `errors.New` and `fmt.Errorf` keep the message; `wrap` is an error whose `Unwrap` gives another.
pub data Error : Type 0 where
  errorf : Text → Error
  no_retry : Text → Error
  listener_not_found : Error
  endpoint_group_not_found : Error
  api_error : Text → Error
  object_not_found : Error
  poll_timeout : Error
  wrap : Text → Error → Error

-- What a Go call does: it returns, it returns an error, or it panics.
pub data Result {ℓ} (A : Type ℓ) : Type ℓ where
  ok : A → Result A
  err : Error → Result A
  panic : Result A

infixl 5 ◌>>=◌
abbrev pub ◌>>=◌ {ℓ κ} : {A : Type ℓ} {B : Type κ} → Result A → (A → Result B) → Result B
ok a >>= f = f a
err e >>= f = err e
panic >>= f = panic

-- `IsNoRetry`: `errors.As` looks through the chain of wrapped errors.
unfoldable pub is_no_retry : Error → Bool
is_no_retry (no_retry msg) = true
is_no_retry (wrap msg e) = is_no_retry e
is_no_retry _ = false

-- `errors.As(err, **ListenerNotFoundException)`
unfoldable pub is_listener_not_found : Error → Bool
is_listener_not_found listener_not_found = true
is_listener_not_found (wrap msg e) = is_listener_not_found e
is_listener_not_found _ = false

-- `errors.As(err, **EndpointGroupNotFoundException)`
unfoldable pub is_endpoint_group_not_found : Error → Bool
is_endpoint_group_not_found endpoint_group_not_found = true
is_endpoint_group_not_found (wrap msg e) = is_endpoint_group_not_found e
is_endpoint_group_not_found _ = false

-- `errors.As(err, *smithy.APIError)` with the `ErrorCode()` of what it finds. The exceptions of
-- the SDK are API errors whose code is their name.
unfoldable pub error_code : Error → Option Text
error_code (api_error code) = some code
error_code listener_not_found = some (codes "ListenerNotFoundException")
error_code endpoint_group_not_found = some (codes "EndpointGroupNotFoundException")
error_code (wrap msg e) = error_code e
error_code _ = none

-- `kerrors.IsNotFound`
unfoldable pub is_not_found : Error → Bool
is_not_found object_not_found = true
is_not_found (wrap msg e) = is_not_found e
is_not_found _ = false
