-- ===== src/Accelerator.antt =====
-- pkg/cloudprovider/aws/global_accelerator.go, "Accelerator methods". `attempts` is how often
-- `wait.Poll(10*time.Second, 3*time.Minute, …)` of apimachinery runs its condition at most.
pub mod Poll
pub mod Deploy
use aws_global_accelerator_c.Prelude.{
  ℕ, zero, suc, Text, Bool, true, false, ◌||◌, Option, none, some, List, [], codes, ◌==◌,
  if◌then◌else◌,
}
use aws_global_accelerator_c.Errors.{Result, poll_timeout}
use aws_global_accelerator_c.Tags.{Tag, create_tags, update_tags}
use aws_global_accelerator_c.Cloud.Types.{
  Accelerator, AcceleratorStatus, deployed, in_progress, IpAddressType, ipv4, dual_stack,
  CreateAcceleratorInput, Request, CloudService,
}
use aws_global_accelerator_c.Cloud.Exec.{Exec, pure, throw, call, read_pages, ◌>>=◌, ◌>>◌}

-- The `switch` of `createAccelerator`: what is not known, and an empty text, is dual-stack.
unfoldable pub ip_address_type : Text → IpAddressType
ip_address_type t = if t == codes "ipv4" || t == codes "IPV4" then ipv4 else dual_stack

-- The request of `createAccelerator`.
unfoldable pub create_input : Text → Text → Text → Text → Text → List Tag → CreateAcceleratorInput
unfolding ip_address_type create_tags
create_input name cluster_name owner hostname address_type specified = record {
  is_enabled = true;
  ip_address_type = ip_address_type address_type;
  name = name;
  tags = create_tags owner hostname cluster_name specified;
}

module _ {W : Type 0} (service : CloudService W) where
  -- `getAccelerator`
  unfoldable pub get_accelerator : Text → Exec W Accelerator
  get_accelerator arn = call service (Request.describe_accelerator arn) (λ r. r)

  -- `listAccelerator`: one request for each page, all of them one event of the log.
  unfoldable pub list_accelerator : Exec W (List Accelerator)
  list_accelerator = call service (Request.list_accelerators 100) (λ pages. read_pages pages [])

  -- `listTagsForAccelerator`
  unfoldable pub list_tags_for_accelerator : Text → Exec W (List Tag)
  list_tags_for_accelerator arn = call service (Request.list_tags_for_resource arn) (λ r. r)

  -- `createAccelerator`
  unfoldable pub create_accelerator :
      Text → Text → Text → Text → Text → List Tag → Exec W Accelerator
  create_accelerator name cluster_name owner hostname address_type specified =
      call service
        (Request.create_accelerator
          (create_input name cluster_name owner hostname address_type specified))
        (λ r. r)

  -- `updateAccelerator`: the accelerator first, then its tags.
  unfoldable pub update_accelerator : Text → Text → Text → Text → List Tag → Exec W Accelerator
  update_accelerator arn name owner hostname specified = do
    updated ← call service (Request.update_accelerator arn true (some name)) (λ r. r)
    _ ← call service (Request.tag_resource arn (update_tags owner hostname specified)) (λ r. r)
    pure updated

  -- The condition of the poll in `deleteAccelerator`, and the rounds that are left.
  unfoldable pub poll_deployed : ℕ → Text → Exec W (Unit {0})
  poll_deployed zero arn = throw poll_timeout
  poll_deployed (suc attempts) arn = do
    accelerator ← get_accelerator arn
    elim accelerator.status [ deployed ↦ pure tt | in_progress ↦ poll_deployed attempts arn ]

  -- `deleteAccelerator`: disable, wait until that is deployed, delete.
  unfoldable pub delete_accelerator : ℕ → Text → Exec W (Unit {0})
  delete_accelerator attempts arn = do
    _ ← call service (Request.update_accelerator arn false none) (λ r. r)
    _ ← poll_deployed attempts arn
    call service (Request.delete_accelerator arn) (λ r. r)
