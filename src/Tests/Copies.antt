-- ===== src/Tests/Copies.antt =====
-- The theorem on deep copies, at an example.
use aws_global_accelerator_c.Prelude.{
  ℕ, true, ◌≡◌, refl, sym, some, none, [], ◌∷◌, ◌++◌, append-nil, codes, Option,
}
use aws_global_accelerator_c.Apis.{EndpointGroupBindingSpec, EndpointGroupBindingStatus}
use aws_global_accelerator_c.Apis.DeepCopy.{
  Heap, int32, reference, strings, BindingStruct, deep_copy, read,
}
use aws_global_accelerator_c.Apis.Copies.{IsDeepCopy}
use aws_global_accelerator_c.Apis.Pointers.{view_binding, deep_copy_shares_nothing}

-- Metadata of one number, without pointers.
abbrev number : Heap → ℕ → Option ℕ
number heap m = some m

abbrev same_number : ℕ → Heap → ℕ × Heap
same_number m heap = (m, heap)

number-IsDeepCopy : IsDeepCopy number same_number
number-IsDeepCopy = record {
  grows = λ heap new s v h. h;
  apart = λ heap s v h. ([], sym (append-nil heap), λ old same. h);
}

abbrev cells : Heap
cells = int32 100 ∷ reference (codes "app") ∷ strings (codes "lb" ∷ []) ∷ []

abbrev overwritten : Heap
overwritten = int32 0 ∷ int32 0 ∷ strings [] ∷ []

abbrev in_memory : BindingStruct ℕ
in_memory = record {
  object_meta = 4;
  spec = record {
    endpoint_group_arn = codes "group";
    client_ip_preservation = true;
    weight = some 0;
    service_ref = some 1;
    ingress_ref = none;
  };
  status = record { endpoint_ids = some 2; observed_generation = 3 };
}

abbrev seen_there : ℕ × (EndpointGroupBindingSpec × EndpointGroupBindingStatus)
seen_there = (
  4,
  (
    record {
      endpoint_group_arn = codes "group";
      client_ip_preservation = true;
      weight = some 100;
      service_ref = some (codes "app");
      ingress_ref = none;
    },
    record { endpoint_ids = codes "lb" ∷ []; observed_generation = 3 },
  ),
)

deep_copy_shares_nothing_example :
    (copied : BindingStruct ℕ) × (extra : Heap) × (deep_copy same_number (some in_memory) cells
      ≡ (some copied, cells ++ extra))
    × (view_binding number (overwritten ++ extra) copied ≡ some seen_there)
    × (view_binding number (cells ++ (int32 7 ∷ [])) in_memory ≡ some seen_there)
unfolding read
deep_copy_shares_nothing_example =
    deep_copy_shares_nothing number same_number number-IsDeepCopy cells overwritten (int32 7 ∷ [])
      in_memory seen_there refl refl
