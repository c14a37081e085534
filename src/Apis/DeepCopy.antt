-- ===== src/Apis/DeepCopy.antt =====
-- pkg/apis/endpointgroupbinding/v1alpha1/zz_generated.deepcopy.go on a heap of cells: a pointer is
-- the place of a cell, and a new cell comes after the others. The deep copy of `ObjectMeta` is a
-- parameter, and lists of bindings are left out.
use aws_global_accelerator_c.Prelude.{
  ℕ, zero, suc, Text, Bool, Option, none, some, List, [], ◌∷◌, ◌++◌, length,
}

-- What a pointer of a binding points to: a weight, a `ServiceReference` or an `IngressReference` (a
-- name), and the array of the endpoint IDs.
pub data Cell : Type 0 where
  int32 : ℕ → Cell
  reference : Text → Cell
  strings : List Text → Cell

abbrev pub Heap : Type 0
Heap = List Cell

unfoldable pub read : Heap → ℕ → Option Cell
read [] i = none
read (c ∷ heap) zero = some c
read (c ∷ heap) (suc i) = read heap i

-- `EndpointGroupBindingSpec`, in memory
pub record SpecStruct : Type 0 where
  pub endpoint_group_arn : Text
  pub client_ip_preservation : Bool
  pub weight : Option ℕ
  pub service_ref : Option ℕ
  pub ingress_ref : Option ℕ

-- `EndpointGroupBindingStatus`, in memory
pub record StatusStruct : Type 0 where
  pub endpoint_ids : Option ℕ
  pub observed_generation : ℕ

-- `EndpointGroupBinding`, in memory
pub record BindingStruct (M : Type 0) : Type 0 where
  pub object_meta : M
  pub spec : SpecStruct
  pub status : StatusStruct

-- A new cell with what was read; a pointer that is not nil has a cell.
abbrev pub new_cell : ℕ → Option Cell → Heap → Option ℕ × Heap
new_cell i none heap = (some i, heap)
new_cell i (some c) heap = (some (length heap), heap ++ (c ∷ []))

-- `if in.X != nil { *out = new(...); **out = **in }`
unfoldable pub copy_pointer : Option ℕ → Heap → Option ℕ × Heap
copy_pointer none heap = (none, heap)
copy_pointer (some i) heap = new_cell i (read heap i) heap

-- `DeepCopyInto` of the spec
unfoldable pub spec_deep_copy_into : SpecStruct → Heap → SpecStruct × Heap
spec_deep_copy_into s heap =
    let weight = copy_pointer s.weight heap in
    let service_ref = copy_pointer s.service_ref weight.1 in
    let ingress_ref = copy_pointer s.ingress_ref service_ref.1 in
    (
      record s { weight = weight.0; service_ref = service_ref.0; ingress_ref = ingress_ref.0 },
      ingress_ref.1,
    )

-- `DeepCopyInto` of the status
unfoldable pub status_deep_copy_into : StatusStruct → Heap → StatusStruct × Heap
status_deep_copy_into s heap =
    let endpoint_ids = copy_pointer s.endpoint_ids heap in
    (record s { endpoint_ids = endpoint_ids.0 }, endpoint_ids.1)

abbrev pub not_nil : {S : Type 0} → S × Heap → Option S × Heap
not_nil (s, heap) = (some s, heap)

-- Nil stays nil; else a new struct is filled by `DeepCopyInto`.
abbrev pub copy_unless_nil :
    {S : Type 0} → (S → Heap → S × Heap) → Option S → Heap → Option S × Heap
copy_unless_nil copy_into none heap = (none, heap)
copy_unless_nil copy_into (some s) heap = not_nil (copy_into s heap)

-- `DeepCopy` of the spec
unfoldable pub spec_deep_copy : Option SpecStruct → Heap → Option SpecStruct × Heap
spec_deep_copy s heap = copy_unless_nil spec_deep_copy_into s heap

-- `DeepCopy` of the status
unfoldable pub status_deep_copy : Option StatusStruct → Heap → Option StatusStruct × Heap
status_deep_copy s heap = copy_unless_nil status_deep_copy_into s heap

module _ {M : Type 0} (copy_meta : M → Heap → M × Heap) where
  -- `DeepCopyInto` of a binding
  unfoldable pub deep_copy_into : BindingStruct M → Heap → BindingStruct M × Heap
  deep_copy_into b heap =
      let meta = copy_meta b.object_meta heap in
      let spec = spec_deep_copy_into b.spec meta.1 in
      let status = status_deep_copy_into b.status spec.1 in
      (record { object_meta = meta.0; spec = spec.0; status = status.0 }, status.1)

  -- `DeepCopy` of a binding
  unfoldable pub deep_copy : Option (BindingStruct M) → Heap → Option (BindingStruct M) × Heap
  deep_copy b heap = copy_unless_nil deep_copy_into b heap

  -- `DeepCopyObject` of a binding: a nil pointer gives a nil object.
  unfoldable pub deep_copy_object :
      Option (BindingStruct M) → Heap → Option (BindingStruct M) × Heap
  deep_copy_object b heap = deep_copy b heap
