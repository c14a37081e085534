-- ===== src/Apis/Pointers.antt =====
-- The deep copies of a binding and of its parts are deep.
use aws_global_accelerator_c.Prelude.{
  ℕ, zero, suc, Text, ◌≡◌, refl, sym, ap, ◌∙◌, Option, none, some, List, [], ◌∷◌, ◌++◌, append-nil,
  length,
}
use aws_global_accelerator_c.Apis.{EndpointGroupBindingSpec, EndpointGroupBindingStatus}
use aws_global_accelerator_c.Apis.DeepCopy.{
  Cell, int32, reference, strings, Heap, read, SpecStruct, StatusStruct, BindingStruct, new_cell,
  copy_pointer, spec_deep_copy_into, status_deep_copy_into, deep_copy_into, deep_copy,
}
use aws_global_accelerator_c.Apis.Copies.{
  IsApart, IsDeepCopy, map_option, view_both, both-IsDeepCopy, view_struct, struct-IsDeepCopy,
}

read-append :
    (heap new : Heap) (i : ℕ) (c : Cell) → read heap i ≡ some c → read (heap ++ new) i ≡ some c
unfolding read
read-append [] new i c h = cc
read-append (d ∷ heap) new zero c h = h
read-append (d ∷ heap) new (suc i) c h = read-append heap new i c h

read_last : (heap : Heap) (c : Cell) → read (heap ++ (c ∷ [])) (length heap) ≡ some c
unfolding read
read_last [] c = refl
read_last (d ∷ heap) c = read_last heap c

module _ {V : Type 0} (decode : Cell → Option V) where
  abbrev decoded : Option Cell → Option (Option V)
  decoded none = none
  decoded (some c) = map_option (λ v. some v) (decode c)

  -- What a pointer points to: none for nil.
  abbrev view_pointer : Heap → Option ℕ → Option (Option V)
  view_pointer heap none = some none
  view_pointer heap (some i) = decoded (read heap i)

  pointer_grows :
      (heap new : Heap) (i : ℕ) (v : Option V) (o : Option Cell)
      → read heap i ≡ o
      → decoded o ≡ some v
      → decoded (read (heap ++ new) i) ≡ some v
  pointer_grows heap new i v none e h = cc
  pointer_grows heap new i v (some c) e h = ap (λ o. decoded o) (read-append heap new i c e) ∙ h

  new_cell-IsApart :
      (heap : Heap) (i : ℕ) (v : Option V) (o : Option Cell)
      → decoded o ≡ some v
      → IsApart view_pointer heap (new_cell i o heap) v
  new_cell-IsApart heap i v none h = cc
  new_cell-IsApart heap i v (some c) h = (
    c ∷ [],
    refl,
    λ old same.
        ap (λ n. decoded (read (old ++ (c ∷ [])) n)) (sym same)
        ∙ ap (λ o. decoded o) (read_last old c)
        ∙ h,
  )

  grows_pointer :
      (heap new : Heap) (p : Option ℕ) (v : Option V)
      → view_pointer heap p ≡ some v
      → view_pointer (heap ++ new) p ≡ some v
  grows_pointer heap new none v h = h
  grows_pointer heap new (some i) v h = pointer_grows heap new i v (read heap i) refl h

  copy_pointer-IsApart :
      (heap : Heap) (p : Option ℕ) (v : Option V)
      → view_pointer heap p ≡ some v
      → IsApart view_pointer heap (copy_pointer p heap) v
  unfolding copy_pointer
  copy_pointer-IsApart heap none v h = ([], sym (append-nil heap), λ old same. h)
  copy_pointer-IsApart heap (some i) v h = new_cell-IsApart heap i v (read heap i) h

  copy_pointer-IsDeepCopy : IsDeepCopy view_pointer copy_pointer
  copy_pointer-IsDeepCopy = record { grows = grows_pointer; apart = copy_pointer-IsApart }

abbrev as_int32 : Cell → Option ℕ
as_int32 (int32 n) = some n
as_int32 _ = none

abbrev as_reference : Cell → Option Text
as_reference (reference name) = some name
as_reference _ = none

abbrev as_strings : Cell → Option (List Text)
as_strings (strings ids) = some ids
as_strings _ = none

-- The pointers of a spec, in their order.
abbrev spec_parts : SpecStruct → Option ℕ × (Option ℕ × Option ℕ)
spec_parts s = (s.weight, (s.service_ref, s.ingress_ref))

abbrev with_spec_parts : SpecStruct → Option ℕ × (Option ℕ × Option ℕ) → SpecStruct
with_spec_parts s (weight, (service_ref, ingress_ref)) = record s {
  weight = weight;
  service_ref = service_ref;
  ingress_ref = ingress_ref;
}

abbrev spec_value : SpecStruct → Option ℕ × (Option Text × Option Text) → EndpointGroupBindingSpec
spec_value s (weight, (service_ref, ingress_ref)) = record {
  endpoint_group_arn = s.endpoint_group_arn;
  client_ip_preservation = s.client_ip_preservation;
  weight = weight;
  service_ref = service_ref;
  ingress_ref = ingress_ref;
}

-- What a struct in memory stands for.
abbrev pub view_spec : Heap → SpecStruct → Option EndpointGroupBindingSpec
view_spec =
    view_struct
      (view_both (view_pointer as_int32)
        (view_both (view_pointer as_reference) (view_pointer as_reference)))
      spec_parts spec_value

spec-IsDeepCopy : IsDeepCopy view_spec spec_deep_copy_into
unfolding spec_deep_copy_into
spec-IsDeepCopy =
    struct-IsDeepCopy _ _ spec_parts with_spec_parts spec_value (λ s t. refl) (λ s t v. refl)
      (both-IsDeepCopy _ _ _ _ (copy_pointer-IsDeepCopy as_int32) (
        both-IsDeepCopy _ _ _ _ (copy_pointer-IsDeepCopy as_reference)
          (copy_pointer-IsDeepCopy as_reference)))

abbrev or_nil : Option (List Text) → List Text
or_nil none = []
or_nil (some ids) = ids

abbrev pub view_status : Heap → StatusStruct → Option EndpointGroupBindingStatus
view_status =
    view_struct (view_pointer as_strings) (λ s. s.endpoint_ids)
      (λ s ids. record { endpoint_ids = or_nil ids; observed_generation = s.observed_generation })

status-IsDeepCopy : IsDeepCopy view_status status_deep_copy_into
unfolding status_deep_copy_into
status-IsDeepCopy =
    struct-IsDeepCopy _ _ (λ s. s.endpoint_ids) (λ s ids. record s { endpoint_ids = ids }) _
      (λ s t. refl) (λ s t v. refl) (copy_pointer-IsDeepCopy as_strings)

module _ {M V : Type 0} (view_meta : Heap → M → Option V) where
  -- The metadata, the spec and the status of a binding.
  abbrev pub view_binding :
      Heap → BindingStruct M → Option (V × (EndpointGroupBindingSpec × EndpointGroupBindingStatus))
  view_binding =
      view_struct (view_both view_meta (view_both view_spec view_status))
        (λ b. (b.object_meta, (b.spec, b.status))) (λ b v. v)

  module _ (copy_meta : M → Heap → M × Heap) where
    deep_copy_into-IsDeepCopy :
        IsDeepCopy view_meta copy_meta → IsDeepCopy view_binding (deep_copy_into copy_meta)
    unfolding deep_copy_into
    deep_copy_into-IsDeepCopy d =
        struct-IsDeepCopy _ _ (λ b. (b.object_meta, (b.spec, b.status)))
          (λ b (meta, (spec, status)). record { object_meta = meta; spec = spec; status = status })
          (λ b v. v) (λ s t. refl) (λ s t v. refl)
          (both-IsDeepCopy _ _ _ _ d (both-IsDeepCopy _ _ _ _ spec-IsDeepCopy status-IsDeepCopy))

    -- Where the deep copy of the metadata is deep, and the pointers of a binding are good: `DeepCopy`
    -- leaves all cells as they are and makes a binding with the same metadata, spec and status, which
    -- keeps these whatever `old` is written to the cells that there were before; and the binding itself
    -- keeps its own whatever `new` is written to the cells that came with the copy.
    pub deep_copy_shares_nothing :
        IsDeepCopy view_meta copy_meta
        → (heap old new : Heap) (b : BindingStruct M)
          (v : V × (EndpointGroupBindingSpec × EndpointGroupBindingStatus))
        → view_binding heap b ≡ some v
        → length old ≡ length heap
        → (copied : BindingStruct M) × (extra : Heap) × (deep_copy copy_meta (some b) heap
            ≡ (some copied, heap ++ extra))
          × (view_binding (old ++ extra) copied ≡ some v)
          × (view_binding (heap ++ new) b ≡ some v)
    unfolding deep_copy
    deep_copy_shares_nothing d heap old new b v good same =
        let deep = deep_copy_into-IsDeepCopy d in
        let (extra, grown, kept) = deep.apart heap b v good in
        let copied = deep_copy_into copy_meta b heap in
        (
          copied.0,
          extra,
          ap (λ g. (some copied.0, g)) grown,
          kept old same,
          deep.grows heap new b v good,
        )
