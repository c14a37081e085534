-- ===== src/Binding/Endpoints.antt =====
-- The endpoint IDs of a binding: slices, and the differences that `reconcileUpdate` computes.
use aws_global_accelerator_c.Prelude.{
  ℕ, zero, suc, ◌+◌, ◌-◌, Text, Dict, not, Option, none, some, List, [], ◌∷◌, map, ◌==◌, contains,
  keep, leb, if◌then◌else◌,
}

-- A slice: its backing array, which other slices share, and its length.
pub record Slice : Type 0 where
  pub array : List Text
  pub length : ℕ

-- The array after `copy(array[i:], array[i+1:length])`: the last element stays where it was.
unfoldable pub shift_left : List Text → ℕ → ℕ → List Text
shift_left [] i length = []
shift_left (x ∷ []) i length = x ∷ []
shift_left (x ∷ y ∷ xs) zero zero = x ∷ y ∷ xs
shift_left (x ∷ y ∷ xs) zero (suc zero) = x ∷ y ∷ xs
shift_left (x ∷ y ∷ xs) zero (suc (suc length)) = y ∷ shift_left (y ∷ xs) zero (suc length)
shift_left (x ∷ y ∷ xs) (suc i) zero = x ∷ y ∷ xs
shift_left (x ∷ y ∷ xs) (suc i) (suc length) = x ∷ shift_left (y ∷ xs) i length

-- `append(s[:i], s[i+1:]...)`: none where `i+1` is past the length, at which slicing panics.
unfoldable pub delete_at : Slice → ℕ → Option Slice
unfolding shift_left
delete_at s i =
    if leb (i + 1) s.length
    then some (record { array = shift_left s.array i s.length; length = s.length - 1 })
    else none

-- The elements of a slice.
unfoldable pub first_elements : List Text → ℕ → List Text
first_elements [] n = []
first_elements (x ∷ xs) zero = []
first_elements (x ∷ xs) (suc n) = x ∷ first_elements xs n

abbrev pub keys : Dict → List Text
keys = map (λ (k, v). k)

-- The ARNs that are not in the status.
unfoldable pub new_endpoint_ids : List Text → List Text → List Text
unfolding contains
new_endpoint_ids arns status = keep (λ arn. not (contains arn status)) arns

-- The IDs in the status that no load balancer has.
unfoldable pub removed_endpoint_ids : List Text → List Text → List Text
unfolding contains
removed_endpoint_ids arns status = keep (λ id. not (contains id arns)) status

-- `slices.DeleteFunc(results, func(e string) bool { return e == id })`
unfoldable pub delete_id : Text → List Text → List Text
delete_id id = keep (λ e. not (e == id))
