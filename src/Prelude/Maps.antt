-- ===== src/Prelude/Maps.antt =====
-- Go maps with text keys, as association lists.
use mathlib.Core.Path.{◌≡◌, refl}
use mathlib.Core.Bool.{Bool, true, false}
use mathlib.Core.Option.{Option, none, some}
use mathlib.Core.List.{List, [], ◌∷◌}
use native.Mathlib.Omega.{arith}
use aws_global_accelerator_c.Prelude.Tests.{if◌then◌else◌}
use aws_global_accelerator_c.Prelude.Texts.{Text, ◌==◌, eq_iff}

abbrev pub Dict : Type 0
Dict = List (Text × Text)

-- `v, ok := m[k]`
unfoldable pub lookup {ℓ} : {A : Type ℓ} → Text → List (Text × A) → Option A
lookup name [] = none
lookup name ((found, value) ∷ rest) = if found == name then some value else lookup name rest

-- `m[k] = v`
unfoldable pub insert {ℓ} : {A : Type ℓ} → Text → A → List (Text × A) → List (Text × A)
insert name value [] = (name, value) ∷ []
insert name value ((found, old) ∷ rest) =
    let unchanged = (found, old) ∷ insert name value rest in
    if found == name then (name, value) ∷ rest else unchanged

abbrev pub or_empty : Option Text → Text
or_empty none = []
or_empty (some v) = v

-- `m[k]` as a value: a missing key reads as the empty string.
unfoldable pub get : Text → Dict → Text
unfolding lookup
get k m = or_empty (lookup k m)

abbrev pub is_some {ℓ} : {A : Type ℓ} → Option A → Bool
is_some none = false
is_some (some v) = true

-- `_, ok := m[k]`
unfoldable pub has_key {ℓ} : {A : Type ℓ} → Text → List (Text × A) → Bool
unfolding lookup
has_key k m = is_some (lookup k m)

pub lookup-insert {ℓ} :
    {A : Type ℓ} (name asked : Text) (value : A) (dict : List (Text × A))
    → lookup asked (insert name value dict)
      ≡ (if name == asked then some value else lookup asked dict)
unfolding insert lookup
lookup-insert name asked value [] = refl
lookup-insert name asked value ((found, old) ∷ rest) =
    let ih = lookup-insert name asked value rest in
    ground (arith, ih, eq_iff found asked, eq_iff found name, eq_iff name asked)

pub get-insert : (k j v : Text) (m : Dict) → get j (insert k v m) ≡ (if k == j then v else get j m)
unfolding get
get-insert k j v m = ground (arith, lookup-insert k j v m)
