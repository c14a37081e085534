-- ===== src/Prelude/Members.antt =====
-- Membership tests on appended and on kept lists.
use mathlib.Core.Path.{◌≡◌, refl, ap}
use mathlib.Core.Logic.{inl, inr}
use mathlib.Core.Bool.{Bool, true, false, ◌&&◌, ◌||◌}
use mathlib.Core.List.{List, [], ◌∷◌, ◌++◌}
use native.Mathlib.Omega.{arith}
use aws_global_accelerator_c.Prelude.Tests.{Bool-cases}
use aws_global_accelerator_c.Prelude.Lists.{keep}
use aws_global_accelerator_c.Prelude.Texts.{Text, ◌==◌, eq_iff, eq_refl, contains}

pub contains-append :
    (id : Text) (xs ys : List Text) → contains id (xs ++ ys) ≡ (contains id xs || contains id ys)
unfolding contains
contains-append id [] ys = refl
contains-append id (x ∷ xs) ys = ground (arith, contains-append id xs ys)

pub contains-keep :
    (p : Text → Bool) (id : Text) (xs : List Text)
    → contains id (keep p xs) ≡ (contains id xs && p id)
unfolding contains keep
contains-keep p id [] = refl
contains-keep p id (x ∷ xs) =
    let ih = contains-keep p id xs in
    elim (Bool-cases (x == id)) [
      | inl e ↦ let same = ap p ((eq_iff x id).0 e) in ground (arith, ih, e, same)
      | inr e ↦ ground (arith, ih, e)
    ]

pub keep_none :
    (p : Text → Bool) (xs : List Text)
    → ((x : Text) → contains x xs ≡ true → p x ≡ false)
    → keep p xs ≡ []
unfolding keep contains
keep_none p [] h = refl
keep_none p (x ∷ xs) h =
    let here = h x (rw eq_refl refl) in rw here (keep_none p xs (λ y e. h y (ground (arith, e))))

pub keep_ext {ℓ} :
    {A : Type ℓ} (p q : A → Bool) (xs : List A) → ((x : A) → p x ≡ q x) → keep p xs ≡ keep q xs
unfolding keep
keep_ext p q [] h = refl
keep_ext p q (x ∷ xs) h = rw (keep_ext p q xs h) (rw (h x) refl)
