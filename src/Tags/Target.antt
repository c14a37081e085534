-- ===== src/Tags/Target.antt =====
-- The map that `acceleratorChanged` looks for, beside the tags that `updateAccelerator` sends.

use aws_global_accelerator_c.Prelude.{
  Text, Dict, true, List, [], ◌∷◌, ◌≡◌, ◌≢◌, refl, sym, subst, ◌∙◌, All, All-map, arith, ◌==◌,
  eq_iff, eq_refl, insert, if◌then◌else◌, Bool-cases, inl, inr,
}
use aws_global_accelerator_c.Apis.{ObjectMeta}
use aws_global_accelerator_c.Tags.{
  Tag, put_tags, tags_contains_all_values, target_tags, update_tags, accelerator_tags,
  managed_tag_key, owner_tag_key, target_hostname_key, accelerator_owner_tag_value,
}
use aws_global_accelerator_c.Tags.Contains.{last_value, tags_contains_all_values_iff}

-- The wanted tags are the sent tags, read as a map.
target_tags-update_tags :
    (hostname resource : Text) (obj : ObjectMeta)
    → target_tags hostname resource obj
      ≡ put_tags
          (update_tags
            (accelerator_owner_tag_value resource obj.namespace obj.name)
            hostname
            (accelerator_tags obj))
          []
unfolding target_tags update_tags put_tags insert ◌==◌ managed_tag_key owner_tag_key
    target_hostname_key
target_tags-update_tags hostname resource obj = refl

-- No pair has the key `k`.
abbrev Fresh : Text → Dict → Type 0
Fresh k = All (λ (j, v). j ≢ k)

abbrev NodupKeys : Dict → Type 0
NodupKeys [] = Unit
NodupKeys ((k, v) ∷ m) = Fresh k m × NodupKeys m

insert-Fresh : (k j v : Text) (m : Dict) → j ≢ k → Fresh k m → Fresh k (insert j v m)
unfolding insert
insert-Fresh k j v [] n h = (n, tt)
insert-Fresh k j v ((i, w) ∷ m) n h = ground (arith, eq_iff i j, insert-Fresh k j v m n h.1)

insert-NodupKeys : (k v : Text) (m : Dict) → NodupKeys m → NodupKeys (insert k v m)
unfolding insert
insert-NodupKeys k v [] u = (tt, tt)
insert-NodupKeys k v ((i, w) ∷ m) u = elim (Bool-cases (i == k)) [
  | inl e ↦ rw e (subst (λ j. Fresh j m) ((eq_iff i k).0 e) u.0, u.1)
  | inr e ↦
      rw e
        (insert-Fresh i k v m (λ p. cc (e, (eq_iff i k).1 (sym p))) u.0, insert-NodupKeys k v m u.1)
]

-- Every pair of the map is what `f` says of its key.
abbrev IsGraph : (Text → Text) → Dict → Type 0
IsGraph f = All (λ (k, v). f k ≡ v)

abbrev update : Text → Text → (Text → Text) → Text → Text
update k v f j = if k == j then v else f j

update-Fresh :
    (f : Text → Text) (k v : Text) (m : Dict) → Fresh k m → IsGraph f m → IsGraph (update k v f) m
update-Fresh f k v [] n g = tt
update-Fresh f k v ((j, w) ∷ m) n g =
    (ground (arith, eq_iff k j, n.0, g.0), update-Fresh f k v m n.1 g.1)

insert-IsGraph :
    (f : Text → Text) (k v : Text) (m : Dict)
    → NodupKeys m
    → IsGraph f m
    → IsGraph (update k v f) (insert k v m)
unfolding insert
insert-IsGraph f k v [] u g = (rw eq_refl, tt)
insert-IsGraph f k v ((i, w) ∷ m) u g = elim (Bool-cases (i == k)) [
  | inl e ↦
      rw e (rw eq_refl, update-Fresh f k v m (subst (λ j. Fresh j m) ((eq_iff i k).0 e) u.0) g.1)
  | inr e ↦ rw e (ground (arith, eq_iff k i, eq_iff i k, g.0), insert-IsGraph f k v m u.1 g.1)
]

put_tags-IsGraph :
    (ts : List Tag) (f : Text → Text) (m : Dict)
    → NodupKeys m
    → IsGraph f m
    → IsGraph (λ k. last_value k ts (f k)) (put_tags ts m)
unfolding put_tags
put_tags-IsGraph [] f m u g = g
put_tags-IsGraph (t ∷ ts) f m u g =
    put_tags-IsGraph ts (update t.key t.value f) (insert t.key t.value m)
      (insert-NodupKeys t.key t.value m u) (insert-IsGraph f t.key t.value m u g)

-- Once `TagResource` has put the sent tags over the tags `old`, whatever those were, the resource
-- has all the tags that `acceleratorChanged` wants: the next round sends no update for its tags.
pub update_tags_converge :
    (hostname resource : Text) (obj : ObjectMeta) (old now : List Tag)
    → ((k : Text)
        → last_value k now []
          ≡ last_value k
              (update_tags
                (accelerator_owner_tag_value resource obj.namespace obj.name)
                hostname
                (accelerator_tags obj))
              (last_value k old []))
    → tags_contains_all_values now (target_tags hostname resource obj) ≡ true
update_tags_converge hostname resource obj old now merged =
    (tags_contains_all_values_iff now (target_tags hostname resource obj)).1 (
      rw target_tags-update_tags (
        All-map _ _ (λ (k, v) e. merged k ∙ e) _
          (put_tags-IsGraph _ (λ k. last_value k old []) [] tt tt)))
