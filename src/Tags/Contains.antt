-- ===== src/Tags/Contains.antt =====
-- `tagsContainsAllValues` against the meaning of a list of tags: the last value of a key counts.
use aws_global_accelerator_c.Prelude.{
  Text, Dict, true, ◌≡◌, refl, ◌↔◌, sym, ◌∙◌, and_iff, List, [], ◌∷◌, ◌++◌, All, all, ◌==◌, eq_iff,
  get, lookup, insert, get-insert, if◌then◌else◌,
}
use aws_global_accelerator_c.Tags.{Tag, put_tags, tags_contains_all_values}

-- The value of the last tag with this key, and `old` where there is none.
abbrev pub last_value : Text → List Tag → Text → Text
last_value k [] old = old
last_value k (t ∷ ts) old = last_value k ts (if t.key == k then t.value else old)

pub get-put_tags :
    (k : Text) (tags : List Tag) (m : Dict) → get k (put_tags tags m) ≡ last_value k tags (get k m)
unfolding put_tags
get-put_tags k [] m = refl
get-put_tags k (t ∷ tags) m = rw (get-put_tags k tags) (rw get-insert)

pub put_tags-append :
    (xs ys : List Tag) (m : Dict) → put_tags (xs ++ ys) m ≡ put_tags ys (put_tags xs m)
unfolding put_tags
put_tags-append [] ys m = refl
put_tags-append (x ∷ xs) ys m = put_tags-append xs ys (insert x.key x.value m)

-- Every wanted pair is the last one of its key; a key without a tag counts as the empty text.
abbrev pub HasValues : List Tag → Dict → Type 0
HasValues tags = All (λ (k, v). last_value k tags [] ≡ v)

all_values :
    (tags : List Tag) (target : Dict)
    → (all (λ (k, v). get k (put_tags tags []) == v) target ≡ true) ↔ HasValues tags target
unfolding get lookup
all_values tags [] = (λ _. tt, λ _. refl)
all_values tags ((k, v) ∷ target) =
    let e = eq_iff (get k (put_tags tags [])) v in
    let g = get-put_tags k tags [] in
    let rest = all_values tags target in
    let both =
      and_iff (get k (put_tags tags []) == v)
        (all (λ (k, v). get k (put_tags tags []) == v) target) in
    (λ h. (sym g ∙ e.0 (both.0 h).0, rest.0 (both.0 h).1), λ h. both.1 (e.1 (g ∙ h.0), rest.1 h.1))

-- The test holds exactly when each key of the target has the wanted value as its last one.
pub tags_contains_all_values_iff :
    (tags : List Tag) (target : Dict)
    → (tags_contains_all_values tags target ≡ true) ↔ HasValues tags target
unfolding tags_contains_all_values
tags_contains_all_values_iff tags target = all_values tags target
