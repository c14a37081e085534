-- ===== src/Tags/Owner.antt =====
-- Owner values, and what is read from the tags annotation.
use aws_global_accelerator_c.Prelude.{
  Text, ◌≡◌, refl, ap, ◌∙◌, List, [], ◌∷◌, ◌++◌, map, All, Lacks, pieces_injective, split, join,
  split-append, split-Lacks, split-join, get, arith,
}
use aws_global_accelerator_c.Apis.{ObjectMeta, tags_annotation}
use aws_global_accelerator_c.Tags.{
  Tag, accelerator_owner_tag_value, accelerator_tags, specified_tags,
}

-- Kubernetes names, namespaces and the two resource kinds hold no slash: then two objects with the
-- same owner value are the same object.
pub accelerator_owner_tag_value_injective :
    (r r' ns ns' name name' : Text)
    → Lacks b'/' r
    → Lacks b'/' r'
    → Lacks b'/' ns
    → Lacks b'/' ns'
    → accelerator_owner_tag_value r ns name ≡ accelerator_owner_tag_value r' ns' name'
    → (r ≡ r') × (ns ≡ ns') × (name ≡ name')
unfolding accelerator_owner_tag_value
accelerator_owner_tag_value_injective r r' ns ns' name name' hr hr' hn hn' e =
    let p = pieces_injective b'/' r r' _ _ hr hr' e in
    let q = pieces_injective b'/' ns ns' _ _ hn hn' p.1 in (p.0, q.0, q.1)

-- How a user writes a tag.
abbrev pub written : Tag → Text
written t = t.key ++ (b'=' ∷ t.value)

-- Neither the key nor the value holds a comma or an equals sign.
pub record IsPlain (t : Tag) : Type 0 where
  pub key_comma : Lacks b',' t.key
  pub key_equals : Lacks b'=' t.key
  pub value_comma : Lacks b',' t.value
  pub value_equals : Lacks b'=' t.value

written-Lacks : (k v : Text) → Lacks b',' k → Lacks b',' v → Lacks b',' (k ++ (b'=' ∷ v))
written-Lacks [] v hk hv = (omega arith, hv)
written-Lacks (c ∷ k) v hk hv = (hk.0, written-Lacks k v hk.1 hv)

map-written-Lacks : (ts : List Tag) → All IsPlain ts → All (Lacks b',') (map written ts)
map-written-Lacks [] h = tt
map-written-Lacks (t ∷ ts) h =
    (written-Lacks t.key t.value h.0.key_comma h.0.value_comma, map-written-Lacks ts h.1)

split-written : (t : Tag) → IsPlain t → split b'=' (written t) ≡ t.key ∷ t.value ∷ []
split-written t h =
    split-append b'=' t.key t.value h.key_equals
    ∙ ap (λ rest. t.key ∷ rest) (split-Lacks b'=' t.value h.value_equals)

specified_tags-written : (ts : List Tag) → All IsPlain ts → specified_tags (map written ts) ≡ ts
unfolding specified_tags
specified_tags-written [] h = refl
specified_tags-written (t ∷ ts) h =
    rw (split-written t h.0) (ap (λ rest. t ∷ rest) (specified_tags-written ts h.1))

-- Plain tags, written as `key=value` and joined by commas, are read back from the annotation in
-- their order; with no tags at all the annotation is empty and no tag is read.
pub accelerator_tags-written :
    (obj : ObjectMeta) (ts : List Tag)
    → All IsPlain ts
    → get tags_annotation obj.annotations ≡ join b',' (map written ts)
    → accelerator_tags obj ≡ ts
unfolding accelerator_tags
accelerator_tags-written obj [] h e = rw e (unfold join split in refl)
accelerator_tags-written obj (t ∷ ts) h e = rw e (
    rw (split-join b',' (written t) (map written ts) (map-written-Lacks (t ∷ ts) h))
      (specified_tags-written (t ∷ ts) h))
