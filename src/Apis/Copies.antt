-- ===== src/Apis/Copies.antt =====
-- What it is for a copy to be deep, and that copies of parts make a copy of the whole.
use aws_global_accelerator_c.Prelude.{
  ◌+◌, ◌≡◌, refl, sym, ap, ◌∙◌, Option, none, some, ◌++◌, append_assoc, length, length-append,
}
use aws_global_accelerator_c.Apis.DeepCopy.{Heap}

module _ {S V : Type 0} (view : Heap → S → Option V) where
  -- The copy is in new cells, with this value whatever the old cells hold by then.
  abbrev pub IsApart : Heap → S × Heap → V → Type 0
  IsApart heap copied v =
      (extra : Heap) × (copied.1 ≡ heap ++ extra)
      × ((old : Heap) → length old ≡ length heap → view (old ++ extra) copied.0 ≡ some v)

  -- A way to copy is deep: the copy is apart from the original, and the original keeps its value
  -- whatever the new cells hold.
  pub record IsDeepCopy (copy : S → Heap → S × Heap) : Type 0 where
    pub grows :
        (heap new : Heap) (s : S) (v : V) → view heap s ≡ some v → view (heap ++ new) s ≡ some v
    pub apart : (heap : Heap) (s : S) (v : V) → view heap s ≡ some v → IsApart heap (copy s heap) v

abbrev pub both : {A B : Type 0} → Option A → Option B → Option (A × B)
both none p = none
both (some a) none = none
both (some a) (some b) = some (a, b)

abbrev pub map_option : {A B : Type 0} → (A → B) → Option A → Option B
map_option f none = none
map_option f (some a) = some (f a)

both_parts :
    {A B : Type 0} (o : Option A) (p : Option B) (w : A × B)
    → both o p ≡ some w
    → (o ≡ some w.0) × (p ≡ some w.1)
both_parts none p w h = cc
both_parts (some a) none w h = cc
both_parts (some a) (some b) w h =
    (ap (λ o. map_option (λ x. x.0) o) h, ap (λ o. map_option (λ x. x.1) o) h)

both_whole :
    {A B : Type 0} (o : Option A) (p : Option B) (w : A × B)
    → o ≡ some w.0
    → p ≡ some w.1
    → both o p ≡ some w
both_whole o p w a b = rw a (rw b refl)

map_option_part :
    {A B : Type 0} (f : A → B) (o : Option A) (b : B)
    → map_option f o ≡ some b
    → (a : A) × (o ≡ some a) × (some (f a) ≡ some b)
map_option_part f none b h = cc
map_option_part f (some a) b h = (a, refl, h)

-- One after the other.
abbrev pub view_both :
    {S T V U : Type 0}
    → (Heap → S → Option V)
    → (Heap → T → Option U)
    → Heap
    → S × T
    → Option (V × U)
view_both view view' heap (s, t) = both (view heap s) (view' heap t)

abbrev pub copy_both :
    {S T : Type 0} → (S → Heap → S × Heap) → (T → Heap → T × Heap) → S × T → Heap → (S × T) × Heap
copy_both copy copy' (s, t) heap =
    let first = copy s heap in let second = copy' t first.1 in ((first.0, second.0), second.1)

-- A struct of these parts.
abbrev pub view_struct :
    {S T V U : Type 0} → (Heap → T → Option V) → (S → T) → (S → V → U) → Heap → S → Option U
view_struct view parts value heap s = map_option (value s) (view heap (parts s))

abbrev pub copy_struct :
    {S T : Type 0} → (T → Heap → T × Heap) → (S → T) → (S → T → S) → S → Heap → S × Heap
copy_struct copy parts with_parts s heap =
    let copied = copy (parts s) heap in (with_parts s copied.0, copied.1)

module _ {S T V U : Type 0} (view : Heap → S → Option V) (view' : Heap → T → Option U)
    (copy : S → Heap → S × Heap) (copy' : T → Heap → T × Heap) where
  pub both-IsDeepCopy :
      IsDeepCopy view copy
      → IsDeepCopy view' copy'
      → IsDeepCopy (view_both view view') (copy_both copy copy')
  both-IsDeepCopy d d' = record {
    grows = λ heap new (s, t) w h.
        let parts = both_parts (view heap s) (view' heap t) w h in
        both_whole _ _ w (d.grows heap new s w.0 parts.0) (d'.grows heap new t w.1 parts.1);
    apart = λ heap (s, t) w h.
        let parts = both_parts (view heap s) (view' heap t) w h in
        let (extra, grown, kept) = d.apart heap s w.0 parts.0 in
        let there = ap (λ g. view' g t) grown ∙ d'.grows heap extra t w.1 parts.1 in
        let (extra', grown', kept') = d'.apart (copy s heap).1 t w.1 there in
        (
          extra ++ extra',
          grown' ∙ ap (λ g. g ++ extra') grown ∙ append_assoc heap extra extra',
          λ old same.
              both_whole _ _ w
                (ap (λ g. view g (copy s heap).0) (sym (append_assoc old extra extra'))
                  ∙ d.grows (old ++ extra) extra' (copy s heap).0 w.0 (kept old same))
                (ap (λ g. view' g (copy' t (copy s heap).1).0) (sym (append_assoc old extra extra'))
                  ∙ kept' (old ++ extra) (
                      length-append old extra
                      ∙ ap (λ n. n + length extra) same
                      ∙ sym (length-append heap extra)
                      ∙ sym (ap (λ g. length g) grown))),
        );
  }

module _ {S T V U : Type 0} (view : Heap → T → Option V) (copy : T → Heap → T × Heap)
    (parts : S → T) (with_parts : S → T → S) (value : S → V → U) where
  pub struct-IsDeepCopy :
      ((s : S) (t : T) → parts (with_parts s t) ≡ t)
      → ((s : S) (t : T) (v : V) → value (with_parts s t) v ≡ value s v)
      → IsDeepCopy view copy
      → IsDeepCopy (view_struct view parts value) (copy_struct copy parts with_parts)
  struct-IsDeepCopy has keeps d = record {
    grows = λ heap new s u h.
        let (v, found, same) = map_option_part (value s) (view heap (parts s)) u h in
        ap (λ o. map_option (value s) o) (d.grows heap new (parts s) v found) ∙ same;
    apart = λ heap s u h.
        let (v, found, same) = map_option_part (value s) (view heap (parts s)) u h in
        let (extra, grown, kept) = d.apart heap (parts s) v found in
        let t = (copy (parts s) heap).0 in
        (
          extra,
          grown,
          λ old e.
              ap (λ x. map_option (value (with_parts s t)) (view (old ++ extra) x)) (has s t)
              ∙ ap (λ o. map_option (value (with_parts s t)) o) (kept old e)
              ∙ ap (λ x. some x) (keeps s t v)
              ∙ same,
        );
  }
