-- ===== src/Route53/Search.antt =====
-- `GetHostedZone` against a search over the labels of the host name.
use aws_global_accelerator_c.Prelude.{
  ℕ, zero, suc, ◌<◌, Text, ◌≡◌, refl, ap, fun_ext, subst, ◌∙◌, sym, List, [], ◌∷◌, ◌++◌, codes, All,
  Lacks, split, join, split-join, split-pieces, is_empty, length, arith, keep, Bool-cases, inl, inr,
  ◌==◌, if◌then◌else◌,
}
use aws_global_accelerator_c.Errors.{errorf}
use aws_global_accelerator_c.Route53.{parent_domain}
use aws_global_accelerator_c.Route53.Zones.{
  zone_named, no_zone, zones_by_name, zone_or_go_on, hosted_zone_loop, get_hosted_zone,
}
use aws_global_accelerator_c.Cloud.Types.{HostedZone, Request, CloudService}
use aws_global_accelerator_c.Cloud.Exec.{Exec, pure, throw, call, ◌>>=◌}

-- The first one of the list, and else what comes after.
abbrev pub first_or : {W A : Type 0} → List A → Exec W A → Exec W A
first_or [] rest = rest
first_or (x ∷ xs) rest = pure x

module _ {W : Type 0} (service : CloudService W) where
  -- The zone of the nearest ancestor of the labels, they themselves included, that has one: the first
  -- of those that AWS lists for its name and that have this very name.
  unfoldable pub nearest_zone : Text → List Text → Exec W HostedZone
  nearest_zone original [] = throw (errorf (codes "Could not find hosted zone for " ++ original))
  nearest_zone original (label ∷ labels) =
      let name = join b'.' (label ∷ labels) in
      let rest = nearest_zone original labels in
      if is_empty name
      then throw (errorf (codes "Could not find hosted zone for " ++ original))
      else do
        zones ← call service (Request.list_hosted_zones_by_name (name ++ codes ".") 1) (λ r. r)
        first_or (keep (λ zone. zone.name == (name ++ codes ".")) zones) rest

  first_named :
      (name : Text) (zones : List HostedZone) (rest : Exec W HostedZone)
      → first_or (keep (λ zone. zone.name == name) zones) rest
        ≡ zone_or_go_on service (zone_named name zones) rest
  unfolding keep zone_named zone_or_go_on
  first_named name [] rest = refl
  first_named name (zone ∷ zones) rest = elim (Bool-cases (zone.name == name)) [
    | inl e ↦ rw e refl
    | inr e ↦ rw e (first_named name zones rest)
  ]

  parent_domain-join :
      (label : Text) (labels : List Text)
      → All (Lacks b'.') (label ∷ labels)
      → parent_domain (join b'.' (label ∷ labels)) ≡ join b'.' labels
  unfolding parent_domain
  parent_domain-join label labels h = rw (split-join b'.' label labels h)

  -- One round of the loop, with what follows it.
  abbrev round : Text → Text → Exec W HostedZone → Exec W HostedZone
  round original target rest =
      if is_empty target
      then throw (errorf (no_zone original))
      else (zones_by_name service target >>= λ zones.
          zone_or_go_on service (zone_named (target ++ codes ".") zones) rest)

  loop_round :
      (fuel : ℕ) (original target : Text)
      → hosted_zone_loop service (suc fuel) original target
        ≡ round original target (hosted_zone_loop service fuel original (parent_domain target))
  unfolding hosted_zone_loop
  loop_round fuel original target = refl

  nearest_round :
      (original label : Text) (labels : List Text)
      → nearest_zone original (label ∷ labels)
        ≡ round original (join b'.' (label ∷ labels)) (nearest_zone original labels)
  unfolding nearest_zone zones_by_name
  nearest_round original label labels =
      let name = join b'.' (label ∷ labels) in
      ap
        (λ f.
          if is_empty name
          then throw (errorf (no_zone original))
          else call service (Request.list_hosted_zones_by_name (name ++ codes ".") 1) (λ r. r)
            >>= f)
        (fun_ext (λ zones. first_named (name ++ codes ".") zones (nearest_zone original labels)))

  loop_end :
      (fuel : ℕ) (original : Text)
      → hosted_zone_loop service (suc fuel) original (join b'.' []) ≡ nearest_zone original []
  unfolding hosted_zone_loop nearest_zone join
  loop_end fuel original = refl

  loop-nearest :
      (fuel : ℕ) (original : Text) (labels : List Text)
      → length labels < fuel
      → All (Lacks b'.') labels
      → hosted_zone_loop service fuel original (join b'.' labels) ≡ nearest_zone original labels
  loop-nearest zero original labels h dotless = absurd (omega arith)
  loop-nearest (suc fuel) original [] h dotless = loop_end fuel original
  loop-nearest (suc fuel) original (label ∷ labels) h dotless =
      let target = join b'.' (label ∷ labels) in
      loop_round fuel original target
      ∙ ap (round original target) (
          ap (hosted_zone_loop service fuel original) (parent_domain-join label labels dotless)
          ∙ loop-nearest fuel original labels (omega arith) dotless.1)
      ∙ sym (nearest_round original label labels)

-- `GetHostedZone` is the search over the labels of the host name: it asks for the name, then for
-- each parent, takes the first zone among the answered ones that has that very name, and never runs out of rounds.
pub get_hosted_zone-nearest :
    {W : Type 0} (service : CloudService W) (hostname : Text)
    → get_hosted_zone service hostname ≡ nearest_zone service hostname (split b'.' hostname)
unfolding get_hosted_zone
get_hosted_zone-nearest service hostname =
    let (p, ps, e, lacks, joined, bound) = split-pieces b'.' hostname in
    rw e (
      subst
        (λ t.
          hosted_zone_loop service (suc (suc (length hostname))) hostname t
          ≡ nearest_zone service hostname (p ∷ ps))
        joined
        (loop-nearest service (suc (suc (length hostname))) hostname (p ∷ ps) (omega arith) lacks))
