-- ===== src/LoadBalancer/Hostname.antt =====
-- The host names that AWS gives to load balancers, and the name and region that are read from them.
use mathlib.Core.List.{append_cancel_right}
use aws_global_accelerator_c.Prelude.{
  ℕ, zero, suc, ◌-◌, ◌≤◌, ◌<◌, Text, true, false, some, List, [], ◌∷◌, ◌++◌, ◌≡◌, ◌≢◌, ◌↔◌, inl,
  inr, refl, sym, subst, ap, ◌∙◌, arith, All-append, Lacks, Bool-cases, Option-cases, nat_beq_iff,
  onto_head, split, split-append, split-Lacks, length, leb, codes, eq_refl, ends_with,
  ends_with-append, ends_with-elim, last_piece_injective, strip_prefix, append_assoc, nat_beq,
}
use aws_global_accelerator_c.Errors.{ok, panic}
use aws_global_accelerator_c.LoadBalancer.{
  internal_prefix, internal_alb_name, public_alb_name, nlb_name, match_alb_hostname,
  match_nlb_hostname, match_region_tail, match_nlb_suffix, alb_suffix, elb_label, amazonaws_suffix,
  get_lb_name_from_hostname, index, match_name, detect_cloud_provider,
}
use aws_global_accelerator_c.LoadBalancer.Match.{
  IsNameText, IsWordText, IsNameText-Lacks, subdomain-IsNameText, match_name_lem,
}

match_region_tail-append :
    (region : Text)
    → region ≢ []
    → Lacks b'\n' region
    → match_region_tail (region ++ amazonaws_suffix) ≡ true
unfolding match_region_tail
match_region_tail-append [] nonempty h = absurd (nonempty refl)
match_region_tail-append (c ∷ []) nonempty h = rw eq_refl (ground (arith, h.0))
match_region_tail-append (c ∷ d ∷ region) nonempty h =
    rw (match_region_tail-append (d ∷ region) (λ p. cc) h.1) (ground (arith, h.0))

match_nlb_suffix-append :
    (p s : Text) → match_nlb_suffix s ≡ true → match_nlb_suffix (p ++ s) ≡ true
unfolding match_nlb_suffix
match_nlb_suffix-append [] s h = h
match_nlb_suffix-append (c ∷ p) s h = rw (match_nlb_suffix-append p s h) (ground arith)

match_nlb_suffix-elb :
    (s : Text) → match_region_tail s ≡ true → match_nlb_suffix (elb_label ++ s) ≡ true
unfolding match_nlb_suffix elb_label strip_prefix
match_nlb_suffix-elb s h = rw h

strip_prefix-elim : (p s r : Text) → strip_prefix p s ≡ some r → s ≡ p ++ r
unfolding strip_prefix
strip_prefix-elim [] s r h = ground arith
strip_prefix-elim (c ∷ p) [] r h = cc
strip_prefix-elim (c ∷ p) (d ∷ s) r h = ground (arith, strip_prefix-elim p s r)

-- A name and hash that the service may give: see `match_name`.
pub record IsNamed (name hash : Text) : Type 0 where
  pub name_nonempty : name ≢ []
  pub name_chars : IsNameText name
  pub hash_nonempty : hash ≢ []
  pub hash_chars : IsWordText hash

abbrev pub subdomain : Text → Text → Text
subdomain name hash = name ++ (b'-' ∷ hash)

module _ (name hash region : Text) (named : IsNamed name hash) where
  parsed : match_name (subdomain name hash) ≡ some name
  parsed =
      match_name_lem name hash named.name_nonempty named.name_chars named.hash_nonempty
        named.hash_chars

  subdomain-Lacks : Lacks b'.' (subdomain name hash)
  subdomain-Lacks =
      IsNameText-Lacks (subdomain name hash)
        (subdomain-IsNameText name hash named.name_chars named.hash_chars)

  -- The host name of an ALB: `<prefix><name>-<hash>.<region>.elb.amazonaws.com`.
  abbrev alb_host : Text → Text
  alb_host prefix = (prefix ++ subdomain name hash) ++ (b'.' ∷ (region ++ alb_suffix))

  split-alb_host :
      (prefix : Text)
      → Lacks b'.' (prefix ++ subdomain name hash)
      → Lacks b'.' region
      → split b'.' (alb_host prefix)
        ≡ (prefix ++ subdomain name hash) ∷ region ∷ split b'.' (codes "elb.amazonaws.com")
  unfolding alb_suffix
  split-alb_host prefix dotless region_dotless =
      split-append b'.' (prefix ++ subdomain name hash) (region ++ alb_suffix) dotless
      ∙ ap (λ rest. (prefix ++ subdomain name hash) ∷ rest)
          (split-append b'.' region (codes "elb.amazonaws.com") region_dotless)

  alb_host-ends_with : (prefix : Text) → ends_with alb_suffix (alb_host prefix) ≡ true
  alb_host-ends_with prefix =
      subst (λ t. ends_with alb_suffix t ≡ true)
        (append_assoc (prefix ++ subdomain name hash) (b'.' ∷ region) alb_suffix)
        (ends_with-append ((prefix ++ subdomain name hash) ++ (b'.' ∷ region)) alb_suffix)

  -- A host name `<name>-<hash>.<region>.elb.amazonaws.com` is read as the name and the region, where
  -- neither the name nor the hash is empty, the name is of word characters and dashes, the hash of
  -- word characters, the region has no dot, and `<name>-<hash>` does not begin with `internal-`.
  pub get_lb_name_from_hostname-public :
      Lacks b'.' region
      → ((t : Text) → subdomain name hash ≢ internal_prefix ++ t)
      → get_lb_name_from_hostname (subdomain name hash ++ (b'.' ∷ (region ++ alb_suffix)))
        ≡ ok (name, region)
  unfolding get_lb_name_from_hostname match_alb_hostname public_alb_name
  get_lb_name_from_hostname-public dotless public_name = rw (alb_host-ends_with []) (
      rw (split-alb_host [] subdomain-Lacks dotless)
        (elim (Option-cases (strip_prefix internal_prefix (subdomain name hash))) [
          | inl e ↦ rw e (rw parsed)
          | inr (t, e) ↦
              absurd (public_name t (strip_prefix-elim internal_prefix (subdomain name hash) t e))
        ]))

  internal-Lacks : Lacks b'.' (internal_prefix ++ subdomain name hash)
  internal-Lacks = All-append _ internal_prefix (subdomain name hash) (omega arith) subdomain-Lacks

  -- `internal-<name>-<hash>.<region>.elb.amazonaws.com` is read as the name and the region.
  pub get_lb_name_from_hostname-internal :
      Lacks b'.' region
      → get_lb_name_from_hostname
          ((internal_prefix ++ subdomain name hash) ++ (b'.' ∷ (region ++ alb_suffix)))
        ≡ ok (name, region)
  unfolding get_lb_name_from_hostname match_alb_hostname internal_alb_name
  get_lb_name_from_hostname-internal dotless =
      rw (alb_host-ends_with internal_prefix)
        (rw (split-alb_host internal_prefix internal-Lacks dotless) (rw parsed))

  -- The host name of an NLB: `<name>-<hash>.elb.<region>.amazonaws.com`.
  abbrev nlb_host : Text
  nlb_host = subdomain name hash ++ (elb_label ++ (region ++ amazonaws_suffix))

  -- Seen as an ALB's, its last label but two would be the region.
  nlb_host-not_alb :
      Lacks b'.' region → region ≢ codes "elb" → ends_with alb_suffix nlb_host ≡ false
  unfolding alb_suffix elb_label amazonaws_suffix
  nlb_host-not_alb dotless other = elim (Bool-cases (ends_with alb_suffix nlb_host)) [
    | inl e ↦
        let r = ends_with-elim alb_suffix nlb_host e in
        let left = subdomain name hash ++ codes ".elb" in
        let regroup : nlb_host ≡ (left ++ (b'.' ∷ region)) ++ amazonaws_suffix =
          simp append_assoc in
        let cut : left ++ (b'.' ∷ region) ≡ r.0 ++ codes ".elb" =
          append_cancel_right (left ++ (b'.' ∷ region)) (r.0 ++ codes ".elb") amazonaws_suffix
            (sym regroup ∙ r.1 ∙ sym (append_assoc r.0 (codes ".elb") amazonaws_suffix)) in
        absurd (
          other (last_piece_injective b'.' left r.0 region (codes "elb") dotless (omega arith) cut))
    | inr e ↦ e
  ]

  split-nlb_host :
      Lacks b'.' region
      → split b'.' nlb_host
        ≡ subdomain name hash ∷ codes "elb" ∷ region ∷ split b'.' (codes "amazonaws.com")
  unfolding elb_label amazonaws_suffix
  split-nlb_host dotless =
      split-append b'.' (subdomain name hash) (codes "elb." ++ (region ++ amazonaws_suffix))
        subdomain-Lacks
      ∙ ap (λ rest. subdomain name hash ∷ rest)
          (split-append b'.' (codes "elb") (region ++ amazonaws_suffix) (omega arith)
            ∙ ap (λ rest. codes "elb" ∷ rest)
                (split-append b'.' region (codes "amazonaws.com") dotless))

  -- `<name>-<hash>.elb.<region>.amazonaws.com` is read as the name and the region. A region is a
  -- label of its own that is not `elb`.
  pub get_lb_name_from_hostname-nlb :
      Lacks b'.' region
      → Lacks b'\n' region
      → region ≢ []
      → region ≢ codes "elb"
      → get_lb_name_from_hostname
          (subdomain name hash ++ (elb_label ++ (region ++ amazonaws_suffix)))
        ≡ ok (name, region)
  unfolding get_lb_name_from_hostname match_nlb_hostname nlb_name
  get_lb_name_from_hostname-nlb dotless one_line nonempty other =
      rw (nlb_host-not_alb dotless other) (
        rw
          (match_nlb_suffix-append (subdomain name hash) (elb_label ++ (region ++ amazonaws_suffix))
            (match_nlb_suffix-elb (region ++ amazonaws_suffix)
              (match_region_tail-append region nonempty one_line)))
          (rw (split-nlb_host dotless) (rw parsed)))

split-length : (c : ℕ) (s : Text) → 1 ≤ length (split c s)
unfolding split
split-length c [] = omega arith
split-length c (d ∷ s) = ground (arith, split-length c s)

length-onto_head : (d : ℕ) (ps : List Text) → 1 ≤ length ps → length (onto_head d ps) ≡ length ps
length-onto_head d [] h = absurd (omega arith)
length-onto_head d (p ∷ ps) h = refl

split-length_one : (c : ℕ) (s : Text) → length (split c s) ≡ 1 → Lacks c s
split-length_one c [] h = tt
split-length_one c (d ∷ s) h = elim (Bool-cases (nat_beq d c)) [
  | inl e ↦
      let two : length (split c (d ∷ s)) ≡ suc (length (split c s)) = unfold split in rw e in
      absurd (omega (arith, split-length c s))
  | inr e ↦
      let same : length (split c (d ∷ s)) ≡ length (onto_head d (split c s)) =
        unfold split in rw e in
      let tail : length (split c s) ≡ 1 =
        sym (length-onto_head d (split c s) (split-length c s)) ∙ sym same ∙ h in
      ((λ p. cc (e, (nat_beq_iff d c).1 p)), split-length_one c s tail)
]

index_total : (xs : List Text) (i : ℕ) → i < length xs → (x : Text) × (index xs i ≡ ok x)
index_total [] i h = absurd (omega arith)
index_total (x ∷ xs) zero h = (x, refl)
index_total (x ∷ xs) (suc i) h = index_total xs i (omega arith)

detect-ne-panic : (s : Text) → 2 ≤ length (split b'.' s) → detect_cloud_provider s ≢ panic
unfolding detect_cloud_provider
detect-ne-panic s h =
    let parts = split b'.' s in
    let (p, found_p) = index_total parts (length parts - 2) (omega arith) in
    let (q, found_q) = index_total parts (length parts - 1) (omega arith) in
    let two : leb 2 (length parts) ≡ true = ground arith in
    let one : leb 1 (length parts) ≡ true = ground arith in
    rw two (rw found_p (rw one (rw found_q (ground arith))))

leb-false : (a b : ℕ) → leb a b ≡ false → b < a
leb-false a b h = ground arith

-- `DetectCloudProvider` panics exactly on a host name without a dot, the empty one among them.
pub detect_cloud_provider_panics : (s : Text) → Lacks b'.' s ↔ (detect_cloud_provider s ≡ panic)
detect_cloud_provider_panics s = (
  λ h. unfold detect_cloud_provider in rw (split-Lacks b'.' s h),
  λ h. elim (Bool-cases (leb 2 (length (split b'.' s)))) [
    | inl e ↦ absurd (detect-ne-panic s (ground arith) h)
    | inr e ↦
        split-length_one b'.' s
          (omega (arith, split-length b'.' s, leb-false 2 (length (split b'.' s)) e))
  ],
)
