-- ===== src/Prelude/Pieces.antt =====
-- Texts that lack a separator: what `split` and `join` do with them.
use Prim.Native.Nat.{ℕ, ◌≤◌}
use mathlib.Core.Path.{◌≡◌, refl, sym, subst, ap, ◌∙◌}
use mathlib.Core.Logic.{◌≢◌, inl, inr}
use mathlib.Core.Bool.{true}
use mathlib.Core.List.{List, [], ◌∷◌, ◌++◌}
use native.Mathlib.Omega.{arith}
use aws_global_accelerator_c.Prelude.Tests.{Bool-cases, nat_beq, nat_beq_iff}
use aws_global_accelerator_c.Prelude.Lists.{All, length}
use aws_global_accelerator_c.Prelude.Texts.{Text, split, join, ◌==◌, eq_refl, eq_iff, ends_with}

-- No byte of the text is `c`.
abbrev pub Lacks : ℕ → Text → Type 0
Lacks c = All (λ d. d ≢ c)

-- A first piece that lacks the separator is determined, and so is the rest.
pub pieces_injective :
    (c : ℕ) (a b x y : Text)
    → Lacks c a
    → Lacks c b
    → a ++ (c ∷ x) ≡ b ++ (c ∷ y)
    → (a ≡ b) × (x ≡ y)
pieces_injective c [] [] x y ha hb e = (refl, cc)
pieces_injective c [] (d ∷ b) x y ha hb e = absurd (hb.0 (cc))
pieces_injective c (d ∷ a) [] x y ha hb e = absurd (ha.0 (cc))
pieces_injective c (d ∷ a) (d' ∷ b) x y ha hb e =
    let r = pieces_injective c a b x y ha.1 hb.1 (cc) in (cc (r.0), r.1)

pub split-Lacks : (c : ℕ) (a : Text) → Lacks c a → split c a ≡ a ∷ []
unfolding split
split-Lacks c [] h = refl
split-Lacks c (d ∷ a) h = rw (split-Lacks c a h.1) (ground (arith, h.0))

pub split-append : (c : ℕ) (a s : Text) → Lacks c a → split c (a ++ (c ∷ s)) ≡ a ∷ split c s
unfolding split
split-append c [] s h = ground arith
split-append c (d ∷ a) s h = rw (split-append c a s h.1) (ground (arith, h.0))

-- `split` undoes `join` on pieces that lack the separator.
pub split-join :
    (c : ℕ) (p : Text) (ps : List Text)
    → All (Lacks c) (p ∷ ps)
    → split c (join c (p ∷ ps)) ≡ p ∷ ps
unfolding join
split-join c p [] h = split-Lacks c p h.0
split-join c p (q ∷ ps) h =
    split-append c p (join c (q ∷ ps)) h.0 ∙ ap (λ rest. p ∷ rest) (split-join c q ps h.1)

not-Lacks : (c : ℕ) (b y : Text) → ¬ Lacks c (b ++ (c ∷ y))
not-Lacks c [] y h = h.0 refl
not-Lacks c (d ∷ b) y h = not-Lacks c b y h.1

-- So is a last piece.
pub last_piece_injective :
    (c : ℕ) (a b x y : Text) → Lacks c x → Lacks c y → a ++ (c ∷ x) ≡ b ++ (c ∷ y) → x ≡ y
last_piece_injective c [] [] x y hx hy e = cc
last_piece_injective c [] (d ∷ b) x y hx hy e =
    let tail : x ≡ b ++ (c ∷ y) = cc in absurd (not-Lacks c b y (subst (Lacks c) tail hx))
last_piece_injective c (d ∷ a) [] x y hx hy e =
    let tail : a ++ (c ∷ x) ≡ y = cc in absurd (not-Lacks c a x (subst (Lacks c) (sym tail) hy))
last_piece_injective c (d ∷ a) (d' ∷ b) x y hx hy e = last_piece_injective c a b x y hx hy (cc)

pub ends_with-append : (p suffix : Text) → ends_with suffix (p ++ suffix) ≡ true
unfolding ends_with
ends_with-append [] [] = refl
ends_with-append [] (c ∷ s) = rw eq_refl
ends_with-append (d ∷ p) suffix = ground (arith, ends_with-append p suffix)

-- A text that ends with the suffix is something before it.
pub ends_with-elim : (suffix s : Text) → ends_with suffix s ≡ true → (p : Text) × (s ≡ p ++ suffix)
unfolding ends_with
ends_with-elim [] [] h = ([], refl)
ends_with-elim (c ∷ suffix) [] h = cc
ends_with-elim suffix (c ∷ s) h = elim (Bool-cases ((c ∷ s) == suffix)) [
  | inl e ↦ ([], (eq_iff (c ∷ s) suffix).0 e)
  | inr e ↦ let r = ends_with-elim suffix s (ground arith) in (c ∷ r.0, ap (λ rest. c ∷ rest) r.1)
]

join-onto : (c d : ℕ) (p : Text) (ps : List Text) → join c ((d ∷ p) ∷ ps) ≡ d ∷ join c (p ∷ ps)
unfolding join
join-onto c d p [] = refl
join-onto c d p (q ∷ ps) = refl

join-empty : (c : ℕ) (p : Text) (ps : List Text) → join c ([] ∷ p ∷ ps) ≡ c ∷ join c (p ∷ ps)
unfolding join
join-empty c p ps = refl

-- What `split` answers: pieces that lack the separator, that `join` puts together again.
pub split-pieces :
    (c : ℕ) (s : Text)
    → (p : Text) × (ps : List Text) × (split c s ≡ p ∷ ps)
      × All (Lacks c) (p ∷ ps)
      × (join c (p ∷ ps) ≡ s)
      × (length ps ≤ length s)
unfolding split
split-pieces c [] = ([], [], refl, (tt, tt), unfold join in refl, omega arith)
split-pieces c (d ∷ s) =
    let (p, ps, e, lacks, joined, bound) = split-pieces c s in
    elim (Bool-cases (nat_beq d c)) [
      | inl same ↦ (
        [],
        p ∷ ps,
        rw e (rw same refl),
        (tt, lacks),
        rw (join-empty c p ps, joined) (ap (λ x. x ∷ s) (sym ((nat_beq_iff d c).0 same))),
        omega arith,
      )
      | inr different ↦ (
        d ∷ p,
        ps,
        rw e (rw different refl),
        ((grind arith, lacks.0), lacks.1),
        join-onto c d p ps ∙ ap (λ t. d ∷ t) joined,
        omega arith,
      )
    ]
