-- ===== src/Listener/Ports.antt =====
-- The map `portCount` counts how often a port occurs.
use aws_global_accelerator_c.Prelude.{
  ℕ, ◌+◌, ◌≤◌, Bool, false, List, [], ◌∷◌, ◌≡◌, ◌≢◌, ◌↔◌, refl, arith, All, any, leb, nat_beq,
  Bool-cases, inl, inr, if◌then◌else◌,
}
use aws_global_accelerator_c.Listener.{Counts, bump, count_ports, port_changed}

abbrev pub count : ℕ → List ℕ → ℕ
count p [] = 0
count p (x ∷ xs) = (if nat_beq x p then 1 else 0) + count p xs

-- What the map holds for a key; a missing one reads as 0.
abbrev value : ℕ → Counts → ℕ
value p [] = 0
value p ((k, n) ∷ m) = if nat_beq k p then n else value p m

value-bump :
    (p q : ℕ) (m : Counts) → value q (bump p m) ≡ (if nat_beq p q then 1 else 0) + value q m
unfolding bump
value-bump p q [] = ground arith
value-bump p q ((k, n) ∷ m) = ground (arith, value-bump p q m)

value-count_ports :
    (q : ℕ) (ps : List ℕ) (m : Counts) → value q (count_ports ps m) ≡ count q ps + value q m
unfolding count_ports
value-count_ports q [] m = omega arith
value-count_ports q (p ∷ ps) m = omega (arith, value-count_ports q ps (bump p m), value-bump p q m)

abbrev Fresh : ℕ → Counts → Type 0
Fresh k = All (λ (j, n). j ≢ k)

-- Keys are distinct, and a count is at least 1.
abbrev IsCounts : Counts → Type 0
IsCounts [] = Unit
IsCounts ((k, n) ∷ m) = (1 ≤ n) × Fresh k m × IsCounts m

bump-Fresh : (k p : ℕ) (m : Counts) → p ≢ k → Fresh k m → Fresh k (bump p m)
unfolding bump
bump-Fresh k p [] ne h = (ne, tt)
bump-Fresh k p ((j, n) ∷ m) ne h = ground (arith, bump-Fresh k p m ne h.1)

bump-IsCounts : (p : ℕ) (m : Counts) → IsCounts m → IsCounts (bump p m)
unfolding bump
bump-IsCounts p [] h = (omega arith, tt, tt)
bump-IsCounts p ((k, n) ∷ m) h = elim (Bool-cases (nat_beq k p)) [
  | inl e ↦ rw e (omega arith, h.1, h.2)
  | inr e ↦ rw e (h.0, bump-Fresh k p m (ground arith) h.1, bump-IsCounts p m h.2)
]

count_ports-IsCounts : (ps : List ℕ) (m : Counts) → IsCounts m → IsCounts (count_ports ps m)
unfolding count_ports
count_ports-IsCounts [] m h = h
count_ports-IsCounts (p ∷ ps) m h = count_ports-IsCounts ps (bump p m) (bump-IsCounts p m h)

abbrev once : Counts → Bool
once = any (λ (k, n). leb n 1)

once-value : (p : ℕ) (m : Counts) → once m ≡ false → value p m ≢ 1
once-value p [] h e = omega arith
once-value p ((k, n) ∷ m) h e = ground (arith, once-value p m)

value_of_Fresh : (k : ℕ) (m : Counts) → Fresh k m → value k m ≡ 0
value_of_Fresh k [] h = refl
value_of_Fresh k ((j, n) ∷ m) h = ground (arith, value_of_Fresh k m h.1, h.0)

value-once : (m : Counts) → IsCounts m → ((p : ℕ) → value p m ≢ 1) → once m ≡ false
value-once [] h e = refl
value-once ((k, n) ∷ m) h e =
    let rest : once m ≡ false =
      value-once m h.2 (λ p one. ground (arith, e p, value_of_Fresh k m h.1)) in
    ground (arith, e k, h.0)

-- The test says "unchanged" exactly when no port occurs once on the two sides together.
pub port_changed_iff :
    (listening ports : List ℕ)
    → (port_changed listening ports ≡ false) ↔ ((p : ℕ) → count p listening + count p ports ≢ 1)
unfolding port_changed
port_changed_iff listening ports =
    let m = count_ports ports (count_ports listening []) in
    let total : (p : ℕ) → value p m ≡ count p ports + (count p listening + 0) = λ p.
      rw (value-count_ports p ports (count_ports listening []), value-count_ports p listening []) in
    (
      λ h p e. once-value p m h (omega (arith, total p)),
      λ h.
          value-once m (count_ports-IsCounts ports _ (count_ports-IsCounts listening [] tt))
            (λ p e. h p (omega (arith, total p))),
    )
