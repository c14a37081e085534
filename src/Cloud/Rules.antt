-- ===== src/Cloud/Rules.antt =====
-- From invariants to triples, and triples made weaker.
use aws_global_accelerator_c.Prelude.{
  Bool, true, false, ◌≢◌, refl, Option, none, some, if◌then◌else◌,
}
use aws_global_accelerator_c.Errors.{Result, ok, err, panic}
use aws_global_accelerator_c.Cloud.Types.{Log}
use aws_global_accelerator_c.Cloud.Exec.{State, Exec}
use aws_global_accelerator_c.Cloud.Triple.{After, Triple, Triple-always}
use aws_global_accelerator_c.Cloud.Keeps.{Keeps}

-- What holds of the log holds of it whatever the result.
pub After-both :
    {A : Type 0} (P : Log → Type 0) (r : Result A) (log : Log) → P log → After (λ _. P) P r log
After-both P (ok a) log h = h
After-both P (err e) log h = h
After-both P panic log h = h

pub Keeps-Triple :
    {W A : Type 0} {P : Log → Type 0} {m : Exec W A} → Keeps P m → Triple P m (λ _. P) P
Keeps-Triple {P} {m} k = record { at = λ s p. After-both P (m s).0 (m s).1.log (k.at s p) }

-- The same, with less said of the log afterwards.
pub Triple-weaken :
    {W A : Type 0} {P E E' : Log → Type 0} {Q Q' : A → Log → Type 0} {m : Exec W A}
    → ((a : A) (log : Log) → Q a log → Q' a log)
    → ((log : Log) → E log → E' log)
    → Triple P m Q E
    → Triple P m Q' E'
Triple-weaken {A} {E} {E'} {Q} {Q'} {m} q f t = record {
  at = λ s p. weaken (m s).0 (m s).1.log (t.at s p);
}
  where
    weaken : (r : Result A) (log : Log) → After Q E r log → After Q' E' r log
    weaken (ok a) log h = q a log h
    weaken (err e) log h = f log h
    weaken panic log h = f log h

-- A fact beside the log may be taken as known.
pub Triple-given :
    {W A X : Type 0} {P E : Log → Type 0} {Q : A → Log → Type 0} {m : Exec W A}
    → (X → Triple P m Q E)
    → Triple (λ log. P log × X) m Q E
Triple-given k = record { at = λ s p. (k p.1).at s p.0 }

pub Triple-if :
    {W A : Type 0} {P E : Log → Type 0} {Q : A → Log → Type 0} (b : Bool) (m n : Exec W A)
    → Triple P m Q E
    → Triple P n Q E
    → Triple P (if b then m else n) Q E
Triple-if true m n tm tn = tm
Triple-if false m n tm tn = tn

pub Keeps-option :
    {W A X : Type 0} {P : Log → Type 0} (o : Option X) (m : Exec W A) (f : X → Exec W A)
    → Keeps P m
    → ((x : X) → Keeps P (f x))
    → Keeps P (elim o [ none ↦ m | some x ↦ f x ])
Keeps-option none m f km kf = km
Keeps-option (some x) m f km kf = kf x

-- An action that never returns ends in an error or a panic.
pub Triple-never :
    {W A : Type 0} {P E : Log → Type 0} {Q : A → Log → Type 0} {m : Exec W A}
    → ((s : State W) (a : A) → (m s).0 ≢ ok a)
    → Keeps E m
    → ((log : Log) → P log → E log)
    → Triple P m Q E
Triple-never {A} {E} {Q} {m} never k weaker = record {
  at = λ s p. failed (m s).0 (m s).1.log (never s) (k.at s (weaker s.log p));
}
  where
    failed : (r : Result A) (log : Log) → ((a : A) → r ≢ ok a) → E log → After Q E r log
    failed (ok a) log n h = absurd (n a refl)
    failed (err e) log n h = h
    failed panic log n h = h

-- The same, from a log of which more is known.
pub Triple-before :
    {W A : Type 0} {P P' E : Log → Type 0} {Q : A → Log → Type 0} {m : Exec W A}
    → ((log : Log) → P' log → P log)
    → Triple P m Q E
    → Triple P' m Q E
Triple-before f t = record { at = λ s p. t.at s (f s.log p) }

-- And back.
pub Triple-Keeps :
    {W A : Type 0} {P E : Log → Type 0} {Q : A → Log → Type 0} {m : Exec W A}
    → Triple P m Q E
    → ((a : A) (log : Log) → Q a log → P log)
    → ((log : Log) → E log → P log)
    → Keeps P m
Triple-Keeps {m} t q e = record { at = λ s p. Triple-always m t q e s p }
