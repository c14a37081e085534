-- ===== src/LoadBalancer/Match.antt =====
-- What the pattern of a load balancer's name accepts.
use aws_global_accelerator_c.Prelude.{
  ℕ, Text, true, none, some, [], ◌∷◌, ◌++◌, ◌≡◌, ◌≢◌, refl, arith, ap, ◌↔◌, ◌⊎◌, inl, inr,
  Option-cases, Bool-cases, sym, subst, Lacks, and_iff, all, All,
}
use aws_global_accelerator_c.LoadBalancer.{
  is_word, is_name_char, is_word_tail, match_hash, match_star, match_name,
}

abbrev pub IsNameText : Text → Type 0
IsNameText = All (λ c. is_name_char c ≡ true)

abbrev pub IsWordText : Text → Type 0
IsWordText = All (λ c. is_word c ≡ true)

all-IsWordText : (s : Text) → IsWordText s → all is_word s ≡ true
all-IsWordText [] h = refl
all-IsWordText (c ∷ s) h = rw h.0 (all-IsWordText s h.1)

match_star_word : (s : Text) → IsWordText s → match_star s ≡ none
unfolding match_star
match_star_word [] h = refl
match_star_word (c ∷ s) h = rw (match_star_word s h.1) (ground (arith, h.0))

match_star_lem :
    (name hash : Text)
    → IsNameText name
    → hash ≢ []
    → IsWordText hash
    → match_star (name ++ (b'-' ∷ hash)) ≡ some name
unfolding match_star is_word_tail
match_star_lem [] [] hn ne hw = absurd (ne refl)
match_star_lem [] (d ∷ hash) hn ne hw =
    rw (match_star_word (d ∷ hash) hw, all-IsWordText hash hw.1) (ground (arith, hw.0))
match_star_lem (c ∷ name) hash hn ne hw =
    rw (match_star_lem name hash hn.1 ne hw) (ground (arith, hn.0))

-- A name of letters, digits, `_` and `-`, with `-` and a hash of word characters behind it, gives
-- back the name: the group takes all up to the last `-`.
pub match_name_lem :
    (name hash : Text)
    → name ≢ []
    → IsNameText name
    → hash ≢ []
    → IsWordText hash
    → match_name (name ++ (b'-' ∷ hash)) ≡ some name
unfolding match_name
match_name_lem [] hash nn hn ne hw = absurd (nn refl)
match_name_lem (c ∷ name) hash nn hn ne hw = rw (hn.0, match_star_lem name hash hn.1 ne hw)

is_name_char-ne-dot : (c : ℕ) → is_name_char c ≡ true → c ≢ b'.'
unfolding is_name_char
is_name_char-ne-dot c h = ground arith

pub IsNameText-Lacks : (s : Text) → IsNameText s → Lacks b'.' s
IsNameText-Lacks [] h = tt
IsNameText-Lacks (c ∷ s) h = (is_name_char-ne-dot c h.0, IsNameText-Lacks s h.1)

is_word-is_name_char : (c : ℕ) → is_word c ≡ true → is_name_char c ≡ true
unfolding is_name_char
is_word-is_name_char c h = ground arith

pub IsWordText-IsNameText : (s : Text) → IsWordText s → IsNameText s
IsWordText-IsNameText [] h = tt
IsWordText-IsNameText (c ∷ s) h = (is_word-is_name_char c h.0, IsWordText-IsNameText s h.1)

pub subdomain-IsNameText :
    (name hash : Text) → IsNameText name → IsWordText hash → IsNameText (name ++ (b'-' ∷ hash))
unfolding is_name_char
subdomain-IsNameText [] hash hn hw = (ground arith, IsWordText-IsNameText hash hw)
subdomain-IsNameText (c ∷ name) hash hn hw = (hn.0, subdomain-IsNameText name hash hn.1 hw)

all-elim : (s : Text) → all is_word s ≡ true → IsWordText s
all-elim [] h = tt
all-elim (c ∷ s) h = let p = (and_iff (is_word c) (all is_word s)).0 h in (p.0, all-elim s p.1)

-- The text is the name, a `-` and a hash.
pub record IsSubdomain (name s : Text) : Type 0 where
  pub hash : Text
  pub parts : s ≡ name ++ (b'-' ∷ hash)
  pub name_chars : IsNameText name
  pub hash_nonempty : hash ≢ []
  pub hash_chars : IsWordText hash

match_hash-elim : (s name : Text) → match_hash s ≡ some name → IsSubdomain name s
unfolding match_hash
match_hash-elim [] name h = cc
match_hash-elim (c ∷ []) name h = ground arith
match_hash-elim (c ∷ d ∷ s) name h = elim (Bool-cases (all is_word (d ∷ s))) [
  | inl e ↦ record {
    hash = d ∷ s;
    parts = ground arith;
    name_chars = subst IsNameText {x = []} (ground arith) tt;
    hash_nonempty = λ p. cc;
    hash_chars = all-elim (d ∷ s) e;
  }
  | inr e ↦ ground arith
]

-- How the star came to its match.
star-cases :
    (c : ℕ) (s name : Text)
    → match_star (c ∷ s) ≡ some name
    → ((is_name_char c ≡ true) × ((n : Text) × (match_star s ≡ some n) × (name ≡ c ∷ n)))
      ⊎ (match_hash (c ∷ s) ≡ some name)
unfolding match_star
star-cases c s name h = elim (Bool-cases (is_name_char c)) [
  | inl e ↦ elim (Option-cases (match_star s)) [
    | inl none_left ↦ inr (ground arith)
    | inr (n, found) ↦ inl (e, (n, found, ground arith))
  ]
  | inr e ↦ inr (ground arith)
]

IsSubdomain-cons :
    (c : ℕ) (n s : Text) → is_name_char c ≡ true → IsSubdomain n s → IsSubdomain (c ∷ n) (c ∷ s)
IsSubdomain-cons c n s e r = record {
  hash = r.hash;
  parts = ap (λ rest. c ∷ rest) r.parts;
  name_chars = (e, r.name_chars);
  hash_nonempty = r.hash_nonempty;
  hash_chars = r.hash_chars;
}

match_star-elim : (s name : Text) → match_star s ≡ some name → IsSubdomain name s
match_star-elim [] name h = unfold match_star in cc
match_star-elim (c ∷ s) name h =
    let ih = match_star-elim s in
    elim (star-cases c s name h) [
      | inl (e, (n, found, same)) ↦
          subst (λ t. IsSubdomain t (c ∷ s)) (sym same) (IsSubdomain-cons c n s e (ih n found))
      | inr hash ↦ match_hash-elim (c ∷ s) name hash
    ]

name-cases :
    (c : ℕ) (s name : Text)
    → match_name (c ∷ s) ≡ some name
    → (is_name_char c ≡ true) × ((n : Text) × (match_star s ≡ some n) × (name ≡ c ∷ n))
unfolding match_name
name-cases c s name h = elim (Bool-cases (is_name_char c)) [
  | inl e ↦ elim (Option-cases (match_star s)) [
    | inl none_left ↦ absurd (ground arith)
    | inr (n, found) ↦ (e, (n, found, ground arith))
  ]
  | inr e ↦ absurd (ground arith)
]

pub match_name-elim : (s name : Text) → match_name s ≡ some name → (name ≢ []) × IsSubdomain name s
match_name-elim [] name h = absurd (unfold match_name in cc)
match_name-elim (c ∷ s) name h =
    let (e, rest) = name-cases c s name h in
    let (n, found, same) = rest in
    (
      λ p. cc (same, p),
      subst (λ t. IsSubdomain t (c ∷ s)) (sym same)
          (IsSubdomain-cons c n s e (match_star-elim s n found)),
    )

-- The pattern gives `name` exactly where the subdomain is that name, a dash and a hash, the name of
-- word characters and dashes, the hash of word characters, and neither of the two empty.
pub match_name_iff :
    (s name : Text) → (match_name s ≡ some name) ↔ ((name ≢ []) × IsSubdomain name s)
match_name_iff s name = (
  match_name-elim s name,
  λ (nonempty, r).
      rw r.parts (match_name_lem name r.hash nonempty r.name_chars r.hash_nonempty r.hash_chars),
)
