-- ===== src/Auth/Email.antt =====
-- `_EMAIL_RE` of src/admin_backend/auth/context.py: `^[^@\s]+@[^@\s]+\.[^@\s]+$` under `re.match`.
use cortex_cm.Base.{
  ℕ, ◌≡◌, refl, ap, ◌⊎◌, Bool, true, false, not, ◌&&◌, ◌||◌, [], ◌∷◌, ◌++◌, arith, Text, leb, ◌==◌,
  ==_iff, if◌then◌else◌, all, Bool-cases, inl, inr, and-split,
}

-- `\s` on a Python `str`.
unfoldable pub is_space : ℕ → Bool
is_space c =
    (leb 9 c && leb c 13)
    || (leb 28 c && leb c 32)
    || c == 0x85
    || c == 0xa0
    || c == 0x1680
    || (leb 0x2000 c && leb c 0x200a)
    || c == 0x2028
    || c == 0x2029
    || c == 0x202f
    || c == 0x205f
    || c == 0x3000

-- `[^@\s]`
unfoldable pub is_atom : ℕ → Bool
unfolding is_space
is_atom c = not (c == b'@' || is_space c)

-- `\.[^@\s]+` at some place of the text, which holds atoms alone.
abbrev dot_atoms : Text → Bool
dot_atoms [] = false
dot_atoms (c ∷ []) = false
dot_atoms (c ∷ d ∷ t) = c == b'.' || dot_atoms (d ∷ t)

-- `[^@\s]+\.[^@\s]+` as a whole text.
abbrev is_domain : Text → Bool
is_domain [] = false
is_domain (c ∷ t) = all is_atom (c ∷ t) && dot_atoms t

-- `[^@\s]*@[^@\s]+\.[^@\s]+` as a whole text.
abbrev after_local : Text → Bool
after_local [] = false
after_local (c ∷ t) =
    let rest = after_local t in if c == b'@' then is_domain t else is_atom c && rest

-- The pattern without its `$`, on a whole text.
abbrev is_address : Text → Bool
is_address [] = false
is_address (c ∷ t) = is_atom c && after_local t

-- `$` matches at the end and also before a newline that ends the text.
abbrev drop_newline : Text → Text
drop_newline [] = []
drop_newline (c ∷ []) = if c == 10 then [] else c ∷ []
drop_newline (c ∷ d ∷ t) = c ∷ drop_newline (d ∷ t)

unfoldable pub email_matches : Text → Bool
unfolding is_atom
email_matches t = is_address t || is_address (drop_newline t)

abbrev pub no_space : Text → Bool
no_space = all (λ c. not (is_space c))

drop_newline-append : (t : Text) → drop_newline (t ++ 10 ∷ []) ≡ t
drop_newline-append [] = refl
drop_newline-append (c ∷ []) = refl
drop_newline-append (c ∷ d ∷ t) = ap (λ s. c ∷ s) (drop_newline-append (d ∷ t))

drop_newline-cases : (t : Text) → (drop_newline t ≡ t) ⊎ (t ≡ drop_newline t ++ 10 ∷ [])
drop_newline-cases [] = inl refl
drop_newline-cases (c ∷ []) = ground arith
drop_newline-cases (c ∷ d ∷ t) = elim (drop_newline-cases (d ∷ t)) [
  | inl e ↦ inl (ap (λ s. c ∷ s) e)
  | inr e ↦ inr (ap (λ s. c ∷ s) e)
]

-- An atom is no space, and neither is `@`.
is_atom-no_space : (c : ℕ) → is_atom c ≡ true → is_space c ≡ false
unfolding is_atom
is_atom-no_space c h = elim (Bool-cases (is_space c)) [ inl e ↦ absurd (ground arith) | inr e ↦ e ]

all_atoms-no_space : (t : Text) → all is_atom t ≡ true → no_space t ≡ true
all_atoms-no_space [] h = refl
all_atoms-no_space (c ∷ t) h =
    let (first, rest) = and-split (is_atom c) (all is_atom t) h in
    rw (is_atom-no_space c first, all_atoms-no_space t rest)

is_domain-no_space : (t : Text) → is_domain t ≡ true → no_space t ≡ true
is_domain-no_space [] h = refl
is_domain-no_space (c ∷ t) h =
    all_atoms-no_space (c ∷ t) (and-split (all is_atom (c ∷ t)) (dot_atoms t) h).0

after_local-no_space : (t : Text) → after_local t ≡ true → no_space t ≡ true
unfolding is_space
after_local-no_space [] h = refl
after_local-no_space (c ∷ t) h = elim (Bool-cases (c == b'@')) [
  | inl e ↦ let e' : c ≡ b'@' = (==_iff c b'@').0 e in rw (e', is_domain-no_space t (rw e at h))
  | inr e ↦
      let (first, rest) = and-split (is_atom c) (after_local t) (rw e at h) in
      rw (is_atom-no_space c first, after_local-no_space t rest)
]

is_address-no_space : (t : Text) → is_address t ≡ true → no_space t ≡ true
is_address-no_space [] h = refl
is_address-no_space (c ∷ t) h =
    let (first, rest) = and-split (is_atom c) (after_local t) h in
    rw (is_atom-no_space c first, after_local-no_space t rest)

-- An accepted address holds no white space, or is a text without white space and one newline.
pub email_matches_space :
    (t : Text)
    → email_matches t ≡ true
    → (no_space t ≡ true) ⊎ ((s : Text) × (t ≡ s ++ 10 ∷ []) × (no_space s ≡ true))
unfolding email_matches
email_matches_space t h = elim (Bool-cases (is_address t)) [
  | inl e ↦ inl (is_address-no_space t e)
  | inr e ↦
      let dropped : is_address (drop_newline t) ≡ true = rw e at h in
      elim (drop_newline-cases t) [
        | inl same ↦ inl (is_address-no_space t (rw same at dropped))
        | inr ends ↦ inr (drop_newline t, ends, is_address-no_space (drop_newline t) dropped)
      ]
]

or_true : (b : Bool) → (b || true) ≡ true
or_true b = ground arith

no_space-newline : (t : Text) → no_space (t ++ 10 ∷ []) ≡ false
unfolding is_space
no_space-newline [] = refl
no_space-newline (c ∷ t) = ground (arith, no_space-newline t)

-- An accepted text with no white space in it is accepted with a newline behind it too.
pub email_matches-newline :
    (t : Text) → no_space t ≡ true → email_matches t ≡ true → email_matches (t ++ 10 ∷ []) ≡ true
unfolding email_matches
email_matches-newline t n h = rw drop_newline-append (elim (Bool-cases (is_address t)) [
  | inl e ↦ rw e (or_true (is_address (t ++ 10 ∷ [])))
  | inr e ↦ elim (drop_newline-cases t) [
    | inl same ↦ absurd (ground (arith, h))
    | inr ends ↦ absurd (ground (arith, no_space-newline (drop_newline t)))
  ]
])
