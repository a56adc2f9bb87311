-- ===== src/Tenants/Slug.antt =====
-- `slug_for_tenant_root` of src/admin_backend/repositories/tenants.py: the code and the path of a
-- tenant's root node.
use cortex_cm.Base.{
  ℕ, ◌≡◌, refl, sym, ◌∙◌, ap, ◌-◌, ◌≤◌, zero, suc, Bool, true, false, ◌&&◌, ◌||◌, Option, none,
  some, [], ◌∷◌, map, arith, Text, leb, ltb, ◌==◌, if◌then◌else◌, select, length, all, and-split,
  Bool-cases, inl, inr,
}
use cortex_cm.Result.{Result, ok, raise}
use cortex_cm.Errors.{client_error, invalid_tenant_name_for_slug}
use cortex_cm.OrgTree.Order.{lower, path_label}

abbrev lower_or_digit : ℕ → Bool
lower_or_digit c = leb b'a' c && leb c b'z' || leb b'0' c && leb c b'9'

-- `re.sub("[^a-z0-9]+", "-", text)`; the flag says that a run has begun.
abbrev collapse : Bool → Text → Text
collapse in_run [] = []
collapse in_run (c ∷ t) = elim (lower_or_digit c) [
  | true ↦ c ∷ collapse false t
  | false ↦ (elim in_run [ true ↦ collapse true t | false ↦ b'-' ∷ collapse true t ])
]

-- `lstrip("-")`
abbrev left_trim : Text → Text
left_trim [] = []
left_trim (c ∷ t) = let rest = left_trim t in if c == b'-' then rest else c ∷ t

abbrev cons_trimmed : ℕ → Text → Text
cons_trimmed c [] = if c == b'-' then [] else c ∷ []
cons_trimmed c (d ∷ t) = c ∷ d ∷ t

-- `rstrip("-")`
abbrev right_trim : Text → Text
right_trim [] = []
right_trim (c ∷ t) = cons_trimmed c (right_trim t)

abbrev take : ℕ → Text → Text
take zero t = []
take (suc n) [] = []
take (suc n) (c ∷ t) = c ∷ take n t

abbrev cut : Text → Text
cut t = if ltb 64 (length t) then right_trim (take 64 t) else t

abbrev upper_char : ℕ → ℕ
upper_char c = if leb b'a' c && leb c b'z' then c - 32 else c

abbrev dash_to_underscore : ℕ → ℕ
dash_to_underscore c = if c == b'-' then b'_' else c

abbrev answer : Text → Result (Text × Text)
answer [] = raise (client_error invalid_tenant_name_for_slug)
answer (c ∷ t) = ok (map upper_char (c ∷ t), map dash_to_underscore (c ∷ t))

abbrev source : Text → Option Text → Text
source name none = name
source name (some display_code) = display_code

-- `nfkd` is `unicodedata.normalize("NFKD", ...)`.
module _ (nfkd : Text → Text) where
  abbrev slug : Text → Text
  slug t = cut (right_trim (left_trim (collapse false (lower (select (λ c. ltb c 128) (nfkd t))))))

  unfoldable pub slug_for_tenant_root : Text → Option Text → Result (Text × Text)
  slug_for_tenant_root name display_code = answer (slug (source name display_code))

abbrev is_slug : Text → Bool
is_slug t = all (λ c. lower_or_digit c || c == b'-') t

collapse-is_slug : (in_run : Bool) (t : Text) → is_slug (collapse in_run t) ≡ true
collapse-is_slug in_run [] = refl
collapse-is_slug in_run (c ∷ t) = ground (arith, collapse-is_slug true t, collapse-is_slug false t)

left_trim-is_slug : (t : Text) → is_slug t ≡ true → is_slug (left_trim t) ≡ true
left_trim-is_slug [] h = refl
left_trim-is_slug (c ∷ t) h = ground (arith, left_trim-is_slug t)

cons_trimmed-is_slug :
    (c : ℕ) (t : Text)
    → is_slug (c ∷ []) ≡ true
    → is_slug t ≡ true
    → is_slug (cons_trimmed c t) ≡ true
cons_trimmed-is_slug c [] h k = ground arith
cons_trimmed-is_slug c (d ∷ t) h k = ground arith

right_trim-is_slug : (t : Text) → is_slug t ≡ true → is_slug (right_trim t) ≡ true
right_trim-is_slug [] h = refl
right_trim-is_slug (c ∷ t) h =
    let (first, rest) = and-split (lower_or_digit c || c == b'-') (is_slug t) h in
    cons_trimmed-is_slug c (right_trim t) (ground arith) (right_trim-is_slug t rest)

take-is_slug : (n : ℕ) (t : Text) → is_slug t ≡ true → is_slug (take n t) ≡ true
take-is_slug zero t h = refl
take-is_slug (suc n) [] h = refl
take-is_slug (suc n) (c ∷ t) h = ground (arith, take-is_slug n t)

right_trim-length : (t : Text) → length (right_trim t) ≤ length t
right_trim-length [] = omega arith
right_trim-length (c ∷ t) = let ih = right_trim-length t in go (right_trim t) ih
  where
    go : (r : Text) → length r ≤ length t → length (cons_trimmed c r) ≤ suc (length t)
    go [] h = ground arith
    go (d ∷ r) h = omega arith

take-length : (n : ℕ) (t : Text) → length (take n t) ≤ n
take-length zero t = omega arith
take-length (suc n) [] = omega arith
take-length (suc n) (c ∷ t) = let ih = take-length n t in omega arith

cut-is_slug : (t : Text) → is_slug t ≡ true → (is_slug (cut t) ≡ true) × (length (cut t) ≤ 64)
cut-is_slug t h = elim (Bool-cases (ltb 64 (length t))) [
  | inl e ↦
      let shorter = right_trim-length (take 64 t) in
      let bound = take-length 64 t in
      rw e (right_trim-is_slug (take 64 t) (take-is_slug 64 t h), omega arith)
  | inr e ↦ rw e (h, ground arith)
]

slug-is_slug :
    (nfkd : Text → Text) (t : Text) → (is_slug (slug nfkd t) ≡ true) × (length (slug nfkd t) ≤ 64)
slug-is_slug nfkd t =
    let collapsed : Text = collapse false (lower (select (λ c. ltb c 128) (nfkd t))) in
    cut-is_slug (right_trim (left_trim collapsed)) (
      right_trim-is_slug (left_trim collapsed) (
        left_trim-is_slug collapsed
          (collapse-is_slug false (lower (select (λ c. ltb c 128) (nfkd t))))))

path_label-upper :
    (t : Text) → is_slug t ≡ true → path_label (map upper_char t) ≡ map dash_to_underscore t
unfolding path_label
path_label-upper [] h = refl
path_label-upper (c ∷ t) h = ground (arith, path_label-upper t)

length-map : (f : ℕ → ℕ) (t : Text) → length (map f t) ≡ length t
length-map f [] = refl
length-map f (c ∷ t) = ap suc (length-map f t)

answer_sound :
    (t : Text) {code path : Text}
    → is_slug t ≡ true
    → length t ≤ 64
    → answer t ≡ ok (code, path)
    → (path_label code ≡ path) × (1 ≤ length code) × (length code ≤ 64)
answer_sound [] h le e = absurd (cc)
answer_sound (c ∷ t) {code} {path} h le e =
    let is_code : map upper_char (c ∷ t) ≡ code = ground arith in
    let is_path : map dash_to_underscore (c ∷ t) ≡ path = ground arith in
    let size : length code ≡ suc (length t) =
      ap length (sym is_code) ∙ length-map upper_char (c ∷ t) in
    (ap path_label (sym is_code) ∙ path_label-upper (c ∷ t) h ∙ is_path, ground arith, ground arith)

-- A slug that is made has a code of 1 to 64 characters, and its path is the label that `_path_label`
-- derives from the code.
pub slug_for_tenant_root_sound :
    (nfkd : Text → Text) (name : Text) (display_code : Option Text) (code path : Text)
    → slug_for_tenant_root nfkd name display_code ≡ ok (code, path)
    → (path_label code ≡ path) × (1 ≤ length code) × (length code ≤ 64)
unfolding slug_for_tenant_root
slug_for_tenant_root_sound nfkd name display_code code path e =
    let (is_slug_text, bound) = slug-is_slug nfkd (source name display_code) in
    answer_sound (slug nfkd (source name display_code)) is_slug_text bound e
