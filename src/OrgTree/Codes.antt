-- ===== src/OrgTree/Codes.antt =====
-- The codes of nodes and the labels that src/admin_backend/repositories/org_nodes.py derives from
-- them, for codes of the shape that src/admin_backend/schemas/org_node.py admits.
use cortex_cm.Base.{ℕ, ◌≡◌, refl, Bool, true, false, ◌||◌, [], ◌∷◌, arith, Text, all, ◌==◌}
use cortex_cm.OrgTree.Order.{lower, lower_char, underscore, path_label}
use cortex_cm.OrgTree.Rows.{is_alphanumeric}
use cortex_cm.OrgTree.Paths.{has_dot}

abbrev is_plain_char : ℕ → Bool
is_plain_char c = is_alphanumeric c || c == b'-'

-- Letters, digits and hyphens.
abbrev pub is_plain : Text → Bool
is_plain code = all is_plain_char code

label_char-dotless : (c : ℕ) → is_plain_char c ≡ true → (underscore (lower_char c) == b'.') ≡ false
label_char-dotless c h = ground arith

label_char-inj :
    (c d : ℕ)
    → is_plain_char c ≡ true
    → is_plain_char d ≡ true
    → underscore (lower_char c) ≡ underscore (lower_char d)
    → lower_char c ≡ lower_char d
label_char-inj c d h k e = ground arith

pub path_label-dotless : (code : Text) → is_plain code ≡ true → has_dot (path_label code) ≡ false
unfolding path_label
path_label-dotless [] h = refl
path_label-dotless (c ∷ code) h =
    let first = label_char-dotless c (ground arith) in
    let rest = path_label-dotless code (ground arith) in rw (first, rest) refl

-- Codes of one label are the same but for the case of letters.
pub path_label-inj :
    (x y : Text)
    → is_plain x ≡ true
    → is_plain y ≡ true
    → path_label x ≡ path_label y
    → lower x ≡ lower y
unfolding path_label
path_label-inj [] [] h k e = refl
path_label-inj [] (d ∷ y) h k e = absurd (cc)
path_label-inj (c ∷ x) [] h k e = absurd (cc)
path_label-inj (c ∷ x) (d ∷ y) h k e =
    let chars : lower_char c ≡ lower_char d =
      label_char-inj c d (ground arith) (ground arith) (ground arith) in
    let rest : lower x ≡ lower y =
      path_label-inj x y (ground arith) (ground arith) (ground arith) in
    rw (chars, rest) refl
