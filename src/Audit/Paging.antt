-- ===== src/Audit/Paging.antt =====
-- A client that follows the cursors of the audit listing (`list` of
-- src/admin_backend/repositories/audit_logs.py) reads every row that its filters select, once.
use cortex_cm.Base.{
  ◌≡◌, refl, sym, ap, ◌∙◌, ◌⊎◌, inl, inr, ℕ, zero, suc, ◌<◌, Bool, true, false, ◌&&◌, Option, none,
  some, List, [], ◌∷◌, ◌++◌, Text, length, arith, ltb, select, take, last,
}
use mathlib.Core.Path.{subst}
use mathlib.Core.List.{append_assoc}
use mathlib.Core.Option.{map as map_option}
use cortex_cm.Models.Columns.{Uuid, Timestamp}
use cortex_cm.Models.TenantUsers.{ActorUserType, platform, tenant}
use cortex_cm.Database.Session.{Session}
use cortex_cm.Database.Tables.{Db}
use cortex_cm.Result.{raise, ok}
use cortex_cm.Audit.Cursor.{Codec, IsCodec, encode_cursor, decode_cursor-encode_cursor}
use cortex_cm.Audit.Activities.{
  common_where, merged, tenant_rows, fetch, is_past, is_after, key, order_by,
}
use cortex_cm.Audit.Listing.{Call, ListResult, list, page_of, anchor_of, params, is_given}
use cortex_cm.Audit.Keyset.{
  Row, Distinct, Descending, order_by-Descending, select-order_by, select-is_after,
}

module _ {ℓ} {A : Type ℓ} where
  last-append : (pre : List A) (x : A) → last (pre ++ (x ∷ [])) ≡ some x
  last-append [] x = refl
  last-append (y ∷ []) x = refl
  last-append (y ∷ z ∷ pre) x = last-append (z ∷ pre) x

  -- A full page ends in a row, behind which the rest stands.
  abbrev FullPage : ℕ → List A → Type ℓ
  FullPage limit rows =
      (ltb limit (length (take (suc limit) rows)) ≡ true)
      × (pre : List A) × (x : A) × (post : List A) × (rows ≡ pre ++ (x ∷ post))
      × (take limit (take (suc limit) rows) ≡ pre ++ (x ∷ []))
      × (length post < length rows)

  abbrev LastPage : ℕ → List A → Type ℓ
  LastPage limit rows =
      (ltb limit (length (take (suc limit) rows)) ≡ false)
      × (take limit (take (suc limit) rows) ≡ rows)

  page-cases_suc : (m : ℕ) (rows : List A) → LastPage (suc m) rows ⊎ FullPage (suc m) rows
  page-cases_suc m [] = inl (ground arith, refl)
  page-cases_suc zero (x ∷ []) = inl (refl, refl)
  page-cases_suc zero (x ∷ y ∷ post) = inr (refl, [], x, y ∷ post, refl, refl, ground arith)
  page-cases_suc (suc k) (y ∷ rows) = elim (page-cases_suc k rows) [
    | inl (e, all) ↦ inl (ground arith, ap (λ ys. y ∷ ys) all)
    | inr (e, pre, x, post, whole, page, shorter) ↦ inr (
      ground arith,
      y ∷ pre,
      x,
      post,
      ap (λ ys. y ∷ ys) whole,
      ap (λ ys. y ∷ ys) page,
      ground arith,
    )
  ]

  -- With a limit of at least one, a page either is the last or ends in a row.
  page-cases : (limit : ℕ) (rows : List A) → 0 < limit → LastPage limit rows ⊎ FullPage limit rows
  page-cases zero rows h = absurd (omega arith)
  page-cases (suc m) rows h = page-cases_suc m rows

  select-true : (xs : List A) → select (λ x. true) xs ≡ xs
  select-true [] = refl
  select-true (x ∷ xs) = ap (λ ys. x ∷ ys) (select-true xs)

  select-and : (p q : A → Bool) (xs : List A) → select (λ x. p x && q x) xs ≡ select q (select p xs)
  select-and p q [] = refl
  select-and p q (x ∷ xs) = ground (arith, select-and p q xs)

module _ (codec : Codec) (ilike : Text → Text → Bool) (s : Session) (call : Call) (db : Db) where
  -- The rows that a call is about, whatever its cursor.
  abbrev pub rows_for : ActorUserType → List Row
  rows_for tenant = select (common_where ilike (params call.filters)) (tenant_rows s db)
  rows_for platform = merged ilike s (params call.filters) call.scope db

  -- A client that asks for a page and for those behind it; `none` where a call fails or the fuel
  -- runs out.
  abbrev pub follow : ℕ → Option Text → Option (List Row)
  follow zero cursor = none
  follow (suc fuel) cursor = elim (list codec ilike s call cursor db) [
    | raise _ ↦ none
    | ok page ↦ elim page.next_cursor [
      | none ↦ some page.items
      | some next ↦ map_option (λ rest. page.items ++ rest) (follow fuel (some next))
    ]
  ]

  fetch-order_by :
      (who : ActorUserType) (anchor : Option (Timestamp × Uuid)) (n : ℕ)
      → Distinct (rows_for who)
      → fetch ilike s who (params call.filters) call.scope anchor n db
        ≡ take n (select (is_past anchor) (order_by (rows_for who)))
  unfolding fetch
  fetch-order_by tenant anchor n d =
      ap (λ xs. take n (order_by xs))
        (select-and (common_where ilike (params call.filters)) (is_past anchor) (tenant_rows s db))
      ∙ ap (take n) (sym (select-order_by (is_past anchor) (rows_for tenant) d))
  fetch-order_by platform anchor n d =
      ap (take n) (sym (select-order_by (is_past anchor) (rows_for platform) d))

  list-eq-ok :
      (cursor : Option Text) (anchor : Option (Timestamp × Uuid)) (post : List Row)
      → Distinct (rows_for call.user_type)
      → anchor_of codec ilike cursor ≡ ok anchor
      → select (is_past anchor) (order_by (rows_for call.user_type)) ≡ post
      → list codec ilike s call cursor db
        ≡ ok (
            page_of codec ilike call.limit
              (is_given codec ilike cursor)
              (take (suc call.limit) post))
  unfolding list
  list-eq-ok cursor anchor post d e f = rw e (
      ap (λ xs. ok (page_of codec ilike call.limit (is_given codec ilike cursor) xs))
        (fetch-order_by call.user_type anchor (suc call.limit) d ∙ ap (take (suc call.limit)) f))

  -- The cursor of a row is read as the position of the row.
  anchor_of-encode_cursor :
      (laws : IsCodec codec) (x : Row)
      → anchor_of codec ilike (some (encode_cursor codec x.timestamp x.id)) ≡ ok (some (key x))
  anchor_of-encode_cursor laws x = rw (decode_cursor-encode_cursor codec laws x.timestamp x.id) refl

  follow-last :
      (fuel : ℕ) (cursor : Option Text) (page : ListResult)
      → list codec ilike s call cursor db ≡ ok page
      → page.next_cursor ≡ none
      → follow (suc fuel) cursor ≡ some page.items
  follow-last fuel cursor page e f = rw (e, follow) (rw f refl)

  follow-next :
      (fuel : ℕ) (cursor : Option Text) (page : ListResult) (next : Text) (rest : List Row)
      → list codec ilike s call cursor db ≡ ok page
      → page.next_cursor ≡ some next
      → follow fuel (some next) ≡ some rest
      → follow (suc fuel) cursor ≡ some (page.items ++ rest)
  follow-next fuel cursor page next rest e f g = rw (e, follow) (rw f (rw g refl))

  follow-suffix :
      (laws : IsCodec codec) (pos : 0 < call.limit) (d : Distinct (rows_for call.user_type))
      (fuel : ℕ) (pre post : List Row) (cursor : Option Text) (anchor : Option (Timestamp × Uuid))
      → anchor_of codec ilike cursor ≡ ok anchor
      → order_by (rows_for call.user_type) ≡ pre ++ post
      → select (is_past anchor) (order_by (rows_for call.user_type)) ≡ post
      → length post < fuel
      → follow fuel cursor ≡ some post
  follow-suffix laws pos d zero pre post cursor anchor e whole here enough = absurd (omega arith)
  follow-suffix laws pos d (suc fuel) pre post cursor anchor e whole here enough =
      let page =
        page_of codec ilike call.limit (is_given codec ilike cursor) (take (suc call.limit) post) in
      let first : list codec ilike s call cursor db ≡ ok page =
        list-eq-ok cursor anchor post d e here in
      elim (page-cases call.limit post pos) [
        | inl (more, all) ↦ follow-last fuel cursor page first (rw more refl) ∙ ap some all
        | inr (more, init, x, rest, split, items, shorter) ↦
            let next = encode_cursor codec x.timestamp x.id in
            let row_split : order_by (rows_for call.user_type) ≡ (pre ++ init) ++ (x ∷ rest) =
              whole ∙ ap (λ xs. pre ++ xs) split ∙ sym (append_assoc pre init (x ∷ rest)) in
            let descending : Descending ((pre ++ init) ++ (x ∷ rest)) =
              subst Descending row_split (order_by-Descending (rows_for call.user_type) d) in
            let next_is : page.next_cursor ≡ some next =
              rw more (rw items (rw (last-append init x) refl)) in
            let tail =
              follow-suffix laws pos d fuel ((pre ++ init) ++ (x ∷ [])) rest (some next)
                (some (key x)) (anchor_of-encode_cursor laws x)
                (row_split ∙ sym (append_assoc (pre ++ init) (x ∷ []) rest))
                (ap (select (is_after (key x))) row_split
                  ∙ select-is_after (pre ++ init) x rest descending)
                (omega arith) in
            follow-next fuel cursor page next rest first next_is tail
            ∙ ap some (ap (λ xs. xs ++ rest) items ∙ append_assoc init (x ∷ []) rest ∙ sym split)
      ]

  -- A client that follows the cursors of the listing from its first page to its last, while the
  -- tables stay as they are, reads all the rows that its filters and its audience select, in the
  -- order of the listing, each once: when the limit is at least one, no two of the rows have both the
  -- time and the id in common, the fuel exceeds their number, and the libraries that make cursors
  -- read back what they wrote.
  pub follow_complete :
      (laws : IsCodec codec)
      → 0 < call.limit
      → (d : Distinct (rows_for call.user_type)) (fuel : ℕ)
      → length (order_by (rows_for call.user_type)) < fuel
      → follow fuel none ≡ some (order_by (rows_for call.user_type))
  follow_complete laws pos d fuel enough =
      follow-suffix laws pos d fuel [] (order_by (rows_for call.user_type)) none none refl refl
        (select-true (order_by (rows_for call.user_type))) enough
