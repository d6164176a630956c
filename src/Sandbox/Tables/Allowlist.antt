-- ===== src/Sandbox/Tables/Allowlist.antt =====
-- sandbox.go, `enforceAllowlist`: the entries of the allowlist and the tables of a query.
use mathlib.Core.List.{Memᴰ}
use mathlib.Core.List.Memᴰ.{head, tail}
use n.Base.{
  eq, eq_iff, ◌≡◌, refl, sym, ap, ◌∙◌, ◌↔◌, true, inl, inr, Bool-cases, List, [], ◌∷◌, ◌≢◌, Bytes,
  Unicode, All, ◌⊎◌, contains, after_last, trim_space, arith,
}
use n.Sandbox.Token.{Token, Checked, ok, err}
use n.Sandbox.Tables.{
  allowed_set, in_allowlist, check_tables, enforce_allowlist, TableRef, extract_tables, some_table,
  table_refs,
}

module _ ⦃u : Unicode⦄ where
  check_tables-All :
      (set tables : List Bytes)
      → check_tables set tables ≡ ok tt
      → All (λ t. in_allowlist set t ≡ true) tables
  unfolding check_tables
  check_tables-All set [] h = tt
  check_tables-All set (t ∷ tables) h = elim (Bool-cases (in_allowlist set t)) [
    | inl e ↦ (e, check_tables-All set tables (rw e at h))
    | inr e ↦ let h' : err _ ≡ ok tt = (rw e at h) in cc h'
  ]

  All-check_tables :
      (set tables : List Bytes)
      → All (λ t. in_allowlist set t ≡ true) tables
      → check_tables set tables ≡ ok tt
  unfolding check_tables
  All-check_tables set [] h = refl
  All-check_tables set (t ∷ tables) (p, h) = rw p (All-check_tables set tables h)

  -- An entry of the allowlist, trimmed and lowered, is the table or the part of its name behind the
  -- last dot.
  pub record Listed (allowed : List Bytes) (table : Bytes) : Type 0 where
    pub entry : Bytes
    pub is_entry : Memᴰ entry allowed
    pub matches :
        u.to_lower (trim_space entry) ≡ table
        ⊎ u.to_lower (trim_space entry) ≡ after_last b'.' table

  contains-entry :
      (x : Bytes) (allowed : List Bytes)
      → contains (allowed_set allowed) x ≡ true
      → (entry : Bytes) × Memᴰ entry allowed × (u.to_lower (trim_space entry) ≡ x)
  unfolding contains
  contains-entry x [] h = cc h
  contains-entry x (a ∷ allowed) h = elim (Bool-cases (eq (u.to_lower (trim_space a)) x)) [
    | inl e ↦ (a, head refl, (eq_iff _ _).0 e)
    | inr e ↦ let (entry, m, q) = contains-entry x allowed (rw e at h) in (entry, tail m, q)
  ]

  entry-contains :
      (x entry : Bytes) (allowed : List Bytes)
      → Memᴰ entry allowed
      → u.to_lower (trim_space entry) ≡ x
      → contains (allowed_set allowed) x ≡ true
  unfolding contains
  entry-contains x entry [] m h = elim m [ ]
  entry-contains x entry (a ∷ allowed) (head e) h =
      let q =
        (eq_iff (u.to_lower (trim_space a)) x).1
          (ap (λ y. u.to_lower (trim_space y)) (sym e) ∙ h) in
      rw q refl
  entry-contains x entry (a ∷ allowed) (tail m) h =
      let q = entry-contains x entry allowed m h in ground (arith, q)

  in_allowlist_iff :
      (allowed : List Bytes) (t : Bytes)
      → (in_allowlist (allowed_set allowed) t ≡ true) ↔ Listed allowed t
  in_allowlist_iff allowed t = (
    (λ h. elim (Bool-cases (contains (allowed_set allowed) t)) [
      | inl p ↦
          let (entry, m, e) = contains-entry t allowed p in
          record { entry = entry; is_entry = m; matches = inl e }
      | inr p ↦
          let (entry, m, e) = contains-entry (after_last b'.' t) allowed (rw p at h) in
          record { entry = entry; is_entry = m; matches = inr e }
    ]),
    (λ l. elim l.matches [
      | inl e ↦ rw (entry-contains t l.entry allowed l.is_entry e) refl
      | inr e ↦
          let q = entry-contains (after_last b'.' t) l.entry allowed l.is_entry e in
          ground (arith, q)
    ]),
  )

  All-map :
      {P Q : Bytes → Type 0} (xs : List Bytes) → ((x : Bytes) → P x → Q x) → All P xs → All Q xs
  All-map [] f h = tt
  All-map (x ∷ xs) f (p, h) = (f x p, All-map xs f h)

  -- The allowlist check passes exactly if the allowlist is not empty and each table, or the part of
  -- its name behind the last dot, is an entry of it with the spaces around it cut off and lowered.
  pub enforce_allowlist_iff :
      (tables allowed : List Bytes)
      → (enforce_allowlist tables allowed ≡ ok tt) ↔ ((allowed ≢ []) × All (Listed allowed) tables)
  unfolding enforce_allowlist
  enforce_allowlist_iff tables [] = ((λ h. cc), (λ (p, q). absurd (p refl)))
  enforce_allowlist_iff tables (a ∷ allowed) = (
    (λ h. (
      (λ e. cc),
      All-map tables (λ t. (in_allowlist_iff (a ∷ allowed) t).0)
          (check_tables-All (allowed_set (a ∷ allowed)) tables h),
    )),
    (λ (p, q).
        All-check_tables (allowed_set (a ∷ allowed)) tables
          (All-map tables (λ t. (in_allowlist_iff (a ∷ allowed) t).1) q)),
  )

  some_table-ne :
      (m : Checked (List TableRef)) {refs : List TableRef} → some_table m ≡ ok refs → refs ≢ []
  some_table-ne (ok []) h = λ e. cc
  some_table-ne (ok (r ∷ rs)) h = λ e. cc
  some_table-ne (err e') h = λ e. cc

  pub extract_tables-ne :
      (ts : List Token) {refs : List TableRef} → extract_tables ts ≡ ok refs → refs ≢ []
  unfolding extract_tables
  extract_tables-ne ts h = some_table-ne (table_refs _ ts) h
