-- ===== src/Sandbox/Tables/Reads.antt =====
-- sandbox.go, `extractTables`: the table references of a query as a grammar over its tokens.
use n.Base.{
  zero, ◌≢◌, ℕ, suc, ◌+◌, ◌≡◌, refl, sym, ap, ◌∙◌, ◌⊎◌, inl, inr, true, false, ◌||◌, List, [], ◌∷◌,
  drop, drop-drop, Bytes, codes, eq, eq→≡, eq_iff, join, Unicode, Bool-cases, arith,
}
use n.Sandbox.Tables.References.{
  Named, Aliased, BeginsNot, dotted-Named, alias_of-Aliased, eq-BeginsNot, alias_of-BeginsNot,
  is_comma-BeginsNot,
}
use n.Sandbox.Token.{Reason, Token, Checked, ok, err}
use n.Sandbox.Tables.{
  unquote, TableRef, dotted, alias_of, is_comma, with_alias, table_ref, cons_ref, table_refs,
  some_table, extract_tables,
}

module _ ⦃u : Unicode⦄ where
  -- A table reference that the second list follows: a name, in lower case and without its quotes, no
  -- parenthesis before or behind it, an alias, and then no comma.
  pub record Refers (ts rest : List Token) (r : TableRef) : Type 0 where
    pub parts : List Bytes
    pub behind : List Token
    pub not_derived : BeginsNot (codes "(") ts
    pub named : Named ts behind parts
    pub no_function : BeginsNot (codes "(") behind
    pub table_is : r.table ≡ u.to_lower (join (codes ".") parts)
    pub aliased : Aliased behind rest r.alias
    pub no_comma : BeginsNot (codes ",") rest

  -- The table references of a query: one behind each FROM and JOIN that is not itself in a table
  -- reference, and no other.
  pub data Reads : List Token → List TableRef → Type 0 where
    done : Reads [] []
    other :
        {t : Token} {ts : List Token} {refs : List TableRef}
        → t.lower ≢ codes "from"
        → t.lower ≢ codes "join"
        → Reads ts refs
        → Reads (t ∷ ts) refs
    table :
        {t : Token} {ts rest : List Token} {r : TableRef} {refs : List TableRef}
        → t.lower ≡ codes "from" ⊎ t.lower ≡ codes "join"
        → Refers ts rest r
        → Reads rest refs
        → Reads (t ∷ ts) (r ∷ refs)

  with_alias-ok :
      (name : Bytes) (n : ℕ) (ts : List Token) (found : Checked (Bytes × ℕ)) (r : TableRef) (m : ℕ)
      → with_alias name n ts found ≡ ok (r, m)
      → (k : ℕ) × (found ≡ ok (r.alias, k))
        × (r.table ≡ name)
        × (m ≡ n + k)
        × (is_comma (drop k ts) ≡ false)
  with_alias-ok name n ts (err e) r m h = cc h
  with_alias-ok name n ts (ok (alias, k)) r m h = elim (Bool-cases (is_comma (drop k ts))) [
    | inl c ↦ let q = (rw c at h) in cc q
    | inr c ↦
        let q : ok (record { table = name; alias = alias }, n + k) ≡ ok (r, m) = (rw c at h) in
        let e : record { table = name; alias = alias } ≡ r = cc q in
        (
          k,
          ap (λ (x : TableRef). ok (x.alias, k)) e,
          sym (ap (λ (x : TableRef). x.table) e),
          cc q,
          c,
        )
  ]

  table_ref-Refers :
      (ts : List Token) (r : TableRef) (m : ℕ) → table_ref ts ≡ ok (r, m) → Refers ts (drop m ts) r
  unfolding table_ref
  table_ref-Refers [] r m h = cc h
  table_ref-Refers (t ∷ ts) r m h = elim (Bool-cases (eq t.value (codes "("))) [
    | inl e ↦ let q = (rw e at h) in cc q
    | inr e ↦
        let n = (dotted ts).1 in
        let (k, found, name_is, m_is, no_comma) =
          with_alias-ok _ (n + 1) (drop n ts) (alias_of (drop n ts)) r m (rw e at h) in
        let s : m ≡ suc (n + k) = m_is ∙ omega arith in
        let j : drop m (t ∷ ts) ≡ drop k (drop n ts) =
          ap (λ i. drop i (t ∷ ts)) s ∙ sym (drop-drop n k ts) in
        record {
          parts = unquote t.value ∷ (dotted ts).0;
          behind = drop n ts;
          not_derived = eq-BeginsNot (codes "(") t ts e;
          named = dotted-Named t ts;
          no_function = alias_of-BeginsNot (drop n ts) r.alias k found;
          table_is = name_is;
          aliased = rw j (alias_of-Aliased (drop n ts) r.alias k found);
          no_comma = is_comma-BeginsNot (drop m (t ∷ ts)) (rw j no_comma);
        }
  ]

  Checked-cases :
      {A : Type 0} (m : Checked A) → ((e : Reason) × (m ≡ err e)) ⊎ ((x : A) × (m ≡ ok x))
  Checked-cases (err e) = inl (e, refl)
  Checked-cases (ok x) = inr (x, refl)

  keyword :
      (s : Bytes)
      → (eq s (codes "from") || eq s (codes "join")) ≡ true
      → s ≡ codes "from" ⊎ s ≡ codes "join"
  keyword s h = elim (Bool-cases (eq s (codes "from"))) [
    | inl e ↦ inl (eq→≡ _ _ e)
    | inr e ↦ inr (eq→≡ _ _ (rw e at h))
  ]

  no_keyword :
      (s : Bytes)
      → (eq s (codes "from") || eq s (codes "join")) ≡ false
      → (s ≢ codes "from") × (s ≢ codes "join")
  no_keyword s h = (
    (λ e. let q = (eq_iff s (codes "from")).1 e in ground (arith, h, q)),
    (λ e. let q = (eq_iff s (codes "join")).1 e in ground (arith, h, q)),
  )

  cons_ref-ok :
      (r : TableRef) (later : Checked (List TableRef)) (refs : List TableRef)
      → cons_ref r later ≡ ok refs
      → (rest : List TableRef) × (later ≡ ok rest) × (refs ≡ r ∷ rest)
  cons_ref-ok r (ok rest) refs h = (rest, refl, cc h)
  cons_ref-ok r (err e) refs h = cc h

  table_refs-Reads :
      (skip : ℕ) (ts : List Token) (refs : List TableRef)
      → table_refs skip ts ≡ ok refs
      → Reads (drop skip ts) refs
  unfolding table_refs
  table_refs-Reads zero [] refs h = let e : [] ≡ refs = cc h in rw (← e) done
  table_refs-Reads (suc skip) [] refs h = let e : [] ≡ refs = cc h in rw (← e) done
  table_refs-Reads (suc skip) (t ∷ ts) refs h = table_refs-Reads skip ts refs h
  table_refs-Reads zero (t ∷ ts) refs h =
      elim (Bool-cases (eq t.lower (codes "from") || eq t.lower (codes "join"))) [
        | inl e ↦ elim (Checked-cases (table_ref ts)) [
          | inl (reason, f) ↦ let q : err reason ≡ ok refs = (rw (e, f, table_refs) at h) in cc q
          | inr ((r, n), f) ↦
              let q : cons_ref r (table_refs n ts) ≡ ok refs = (rw (e, f, table_refs) at h) in
              let (rest, later, e') = cons_ref-ok r (table_refs n ts) refs q in
              rw e' (
                table (keyword t.lower e) (table_ref-Refers ts r n f)
                  (table_refs-Reads n ts rest later))
        ]
        | inr e ↦
            let q : table_refs zero ts ≡ ok refs = (rw (e, table_refs) at h) in
            let (x, y) = no_keyword t.lower e in other x y (table_refs-Reads zero ts refs q)
      ]

  some_table-ok :
      (m : Checked (List TableRef)) (refs : List TableRef) → some_table m ≡ ok refs → m ≡ ok refs
  some_table-ok (ok []) refs h = cc h
  some_table-ok (ok (r ∷ rs)) refs h = h
  some_table-ok (err e) refs h = cc h

  -- The tables that are found are those of the references behind FROM and JOIN.
  pub extract_tables-Reads :
      (ts : List Token) (refs : List TableRef) → extract_tables ts ≡ ok refs → Reads ts refs
  unfolding extract_tables
  extract_tables-Reads ts refs h =
      table_refs-Reads 0 ts refs (some_table-ok (table_refs 0 ts) refs h)
