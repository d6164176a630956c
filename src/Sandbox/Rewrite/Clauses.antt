-- ===== src/Sandbox/Rewrite/Clauses.antt =====
-- sandbox.go, `injectPredicate`: where a query is cut, as a description of its tokens outside
-- parentheses.
use n.Base.{
  ℕ, suc, ◌≡◌, refl, ◌∙◌, sym, true, false, ◌||◌, List, [], ◌∷◌, Option, some, ◌==◌, if◌then◌else◌,
  Bytes, codes, eq, ap, arith, Bool-cases, inl, inr, Bool,
}
use n.Sandbox.Token.{Token}
use n.Sandbox.Rewrite.{Cut, ends_where, find_cut}

abbrev depth_in : ℕ → Bytes → Bytes → ℕ
depth_in n paren value = if eq value paren then suc n else n

-- The tokens outside parentheses, where so many have been opened and closed before them.
unfoldable pub outside : ℕ → ℕ → List Token → List Token
outside opened closed [] = []
outside opened closed (t ∷ ts) =
    let opened' = depth_in opened (codes "(") t.value in
    let closed' = depth_in closed (codes ")") t.value in
    let later = outside opened' closed' ts in if opened' == closed' then t ∷ later else later

abbrev is_clause : Bytes → Bool
is_clause s =
    eq s (codes "group")
    || eq s (codes "order")
    || eq s (codes "having")
    || eq s (codes "limit")
    || eq s (codes "offset")

-- The start of the first clause that may follow the condition, or the end of the text.
unfoldable pub clause_start : ℕ → List Token → ℕ
clause_start end [] = end
clause_start end (t ∷ ts) =
    let later = clause_start end ts in if is_clause t.lower then t.start else later

-- The tokens up to that clause.
unfoldable pub up_to_clause : List Token → List Token
up_to_clause [] = []
up_to_clause (t ∷ ts) =
    let later = up_to_clause ts in if is_clause t.lower then t ∷ [] else t ∷ later

-- The offsets of the last WHERE.
unfoldable pub last_where : Option (ℕ × ℕ) → List Token → Option (ℕ × ℕ)
last_where found [] = found
last_where found (t ∷ ts) =
    last_where (if eq t.lower (codes "where") then some (t.start, t.end) else found) ts

abbrev pub described : Cut → List Token → Cut
described cut ts = record {
  insert_at = clause_start cut.insert_at ts;
  where_at = last_where cut.where_at (up_to_clause ts);
}

find_cut_ends :
    (opened closed : ℕ) (cut : Cut) (t : Token) (ts : List Token)
    → (depth_in opened (codes "(") t.value == depth_in closed (codes ")") t.value) ≡ true
    → ends_where t.lower ≡ true
    → find_cut opened closed cut (t ∷ ts) ≡ record {
      insert_at = t.start;
      where_at = if eq t.lower (codes "where") then some (t.start, t.end) else cut.where_at;
    }
unfolding find_cut
find_cut_ends opened closed cut t ts l e = ground (arith, l, e)

find_cut_next :
    (opened closed : ℕ) (cut : Cut) (t : Token) (ts : List Token)
    → (depth_in opened (codes "(") t.value == depth_in closed (codes ")") t.value) ≡ true
    → ends_where t.lower ≡ false
    → find_cut opened closed cut (t ∷ ts)
      ≡ find_cut
          (depth_in opened (codes "(") t.value)
          (depth_in closed (codes ")") t.value)
          (record {
            insert_at = cut.insert_at;
            where_at = if eq t.lower (codes "where") then some (t.start, t.end) else cut.where_at;
          })
          ts
unfolding find_cut
find_cut_next opened closed cut t ts l e = ground (arith, l, e)

find_cut_inside :
    (opened closed : ℕ) (cut : Cut) (t : Token) (ts : List Token)
    → (depth_in opened (codes "(") t.value == depth_in closed (codes ")") t.value) ≡ false
    → find_cut opened closed cut (t ∷ ts)
      ≡ find_cut (depth_in opened (codes "(") t.value) (depth_in closed (codes ")") t.value) cut ts
unfolding find_cut
find_cut_inside opened closed cut t ts l = ground (arith, l)

outside_next :
    (opened closed : ℕ) (t : Token) (ts : List Token)
    → (depth_in opened (codes "(") t.value == depth_in closed (codes ")") t.value) ≡ true
    → outside opened closed (t ∷ ts)
      ≡ t ∷ outside (depth_in opened (codes "(") t.value) (depth_in closed (codes ")") t.value) ts
unfolding outside
outside_next opened closed t ts l = ground (arith, l)

outside_inside :
    (opened closed : ℕ) (t : Token) (ts : List Token)
    → (depth_in opened (codes "(") t.value == depth_in closed (codes ")") t.value) ≡ false
    → outside opened closed (t ∷ ts)
      ≡ outside (depth_in opened (codes "(") t.value) (depth_in closed (codes ")") t.value) ts
unfolding outside
outside_inside opened closed t ts l = ground (arith, l)

described_ends :
    (cut : Cut) (t : Token) (ts : List Token)
    → is_clause t.lower ≡ true
    → described cut (t ∷ ts) ≡ record {
      insert_at = t.start;
      where_at = if eq t.lower (codes "where") then some (t.start, t.end) else cut.where_at;
    }
unfolding clause_start up_to_clause last_where
described_ends cut t ts e = ground (arith, e)

described_next :
    (cut : Cut) (t : Token) (ts : List Token)
    → is_clause t.lower ≡ false
    → described cut (t ∷ ts)
      ≡ described
          (record {
            insert_at = cut.insert_at;
            where_at = if eq t.lower (codes "where") then some (t.start, t.end) else cut.where_at;
          })
          ts
unfolding clause_start up_to_clause last_where
described_next cut t ts e = ground (arith, e)

-- A query is cut at the first clause outside parentheses that may follow the condition, or at its
-- end, and its condition is behind the last WHERE before that.
pub find_cut-described :
    (opened closed : ℕ) (cut : Cut) (ts : List Token)
    → find_cut opened closed cut ts ≡ described cut (outside opened closed ts)
unfolding find_cut outside clause_start up_to_clause last_where
find_cut-described opened closed cut [] = refl
find_cut-described opened closed cut (t ∷ ts) =
    let o = depth_in opened (codes "(") t.value in
    let c = depth_in closed (codes ")") t.value in
    elim (Bool-cases (o == c)) [
      | inr l ↦
          find_cut_inside opened closed cut t ts l
          ∙ (find_cut-described o c cut ts
              ∙ ap (described cut) (sym (outside_inside opened closed t ts l)))
      | inl l ↦ elim (Bool-cases (is_clause t.lower)) [
        | inl e ↦
            find_cut_ends opened closed cut t ts l e
            ∙ (sym (described_ends cut t (outside o c ts) e)
                ∙ ap (described cut) (sym (outside_next opened closed t ts l)))
        | inr e ↦
            find_cut_next opened closed cut t ts l e
            ∙ (find_cut-described o c _ ts
                ∙ (sym (described_next cut t (outside o c ts) e)
                    ∙ ap (described cut) (sym (outside_next opened closed t ts l))))
      ]
    ]
