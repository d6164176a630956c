-- ===== src/Sandbox/Tables/References.antt =====
-- sandbox.go, `extractTables`: the names and the aliases of a table reference.
use n.Base.{
  ◌≢◌, eq_iff, ℕ, suc, ◌+◌, ◌≡◌, inl, inr, true, false, not, ◌&&◌, List, [], ◌∷◌, drop, Bytes,
  codes, eq, eq→≡, contains, Bool-cases, arith, if◌then◌else◌,
}
use n.Sandbox.Token.{Token, Checked, ok}
use n.Sandbox.Tables.{identifier, unquote, reserved, dotted, alias_of, is_comma}

-- No further part of a name follows.
abbrev NoPart : List Token → Type 0
NoPart [] = Unit
NoPart (d ∷ []) = Unit
NoPart (d ∷ p ∷ r) = eq d.value (codes ".") ≡ false

-- A name, with all its parts, that the second list follows.
pub data Named : List Token → List Token → List Bytes → Type 0 where
  last_part :
      {p : Token} {rest : List Token} → NoPart rest → Named (p ∷ rest) rest (unquote p.value ∷ [])
  part :
      {p d q : Token} {ts rest : List Token} {parts : List Bytes}
      → d.value ≡ codes "."
      → Named (q ∷ ts) rest parts
      → Named (p ∷ d ∷ q ∷ ts) rest (unquote p.value ∷ parts)

-- The words that may follow a table, and are no alias.
abbrev keywords : List Bytes
keywords =
    codes "where"
    ∷ codes "join"
    ∷ codes "left"
    ∷ codes "right"
    ∷ codes "inner"
    ∷ codes "outer"
    ∷ codes "full"
    ∷ codes "cross"
    ∷ codes "on"
    ∷ codes "group"
    ∷ codes "order"
    ∷ codes "having"
    ∷ codes "limit"
    ∷ codes "offset"
    ∷ []

-- The tokens do not begin with AS or with an identifier that may be an alias.
abbrev NoAlias : List Token → Type 0
NoAlias [] = Unit
NoAlias (t ∷ ts) =
    (eq t.lower (codes "as") ≡ false)
    × ((identifier t.value && not (contains keywords t.lower)) ≡ false)

-- An alias behind AS, one that is an identifier other than these words, or none.
pub data Aliased : List Token → List Token → Bytes → Type 0 where
  behind_as :
      {t a : Token} {rest : List Token}
      → t.lower ≡ codes "as"
      → Aliased (t ∷ a ∷ rest) rest (unquote a.value)
  plain :
      {t : Token} {rest : List Token}
      → identifier t.value ≡ true
      → contains keywords t.lower ≡ false
      → Aliased (t ∷ rest) rest t.value
  absent : {rest : List Token} → NoAlias rest → Aliased rest rest []

pub dotted-Named :
    (p : Token) (ts : List Token)
    → Named (p ∷ ts) (drop (dotted ts).1 ts) (unquote p.value ∷ (dotted ts).0)
unfolding dotted
dotted-Named p [] = last_part tt
dotted-Named p (d ∷ []) = last_part tt
dotted-Named p (d ∷ q ∷ r) = elim (Bool-cases (eq d.value (codes "."))) [
  | inl e ↦
      let n = (dotted r).1 in
      let two : n + 2 ≡ suc (suc n) = omega arith in
      rw e (rw two (part (eq→≡ _ _ e) (dotted-Named q r)))
  | inr e ↦ rw e (last_part e)
]

abbrev plain_alias : Token → Checked (Bytes × ℕ)
plain_alias t =
    if identifier t.value && not (contains reserved t.lower) then ok (t.value, 1) else ok ([], 0)

no_alias :
    (t : Token) (rest : List Token)
    → eq t.lower (codes "as") ≡ false
    → (identifier t.value && not (contains reserved t.lower)) ≡ false
    → Aliased (t ∷ rest) (t ∷ rest) []
no_alias t rest s i = absent {rest = t ∷ rest} (s, i)

plain_or_absent :
    (t : Token) (rest : List Token) (alias : Bytes) (k : ℕ)
    → eq t.lower (codes "as") ≡ false
    → plain_alias t ≡ ok (alias, k)
    → Aliased (t ∷ rest) (drop k (t ∷ rest)) alias
plain_or_absent t rest alias k s h = elim (Bool-cases (contains reserved t.lower)) [
  | inl c ↦ elim (Bool-cases (identifier t.value)) [
    | inl i ↦
        let q : ok ([], 0) ≡ ok (alias, k) = (rw (i, c) at h) in
        let a : [] ≡ alias = cc q in
        let n : 0 ≡ k = cc q in rw (← n) (rw (← a) (no_alias t rest s (ground (arith, i, c))))
    | inr i ↦
        let q : ok ([], 0) ≡ ok (alias, k) = (rw i at h) in
        let a : [] ≡ alias = cc q in
        let n : 0 ≡ k = cc q in rw (← n) (rw (← a) (no_alias t rest s (ground (arith, i, c))))
  ]
  | inr c ↦ elim (Bool-cases (identifier t.value)) [
    | inl i ↦
        let q : ok (t.value, 1) ≡ ok (alias, k) = (rw (i, c) at h) in
        let a : t.value ≡ alias = cc q in let n : 1 ≡ k = cc q in rw (← n) (rw (← a) (plain i c))
    | inr i ↦
        let q : ok ([], 0) ≡ ok (alias, k) = (rw i at h) in
        let a : [] ≡ alias = cc q in
        let n : 0 ≡ k = cc q in rw (← n) (rw (← a) (no_alias t rest s (ground (arith, i, c))))
  ]
]

pub alias_of-Aliased :
    (ts : List Token) (alias : Bytes) (k : ℕ)
    → alias_of ts ≡ ok (alias, k)
    → Aliased ts (drop k ts) alias
unfolding alias_of
alias_of-Aliased [] alias k h =
    let a : [] ≡ alias = cc h in let n : 0 ≡ k = cc h in rw (← n) (rw (← a) (absent tt))
alias_of-Aliased (t ∷ []) alias k h = elim (Bool-cases (eq t.value (codes "("))) [
  | inl e ↦ let q = (rw e at h) in cc q
  | inr e ↦ elim (Bool-cases (eq t.lower (codes "as"))) [
    | inl s ↦ let q = (rw (e, s) at h) in cc q
    | inr s ↦ plain_or_absent t [] alias k s (rw (e, s) at h)
  ]
]
alias_of-Aliased (t ∷ a ∷ r) alias k h = elim (Bool-cases (eq t.value (codes "("))) [
  | inl e ↦ let q = (rw e at h) in cc q
  | inr e ↦ elim (Bool-cases (eq t.lower (codes "as"))) [
    | inl s ↦
        let q : ok (unquote a.value, 2) ≡ ok (alias, k) = (rw (e, s) at h) in
        let b : unquote a.value ≡ alias = cc q in
        let n : 2 ≡ k = cc q in rw (← n) (rw (← b) (behind_as (eq→≡ _ _ s)))
    | inr s ↦ plain_or_absent t (a ∷ r) alias k s (rw (e, s) at h)
  ]
]

-- The tokens do not begin with `value`.
pub data BeginsNot (value : Bytes) : List Token → Type 0 where
  at_end : BeginsNot value []
  before : {t : Token} {rest : List Token} → t.value ≢ value → BeginsNot value (t ∷ rest)

pub eq-BeginsNot :
    (value : Bytes) (t : Token) (rest : List Token)
    → eq t.value value ≡ false
    → BeginsNot value (t ∷ rest)
eq-BeginsNot value t rest h = before (λ e. let q = (eq_iff t.value value).1 e in cc (q, h))

-- No parenthesis stands behind the name of a table.
pub alias_of-BeginsNot :
    (ts : List Token) (alias : Bytes) (k : ℕ)
    → alias_of ts ≡ ok (alias, k)
    → BeginsNot (codes "(") ts
unfolding alias_of
alias_of-BeginsNot [] alias k h = at_end
alias_of-BeginsNot (t ∷ []) alias k h = elim (Bool-cases (eq t.value (codes "("))) [
  | inl e ↦ let q = (rw e at h) in cc q
  | inr e ↦ eq-BeginsNot (codes "(") t [] e
]
alias_of-BeginsNot (t ∷ a ∷ r) alias k h = elim (Bool-cases (eq t.value (codes "("))) [
  | inl e ↦ let q = (rw e at h) in cc q
  | inr e ↦ eq-BeginsNot (codes "(") t (a ∷ r) e
]

pub is_comma-BeginsNot : (ts : List Token) → is_comma ts ≡ false → BeginsNot (codes ",") ts
is_comma-BeginsNot [] h = at_end
is_comma-BeginsNot (t ∷ ts) h = eq-BeginsNot (codes ",") t ts h
