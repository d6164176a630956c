-- ===== src/Sandbox/Validate/Limit.antt =====
-- sandbox.go, `ValidatePolicy`: the row cap of an accepted query.
use n.Base.{
  ◌≤◌, ◌≡◌, ◌≢◌, sym, true, false, List, [], ◌∷◌, ◌++◌, Option, none, some, arith, Bytes, Unicode,
  Bool-cases, inl, inr, ◌⊎◌, codes, eq, eq_iff, atoi, Signed, All,
}
use n.Sandbox.Token.{Token, Checked, ok, err}
use n.Sandbox.Token
use n.Sandbox.Lexer.{lex}
use n.Sandbox.Rewrite.{parse_limit}
use n.Sandbox.Validate.{Accepted, default_row_limit, apply_limit, in_limit, strip, validate_policy}
use n.Sandbox.Validate.Policy.{validate_policy-Validated, ok-injective}

-- The first LIMIT of the tokens stands before a number.
pub data HasLimit (n : Signed) : List Token → Type 0 where
  here :
      {t value : Token} {ts : List Token}
      → t.lower ≡ codes "limit"
      → atoi value.value ≡ some n
      → HasLimit n (t ∷ value ∷ ts)
  later :
      {t : Token} {ts : List Token} → t.lower ≢ codes "limit" → HasLimit n ts → HasLimit n (t ∷ ts)

abbrev pub NoLimit : List Token → Type 0
NoLimit = All (λ (t : Token). t.lower ≢ codes "limit")

abbrev pub FirstLimit : List Token → Option Signed → Type 0
FirstLimit ts none = NoLimit ts
FirstLimit ts (some n) = HasLimit n ts

limit_here :
    (t : Token) (ts : List Token) (found : Option Signed)
    → t.lower ≡ codes "limit"
    → parse_limit (t ∷ ts) ≡ ok found
    → FirstLimit (t ∷ ts) found
unfolding parse_limit
limit_here t [] none e h = ground (arith, eq_iff t.lower (codes "limit"))
limit_here t [] (some n) e h = ground (arith, eq_iff t.lower (codes "limit"))
limit_here t (v ∷ ts) none e h = ground (arith, eq_iff t.lower (codes "limit"))
limit_here t (v ∷ ts) (some n) e h = here e (ground (arith, eq_iff t.lower (codes "limit")))

FirstLimit-later :
    (t : Token) (ts : List Token) (found : Option Signed)
    → t.lower ≢ codes "limit"
    → FirstLimit ts found
    → FirstLimit (t ∷ ts) found
FirstLimit-later t ts none n h = (n, h)
FirstLimit-later t ts (some x) n h = later n h

parse_limit-FirstLimit :
    (ts : List Token) (found : Option Signed) → parse_limit ts ≡ ok found → FirstLimit ts found
unfolding parse_limit
parse_limit-FirstLimit [] none h = tt
parse_limit-FirstLimit [] (some n) h = cc
parse_limit-FirstLimit (t ∷ ts) found h = elim (Bool-cases (eq t.lower (codes "limit"))) [
  | inl e ↦ limit_here t ts found ((eq_iff _ _).0 e) h
  | inr e ↦
      FirstLimit-later t ts found (λ p. cc ((eq_iff t.lower (codes "limit")).1 p))
        (parse_limit-FirstLimit ts found (rw e at h))
]

in_limit-le : (n : Signed) → in_limit n ≡ true → (n.0 ≡ true → n.1 ≡ 0) × (n.1 ≤ default_row_limit)
in_limit-le (true, m) h = ground arith
in_limit-le (false, m) h = ground arith

-- An accepted query has no LIMIT, and its text then ends in the cap of 10000 rows, or the number
-- behind its first LIMIT lies between 0 and 10000.
abbrev pub Capped : List Token → Bytes → Type 0
Capped ts text =
    (NoLimit ts × (x : Bytes) × (text ≡ x ++ codes " LIMIT 10000"))
    ⊎ ((n : Signed) × HasLimit n ts × (n.0 ≡ true → n.1 ≡ 0) × (n.1 ≤ default_row_limit))

apply_limit-Capped :
    (ts : List Token) (text out : Bytes) (limit : Option Signed)
    → FirstLimit ts limit
    → apply_limit text limit ≡ ok out
    → Capped ts out
unfolding apply_limit
apply_limit-Capped ts text out none f h = inl (f, text, sym (ok-injective h))
apply_limit-Capped ts text out (some n) f h = elim (Bool-cases (in_limit n)) [
  | inl e ↦ inr (n, f, (in_limit-le n e).0, (in_limit-le n e).1)
  | inr e ↦ let h' : err _ ≡ ok out = (rw e at h) in cc h'
]

-- An accepted query has no LIMIT and its text ends in a LIMIT of 10000, or the number behind its
-- first LIMIT lies between 0 and 10000.
pub validate_policy-Capped :
    ⦃u : Unicode⦄ (sql : Bytes) (policy : Token.Policy) (a : Accepted)
    → validate_policy sql policy ≡ ok a
    → (ts : List Token) × (lex (strip sql) ≡ ok ts) × Capped ts a.sanitized
validate_policy-Capped sql policy a h =
    let v = validate_policy-Validated sql policy a h in
    (
      v.tokens,
      v.lexed,
      apply_limit-Capped v.tokens v.rewritten a.sanitized v.limit
          (parse_limit-FirstLimit v.tokens v.limit v.limited) v.capped,
    )
