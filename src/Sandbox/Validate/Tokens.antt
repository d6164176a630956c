-- ===== src/Sandbox/Validate/Tokens.antt =====
-- sandbox.go, `ValidatePolicy`: what the loop over the tokens lets through.
use mathlib.Core.Path.{subst}
use n.Base.{
  ℕ, zero, suc, ◌≡◌, ◌≢◌, false, List, [], ◌∷◌, some, arith, Bytes, Unicode, inl, inr, codes,
  contains, eq_iff, ◌⊎◌, sym, ◌∙◌,
}
use n.Sandbox.Token.{Token, Checked, ok, err}
use n.Sandbox.Token
use n.Sandbox.Lexer.{lex}
use n.Sandbox.Validate.{
  Accepted, forbidden_words, depth_after, check_token, check_tokens, check_first, strip,
  validate_policy,
}
use n.Sandbox.Validate.Policy.{validate_policy-Validated, bind-eq-ok}

-- No statement separator, no forbidden keyword, no locking clause.
pub record Harmless (t : Token) : Type 0 where
  pub no_separator : t.value ≢ codes ";"
  pub no_keyword : contains forbidden_words t.lower ≡ false
  pub no_lock : t.lower ≢ codes "for"

-- From depth `d` on the parentheses close, no token is harmful, and SELECT stands at depth 0 only.
pub data Plain : ℕ → List Token → Type 0 where
  end : Plain 0 []
  opening :
      {d : ℕ} {t : Token} {ts : List Token}
      → t.value ≡ codes "("
      → t.lower ≢ codes "select"
      → Harmless t
      → Plain (suc d) ts
      → Plain d (t ∷ ts)
  closing :
      {d : ℕ} {t : Token} {ts : List Token}
      → t.value ≡ codes ")"
      → (t.lower ≡ codes "select" → d ≡ 0)
      → Harmless t
      → Plain d ts
      → Plain (suc d) (t ∷ ts)
  other :
      {d : ℕ} {t : Token} {ts : List Token}
      → t.value ≢ codes "("
      → t.value ≢ codes ")"
      → (t.lower ≡ codes "select" → d ≡ 0)
      → Harmless t
      → Plain d ts
      → Plain d (t ∷ ts)

-- What one round of the loop has tested.
check_token-eq-ok :
    (d : ℕ) (t : Token) {d' : ℕ}
    → check_token d t ≡ ok d'
    → Harmless t × (depth_after d t ≡ some d') × (t.lower ≡ codes "select" → d' ≡ 0)
unfolding check_token
check_token-eq-ok d t {d'} h = ground (
  arith,
  eq_iff t.value (codes ";"),
  eq_iff t.lower (codes "select"),
  eq_iff t.lower (codes "for"),
)

-- How the depth moves.
depth_after-cases :
    (d : ℕ) (t : Token) (d' : ℕ)
    → depth_after d t ≡ some d'
    → ((t.value ≡ codes "(") × (d' ≡ suc d))
      ⊎ ((t.value ≡ codes ")") × (d ≡ suc d'))
      ⊎ ((t.value ≢ codes "(") × (t.value ≢ codes ")") × (d' ≡ d))
unfolding depth_after
depth_after-cases zero t d' h =
    ground (arith, eq_iff t.value (codes "("), eq_iff t.value (codes ")"))
depth_after-cases (suc d) t d' h =
    ground (arith, eq_iff t.value (codes "("), eq_iff t.value (codes ")"))

Plain-step :
    (d d' : ℕ) (t : Token) (ts : List Token)
    → check_token d t ≡ ok d'
    → Plain d' ts
    → Plain d (t ∷ ts)
Plain-step d d' t ts h p =
    let (safe, moved, at_zero) = check_token-eq-ok d t h in
    elim (depth_after-cases d t d' moved) [
      | inl (v, e) ↦ opening v (λ s. cc (at_zero s, e)) safe (subst (λ k. Plain k ts) e p)
      | inr (inl (v, e)) ↦ subst (λ k. Plain k (t ∷ ts)) (sym e) (closing v at_zero safe p)
      | inr (inr (v, w, e)) ↦ other v w (λ s. sym e ∙ at_zero s) safe (subst (λ k. Plain k ts) e p)
    ]

check_tokens-Plain : (d : ℕ) (ts : List Token) → check_tokens d ts ≡ ok tt → Plain d ts
unfolding check_tokens
check_tokens-Plain zero [] h = end
check_tokens-Plain (suc d) [] h = cc
check_tokens-Plain zero (t ∷ ts) h =
    let (d', e, later) = bind-eq-ok (check_token zero t) (λ k. check_tokens k ts) h in
    Plain-step zero d' t ts e (check_tokens-Plain d' ts later)
check_tokens-Plain (suc d) (t ∷ ts) h =
    let (d', e, later) = bind-eq-ok (check_token (suc d) t) (λ k. check_tokens k ts) h in
    Plain-step (suc d) d' t ts e (check_tokens-Plain d' ts later)

pub StartsSelect : List Token → Type 0
StartsSelect [] = ⊥
StartsSelect (t ∷ ts) = t.lower ≡ codes "select"

check_first-StartsSelect : (ts : List Token) → check_first ts ≡ ok tt → StartsSelect ts
unfolding check_first StartsSelect
check_first-StartsSelect [] h = cc
check_first-StartsSelect (t ∷ ts) h = ground (arith, eq_iff t.lower (codes "select"))

-- The lexer's tokens of an accepted query begin with SELECT, have no other SELECT inside
-- parentheses, close every parenthesis, and hold no separator, forbidden keyword or FOR.
pub validate_policy-Plain :
    ⦃u : Unicode⦄ (sql : Bytes) (policy : Token.Policy) (a : Accepted)
    → validate_policy sql policy ≡ ok a
    → (ts : List Token) × (lex (strip sql) ≡ ok ts) × StartsSelect ts × Plain 0 ts
validate_policy-Plain sql policy a h =
    let v = validate_policy-Validated sql policy a h in
    (
      v.tokens,
      v.lexed,
      check_first-StartsSelect v.tokens v.first,
      check_tokens-Plain 0 v.tokens v.checked,
    )
