-- ===== src/Sandbox/Lexer/Tiles.antt =====
-- sandbox.go, `lex`: the tokens of a text tile it, white space apart.
use mathlib.Core.Path.{subst}
use n.Base.{
  ℕ, zero, suc, ◌+◌, ◌≤◌, ◌<◌, ◌≡◌, refl, sym, ap, true, List, [], ◌∷◌, ◌++◌, arith, Bytes, Unicode,
  length, get_or, take, drop, is_space, take-append-drop, length-take,
}
use n.Sandbox.Token.{Token, Checked, ok, err}
use n.Sandbox.Lexer.{
  Kind, Scan, blank, lexeme, bad, is_quote, literal_length, until_quote, word_length, scan_literal,
  scan_quoted, scan, make_token, put, lex_from, lex,
}

-- From offset `i` on the text is white space and the tokens, in order and with no gap but white
-- space; each token holds its offsets and its bytes.
pub data Tiles : ℕ → Bytes → List Token → Type 0 where
  done : {i : ℕ} → Tiles i [] []
  space :
      {i c : ℕ} {cs : Bytes} {ts : List Token}
      → is_space c ≡ true
      → Tiles (suc i) cs ts
      → Tiles i (c ∷ cs) ts
  token :
      {i : ℕ} {s : Bytes} {ts : List Token} (t : Token) (rest : Bytes)
      → t.start ≡ i
      → t.end ≡ i + length t.value
      → 0 < length t.value
      → s ≡ t.value ++ rest
      → Tiles t.end rest ts
      → Tiles i s (t ∷ ts)

literal_length-le : (cs : Bytes) → literal_length cs ≤ length cs
unfolding literal_length
literal_length-le [] = omega arith
literal_length-le (c ∷ []) = omega arith
literal_length-le (c ∷ d ∷ r) = ground (arith, literal_length-le r, literal_length-le (d ∷ r))

get_or_bound : (cs : Bytes) (n q : ℕ) → 0 < q → get_or cs n 0 ≡ q → suc n ≤ length cs
get_or_bound [] n q h e = absurd (omega arith)
get_or_bound (c ∷ cs) zero q h e = omega arith
get_or_bound (c ∷ cs) (suc n) q h e = omega (arith, get_or_bound cs n q h e)

word_length-le : (cs : Bytes) → word_length cs ≤ length cs
unfolding word_length
word_length-le [] = omega arith
word_length-le (c ∷ cs) = ground (arith, word_length-le cs)

scan_literal-fits : (cs : Bytes) {k : Kind} {n : ℕ} → scan_literal cs ≡ lexeme k n → n ≤ length cs
unfolding scan_literal
scan_literal-fits cs h = ground (arith, literal_length-le cs)

scan_quoted-fits :
    (q : ℕ) (cs : Bytes) {k : Kind} {n : ℕ} → 0 < q → scan_quoted q cs ≡ lexeme k n → n ≤ length cs
unfolding scan_quoted
scan_quoted-fits q cs p h = ground (arith, get_or_bound cs (until_quote q cs) q)

is_quote-pos : (c : ℕ) → is_quote c ≡ true → 0 < c
unfolding is_quote
is_quote-pos c h = ground arith

-- A token does not pass the end of the text.
scan-fits : (c : ℕ) (cs : Bytes) {k : Kind} {n : ℕ} → scan c cs ≡ lexeme k n → n ≤ length cs
unfolding scan
scan-fits c cs {k} {n} h = ground (
  arith,
  word_length-le cs,
  scan_literal-fits cs {k = k} {n = n},
  is_quote-pos c,
  scan_quoted-fits c cs {k = k} {n = n},
)

scan-blank : (c : ℕ) (cs : Bytes) → scan c cs ≡ blank → is_space c ≡ true
unfolding scan scan_literal scan_quoted
scan-blank c cs h = ground arith

module _ ⦃u : Unicode⦄ where
  put-eq-ok :
      (t : Token) (m : Checked (List Token)) {ts : List Token}
      → put t m ≡ ok ts
      → (r : List Token) × (m ≡ ok r) × (ts ≡ t ∷ r)
  put-eq-ok t (ok r) h = (r, refl, cc)
  put-eq-ok t (err e) h = cc

  -- One step of the lexer, with what holds of the rest of the text.
  Tiles-step :
      (i c : ℕ) (cs : Bytes) (ts : List Token) (r : Scan)
      → scan c cs ≡ r
      → lex_from zero i (c ∷ cs) ≡ ok ts
      → ((n : ℕ) (later : List Token)
          → lex_from n (suc i) cs ≡ ok later
          → Tiles (suc i + n) (drop n cs) later)
      → Tiles i (c ∷ cs) ts
  unfolding lex_from
  Tiles-step i c cs ts blank e h rec =
      space (scan-blank c cs e)
        (subst (λ j. Tiles j cs ts) (omega arith) (rec 0 ts (rw (e, lex_from) at h)))
  Tiles-step i c cs ts (lexeme k n) e h rec =
      let (later, e', h') =
        put-eq-ok (make_token k i (c ∷ take n cs) n) (lex_from n (suc i) cs)
          (rw (e, lex_from) at h) in
      rw h' (
        token (make_token k i (c ∷ take n cs) n) (drop n cs) refl
          (omega (arith, scan-fits c cs e, length-take n cs)) (omega arith)
          (ap (◌∷◌ c) (sym (take-append-drop n cs)))
          (subst (λ j. Tiles j (drop n cs) later) (omega arith) (rec n later e')))
  Tiles-step i c cs ts (bad r) e h rec = let h' : err r ≡ ok ts = (rw (e, lex_from) at h) in cc h'

  lex_from-Tiles :
      (skip i : ℕ) (s : Bytes) (ts : List Token)
      → lex_from skip i s ≡ ok ts
      → Tiles (i + skip) (drop skip s) ts
  unfolding lex_from
  lex_from-Tiles zero i [] [] h = done
  lex_from-Tiles (suc skip) i [] [] h = done
  lex_from-Tiles skip i [] (t ∷ ts) h = cc
  lex_from-Tiles (suc skip) i (c ∷ cs) ts h =
      subst (λ j. Tiles j (drop skip cs) ts) (omega arith) (lex_from-Tiles skip (suc i) cs ts h)
  lex_from-Tiles zero i (c ∷ cs) ts h =
      subst (λ j. Tiles j (c ∷ cs) ts) (omega arith)
        (Tiles-step i c cs ts (scan c cs) refl h (λ n later. lex_from-Tiles n (suc i) cs later))

  -- The tokens that the lexer returns tile its text.
  pub lex-Tiles : (sql : Bytes) (ts : List Token) → lex sql ≡ ok ts → Tiles 0 sql ts
  unfolding lex
  lex-Tiles sql ts h = lex_from-Tiles 0 0 sql ts h
