-- ===== src/Sandbox/Lexer/Literal.antt =====
-- sandbox.go, `lex` on what `quoteLiteral` writes: a quoted value is one token, whatever it holds.
use native.Mathlib.Numerals.{add-one}
use n.Base.{
  ℕ, zero, suc, ◌+◌, ◌≡◌, ◌≢◌, refl, sym, ap, ◌∙◌, false, [], ◌∷◌, ◌++◌, arith, ◌==◌, Bytes,
  Unicode, length, get_or, is_space, replace_all, length-append, take-append, Bool-cases, inl, inr,
}
use n.Sandbox.Quote.{quote_literal}
use n.Sandbox.Lexer.{
  literal, lexeme, literal_length, starts_comment, scan_literal, scan, make_token, put, lex_from,
}

-- What follows does not go on with a quote, which the lexer would read as an escaped one.
abbrev pub NoQuote : Bytes → Type 0
NoQuote [] = Unit {0}
NoQuote (c ∷ cs) = c ≢ 39

-- The body of a quoted literal, its closing quote included.
abbrev body : Bytes → Bytes
body v = replace_all 39 (39 ∷ 39 ∷ []) v ++ 39 ∷ []

literal_length_closed : (rest : Bytes) → NoQuote rest → literal_length (39 ∷ rest) ≡ 1
unfolding literal_length
literal_length_closed [] h = refl
literal_length_closed (c ∷ cs) h = ground arith

append_assoc3 : (xs : Bytes) (q : ℕ) (rest : Bytes) → (xs ++ q ∷ []) ++ rest ≡ xs ++ q ∷ rest
append_assoc3 [] q rest = refl
append_assoc3 (x ∷ xs) q rest = ap (◌∷◌ x) (append_assoc3 xs q rest)

literal_length_pass :
    (c : ℕ) (t : Bytes) (q : ℕ) (rest : Bytes)
    → (c == 39) ≡ false
    → literal_length (c ∷ (t ++ q ∷ rest)) ≡ suc (literal_length (t ++ q ∷ rest))
unfolding literal_length
literal_length_pass c [] q rest e = ground arith
literal_length_pass c (x ∷ t) q rest e = ground arith

-- The closing quote of a quoted value is found where the quoting has put it.
literal_length-quoted :
    (v rest : Bytes)
    → NoQuote rest
    → literal_length (replace_all 39 (39 ∷ 39 ∷ []) v ++ 39 ∷ rest)
      ≡ length (replace_all 39 (39 ∷ 39 ∷ []) v) + 1
unfolding replace_all literal_length
literal_length-quoted [] rest h = literal_length_closed rest h
literal_length-quoted (c ∷ v) rest h = elim (Bool-cases (c == 39)) [
  | inl e ↦ rw e (omega (arith, literal_length-quoted v rest h))
  | inr e ↦ rw e (
      literal_length_pass c (replace_all 39 (39 ∷ 39 ∷ []) v) 39 rest e
      ∙ omega (arith, literal_length-quoted v rest h))
]

get_or_at : (xs : Bytes) (q : ℕ) (rest : Bytes) → get_or (xs ++ q ∷ rest) (length xs) 0 ≡ q
get_or_at [] q rest = refl
get_or_at (x ∷ xs) q rest = get_or_at xs q rest

no_comment : (s : Bytes) → starts_comment 39 s ≡ false
unfolding starts_comment
no_comment [] = refl
no_comment (c ∷ cs) = refl

literal_length-body :
    (v rest : Bytes) → NoQuote rest → literal_length (body v ++ rest) ≡ length (body v)
literal_length-body v rest h = rw (append_assoc3 (replace_all 39 (39 ∷ 39 ∷ []) v) 39 rest) (
    literal_length-quoted v rest h
    ∙ sym (length-append (replace_all 39 (39 ∷ 39 ∷ []) v) (39 ∷ [])))

body_closes : (v rest : Bytes) → get_or (39 ∷ (body v ++ rest)) (length (body v)) 0 ≡ 39
body_closes v rest =
    rw
      (
        append_assoc3 (replace_all 39 (39 ∷ 39 ∷ []) v) 39 rest,
        length-append (replace_all 39 (39 ∷ 39 ∷ []) v) (39 ∷ []),
      )
      (rw (add-one (length (replace_all 39 (39 ∷ 39 ∷ []) v)))
        (get_or_at (replace_all 39 (39 ∷ 39 ∷ []) v) 39 rest))

scan-quoted :
    (v rest : Bytes) → NoQuote rest → scan 39 (body v ++ rest) ≡ lexeme literal (length (body v))
unfolding scan scan_literal is_space
scan-quoted v rest h =
    rw (no_comment (body v ++ rest)) (rw (literal_length-body v rest h) (rw (body_closes v rest)))

module _ ⦃u : Unicode⦄ where
  -- The bytes of a token are passed over.
  lex_from_skip :
      (w rest : Bytes) (i : ℕ)
      → lex_from (length w) i (w ++ rest) ≡ lex_from zero (i + length w) rest
  unfolding lex_from
  lex_from_skip [] rest i = ap (λ j. lex_from zero j rest) {x = i} {y = i + 0} (omega arith)
  lex_from_skip (c ∷ w) rest i =
      lex_from_skip w rest (suc i)
      ∙ ap (λ j. lex_from zero j rest) {x = suc i + length w} {y = i + suc (length w)} (omega arith)

  -- A value that `quoteLiteral` has quoted is read as one string literal that holds all of it,
  -- whatever the value, if the text goes on with anything but a quote.
  pub lex_from-quote_literal :
      (v rest : Bytes) (i : ℕ)
      → NoQuote rest
      → lex_from zero i (quote_literal v ++ rest)
        ≡ put
            (record {
              value = quote_literal v;
              lower = quote_literal v;
              start = i;
              end = i + length (quote_literal v);
            })
            (lex_from zero (i + length (quote_literal v)) rest)
  unfolding quote_literal lex_from
  lex_from-quote_literal v rest i h =
      rw (scan-quoted v rest h, lex_from)
        (rw (take-append (body v) rest, lex_from_skip (body v) rest (suc i))
          (ap
            (λ j. put (make_token literal i (39 ∷ body v) (length (body v))) (lex_from zero j rest))
            {x = suc i + length (body v)} {y = i + suc (length (body v))} (omega arith)))
