-- ===== src/Sandbox/Lexer.antt =====
-- sandbox.go: `lex`. The loop over `i` is a recursion on the bytes from `i` on; where the code
-- moves `i` to the end of a token, the recursion passes over the token's other bytes (`skip`).
pub mod Tiles
pub mod Literal
use n.Base.{
  ℕ, zero, suc, ◌+◌, ◌-◌, Bool, true, false, not, ◌&&◌, ◌||◌, List, [], ◌∷◌, ◌==◌, if◌then◌else◌,
  Bytes, Unicode, get_or, take, is_space, trim_bytes,
}
use n.Sandbox.Token.{
  Token, Reason, comment, unterminated_literal, unterminated_identifier, Checked, ok, err,
}

-- `strings.ContainsRune("(),.;", rune(c))`.
unfoldable pub is_punct : ℕ → Bool
is_punct c = c == b'(' || c == b')' || c == b',' || c == b'.' || c == b';'

-- The bytes that end a word besides white space: `(),.;'"` and the back quote.
unfoldable pub ends_word : ℕ → Bool
unfolding is_space is_punct
ends_word c = is_space c || is_punct c || c == 39 || c == b'"' || c == b'`'

unfoldable pub is_quote : ℕ → Bool
is_quote c = c == b'"' || c == b'`'

-- After the opening quote of a literal: how far the loop moves `i`.
pub literal_length : Bytes → ℕ
literal_length [] = 0
literal_length (c ∷ []) = 1
literal_length (c ∷ d ∷ r) = elim (c == 39) [
  | true ↦ elim (d == 39) [ true ↦ suc (suc (literal_length r)) | false ↦ 1 ]
  | false ↦ suc (literal_length (d ∷ r))
]

-- The bytes before the closing quote of an identifier.
pub until_quote : ℕ → Bytes → ℕ
until_quote q [] = 0
until_quote q (c ∷ cs) = let rest = until_quote q cs in if c == q then 0 else suc rest

pub word_length : Bytes → ℕ
word_length [] = 0
word_length (c ∷ cs) = let rest = word_length cs in if ends_word c then 0 else suc rest

pub data Kind : Type 0 where
  literal quoted punct word : Kind

-- What begins at a byte: white space, a token of `suc n` bytes, or an error.
pub data Scan : Type 0 where
  blank : Scan
  lexeme : Kind → ℕ → Scan
  bad : Reason → Scan

pub starts_comment : ℕ → Bytes → Bool
starts_comment c [] = false
starts_comment c (d ∷ r) = c == b'-' && d == b'-' || c == b'/' && d == b'*'

-- `sql[i-1] != '\''` is read where the loop has left `i`, on the opening quote included.
scan_literal : Bytes → Scan
scan_literal cs =
    let n = literal_length cs in
    if get_or (39 ∷ cs) n 0 == 39 then lexeme literal n else bad unterminated_literal

scan_quoted : ℕ → Bytes → Scan
scan_quoted q cs =
    let n = until_quote q cs in
    elim (get_or cs n 0 == q) [ true ↦ lexeme quoted (suc n) | false ↦ bad unterminated_identifier ]

pub scan : ℕ → Bytes → Scan
scan c cs =
    if is_space c
    then blank
    else if starts_comment c cs
    then bad comment
    else if c == 39
    then scan_literal cs
    else if is_quote c
    then scan_quoted c cs
    else if is_punct c
    then lexeme punct 0
    else lexeme word (word_length cs)

module _ ⦃u : Unicode⦄ where
  abbrev pub lower_of : Kind → Bytes → Bytes
  lower_of literal value = value
  lower_of quoted value = u.to_lower (trim_bytes is_quote value)
  lower_of punct value = value
  lower_of word value = u.to_lower value

  abbrev pub make_token : Kind → ℕ → Bytes → ℕ → Token
  make_token k i value n = record {
    value = value;
    lower = lower_of k value;
    start = i;
    end = i + suc n;
  }

  abbrev pub put : Token → Checked (List Token) → Checked (List Token)
  put t (ok ts) = ok (t ∷ ts)
  put t (err e) = err e

  pub lex_from : ℕ → ℕ → Bytes → Checked (List Token)
  lex_from skip i [] = ok []
  lex_from (suc skip) i (c ∷ cs) = lex_from skip (suc i) cs
  lex_from zero i (c ∷ cs) = elim (scan c cs) [
    | blank ↦ lex_from zero (suc i) cs
    | lexeme k n ↦ put (make_token k i (c ∷ take n cs) n) (lex_from n (suc i) cs)
    | bad e ↦ err e
  ]

  unfoldable pub lex : Bytes → Checked (List Token)
  unfolding lex_from scan scan_literal scan_quoted literal_length until_quote word_length
      starts_comment is_quote ends_word trim_bytes
  lex sql = lex_from zero 0 sql
