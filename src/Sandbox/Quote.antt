-- ===== src/Sandbox/Quote.antt =====
-- sandbox.go: `quoteIdentifier` and `quoteLiteral`.
use n.Base.{[], ◌∷◌, ◌++◌, Bytes, replace_all}

unfoldable pub quote_identifier : Bytes → Bytes
quote_identifier value = b'"' ∷ (replace_all b'"' (b'"' ∷ b'"' ∷ []) value ++ b'"' ∷ [])

unfoldable pub quote_literal : Bytes → Bytes
quote_literal value = 39 ∷ (replace_all 39 (39 ∷ 39 ∷ []) value ++ 39 ∷ [])
