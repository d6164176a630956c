-- ===== src/Sandbox/Rewrite.antt =====
-- sandbox.go: `parseLimit` and `injectPredicate`.
pub mod Clauses
use n.Base.{
  ℕ, suc, Bool, true, false, ◌&&◌, ◌||◌, List, [], ◌∷◌, ◌++◌, Option, none, some, ◌==◌,
  if◌then◌else◌, Bytes, codes, eq, length, take, drop, slice, trim_space, is_empty, atoi, Signed,
}
use n.Sandbox.Token.{Token, Checked, ok, err, limit_not_numeric}

-- `(0, false, nil)` is `ok none`, and `(n, true, nil)` is `ok (some n)`.
abbrev limit_value : List Token → Checked (Option Signed)
limit_value [] = err limit_not_numeric
limit_value (t ∷ ts) = elim (atoi t.value) [ none ↦ err limit_not_numeric | some n ↦ ok (some n) ]

unfoldable pub parse_limit : List Token → Checked (Option Signed)
parse_limit [] = ok none
parse_limit (t ∷ ts) =
    let later = parse_limit ts in if eq t.lower (codes "limit") then limit_value ts else later

-- `insertAt`, `whereStart` and `whereEnd`.
pub record Cut : Type 0 where
  pub insert_at : ℕ
  pub where_at : Option (ℕ × ℕ)

abbrev ends_where : Bytes → Bool
ends_where s =
    eq s (codes "group")
    || eq s (codes "order")
    || eq s (codes "having")
    || eq s (codes "limit")
    || eq s (codes "offset")

-- `depth` is `opened` less `closed`.
pub find_cut : ℕ → ℕ → Cut → List Token → Cut
find_cut opened closed cut [] = cut
find_cut opened closed cut (t ∷ ts) =
    let opened' = if eq t.value (codes "(") then suc opened else opened in
    let closed' = if eq t.value (codes ")") then suc closed else closed in
    let level = opened' == closed' in
    let cut' =
      if level && eq t.lower (codes "where")
      then record cut { where_at = some (t.start, t.end) }
      else cut in
    elim (level && ends_where t.lower) [
      | true ↦ record cut' { insert_at = t.start }
      | false ↦ find_cut opened' closed' cut' ts
    ]

abbrev pub append_suffix : Bytes → Bytes → Bytes
append_suffix result suffix = if is_empty suffix then result else result ++ (codes " " ++ suffix)

unfoldable pub inject_at : Bytes → Cut → Bytes → Bytes
inject_at sql cut predicate = elim cut.where_at [
  | some (where_start, where_end) ↦
      append_suffix
        (trim_space (take where_end sql)
          ++ (codes " ("
              ++ (trim_space (slice sql where_end cut.insert_at) ++ (codes ") AND " ++ predicate))))
        (trim_space (drop cut.insert_at sql))
  | none ↦
      append_suffix (trim_space (take cut.insert_at sql) ++ (codes " WHERE " ++ predicate))
        (trim_space (drop cut.insert_at sql))
]

unfoldable pub inject_predicate : Bytes → List Token → Bytes → Bytes
unfolding find_cut inject_at trim_space
inject_predicate sql tokens predicate =
    inject_at sql (find_cut 0 0 (record { insert_at = length sql; where_at = none }) tokens)
      predicate
