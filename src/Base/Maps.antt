-- ===== src/Base/Maps.antt =====
-- Go maps with string keys as association lists. The order of a map's entries is not observed but
-- where a map is ranged over, and there the model says so.
use mathlib.Core.List.{List, [], ◌∷◌}
use mathlib.Core.Option.{Option, none, some}
use mathlib.Core.Path.{◌≡◌, refl}
use native.Mathlib.Omega.{arith}
use n.Base.Tests.{if◌then◌else◌}
use n.Base.Text.{Bytes, eq, eq_iff}

abbrev pub Dict {ℓ} : Type ℓ → Type ℓ
Dict V = List (Bytes × V)

module _ {ℓ} {V : Type ℓ} where
  -- `v, ok := m[key]`
  unfoldable pub lookup : Bytes → Dict V → Option V
  lookup key [] = none
  lookup key (entry ∷ rest) =
      let later = lookup key rest in if eq entry.0 key then some entry.1 else later

  -- `m[key] = value`
  unfoldable pub insert : Bytes → V → Dict V → Dict V
  insert key value [] = (key, value) ∷ []
  insert key value (entry ∷ rest) =
      let later = insert key value rest in
      if eq entry.0 key then (key, value) ∷ rest else entry ∷ later

  -- `delete(m, key)`
  unfoldable pub delete : Bytes → Dict V → Dict V
  delete key [] = []
  delete key (entry ∷ rest) =
      let later = delete key rest in if eq entry.0 key then later else entry ∷ later

  -- A read behind a write sees the written value under its key, and the old one elsewhere.
  pub lookup-insert :
      (key : Bytes) (value : V) (entries : Dict V) (other : Bytes)
      → lookup other (insert key value entries)
        ≡ (if eq key other then some value else lookup other entries)
  unfolding lookup insert
  lookup-insert key value [] other = refl
  lookup-insert key value (entry ∷ rest) other = ground (
    arith,
    lookup-insert key value rest other,
    eq_iff entry.0 key,
    eq_iff entry.0 other,
    eq_iff key other,
  )

  pub lookup-delete :
      (key : Bytes) (entries : Dict V) (other : Bytes)
      → lookup other (delete key entries) ≡ (if eq key other then none else lookup other entries)
  unfolding lookup delete
  lookup-delete key [] other = ground arith
  lookup-delete key (entry ∷ rest) other = ground (
    arith,
    lookup-delete key rest other,
    eq_iff entry.0 key,
    eq_iff entry.0 other,
    eq_iff key other,
  )
