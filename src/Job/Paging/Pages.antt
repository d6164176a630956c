-- ===== src/Job/Paging/Pages.antt =====
-- store.go, `GetResultPage`: the pages of a result.
use mathlib.Core.Option
use mathlib.Core.Path.{subst}
use native.Mathlib.Nat.{mod-eq_of_lt}
use n.Base.{
  ℕ, zero, suc, ◌+◌, ◌-◌, ◌*◌, ◌%◌, ◌≤◌, ◌<◌, ◌≡◌, refl, sym, ap, ◌∙◌, false, List, [], ◌∷◌, ◌++◌,
  Option, none, some, arith, ltb, leb, if◌then◌else◌, length, take, drop, length-drop, take-nil,
  drop-drop, take-append-drop, Bool-cases, inl, inr, ltb→lt,
}
use n.Job.Paging.{
  returned, errored, panicked, int32_half, int32_all, next_page, page_from, paginate,
}

next_page_lem : (page : ℕ) → page + 1 < int32_half → next_page page ≡ (false, page + 1)
next_page_lem page h = ground arith

le-mul_pos : (k size : ℕ) → 0 < size → k ≤ k * size
le-mul_pos k size h = grind arith

module _ {Row : Type 0} where
  drop_all : (n : ℕ) (rows : List Row) → length rows ≤ n → drop n rows ≡ []
  drop_all zero [] h = refl
  drop_all zero (x ∷ rows) h = absurd (omega arith)
  drop_all (suc n) [] h = refl
  drop_all (suc n) (x ∷ rows) h = drop_all n rows (omega arith)

  take_past :
      (n m : ℕ) (rows : List Row) → length rows ≤ n → length rows ≤ m → take n rows ≡ take m rows
  take_past zero zero rows h k = refl
  take_past zero (suc m) [] h k = refl
  take_past (suc n) zero [] h k = refl
  take_past (suc n) (suc m) [] h k = refl
  take_past zero (suc m) (x ∷ rows) h k = absurd (omega arith)
  take_past (suc n) zero (x ∷ rows) h k = absurd (omega arith)
  take_past (suc n) (suc m) (x ∷ rows) h k =
      ap (◌∷◌ x) (take_past n m rows (omega arith) (omega arith))

  take_whole : (n : ℕ) (rows : List Row) → length rows ≤ n → take n rows ≡ rows
  take_whole zero [] h = refl
  take_whole zero (x ∷ rows) h = absurd (omega arith)
  take_whole (suc n) [] h = refl
  take_whole (suc n) (x ∷ rows) h = ap (◌∷◌ x) (take_whole n rows (omega arith))

  page_end :
      (rows : List Row) (page size start : ℕ)
      → length rows ≤ start
      → page_from rows page size start ≡ (
        take size (drop start rows),
        if ltb (start + size) (length rows) then some (next_page page) else none,
      )
  unfolding page_from
  page_end rows page size start h =
      rw (drop_all start rows h) (ground (arith, take-nil {A = Row} size))

  -- The rows of a page that starts at `start`, and whether there is a next one.
  page_from_lem :
      (rows : List Row) (page size start : ℕ)
      → page_from rows page size start ≡ (
        take size (drop start rows),
        if ltb (start + size) (length rows) then some (next_page page) else none,
      )
  unfolding page_from
  page_from_lem rows page size start = elim (Bool-cases (leb (length rows) start)) [
    | inl p ↦ page_end rows page size start (ground arith)
    | inr p ↦
        ground
          (arith, length-drop start rows, take_past (length rows - start) size (drop start rows))
  ]

  -- A client that asks for the pages from `page` on, as long as there is a token of a next one.
  pub walk : List Row → ℕ → ℕ → ℕ → Option (List Row)
  walk rows size zero page = none
  walk rows size (suc fuel) page = elim (paginate rows page size) [
    | errored e ↦ none
    | panicked ↦ none
    | returned (part, next) ↦ elim next [
      | none ↦ some part
      | some (sign, n) ↦ Option.map (λ rest. part ++ rest) (walk rows size fuel n)
    ]
  ]

  -- One page, while its offset fits an int32.
  paginate_lem :
      (rows : List Row) (k size : ℕ)
      → k * size < int32_half
      → paginate rows (k + 1) size
        ≡ returned (
          take size (drop (k * size) rows),
          if ltb (k * size + size) (length rows) then some (next_page (k + 1)) else none,
        )
  unfolding paginate
  paginate_lem rows k size h =
      let e : (k + 1 - 1) * size % int32_all ≡ k * size =
        ap (λ t. t * size % int32_all) {x = k + 1 - 1} {y = k} (omega arith)
        ∙ mod-eq_of_lt (omega arith) in
      rw e (rw (page_from_lem rows (k + 1) size (k * size)) (ground arith))

  walk_from :
      (rows : List Row) (size : ℕ) (fuel k : ℕ)
      → 0 < size
      → length rows < int32_half
      → k * size ≤ length rows
      → length rows - k * size < fuel
      → walk rows size fuel (k + 1) ≡ some (drop (k * size) rows)
  unfolding walk
  walk_from rows size zero k p l s f = absurd (omega arith)
  walk_from rows size (suc fuel) k p l s f =
      let page = paginate_lem rows k size (omega arith) in
      elim (Bool-cases (ltb (k * size + size) (length rows))) [
        | inl more ↦
            let small =
              next_page_lem (k + 1) (omega (arith, le-mul_pos k size p, ltb→lt _ _ more)) in
            let rest =
              walk_from rows size fuel (k + 1) p l (omega (arith, ltb→lt _ _ more))
                (omega (arith, ltb→lt _ _ more)) in
            rw (page, walk)
              (rw (more, small)
                (rw rest (
                  ap some (
                    ap (λ t. take size (drop (k * size) rows) ++ t)
                      (ap (λ n. drop n rows) {x = (k + 1) * size} {y = k * size + size}
                          (omega arith)
                        ∙ sym (drop-drop (k * size) size rows))
                    ∙ take-append-drop size (drop (k * size) rows)))))
        | inr last ↦
            rw (page, walk)
              (rw last (
                ap some (
                  take_whole size (drop (k * size) rows)
                    (ground (arith, length-drop (k * size) rows)))))
      ]

  -- Reading page after page from the first, as long as there is a token of a next one, yields every
  -- row once and in order, if the rows are fewer than 2 ^ 31; `length rows + 1` calls are enough.
  pub walk-all :
      (rows : List Row) (size : ℕ)
      → 0 < size
      → length rows < int32_half
      → walk rows size (length rows + 1) 1 ≡ some rows
  walk-all rows size p l =
      subst (λ n. walk rows size (length rows + 1) n ≡ some rows) {x = 0 + 1} {y = 1} (omega arith)
        (walk_from rows size (length rows + 1) 0 p l (omega arith) (omega arith)
          ∙ ap (λ n. some (drop n rows)) {x = 0 * size} {y = 0} (omega arith))

  -- Where the offset of a page lies between 2 ^ 31 and 2 ^ 32 it wraps to a negative int32, and
  -- the slice panics, whatever the rows.
  pub paginate-panics :
      (rows : List Row) (k size : ℕ)
      → int32_half ≤ k * size
      → k * size < int32_all
      → paginate rows (k + 1) size ≡ panicked
  unfolding paginate
  paginate-panics rows k size h l =
      let e : (k + 1 - 1) * size % int32_all ≡ k * size =
        ap (λ t. t * size % int32_all) {x = k + 1 - 1} {y = k} (omega arith)
        ∙ mod-eq_of_lt (omega arith) in
      rw e (ground arith)
