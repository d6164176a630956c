-- ===== src/Meta/Audit/Once.antt =====
-- sink.go over a table of audit events: which events it has after any messages.
use n.Base.{
  ◌≡◌, refl, ℕ, Bool, true, not, ◌&&◌, List, [], ◌∷◌, ◌++◌, All, All-append, Option, none, some,
  Bytes, eq_refl, contains, if◌then◌else◌, Bool-cases, inl, inr, arith,
}
use n.Job.Backend.{Result, ok, err}
use n.Worker.Value.{Fields}
use n.Meta.Postgres.{Database}
use n.Meta.Audit.{
  Event, insert_audit_event, cells_of, inserted, saved_with, save_audit_event, answered, with_event,
  handle_message, handle_messages, acknowledged_id,
}

-- No ID stands twice.
unfoldable pub distinct : List Bytes → Bool
distinct [] = true
distinct (x ∷ xs) = not (contains xs x) && distinct xs

-- The IDs of a table behind an INSERT that does nothing for an ID that is there.
abbrev pub added : Bytes → List Bytes → List Bytes
added x xs = if contains xs x then xs else x ∷ xs

added-distinct : (x : Bytes) (xs : List Bytes) → distinct xs ≡ true → distinct (added x xs) ≡ true
unfolding distinct
added-distinct x xs h = elim (Bool-cases (contains xs x)) [ inl p ↦ rw p h | inr n ↦ rw n (rw n h) ]

contains-added : (x : Bytes) (xs : List Bytes) → contains (added x xs) x ≡ true
unfolding contains
contains-added x xs = elim (Bool-cases (contains xs x)) [
  | inl p ↦ rw p p
  | inr n ↦ rw n (rw (eq_refl x) refl)
]

added-contains :
    (x y : Bytes) (xs : List Bytes) → contains xs y ≡ true → contains (added x xs) y ≡ true
unfolding contains
added-contains x y xs h = ground (arith, h)

module _ (db : Database) (decode : Bytes → Option Event) (marshal_metadata : Fields → Result Bytes)
    (ids : db.State → List Bytes) where
  -- The second table has the IDs of the first and those acknowledged, and no ID twice if the first
  -- has none twice.
  pub record Keeps (s s' : db.State) (acked : List Bytes) : Type 0 where
    pub once : distinct (ids s) ≡ true → distinct (ids s') ≡ true
    pub kept : (x : Bytes) → contains (ids s) x ≡ true → contains (ids s') x ≡ true
    pub stored : All (λ x. contains (ids s') x ≡ true) acked

  -- The IDs of the acknowledged events.
  unfoldable pub acknowledged_ids : List Bytes → db.State → List Bytes
  acknowledged_ids [] s = []
  acknowledged_ids (payload ∷ rest) s =
      let (answer, t) = handle_message db decode marshal_metadata payload s in
      acknowledged_id db decode marshal_metadata (decode payload) answer ++ acknowledged_ids rest t

  Keeps-same : (s s' : db.State) → ids s' ≡ ids s → Keeps s s' []
  Keeps-same s s' e = record { once = λ h. rw e h; kept = λ x h. rw e h; stored = tt }

  Keeps-added : (s s' : db.State) (id : Bytes) → ids s' ≡ added id (ids s) → Keeps s s' (id ∷ [])
  Keeps-added s s' id e = record {
    once = λ h. rw e (added-distinct id (ids s) h);
    kept = λ x h. rw e (added-contains id x (ids s) h);
    stored = (rw e (contains-added id (ids s)), tt);
  }

  All-kept :
      (s s' : db.State) (xs : List Bytes)
      → ((x : Bytes) → contains (ids s) x ≡ true → contains (ids s') x ≡ true)
      → All (λ x. contains (ids s) x ≡ true) xs
      → All (λ x. contains (ids s') x ≡ true) xs
  All-kept s s' [] k h = tt
  All-kept s s' (x ∷ xs) k (p, h) = (k x p, All-kept s s' xs k h)

  -- What `exec` does to the table, by what it answers.
  abbrev pub Inserts : Bytes → db.State → Result ℕ × db.State → Type 0
  Inserts id s (ok k, s') = ids s' ≡ added id (ids s)
  Inserts id s (err e, s') = ids s' ≡ ids s

  module _
      (insert_law : (e : Event) (metadata : Bytes) (s : db.State)
        → Inserts e.id s (db.exec insert_audit_event (cells_of e metadata) s)) where
    inserted-Keeps :
        (e : Event) (s : db.State) (out : Result ℕ × db.State)
        → Inserts e.id s out
        → Keeps s
            (answered db decode marshal_metadata (inserted db decode marshal_metadata out)).1
            (acknowledged_id db decode marshal_metadata
              (some e)
              (answered db decode marshal_metadata (inserted db decode marshal_metadata out)).0)
    inserted-Keeps e s (ok k, s') h = Keeps-added s s' e.id h
    inserted-Keeps e s (err x, s') h = Keeps-same s s' h

    saved_with-Keeps :
        (e : Event) (s : db.State) (found : Result Bytes)
        → Keeps s
            (answered db decode marshal_metadata
              (saved_with db decode marshal_metadata e s found)).1
            (acknowledged_id db decode marshal_metadata
              (some e)
              (answered db decode marshal_metadata
                (saved_with db decode marshal_metadata e s found)).0)
    saved_with-Keeps e s (err x) = Keeps-same s s refl
    saved_with-Keeps e s (ok m) = inserted-Keeps e s _ (insert_law e m s)

    with_event-Keeps :
        (s : db.State) (found : Option Event)
        → Keeps s (with_event db decode marshal_metadata s found).1 (
            acknowledged_id db decode marshal_metadata found
              (with_event db decode marshal_metadata s found).0)
    unfolding save_audit_event
    with_event-Keeps s none = Keeps-same s s refl
    with_event-Keeps s (some e) = saved_with-Keeps e s (marshal_metadata e.metadata)

    -- If an INSERT of an event that succeeds adds its ID to the table unless it is there, and one
    -- that fails leaves the table, then after any messages, repeated or not, every event that has
    -- been acknowledged is in the table, nothing has left it, and no event stands in it twice.
    pub handle_messages-Keeps :
        (messages : List Bytes) (s : db.State)
        → Keeps s
            (handle_messages db decode marshal_metadata messages s)
            (acknowledged_ids messages s)
    unfolding handle_messages acknowledged_ids handle_message
    handle_messages-Keeps [] s = Keeps-same s s refl
    handle_messages-Keeps (payload ∷ rest) s =
        let now = with_event-Keeps s (decode payload) in
        let t = (with_event db decode marshal_metadata s (decode payload)).1 in
        let later = handle_messages-Keeps rest t in
        record {
          once = λ h. later.once (now.once h);
          kept = λ x h. later.kept x (now.kept x h);
          stored = All-append _ _ _ (All-kept t _ _ later.kept now.stored) later.stored;
        }
