-- ===== src/Links/Cascade.antt =====
-- `cascade_delete` and `cascade_restore` of app/helpers/hashtag_links.py.
use expense_world_engine.Base.{
  ℕ, ◌≡◌, refl, sym, ap, ◌∙◌, true, false, List, [], ◌∷◌, select, update_where, is_at,
  if◌then◌else◌, Bool-cases, inl, inr, arith, All,
}
use expense_world_engine.Schema.{TransactionSource, Junction, Db}
use expense_world_engine.Exec.{modify}
use expense_world_engine.Links.{
  is_active_link, elem, linked_ids, leaves, closed, is_marked, reopened, cascade_delete,
  cascade_restore,
}

-- No row was closed at this instant.
abbrev pub IsFresh : ℕ → Junction → Type 0
IsFresh now j = is_at j.deleted_at now ≡ false

module _ (u p : ℕ) (s : TransactionSource) (now later : ℕ) where
  -- What happens to one row.
  abbrev round : Junction → Junction
  round j =
      let c = if leaves u p s [] j then closed now j else j in
      if is_marked u p s now c then reopened later c else c

  marked-closed :
      (j : Junction) → leaves u p s [] j ≡ true → is_marked u p s now (closed now j) ≡ true
  unfolding elem
  marked-closed j l = ground (arith, l)

  marked-fresh : (j : Junction) → IsFresh now j → is_marked u p s now j ≡ false
  marked-fresh j fresh = ground (arith, fresh)

  round-left : (j : Junction) → leaves u p s [] j ≡ true → round j ≡ reopened later (closed now j)
  round-left j l = rw l (rw (marked-closed j l) refl)

  round-kept : (j : Junction) → leaves u p s [] j ≡ false → IsFresh now j → round j ≡ j
  round-kept j l fresh = rw l (rw (marked-fresh j fresh) refl)

  active-left : (j : Junction) → leaves u p s [] j ≡ true → is_active_link p s j ≡ true
  active-left j l = ground (arith, l)

  active-reopened :
      (j : Junction)
      → leaves u p s [] j ≡ true
      → is_active_link p s (reopened later (closed now j)) ≡ true
  active-reopened j l = ground (arith, l)

  linked_ids-cons :
      (i j : Junction) (is js : List Junction)
      → is_active_link p s i ≡ is_active_link p s j
      → i.hashtag_id ≡ j.hashtag_id
      → linked_ids p s is ≡ linked_ids p s js
      → linked_ids p s (i ∷ is) ≡ linked_ids p s (j ∷ js)
  unfolding linked_ids select
  linked_ids-cons i j is js a h e = elim (Bool-cases (is_active_link p s j)) [
    | inl k ↦ rw a (rw k (rw h (ap (λ l. j.hashtag_id ∷ l) e)))
    | inr k ↦ rw a (rw k e)
  ]

  linked_ids-round :
      (js : List Junction)
      → All (IsFresh now) js
      → linked_ids p s (
          update_where
            (is_marked u p s now)
            (reopened later)
            (update_where (leaves u p s []) (closed now) js))
        ≡ linked_ids p s js
  unfolding update_where
  linked_ids-round [] fresh = refl
  linked_ids-round (j ∷ js) fresh =
      linked_ids-cons (round j) j _ js same_active same_id (linked_ids-round js fresh.1)
    where
      same_active : is_active_link p s (round j) ≡ is_active_link p s j
      same_active = elim (Bool-cases (leaves u p s [] j)) [
        | inl l ↦
            ap (is_active_link p s) (round-left j l) ∙ active-reopened j l ∙ sym (active-left j l)
        | inr l ↦ ap (is_active_link p s) (round-kept j l fresh.0)
      ]

      same_id : (round j).hashtag_id ≡ j.hashtag_id
      same_id = elim (Bool-cases (leaves u p s [] j)) [
        | inl l ↦ ap (λ (x : Junction). x.hashtag_id) (round-left j l)
        | inr l ↦ ap (λ (x : Junction). x.hashtag_id) (round-kept j l fresh.0)
      ]

-- A cascade and the restore with its marker, at any later instant, give a parent the tags that it
-- had, in their order, if no link was closed at the instant of the cascade before.
pub cascade_restore-cascade_delete :
    (u p : ℕ) (s : TransactionSource) (later : ℕ) (db : Db)
    → All (IsFresh db.now) db.junctions
    → linked_ids p s
        (cascade_restore u p s db.now
          (record (cascade_delete u p s [] db).1 { now = later })).1.junctions
      ≡ linked_ids p s db.junctions
unfolding cascade_delete cascade_restore modify
cascade_restore-cascade_delete u p s later db fresh =
    linked_ids-round u p s db.now later db.junctions fresh
