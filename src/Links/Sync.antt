-- ===== src/Links/Sync.antt =====
-- `sync_hashtags` of app/helpers/hashtag_links.py.
use expense_world_engine.Base.{
  ℕ, ◌≡◌, refl, sym, subst, ap, ◌∙◌, Bool, true, false, ◌&&◌, ◌||◌, none, List, [], ◌∷◌, select,
  exists, update_where, ◌==◌, is_none, if◌then◌else◌, Bool-cases, inl, inr, arith, All,
}
use expense_world_engine.Base.Sums.{exists-update_where}
use expense_world_engine.Schema.{TransactionSource, ledger, inbox, Junction, Db}
use expense_world_engine.Exec.{ok, err, pure, raise, gets, modify, ◌>>=◌, internal_error}
use expense_world_engine.Exec.Keeps.{Keeps-gets, Keeps-if, Keeps-raise, Keeps-pure}
use expense_world_engine.Exec.Outcome.{
  Triple, Triple-bind, Triple-read, Triple-post, Triple-pure, Triple-result,
}
use expense_world_engine.Links.{
  same_source, is_parent, is_active_link, is_link, elem, linked_ids, leaves, closed, reopened,
  cascade_delete, invalid_hashtags, upsert_link, upsert_links, sync_hashtags,
}

-- If the row is a link of the parent, then it is the user's own.
abbrev pub IsOwnLink : ℕ → ℕ → TransactionSource → Junction → Type 0
IsOwnLink u p s j = is_parent p s j ≡ true → (j.user_id == u) ≡ true

module _ (u p : ℕ) (s : TransactionSource) (g : ℕ) where
  -- An active link to `g`.
  abbrev links_to : Junction → Bool
  links_to j = is_link p s g j && is_none j.deleted_at

  elem-linked_ids : (js : List Junction) → elem g (linked_ids p s js) ≡ exists links_to js
  unfolding elem linked_ids select exists
  elem-linked_ids [] = refl
  elem-linked_ids (j ∷ js) = elim (Bool-cases (is_active_link p s j)) [
    | inl e ↦ rw (e, linked_ids, select) (ground (arith, e, elem-linked_ids js))
    | inr e ↦ rw (e, linked_ids, select) (ground (arith, e, elem-linked_ids js))
  ]

  at_id :
      (keep : List ℕ) (now : ℕ) (x : Junction)
      → IsOwnLink u p s x
      → x.hashtag_id ≡ g
      → links_to (if leaves u p s keep x then closed now x else x) ≡ (links_to x && elem g keep)
  at_id keep now x own e = rw e (ground (arith, own))

  exists-leaves :
      (keep : List ℕ) (now : ℕ) (js : List Junction)
      → All (IsOwnLink u p s) js
      → exists links_to (update_where (leaves u p s keep) (closed now) js)
        ≡ (exists links_to js && elem g keep)
  unfolding exists update_where
  exists-leaves keep now [] h = refl
  exists-leaves keep now (j ∷ js) h = ground (arith, row j h.0, exists-leaves keep now js h.1)
    where
      row :
          (x : Junction)
          → IsOwnLink u p s x
          → links_to (if leaves u p s keep x then closed now x else x) ≡ (links_to x && elem g keep)
      row x own = elim (Bool-cases (x.hashtag_id == g)) [
        | inl e ↦ at_id keep now x own (ground (arith, e))
        | inr e ↦ ground (arith, e)
      ]

  exists-reopened :
      (h now : ℕ) (js : List Junction)
      → exists links_to (update_where (is_link p s h) (reopened now) js)
        ≡ ((h == g) && exists (is_link p s h) js) || exists links_to js
  unfolding exists update_where
  exists-reopened h now [] = ground arith
  exists-reopened h now (j ∷ js) = ground (arith, exists-reopened h now js)

  already :
      (h : ℕ) (js : List Junction)
      → exists (λ j. is_link p s h j && is_none j.deleted_at) js ≡ true
      → exists links_to js ≡ (h == g) || exists links_to js
  already h js a = elim (Bool-cases (h == g)) [
    | inl e ↦ rw e (same h (ground (arith, e)) a)
    | inr e ↦ rw e refl
  ]
    where
      same :
          (h : ℕ)
          → h ≡ g
          → exists (λ j. is_link p s h j && is_none j.deleted_at) js ≡ true
          → exists links_to js ≡ true
      same h e a = subst (λ i. exists (λ j. is_link p s i j && is_none j.deleted_at) js ≡ true) e a

  same_source_refl : (t : TransactionSource) → same_source t t ≡ true
  same_source_refl ledger = refl
  same_source_refl inbox = refl

  fresh_link :
      (h now : ℕ) (js : List Junction)
      → exists links_to (
          record {
            transaction_id = p;
            transaction_source = s;
            hashtag_id = h;
            user_id = u;
            created_at = now;
            updated_at = now;
            deleted_at = none;
          }
          ∷ js)
        ≡ (h == g) || exists links_to js
  unfolding exists
  fresh_link h now js = rw (same_source_refl s) (ground arith)

  exists-upsert_link :
      (h now : ℕ) (js : List Junction)
      → exists links_to (upsert_link now u p s h js) ≡ (h == g) || exists links_to js
  unfolding upsert_link
  exists-upsert_link h now js =
      elim (Bool-cases (exists (λ j. is_link p s h j && is_none j.deleted_at) js)) [
        | inl a ↦ rw (a, upsert_link) (already h js a)
        | inr a ↦ elim (Bool-cases (exists (is_link p s h) js)) [
          | inl l ↦ rw (a, upsert_link) (rw l (exists-reopened h now js ∙ rw l (ground arith)))
          | inr l ↦ rw (a, upsert_link) (rw l (fresh_link h now js))
        ]
      ]

  abbrev State : Bool → Db → Type 0
  State b db = exists links_to db.junctions ≡ b

  upsert_links-Triple :
      (written ids : List ℕ) (b : Bool)
      → Triple (State b) (upsert_links u p s written ids) (λ _. State (elem g ids || b)) (λ _. Unit)
  unfolding upsert_links elem modify raise
  upsert_links-Triple written [] b = Triple-post (λ _ db h. h.0) (Triple-pure (λ _ _. tt) tt)
  upsert_links-Triple written (h ∷ ids) b = elim (Bool-cases (elem h written)) [
    | inl taken ↦ rw (taken, upsert_links) (record { run = λ db e. tt })
    | inr free ↦
        rw (free, upsert_links)
          (Triple-bind (Triple-read (λ _ _. tt) (Keeps-gets _)) λ active.
            Triple-bind
              (record {
                run = λ db e. exists-upsert_link h db.now db.junctions ∙ ap (λ c. (h == g) || c) e;
              })
              λ _.
                Triple-post (λ _ db e. e ∙ ground arith)
                  (upsert_links-Triple _ ids ((h == g) || b)))
  ]

  sync_hashtags-Triple :
      (ids : List ℕ) (start : Db)
      → All (IsOwnLink u p s) start.junctions
      → Triple (λ db. db ≡ start) (sync_hashtags u p ids s) (λ _. State (elem g ids)) (λ _. Unit)
  unfolding sync_hashtags cascade_delete modify
  sync_hashtags-Triple ids start own =
      Triple-bind (Triple-read (λ _ _. tt) (Keeps-gets _)) λ invalid.
        Triple-bind (Triple-read (λ _ _. tt) (Keeps-if _ _ _ (Keeps-raise _) (Keeps-pure tt))) λ _.
          Triple-bind
            (record { run = λ db e. rw e (exists-leaves ids start.now start.junctions own) })
            λ _.
              Triple-post (λ _ db e. e ∙ ground arith)
                (upsert_links-Triple [] ids (exists links_to start.junctions && elem g ids))

-- A replacement of the tags of a parent that returns leaves exactly the requested ids active,
-- whatever was attached before, if the parent's links are the user's own.
pub sync_hashtags-linked_ids :
    (u p : ℕ) (s : TransactionSource) (ids : List ℕ) (start after : Db)
    → All (IsOwnLink u p s) start.junctions
    → sync_hashtags u p ids s start ≡ (ok tt, after)
    → (g : ℕ) → elem g (linked_ids p s after.junctions) ≡ elem g ids
sync_hashtags-linked_ids u p s ids start after own e g =
    elem-linked_ids u p s g after.junctions
    ∙ Triple-result (sync_hashtags-Triple u p s g ids start own) start tt after refl e

-- The id stands twice in the list.
unfoldable pub is_twice : ℕ → List ℕ → Bool
is_twice h [] = false
is_twice h (g ∷ ids) = (g == h && elem h ids) || is_twice h ids

elem-is_twice : (h : ℕ) (ids : List ℕ) → is_twice h ids ≡ true → elem h ids ≡ true
unfolding is_twice elem
elem-is_twice h [] e = absurd (ground (arith, e))
elem-is_twice h (g ∷ ids) e = ground (arith, e, elem-is_twice h ids)

module _ (u p : ℕ) (s : TransactionSource) (h : ℕ) where
  abbrev is_attached : ℕ → Db → Bool
  is_attached g db = exists (λ j. is_link p s g j && is_none j.deleted_at) db.junctions

  abbrev upserted : ℕ → Db → Db
  upserted g db = record db { junctions = upsert_link db.now u p s g db.junctions }

  refused :
      (written : List ℕ) (g : ℕ) (ids : List ℕ) (db : Db)
      → elem g written ≡ true
      → (upsert_links u p s written (g ∷ ids) db).0 ≡ err internal_error
  unfolding upsert_links raise
  refused written g ids db e = rw e refl

  proposed :
      (written : List ℕ) (g : ℕ) (ids : List ℕ) (db : Db)
      → elem g written ≡ false
      → (upsert_links u p s written (g ∷ ids) db).0
        ≡ (upsert_links u p s
            (if is_attached g db then written else g ∷ written)
            ids
            (upserted g db)).0
  unfolding upsert_links modify gets ◌>>=◌
  proposed written g ids db e = rw e refl

  -- A row that this statement wrote is proposed again.
  upsert_links-written :
      (ids written : List ℕ) (db : Db)
      → elem h written ≡ true
      → elem h ids ≡ true
      → (upsert_links u p s written ids db).0 ≡ err internal_error
  unfolding elem
  upsert_links-written [] written db w e = absurd (ground (arith, e))
  upsert_links-written (g ∷ ids) written db w e = elim (Bool-cases (elem g written)) [
    | inl taken ↦ refused written g ids db taken
    | inr free ↦
        proposed written g ids db free
        ∙ upsert_links-written ids (if is_attached g db then written else g ∷ written)
            (upserted g db) (kept (is_attached g db)) (ground (arith, e, apart free))
  ]
    where
      differ : g ≡ h → elem g written ≡ false → ⊥
      differ k free = let same = subst (λ x. elem x written ≡ false) k free in cc

      apart : elem g written ≡ false → (g == h) ≡ false
      apart free = elim (Bool-cases (g == h)) [
        | inl k ↦ absurd (differ (ground (arith, k)) free)
        | inr k ↦ k
      ]

      kept : (b : Bool) → elem h (if b then written else g ∷ written) ≡ true
      kept true = w
      kept false = ground (arith, w)

  upsert_links-twice :
      (ids written : List ℕ) (db : Db)
      → is_attached h db ≡ false
      → is_twice h ids ≡ true
      → (upsert_links u p s written ids db).0 ≡ err internal_error
  unfolding elem is_twice
  upsert_links-twice [] written db n e = absurd (ground (arith, e))
  upsert_links-twice (g ∷ ids) written db n e = elim (Bool-cases (elem g written)) [
    | inl taken ↦ refused written g ids db taken
    | inr free ↦ elim (Bool-cases (g == h)) [
      | inl k ↦
          proposed written g ids db free
          ∙ upsert_links-written ids (if is_attached g db then written else g ∷ written)
              (upserted g db) (rw (unattached (ground (arith, k))) (ground (arith, k)))
              (ground (arith, e, elem-is_twice h ids))
      | inr k ↦
          proposed written g ids db free
          ∙ upsert_links-twice ids (if is_attached g db then written else g ∷ written)
              (upserted g db)
              (exists-upsert_link u p s h g db.now db.junctions ∙ ground (arith, n, k))
              (ground (arith, e, k))
    ]
  ]
    where
      unattached : g ≡ h → is_attached g db ≡ false
      unattached k = subst (λ x. is_attached x db ≡ false) (sym k) n

-- A request of any length, all of active tags of the user, that names one tag twice which is not
-- attached to the parent ends in an internal error.
pub sync_hashtags-twice :
    (u p : ℕ) (s : TransactionSource) (h : ℕ) (ids : List ℕ) (db : Db)
    → invalid_hashtags u db.hashtags ids ≡ []
    → is_twice h ids ≡ true
    → exists (λ j. is_link p s h j && is_none j.deleted_at) db.junctions ≡ false
    → (sync_hashtags u p ids s db).0 ≡ err internal_error
unfolding sync_hashtags cascade_delete modify raise pure gets ◌>>=◌ exists
sync_hashtags-twice u p s h ids db valid twice new =
    rw valid (upsert_links-twice u p s h ids [] _ still_new twice)
  where
    still_new :
        exists
          (λ j. is_link p s h j && is_none j.deleted_at)
          (update_where (leaves u p s ids) (closed db.now) db.junctions)
        ≡ false
    still_new =
        exists-update_where (λ j. is_link p s h j && is_none j.deleted_at) (leaves u p s ids)
          (closed db.now) db.junctions (λ j _ _. ground arith) new
