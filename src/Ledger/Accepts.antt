-- ===== src/Ledger/Accepts.antt =====
-- The pre-validation loop of `create_batch` in app/helpers/transactions.py, as what it lets through.
use expense_world_engine.Base.{
  ℕ, suc, ◌≡◌, ◌≤◌, refl, ap, Bool, true, false, not, Option, none, some, List, [], ◌∷◌, ◌++◌, map,
  All, find, exists, ltb, is_none, is_some, arith, if◌then◌else◌,
}
use expense_world_engine.Base.Int.{is_zero}
use expense_world_engine.Schema.{Db, Category, TransactionResponse}
use expense_world_engine.Exec.{Exec, AppError, ok, Field, Msg, pure, raise, gets, ◌>>=◌, ◌>>◌}
use expense_world_engine.Text.{clean_name}
use expense_world_engine.Validation.{flag, is_active_account, is_active_category}
use expense_world_engine.Links.{elem}
use expense_world_engine.Ledger.Requests.{TransactionCreateRequest}
use expense_world_engine.Ledger.Create.{
  field_errors, category_errors, item_errors, batch_errors, create_batch,
}

-- A title, an amount, a day that has come, an active account of the user, and an active category of
-- the user that is no system category.
pub record IsAccepted (db : Db) (u : ℕ) (item : TransactionCreateRequest) : Type 0 where
  pub titled : is_none (clean_name (some item.title)) ≡ false
  pub has_amount : is_zero item.amount_cents ≡ false
  pub has_come : item.date ≤ db.now
  pub account : exists (is_active_account item.account_id u) db.accounts ≡ true
  pub category : Category
  pub category_found : find (is_active_category item.category_id u) db.categories ≡ some category
  pub is_user_category : is_some category.system_key ≡ false

-- Each id stands once.
abbrev pub HasDistinctIds : List ℕ → Type 0
HasDistinctIds [] = Unit
HasDistinctIds (i ∷ ids) = (elem i ids ≡ false) × HasDistinctIds ids

module _ {A : Type 0} where
  append-nil : (xs ys : List A) → xs ++ ys ≡ [] → (xs ≡ []) × (ys ≡ [])
  append-nil [] ys h = (refl, h)
  append-nil (x ∷ xs) ys h = absurd (ground (arith, h))

flag-nil : (b : Bool) (f : Field) (m : Msg) → flag b f m ≡ [] → b ≡ false
flag-nil false f m h = refl
flag-nil true f m h = absurd (ground (arith, h))

category_errors-nil :
    (o : Option Category)
    → category_errors o ≡ []
    → (c : Category) × (o ≡ some c) × (is_some c.system_key ≡ false)
category_errors-nil none h = absurd (ground (arith, h))
category_errors-nil (some c) h = (c, refl, flag-nil _ _ _ h)

not_later : (now d : ℕ) → ltb now d ≡ false → d ≤ now
not_later now d h = ground (arith, h)

item_errors-nil :
    (db : Db) (u : ℕ) (seen : List ℕ) (item : TransactionCreateRequest)
    → item_errors db u seen item ≡ []
    → IsAccepted db u item × (elem item.id seen ≡ false)
unfolding item_errors field_errors
item_errors-nil db u seen item h =
    let (own, refs) = append-nil (field_errors db.now item) _ h in
    let (title, own2) = append-nil _ _ own in
    let (amount, date) = append-nil _ _ own2 in
    let (account, refs2) = append-nil _ _ refs in
    let (category, id) = append-nil _ _ refs2 in
    let known =
      flag-nil (not (exists (is_active_account item.account_id u) db.accounts)) _ _ account in
    let come = flag-nil _ _ _ date in
    let c = category_errors-nil _ category in
    (
      record {
        titled = flag-nil _ _ _ title;
        has_amount = flag-nil _ _ _ amount;
        has_come = not_later _ _ come;
        account = ground (arith, known);
        category = c.0;
        category_found = c.1;
        is_user_category = c.2;
      },
      flag-nil _ _ _ id,
    )

abbrev pub ids_of : List TransactionCreateRequest → List ℕ
ids_of items = map (λ (x : TransactionCreateRequest). x.id) items

-- The ids `ids` are none of `seen`.
abbrev AreFresh : List ℕ → List ℕ → Type 0
AreFresh seen ids = All (λ i. elem i seen ≡ false) ids

AreFresh-drop :
    (i : ℕ) (seen ids : List ℕ) → AreFresh (i ∷ seen) ids → AreFresh seen ids × (elem i ids ≡ false)
unfolding elem
AreFresh-drop i seen [] h = (tt, refl)
AreFresh-drop i seen (j ∷ ids) h =
    let rest = AreFresh-drop i seen ids h.1 in
    ((ground (arith, h.0), rest.0), ground (arith, h.0, rest.1))

-- The errors of an item before those of the later ones
kept-nil :
    (n : ℕ) (own : List (Field × Msg)) (later : List (ℕ × List (Field × Msg)))
    → (elim own [ [] ↦ later | e ∷ es ↦ (n, e ∷ es) ∷ later ]) ≡ []
    → (own ≡ []) × (later ≡ [])
kept-nil n [] later h = (refl, h)
kept-nil n (e ∷ es) later h = absurd (ground (arith, h))

batch_errors-nil :
    (db : Db) (u : ℕ) (seen : List ℕ) (n : ℕ) (items : List TransactionCreateRequest)
    → batch_errors db u seen n items ≡ []
    → All (IsAccepted db u) items × AreFresh seen (ids_of items) × HasDistinctIds (ids_of items)
unfolding batch_errors
batch_errors-nil db u seen n [] h = (tt, tt, tt)
batch_errors-nil db u seen n (item ∷ rest) h =
    let (own, later) = kept-nil n (item_errors db u seen item) _ h in
    let (accepted, fresh) = item_errors-nil db u seen item own in
    let rest_h = batch_errors-nil db u (item.id ∷ seen) (suc n) rest later in
    let (unseen, apart) = AreFresh-drop item.id seen (ids_of rest) rest_h.1 in
    ((accepted, rest_h.0), (fresh, unseen), (apart, rest_h.2))

-- `if errors: raise`, from what a batch that returned gives
no_errors :
    {E B : Type 0} (e : AppError) (errors : List E) (next : Exec B) (db after : Db) (b : B)
    → ((if exists (λ _. true) errors then raise e else pure tt) >> next) db ≡ (ok b, after)
    → errors ≡ []
unfolding exists raise ◌>>=◌
no_errors e [] next db after b h = refl
no_errors e (x ∷ errors) next db after b h = absurd (ground (arith, ap (λ r. r.0) h))

-- A batch that returns had items that each have a title, an amount that is not zero, a day that has
-- come, an active account of the user, and an active category of the user that is no system
-- category; and no two of them have one id.
pub create_batch-IsAccepted :
    (u : ℕ) (items : List TransactionCreateRequest) (db after : Db)
    (responses : List TransactionResponse)
    → create_batch u items db ≡ (ok responses, after)
    → All (IsAccepted db u) items × HasDistinctIds (ids_of items)
unfolding create_batch raise ◌>>=◌ gets
create_batch-IsAccepted u [] db after responses h = absurd (ground (arith, ap (λ r. r.0) h))
create_batch-IsAccepted u (item ∷ rest) db after responses h =
    let (accepted, fresh, distinct) =
      batch_errors-nil db u [] 0 (item ∷ rest)
        (no_errors _ (batch_errors db u [] 0 (item ∷ rest)) _ db after responses h) in
    (accepted, distinct)
