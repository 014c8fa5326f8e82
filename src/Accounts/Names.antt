-- ===== src/Accounts/Names.antt =====
-- app/helpers/accounts.py under the unique index of sql/028.
use expense_world_engine.Base.{
  ℕ, ◌≡◌, refl, false, ◌∙◌, Bool, Option, none, some, exists, arith, ==_refl,
}
use expense_world_engine.Base.Int.{ℤ}
use expense_world_engine.Schema.{Text, Db, Account, Resource, Snapshot, ActivityAction}
use expense_world_engine.Query.{is_owned, write_activity_log}
use expense_world_engine.Exec.{Exec, Field, ◌>>=◌}
use expense_world_engine.Exec.Keeps.{
  Keeps, Keeps-bind, Keeps-modify, Keeps-for_some, Keeps-raise, Keeps-pure, keeps_rules,
}
use expense_world_engine.Exec.Outcome.{
  Triple, Triple-bind, Triple-read, Triple-gets, Triple-raise_if, Triple-modify, Triple-Keeps,
  Keeps-Triple,
}
use expense_world_engine.Named.{Casing, NamedFields, holds_name}
use expense_world_engine.Named
use expense_world_engine.Named.Names.{Lawful, HasUniqueNames}
use expense_world_engine.Named.Changes.{insert-HasUniqueNames, untouched-HasUniqueNames}
use expense_world_engine.Named.Keeps.{
  normalize_name-Keeps, validate_color-Keeps, check_int4-Keeps, check_rename-Triple, edit-Triple,
  choose_sort_order-Keeps, checked-Triple, log-Keeps, soft_delete_with_audit-Keeps,
  restore_with_audit-Triple,
}
use expense_world_engine.Query.Owned.{fetch_owned_row_or_404-Keeps, update_returning-Keeps}
use expense_world_engine.Query.Found.{fetch_owned_row_or_404-Triple}
use expense_world_engine.Schema.Tables
use expense_world_engine.References.Writes.{
  currency_code_error-Keeps, fetch_balance-Keeps, home_balance-Keeps,
}
use expense_world_engine.Accounts.{
  NewAccount, new_account, insert_account, archived, AccountFields, create_account, fetch_account,
  update_nonempty, update_account, delete_account, restore_account, set_account_archive,
}
use expense_world_engine.HomeBalance.{HomeBalance}
use expense_world_engine.Ledger.Balance.{fetch_balance}

abbrev pub accounts-Lawful : Lawful Named.accounts
accounts-Lawful = record {
  rows-with_rows = λ db l. refl;
  rows-logged = λ db l. refl;
  id-touched = λ now r. refl;
  owner-touched = λ now r. refl;
  name-touched = λ now r. refl;
  currency-touched = λ now r. refl;
  deleted-touched = λ now r. refl;
  id-with_deleted = λ d r. refl;
  owner-with_deleted = λ d r. refl;
  name-with_deleted = λ d r. refl;
  currency-with_deleted = λ d r. refl;
  deleted-with_deleted = λ d r. refl;
}

module _ (c : Casing) where
  abbrev P : Db → Type 0
  P = HasUniqueNames c Named.accounts

  insert_account-Triple :
      (u : ℕ) (n : NewAccount) (name : Text) (order : ℤ)
      → Triple
          (λ db.
            P db
            × (exists (holds_name Named.accounts c u name none (some n.currency_code)) db.accounts
                ≡ false))
          (insert_account u n name order)
          (λ _. P)
          P
  unfolding insert_account
  insert_account-Triple u n name order = Triple-bind (Triple-gets (λ _ h. h.0) _) λ taken.
      Triple-bind (Triple-gets (λ _ h. h.0.0) _) λ now.
        Triple-bind (Triple-raise_if (λ _ h. h.0.0.0) taken _) λ _.
          Triple-bind
            (Triple-modify _ λ db h.
              insert-HasUniqueNames c Named.accounts accounts-Lawful
                (new_account now u n name order) u name (some n.currency_code) db (==_refl u) refl
                refl h.0.0.0.0 (h.0.0.1 ∙ h.1) h.0.0.0.1)
            λ _. Triple-Keeps (Keeps-pure _)

  log :
      (u i : ℕ) (action : ActivityAction) (b a : Option Snapshot)
      → Keeps P (write_activity_log u Resource.account i action b a)
  log u = log-Keeps c Named.accounts accounts-Lawful u Resource.account

  module _ (h : HomeBalance) where
    open h use {home_balance}

    pub create_account-HasUniqueNames : (u : ℕ) (n : NewAccount) → Keeps P (create_account c h u n)
    unfolding create_account
    create_account-HasUniqueNames u n = Keeps-Triple (
        Triple-bind (Triple-read (λ _ k. k) (normalize_name-Keeps n.name Field.name)) λ cleaned.
          Triple-bind (Triple-read (λ _ k. k) (validate_color-Keeps n.color)) λ _.
            Triple-bind (Triple-read (λ _ k. k) (currency_code_error-Keeps n.currency_code)) λ m.
              Triple-bind
                (Triple-read (λ _ k. k) (Keeps-for_some m _ _ (Keeps-pure tt) (λ e. Keeps-raise _)))
                λ _.
                  checked-Triple c Named.accounts (λ _ k. k) u cleaned none (some n.currency_code)
                    (Triple-bind
                      (Triple-read (λ _ k. k.0) (choose_sort_order-Keeps Named.accounts u _ _))
                      λ order. Triple-bind (insert_account-Triple u n cleaned order) λ row.
                        Triple-Keeps (search (keeps_rules, log, home_balance-Keeps) depth 12)))

    fetch_account-HasUniqueNames : (u i : ℕ) → Keeps P (fetch_account c h u i)
    unfolding fetch_account
    fetch_account-HasUniqueNames u i =
        search (keeps_rules, fetch_owned_row_or_404-Keeps, fetch_balance-Keeps, home_balance-Keeps)
          depth 12

    -- The balance and its conversion are read between the check and the write.
    figures-Triple :
        {A : Type 0} (Q : Db → Type 0) (u i : ℕ) (code : Text) (k : ℤ → Option ℤ → Exec A)
        → ((db : Db) → Q db → P db)
        → ((balance : ℤ) (home : Option ℤ) → Triple Q (k balance home) (λ _. P) P)
        → Triple Q
            (fetch_balance u i >>= λ balance. home_balance u code balance >>= k balance)
            (λ _. P)
            P
    figures-Triple Q u i code k safe t =
        Triple-bind (Triple-read safe (fetch_balance-Keeps u i)) λ balance.
          Triple-bind (Triple-read safe (home_balance-Keeps h u code balance))
            λ home. t balance home

    update_nonempty-HasUniqueNames :
        (u i : ℕ) (fields : NamedFields) → Keeps P (update_nonempty c h u i fields)
    unfolding update_nonempty
    update_nonempty-HasUniqueNames u i fields = Keeps-Triple (
        Triple-bind
          (fetch_owned_row_or_404-Triple Tables.accounts (λ _ k. k) i u Resource.account _)
          λ row.
            Triple-bind
              (check_rename-Triple c Named.accounts (λ _ k. k.0) u i (some row.currency_code) row
                fields.name _ (λ r n. Keeps-pure tt))
              λ renamed.
                figures-Triple _ u i row.currency_code _ (λ _ k. k.0.0)
                  λ balance home.
                    Triple-bind (Triple-read (λ _ k. k.0.0) (check_int4-Keeps fields.sort_order))
                      λ _.
                        Triple-bind
                          (edit-Triple c Named.accounts accounts-Lawful u i (some row.currency_code)
                            renamed _ row
                            (record {
                              id-set = λ r. refl;
                              owner-set = λ r. refl;
                              deleted-set = λ r. refl;
                              currency-set = λ r. refl;
                              name-set = λ r. refl;
                            })
                            refl)
                          λ changed. Triple-Keeps (search (keeps_rules, log) depth 8))

    pub update_account-HasUniqueNames :
        (u i : ℕ) (fields : AccountFields) → Keeps P (update_account c h u i fields)
    unfolding update_account
    update_account-HasUniqueNames u i fields =
        search
          (
            keeps_rules, validate_color-Keeps, fetch_account-HasUniqueNames,
            update_nonempty-HasUniqueNames,
          )
          depth 12

    pub delete_account-HasUniqueNames : (u i : ℕ) → Keeps P (delete_account c h u i)
    unfolding delete_account
    delete_account-HasUniqueNames u i =
        let removed =
          λ (row : Account) (f : Account → Exec Snapshot) (k : (r : Account) → Keeps P (f r)).
            soft_delete_with_audit-Keeps c Named.accounts accounts-Lawful u Resource.account row f
              k in
        search
          (
            keeps_rules, fetch_owned_row_or_404-Keeps, fetch_balance-Keeps, home_balance-Keeps,
            removed,
          )
          depth 16

    pub restore_account-HasUniqueNames : (u i : ℕ) → Keeps P (restore_account c h u i)
    unfolding restore_account
    restore_account-HasUniqueNames u i = Keeps-Triple (
        Triple-bind
          (fetch_owned_row_or_404-Triple Tables.accounts (λ _ k. k) i u Resource.account _)
          λ row.
            checked-Triple c Named.accounts (λ _ k. k.0) u row.name (some i)
              (some row.currency_code)
              (figures-Triple _ u i row.currency_code _ (λ _ k. k.0.0)
                λ balance home.
                  restore_with_audit-Triple c Named.accounts accounts-Lawful u i
                    (some row.currency_code) Resource.account row _ (λ Q r. Keeps-pure _) refl))

    pub set_account_archive-HasUniqueNames :
        (u i : ℕ) (b : Bool) → Keeps P (set_account_archive h u i b)
    unfolding set_account_archive
    set_account_archive-HasUniqueNames u i b =
        let written =
          update_returning-Keeps Tables.accounts (is_owned Tables.accounts i u) (archived b) (
            Keeps-modify _ λ db.
              untouched-HasUniqueNames c Named.accounts accounts-Lawful _ (archived b) i db
                (λ x k. ground (arith, k))
                (record {
                  id-set = λ r. refl;
                  owner-set = λ r. refl;
                  deleted-set = λ r. refl;
                  currency-set = λ r. refl;
                  name-set = λ r. refl;
                })) in
        Keeps-bind _ _ (fetch_owned_row_or_404-Keeps Tables.accounts i u Resource.account _) λ row.
          Keeps-bind _ _ (fetch_balance-Keeps u i) λ balance.
            Keeps-bind _ _ (home_balance-Keeps h u row.currency_code balance)
              λ home. Keeps-bind _ _ written λ changed. search (keeps_rules, log)
