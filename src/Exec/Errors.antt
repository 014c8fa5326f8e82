-- ===== src/Exec/Errors.antt =====
-- app/errors.py: the error envelope and its factories. A message is named, not spelled.
use expense_world_engine.Base.{ℕ, List, [], ◌∷◌}
use expense_world_engine.Schema.{Resource}

pub data Code : Type 0 where
  unauthorized_code not_found_code validation_code forbidden_code conflict_code : Code
  settings_missing_code internal_error_code : Code

-- The request fields that an error names.
pub data Field : Type 0 where
  id title amount_cents date account_id category_id reconciliation_id hashtag_ids : Field
  transactions transaction_type name color date_start date_end : Field
  beginning_balance_cents ending_balance_cents currency_code user_settings : Field

pub data Msg : Type 0 where
  missing : Resource → Msg
  already_exists name_exists changed_concurrently : Msg
  not_empty not_zero not_future hex_color not_null : Msg
  active_account active_category user_category : Msg
  locked_by_completed locked_while_completed delete_of_completed : Msg
  must_be_active_reconciliation account_mismatch assign_to_completed : Msg
  invalid_hashtags not_untitled missing_direction : Msg
  duplicate_in_batch at_least_one reserved_name referenced system_row : Msg
  key_reused not_replayable unexpected : Msg
  has_opening_balance person_account immutable_currency : Msg
  unsupported_currency seeding_raced squatted_name no_settings no_user_settings : Msg
  validation_failed not_ready prerequisites_failed : Msg

pub data Fields : Type 0 where
  null : Fields
  object : List (Field × Msg) → Fields
  items : List (ℕ × List (Field × Msg)) → Fields
  invalid_ids : List ℕ → Fields

pub record AppError : Type 0 where
  pub status_code : ℕ
  pub code : Code
  pub message : Msg
  pub fields : Fields

abbrev pub not_found : Resource → AppError
not_found r = record {
  status_code = 404;
  code = not_found_code;
  message = missing r;
  fields = null;
}

abbrev pub validation_error : Msg → List (Field × Msg) → AppError
validation_error m fs = record {
  status_code = 422;
  code = validation_code;
  message = m;
  fields = object fs;
}

abbrev pub forbidden : Msg → AppError
forbidden m = record { status_code = 403; code = forbidden_code; message = m; fields = null }

abbrev pub conflict : Msg → AppError
conflict m = record { status_code = 409; code = conflict_code; message = m; fields = null }

pub data Result (A : Type 0) : Type 0 where
  ok : A → Result A
  err : AppError → Result A

-- `{"hashtag_ids": "Invalid IDs: …"}`
abbrev pub invalid_id_error : List ℕ → AppError
invalid_id_error ids = record {
  status_code = 422;
  code = validation_code;
  message = invalid_hashtags;
  fields = invalid_ids ids;
}

-- An error of the database that no handler translates: `unhandled_exception_handler`.
abbrev pub internal_error : AppError
internal_error = record {
  status_code = 500;
  code = internal_error_code;
  message = unexpected;
  fields = null;
}

abbrev pub settings_missing : AppError
settings_missing = record {
  status_code = 422;
  code = settings_missing_code;
  message = no_settings;
  fields = object ((user_settings, no_user_settings) ∷ []);
}
