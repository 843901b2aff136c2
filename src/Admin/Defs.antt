-- ===== src/Admin/Defs.antt =====
-- The state behind the admin interface, and its answers. The text of a message is left out.
use gptload_rs.Prelude.{ℕ, List}
use gptload_rs.Prelude.Int.{ℤ}
use gptload_rs.Prelude.Text.{Str}
use gptload_rs.State.Defs.{RouterState}
use gptload_rs.Billing.{BillingStore}

-- `D` is the database of the keys.
pub record Backend (D : Type 0) : Type 0 where
  pub router : RouterState
  pub billing : BillingStore
  pub db : D

-- The code of a JSON error.
pub data Code : Type 0 where
  bad_request not_found internal_error admin_unauthorized : Code
  key_exists key_not_found billing_error method_not_allowed : Code

-- `KeyInfo`, with its status as whether the key is banned.
pub record KeyInfo : Type 0 where
  pub key : Str
  pub cooldown_until_ms : ℕ
  pub cooldown_remaining_ms : ℤ
  pub fail_streak : ℕ
  pub status : Str

pub data Response : Type 0 where
  json_error : (status : ℕ) → Code → Response
  keys_added : (inserted existed keys_total : ℕ) → Response
  keys_replaced : (keys_total : ℕ) → Response
  keys_removed : (removed keys_total : ℕ) → Response
  key_page : (total offset limit now_ms : ℕ) (keys : List KeyInfo) → Response
  balance_created : (key : Str) (balance : ℤ) → Response
  balance_found : (key : Str) (balance : ℤ) → Response
  balance_adjusted : (key : Str) (delta balance : ℤ) → Response
