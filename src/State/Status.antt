-- ===== src/State/Status.antt =====
-- `http::StatusCode`, which state.rs and proxy.rs only inspect. The crate's `is_success`,
-- `is_redirection`, `is_client_error` and `is_server_error` sort the codes into disjoint classes;
-- which class a code belongs to comes with the code.
use gptload_rs.Prelude.{ℕ, Bool, true, false, ◌==◌}

pub data StatusClass : Type 0 where
  informational success redirection client_error server_error other : StatusClass

pub record StatusCode : Type 0 where
  pub as_u16 : ℕ
  pub class : StatusClass

abbrev pub is_success : StatusClass → Bool
is_success success = true
is_success _ = false

abbrev pub is_redirection : StatusClass → Bool
is_redirection redirection = true
is_redirection _ = false

abbrev pub is_client_error : StatusClass → Bool
is_client_error client_error = true
is_client_error _ = false

abbrev pub is_server_error : StatusClass → Bool
is_server_error server_error = true
is_server_error _ = false

-- `status == http::StatusCode::…` at a constant's number.
abbrev pub has_code : StatusCode → ℕ → Bool
has_code status n = status.as_u16 == n
