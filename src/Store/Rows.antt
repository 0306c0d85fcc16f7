-- ===== src/Store/Rows.antt =====
-- What the queries and the services share.
use local_singbox_manager.Common.{ℕ, Bool, false, Option, none, some, ◌=ℕ◌}

-- An exception that no handler of the program catches: `int` of a text that is no number.
pub data Crash : Type 0 where
  value_error : Crash

-- `column IS NOT NULL AND column = value`
abbrev pub is_id : Option ℕ → ℕ → Bool
is_id none n = false
is_id (some m) n = m =ℕ n
