-- ===== src/Common/Python.antt =====
-- What the program takes from Python's library and is not modelled in full: case mapping and digits
-- by Unicode's tables, numbers and JSON as text, and URLs taken apart. The theorems hold whatever
-- these functions are, unless a hypothesis says more.
use Prim.Native.Nat.{ℕ}
use Prim.Native.String.{String}
use mathlib.Core.Bool.{Bool}
use mathlib.Core.Option.{Option}
use mathlib.Core.List.{List}
use local_singbox_manager.Common.Json.{ℤ, Json}

-- The parts of `urllib.parse.urlparse` that the parsers read. `port` is read as an attribute:
-- `none` raises ValueError, `some none` is a missing port.
pub record Url : Type 0 where
  pub scheme : String
  pub username : Option String
  pub password : Option String
  pub hostname : Option String
  pub port : Option (Option ℕ)
  pub query : String
  pub fragment : String

-- what `int(float(s))` does
pub data IntOfFloat : Type 0 where
  value : ℤ → IntOfFloat
  value_error overflow_error : IntOfFloat

-- `PurePosixPath(s)`: its parts, its last one, and its text
pub record PosixPath : Type 0 where
  pub parts : List String
  pub name : String
  pub text : String

pub record Python : Type 0 where
  -- `str.lower`, `str.upper`
  pub lower : String → String
  pub upper : String → String
  -- `str.isdigit` of a text, and `int` of a text (`none`: ValueError)
  pub isdigit : String → Bool
  pub int_of : String → Option ℤ
  pub int_of_float : String → IntOfFloat
  -- `str` of a number, and of a JSON value
  pub decimal : ℕ → String
  pub str_of : Json → String
  -- `json.loads` (`none`: ValueError) and `json.dumps`
  pub loads : String → Option Json
  pub dumps : Json → String
  -- `json.dumps(…, sort_keys=True, separators=(",", ":"), ensure_ascii=False)`
  pub dumps_canonical : Json → String
  -- `json.dumps(…, ensure_ascii=False)`, and with `indent=2`
  pub dumps_unescaped : Json → String
  pub dumps_indented : Json → String
  -- `f"{ms:.0f}"` of a duration, which the model counts in units of its own
  pub format_0f : ℕ → String
  -- `urllib.parse`: `urlparse` (`none`: ValueError), `unquote`, and `parse_qs`, which never gives a
  -- key an empty list: the first value of a key and the others
  pub urlparse : String → Option Url
  pub unquote : String → String
  pub parse_qs : String → List (String × (String × List String))
  pub posix_path : String → PosixPath
  -- `hashlib.sha256(s.encode()).hexdigest()`
  pub sha256_hex : String → String
  -- the primary key that the database gives to a new row, from those in use
  pub new_id : List ℕ → ℕ
