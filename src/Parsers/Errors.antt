-- ===== src/Parsers/Errors.antt =====
-- The exceptions of the parsers. `invalid_url` is a ValueError of urllib, `infinite_rate` the
-- OverflowError of `int(float("inf"))`; the others are the parsers' own ValueErrors.
use local_singbox_manager.Common.{String, Option, none, some, List}
use local_singbox_manager.Common.Results.{Result, ok, err}

pub data ParseError : Type 0 where
  invalid_url : ParseError
  unexpected_scheme : String → ParseError
  missing_uuid missing_server missing_port missing_auth : ParseError
  infinite_rate : ParseError
  unsupported_scheme : List String → ParseError

-- a value that must be there
abbrev pub require : ParseError → Option String → Result ParseError String
require e none = err e
require e (some s) = ok s

-- the query of a URL: the first value of each key
abbrev pub Params : Type 0
Params = List (String × (String × List String))
