-- ===== src/Services/LogInsights.antt =====
-- app/services/log_insights.py: the problems of a log, each with its count.
pub mod Laws
use local_singbox_manager.Common.{
  ℕ, suc, ◌+◌, String, Bool, true, false, not, ◌&&◌, ◌||◌, Option, none, some, List, [], ◌∷◌, ◌++◌,
  ◌⧺◌, ◌==◌, ◌=ℕ◌, is_blank, is_space, map, filter, join, take, contains, starts_with, strip, ltb,
  take_text, drop_text, text_length, if◌then◌else◌,
}
use local_singbox_manager.Common.Python.{Python}
use local_singbox_manager.Common.Sorting.{sort_with, text_leb}

pub record LogInsight : Type 0 where
  pub kind : String
  pub reason : String
  pub count : ℕ
  pub last_seen : String
  pub protocol : Option String
  pub outbound_tag : Option String
  pub target : Option String

-- the groups that `_OPEN_CONNECTION_RE` finds
pub record OpenConnection : Type 0 where
  pub to : String
  pub by : String
  pub tag : String
  pub why : String

-- what the regular expressions find in a text
pub record Patterns : Type 0 where
  pub open_connection : String → Option OpenConnection
  pub closed_reason : String → Option String
  pub dial_timeout : String → Option String
  pub dns : String → Option (String × String)
  pub unsupported_udp : String → Option String

-- the words of a text: `s.split()`
unfoldable pub words_from : String → String → List String
words_from word String.[] = if is_blank word then [] else word ∷ []
words_from word (String.◌∷◌ c s) =
    let next = words_from "" s in
    let longer = words_from (word ⧺ String.◌∷◌ c String.[]) s in
    if is_space c then (if is_blank word then next else word ∷ next) else longer

abbrev words : String → List String
words s = words_from "" s

abbrev first_or_blank : List String → String
first_or_blank [] = ""
first_or_blank (word ∷ rest) = word

unfoldable pub strip_reason_wrapper : String → String
strip_reason_wrapper text =
    if starts_with text "remote error: "
    then drop_text 14 text
    else if starts_with text "remote: "
    then drop_text 8 text
    else text

abbrev pub same_option : Option String → Option String → Bool
same_option none none = true
same_option (some s) (some t) = s == t
same_option _ _ = false

-- the keys of the buckets agree
abbrev pub same_key : LogInsight → LogInsight → Bool
same_key a b =
    a.kind == b.kind
    && (same_option a.protocol b.protocol
        && (same_option a.outbound_tag b.outbound_tag
            && (same_option a.target b.target && a.reason == b.reason)))

-- `max(a, b)` of texts
abbrev later : String → String → String
later a b = if text_leb b a then a else b

abbrev pub counted : LogInsight → LogInsight → LogInsight
counted old new = record old {
  count = suc old.count;
  last_seen = later old.last_seen new.last_seen;
}

-- one line put into the buckets, which stay in the order of their first lines
unfoldable pub add_insight : LogInsight → List LogInsight → List LogInsight
add_insight parsed [] = parsed ∷ []
add_insight parsed (bucket ∷ buckets) =
    let rest = add_insight parsed buckets in
    if same_key bucket parsed then counted bucket parsed ∷ buckets else bucket ∷ rest

-- `(count, last_seen)`, the largest first
abbrev pub more_urgent : LogInsight → LogInsight → Bool
more_urgent a b = ltb b.count a.count || b.count =ℕ a.count && text_leb b.last_seen a.last_seen

module _ ⦃py : Python⦄ (re : Patterns) where
  abbrev found : Option String → Bool
  found none = false
  found (some s) = true

  unfoldable pub normalize_reason : String → String
  unfolding strip_reason_wrapper
  normalize_reason reason =
      let text = strip_reason_wrapper (join " " (words (strip reason))) in
      if contains text "no recent network activity"
      then "timeout: no recent network activity"
      else if contains text "read response: EOF"
      then "dns response EOF"
      else if found (re.dial_timeout text)
      then "remote dial timeout"
      else if contains text "canceled by remote"
      then "stream canceled by remote"
      else if contains text "operation was canceled"
      then "operation canceled"
      else take_text 160 text

  -- a line that a pattern matches has a word
  unfoldable pub timestamp_hint : String → String
  timestamp_hint line =
      let first = first_or_blank (words line) in
      if not (is_blank first) && py.isdigit (take_text 1 first) then first else ""

  abbrev insight : String → String → String → LogInsight
  insight line kind reason = record {
    kind = kind;
    reason = reason;
    count = 1;
    last_seen = timestamp_hint line;
    protocol = none;
    outbound_tag = none;
    target = none;
  }

  abbrev pub parse_udp : String → Option String → Option LogInsight
  parse_udp line none = none
  parse_udp line (some tag) =
      some (record (insight line "routing" "UDP is not supported by outbound") {
        outbound_tag = some (strip tag);
      })

  abbrev pub parse_dns : String → Option (String × String) → Option LogInsight
  parse_dns line none = parse_udp line (re.unsupported_udp line)
  parse_dns line (some (target, reason)) =
      some (record (insight line "dns" (normalize_reason reason)) { target = some (strip target) })

  abbrev pub parse_closed : String → Option String → Option LogInsight
  parse_closed line none = parse_dns line (re.dns line)
  parse_closed line (some reason) =
      some (record (insight line "connection" (normalize_reason reason)) {
        target = re.dial_timeout reason;
      })

  abbrev pub parse_open : String → Option OpenConnection → Option LogInsight
  parse_open line none = parse_closed line (re.closed_reason line)
  parse_open line (some connection) =
      some (record (insight line "connection" (normalize_reason connection.why)) {
        protocol = some (strip connection.by);
        outbound_tag = some (strip connection.tag);
        target = some (strip connection.to);
      })

  unfoldable pub parse_line : String → Option LogInsight
  unfolding normalize_reason timestamp_hint
  parse_line line = parse_open line (re.open_connection line)

  abbrev pub add_line : Option LogInsight → List LogInsight → List LogInsight
  add_line none buckets = buckets
  add_line (some parsed) buckets = add_insight parsed buckets

  -- the loop over the lines
  unfoldable pub buckets_of : List String → List LogInsight → List LogInsight
  unfolding parse_line add_insight
  buckets_of [] buckets = buckets
  buckets_of (line ∷ lines) buckets = buckets_of lines (add_line (parse_line line) buckets)

  unfoldable pub summarize_problem_logs : List String → ℕ → List LogInsight
  unfolding buckets_of
  summarize_problem_logs lines limit = take limit (sort_with more_urgent (buckets_of lines []))
