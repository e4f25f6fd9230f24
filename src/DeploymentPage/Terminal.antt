-- ===== src/DeploymentPage/Terminal.antt =====
-- apps/web/components/project/TerminalLogs.tsx: the kinds of log entries, and which are shown.
use code2cloud.Prelude.{
  ℕ, suc, ◌+◌, String, Bool, true, false, not, ◌||◌, ◌≡◌, refl, ◌==◌, List, [], ◌∷◌, any, filter,
  length, if◌then◌else◌, arith, ap,
}
use code2cloud.Schema.{LogEntry, LogSource, system}
use code2cloud.Frameworks.{starts_with, includes}

pub data LogType : Type 0 where
  info success error warning : LogType

abbrev pub is_system : LogSource → Bool
is_system system = true
is_system _ = false

abbrev pub has_prefix : String → List String → Bool
has_prefix message prefixes = any (λ p. starts_with p message) prefixes

abbrev pub has_word : String → List String → Bool
has_word message words = any (λ t. includes message t) words

-- `getLogType`
unfoldable pub get_log_type : LogSource → String → LogType
get_log_type source message =
    if has_prefix message ("✗" ∷ "ERROR" ∷ []) || has_word message ("failed" ∷ "error" ∷ [])
    then error
    else if has_prefix message ("⚠" ∷ "WARN" ∷ []) || has_word message ("warning" ∷ [])
    then warning
    else if has_prefix message ("✓" ∷ "✅" ∷ []) || has_word message ("complete" ∷ "success" ∷ [])
    then success
    else if is_system source
    then warning
    else info

abbrev pub type_name : LogType → String
type_name info = "info"
type_name success = "success"
type_name error = "error"
type_name warning = "warning"

abbrev pub type_of : LogEntry → LogType
type_of l = get_log_type l.source l.message

abbrev pub has_type : LogType → LogEntry → Bool
has_type t l = type_name (type_of l) == type_name t

-- The stats of the header.
abbrev pub count_of : LogType → List LogEntry → ℕ
count_of t logs = length (filter (has_type t) logs)

-- An entry of a type in front of what a filter shows.
abbrev shown : LogEntry → LogType → String → List LogEntry → List LogEntry
shown l t chosen rest =
    if (if not (chosen == "all" || type_name t == chosen) then false else true)
    then l ∷ rest
    else rest

one_more :
    (l : LogEntry) (t : LogType) (a b c d : List LogEntry) (n : ℕ)
    → length a + length b + length c + length d ≡ n
    → length (shown l t "info" a)
        + length (shown l t "success" b)
        + length (shown l t "error" c)
        + length (shown l t "warning" d)
      ≡ suc n
one_more l info a b c d n h = omega (arith, h)
one_more l success a b c d n h = omega (arith, h)
one_more l error a b c d n h = omega (arith, h)
one_more l warning a b c d n h = omega (arith, h)

module _ (to_lower_case : String → String) where
  abbrev pub matches_query : String → LogEntry → Bool
  matches_query query l = query == "" || includes (to_lower_case l.message) (to_lower_case query)

  abbrev pub matches_filter : String → LogEntry → Bool
  matches_filter chosen l = chosen == "all" || type_name (type_of l) == chosen

  -- `filteredLogs`
  unfoldable pub filtered_logs : (chosen query : String) → List LogEntry → List LogEntry
  filtered_logs chosen query logs =
      filter (λ l. if not (matches_filter chosen l) then false else matches_query query l) logs

  -- Without a query every entry is shown under "all", and under one of the four other filters.
  pub filtered_logs_lem :
      (logs : List LogEntry)
      → (filtered_logs "all" "" logs ≡ logs)
        × (length (filtered_logs "info" "" logs)
              + length (filtered_logs "success" "" logs)
              + length (filtered_logs "error" "" logs)
              + length (filtered_logs "warning" "" logs)
            ≡ length logs)
  unfolding filtered_logs
  filtered_logs_lem [] = (refl, refl)
  filtered_logs_lem (l ∷ logs) =
      let (same, counted) = filtered_logs_lem logs in
      (
        ap (λ rest. l ∷ rest) same,
        one_more l (type_of l) (filtered_logs "info" "" logs) (filtered_logs "success" "" logs)
            (filtered_logs "error" "" logs) (filtered_logs "warning" "" logs) (length logs) counted,
      )
