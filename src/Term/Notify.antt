-- ===== src/Term/Notify.antt =====
-- crates/octty-term/src/live_notifications.rs: what the text of an operating system command (OSC) says.
use package.octty.Base.{
  ℕ, Text, codes, text_eq, starts_with, strip_prefix, contains, eq_ignore_ascii_case, trim,
  is_control,
}
use package.octty.Base.{
  split, split_once, splitn, Bool, false, not, ◌&&◌, ◌||◌, ◌==◌, Option, none, some, or_else,
}
use package.octty.Base.{
  option_map, List, [], ◌∷◌, ◌++◌, keep, choose, is_empty, one_of, if◌then◌else◌,
}
use package.octty.Base.Bytes.{from_utf8_lossy}
use package.octty.Base.Decimal.{parse_i32}

pub record TerminalNotification : Type 0 where
  pub title : Text
  pub body : Text

unfoldable pub sanitize_terminal_notification_text : Text → Text
unfolding is_control trim
sanitize_terminal_notification_text text =
    trim (keep (λ c. not (is_control c) || (c == 10 || c == 9)) text)

unfoldable pub terminal_notification_from_parts : Text → Text → Option TerminalNotification
unfolding sanitize_terminal_notification_text
terminal_notification_from_parts raw_title raw_body =
    let title = sanitize_terminal_notification_text raw_title in
    let body = sanitize_terminal_notification_text raw_body in
    if is_empty title && is_empty body
    then none
    else some (record { title = if is_empty title then codes "Terminal" else title; body = body })

-- A `HashMap` collected from pairs: of two equal keys the later one counts.
abbrev get_field : Text → List (Text × Text) → Option Text
get_field key [] = none
get_field key ((k, v) ∷ fields) =
    or_else (get_field key fields) (if text_eq k key then some v else none)

unfoldable pub terminal_metadata_fields : Text → List (Text × Text)
unfolding split split_once
terminal_metadata_fields metadata = choose (split_once b'=') (split b';' metadata)

unfoldable pub command_exit_status : List (Text × Text) → Option Text
unfolding text_eq
command_exit_status fields =
    or_else (get_field (codes "status") fields)
      (or_else (get_field (codes "exit_code") fields) (get_field (codes "exitcode") fields))

unfoldable pub terminal_command_end_metadata : Text → Option Text
unfolding text_eq strip_prefix
terminal_command_end_metadata command =
    if one_of command (codes "133;D" ∷ codes "633;D" ∷ [])
    then some []
    else or_else (strip_prefix (codes "133;D;") command) (strip_prefix (codes "633;D;") command)

abbrev is_zero : Option Text → Bool
is_zero none = false
is_zero (some status) = text_eq status (codes "0")

-- The test for a command that ended well, of the trimmed metadata.
unfoldable pub command_succeeded : Text → Bool
unfolding text_eq eq_ignore_ascii_case contains command_exit_status terminal_metadata_fields
command_succeeded metadata =
    is_empty metadata
    || text_eq metadata (codes "0")
    || eq_ignore_ascii_case metadata (codes "success")
    || contains metadata (codes "exit=success")
    || is_zero (command_exit_status (terminal_metadata_fields metadata))

abbrev failure_body : Option Text → Option Text → Text
failure_body (some status) (some signal) =
    codes "Exited with status " ++ status ++ codes " (" ++ signal ++ codes ")."
failure_body (some status) none = codes "Exited with status " ++ status ++ codes "."
failure_body none (some signal) = codes "Exited with signal " ++ signal ++ codes "."
failure_body none none = codes "Command exited unsuccessfully."

unfoldable pub terminal_command_end_notification : Text → Option TerminalNotification
unfolding command_succeeded terminal_notification_from_parts parse_i32 trim
terminal_command_end_notification raw_metadata =
    let metadata = trim raw_metadata in
    let fields = terminal_metadata_fields metadata in
    let status =
      or_else (command_exit_status fields) (option_map (λ _. metadata) (parse_i32 metadata)) in
    if command_succeeded metadata
    then terminal_notification_from_parts (codes "Command finished") (codes "Command completed.")
    else terminal_notification_from_parts (codes "Command needs attention")
        (failure_body status (get_field (codes "signal") fields))

-- The tail of the parse: `777;notify;title;body`, and nothing else.
abbrev notify_parts : List Text → Option TerminalNotification
notify_parts [] = none
notify_parts (code ∷ []) = none
notify_parts (code ∷ (action ∷ [])) =
    if text_eq code (codes "777") && text_eq action (codes "notify")
    then terminal_notification_from_parts (codes "Terminal") []
    else none
notify_parts (code ∷ (action ∷ (title ∷ []))) =
    if text_eq code (codes "777") && text_eq action (codes "notify")
    then terminal_notification_from_parts title []
    else none
notify_parts (code ∷ (action ∷ (title ∷ (body ∷ rest)))) =
    if text_eq code (codes "777") && text_eq action (codes "notify")
    then terminal_notification_from_parts title body
    else none

abbrev after_prefix : Text → Option Text → Option TerminalNotification
after_prefix command (some metadata) = terminal_command_end_notification metadata
after_prefix command none = notify_parts (splitn 4 b';' command)

abbrev plain_message : Text → Option Text → Option TerminalNotification
plain_message command (some message) =
    if text_eq message (codes "4") || starts_with message (codes "4;")
    then none
    else terminal_notification_from_parts (codes "Terminal") message
plain_message command none = after_prefix command (terminal_command_end_metadata command)

unfoldable pub parse_terminal_osc_notification : List ℕ → Option TerminalNotification
unfolding from_utf8_lossy terminal_command_end_notification terminal_command_end_metadata splitn
    starts_with
parse_terminal_osc_notification bytes =
    let command = from_utf8_lossy bytes in plain_message command (strip_prefix (codes "9;") command)

unfoldable pub should_strip_terminal_osc_sequence : List ℕ → Bool
unfolding from_utf8_lossy starts_with
should_strip_terminal_osc_sequence bytes =
    let command = from_utf8_lossy bytes in
    starts_with command (codes "133;") || starts_with command (codes "633;")
