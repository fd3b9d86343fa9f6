-- ===== src/Notification/Texts.antt =====
-- internal/notification/provider_config.go and provider_result.go: the texts and headers that are
-- sent. A slice of a text by bytes is one by runes here, which is the same for ASCII.
use tictick_hi.Base.{
  ℕ, String, Bool, not, true, false, ◌&&◌, ◌||◌, List, [], ◌∷◌, leb, ◌==◌, length, take, drop,
  if◌then◌else◌, str_eq, codes, append, bounded_text, trim_space, to_lower,
}

abbrev pub max_notification_title_length : ℕ
max_notification_title_length = 200

abbrev pub max_notification_body_length : ℕ
max_notification_body_length = 4000

abbrev pub max_notification_text_length : ℕ
max_notification_text_length = 4096

abbrev pub max_provider_message_id_length : ℕ
max_provider_message_id_length = 256

unfoldable pub notification_title : String → String
notification_title title = bounded_text title max_notification_title_length

unfoldable pub notification_body : String → String
notification_body body = bounded_text body max_notification_body_length

abbrev pub joined_text : String → String → String
joined_text title body =
    if str_eq title ""
    then body
    else if str_eq body ""
    then title
    else append title (append "\n\n" body)

unfoldable pub notification_text : String → String → String
unfolding notification_title notification_body
notification_text title body =
    bounded_text (joined_text (notification_title title) (notification_body body))
      max_notification_text_length

unfoldable pub normalize_provider_message_id : String → String
normalize_provider_message_id value = bounded_text value max_provider_message_id_length

-- `strings.ContainsAny(value, "\r\n")`
unfoldable pub has_line_break : List ℕ → Bool
has_line_break [] = false
has_line_break (c ∷ cs) = (c == 13 || c == 10) || has_line_break cs

unfoldable pub safe_request_id_header_value : String → String
unfolding has_line_break
safe_request_id_header_value request_id =
    let value = trim_space request_id in
    if str_eq value "" || has_line_break (codes value) then "" else value

abbrev pub is_digit : ℕ → Bool
is_digit c = leb b'0' c && leb c b'9'

unfoldable pub is_lower_hex : List ℕ → Bool
is_lower_hex [] = true
is_lower_hex (c ∷ cs) = (is_digit c || (leb b'a' c && leb c b'f')) && is_lower_hex cs

unfoldable pub is_all_zero : List ℕ → Bool
is_all_zero [] = true
is_all_zero (c ∷ cs) = c == b'0' && is_all_zero cs

-- `value[from:to]`
abbrev pub slice : ℕ → ℕ → List ℕ → List ℕ
slice from count cs = take count (drop from cs)

-- `value[at] == c`
abbrev pub is_at : ℕ → ℕ → List ℕ → Bool
is_at at c cs = is_only (slice at 1 cs)
  where
    is_only : List ℕ → Bool
    is_only [] = false
    is_only (d ∷ ds) = c == d

-- The tests of a version 00 trace parent: its length, its dashes, and its three fields.
unfoldable pub is_trace_parent : List ℕ → Bool
unfolding is_lower_hex is_all_zero
is_trace_parent cs =
    length cs == 55
    && is_all_zero (slice 0 2 cs)
    && is_at 2 b'-' cs
    && is_at 35 b'-' cs
    && is_at 52 b'-' cs
    && is_lower_hex (slice 3 32 cs)
    && is_lower_hex (slice 36 16 cs)
    && is_lower_hex (drop 53 cs)
    && not (is_all_zero (slice 3 32 cs))
    && not (is_all_zero (slice 36 16 cs))

unfoldable pub safe_trace_parent_header_value : String → String
unfolding is_trace_parent
safe_trace_parent_header_value traceparent =
    let value = to_lower (trim_space traceparent) in
    if is_trace_parent (codes value) then value else ""

abbrev pub is_head : ℕ → Bool
is_head c = c == b'_' || ((leb b'A' c && leb c b'Z') || (leb b'a' c && leb c b'z'))

unfoldable pub is_env_body : List ℕ → Bool
is_env_body [] = true
is_env_body (c ∷ cs) = (is_head c || is_digit c) && is_env_body cs

abbrev pub is_env_name : List ℕ → Bool
is_env_name [] = false
is_env_name (c ∷ cs) = is_head c && is_env_body cs

unfoldable pub valid_env_name : String → Bool
unfolding is_env_body
valid_env_name value = is_env_name (codes value)
