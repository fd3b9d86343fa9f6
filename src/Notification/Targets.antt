-- ===== src/Notification/Targets.antt =====
-- internal/notification/provider.go, email_provider.go, feishu_provider.go, telegram_provider.go and
-- the helpers of provider_config.go: what a delivery needs of its target, and what is checked when a
-- channel is created. `net/url` and the environment of the process are the outside's.
pub mod Agreement
use tictick_hi.Base.{
  ℕ, String, Bool, not, true, false, ◌&&◌, ◌||◌, Option, none, some, List, [], ◌∷◌, ◌==◌,
  if◌then◌else◌, Result, ok, err, ◌>>=◌, ◌>>◌, refuse_if, str_eq, codes, trim_space, to_lower,
  has_prefix, contains_text,
}
use tictick_hi.Notification.Texts.{valid_env_name}

pub data TargetError : Type 0 where
  target_required unparsable wrong_scheme host_required recipients_required : TargetError
  username_required wrong_starttls wrong_url wrong_token wrong_api_base rejected : TargetError
  param_required env_name_required env_missing : String → TargetError
  not_registered : String → TargetError

-- A parsed URL; `query` is `Get` on its values, the empty text where there is none.
pub record Url : Type 0 where
  pub scheme : String
  pub host : String
  pub hostname : String
  pub port : String
  pub query : String → String

-- `split` is `strings.Split` at commas, and `join_port` is `net.JoinHostPort` of a URL's host name
-- with a port.
pub record Outside : Type 0 where
  pub parse_url : String → Option Url
  pub lookup_env : String → Option String
  pub split : String → List String
  pub join_port : String → String → String

abbrev pub Parsed : Type 0 → Type 0
Parsed A = Result TargetError A

abbrev pub or_unparsable : Option Url → Parsed Url
or_unparsable none = err unparsable
or_unparsable (some u) = ok u

unfoldable pub parse_target_url : Outside → String → String → Parsed Url
parse_target_url out target scheme = do
  refuse_if (str_eq (trim_space target) "") target_required
  parsed ← or_unparsable (out.parse_url target)
  refuse_if (not (str_eq parsed.scheme scheme)) wrong_scheme
  ok parsed

unfoldable pub required_param : Url → String → Parsed String
required_param url name = do
  refuse_if (str_eq (trim_space (url.query name)) "") (param_required name)
  ok (trim_space (url.query name))

unfoldable pub optional_env_reference : Url → String → Parsed String
optional_env_reference url name =
    let env_name = trim_space (url.query name) in
    if str_eq env_name ""
    then ok ""
    else if not (valid_env_name env_name)
    then err (env_name_required name)
    else ok env_name

unfoldable pub required_env_reference : Url → String → Parsed String
required_env_reference url name = do
  env_name ← optional_env_reference url name
  refuse_if (str_eq env_name "") (param_required name)
  ok env_name

abbrev pub or_missing : String → Option String → Parsed String
or_missing env_name none = err (env_missing env_name)
or_missing env_name (some value) = if str_eq value "" then err (env_missing env_name) else ok value

-- The name of a variable, and its value.
unfoldable pub optional_env : Outside → Url → String → Parsed (String × String)
optional_env out url name =
    let env_name = trim_space (url.query name) in
    if str_eq env_name ""
    then ok ("", "")
    else if not (valid_env_name env_name)
    then err (env_name_required name)
    else (do value ← or_missing env_name (out.lookup_env env_name); ok (env_name, value))

unfoldable pub required_env : Outside → Url → String → Parsed (String × String)
required_env out url name = do
  env ← optional_env out url name
  refuse_if (str_eq env.0 "") (param_required name)
  ok env

unfoldable pub named_recipients : List String → List String
named_recipients [] = []
named_recipients (part ∷ parts) =
    let rest = named_recipients parts in
    if str_eq (trim_space part) "" then rest else trim_space part ∷ rest

abbrev pub or_no_recipients : List String → Parsed (List String)
or_no_recipients [] = err recipients_required
or_no_recipients (r ∷ rs) = ok (r ∷ rs)

unfoldable pub split_recipients : Outside → String → Parsed (List String)
split_recipients out value = or_no_recipients (named_recipients (out.split value))

pub record MailMessage : Type 0 where
  pub address : String
  pub host : String
  pub from : String
  pub to : List String
  pub username : String
  pub password : String
  pub starttls_mode : String

abbrev pub starttls_of : Url → String
starttls_of url =
    if str_eq (trim_space (url.query "starttls")) ""
    then "opportunistic"
    else trim_space (url.query "starttls")

unfoldable pub check_starttls : String → Parsed (Unit {0})
check_starttls mode =
    refuse_if
      (not (str_eq mode "opportunistic")
        && (not (str_eq mode "required") && not (str_eq mode "disabled")))
      wrong_starttls

unfoldable pub parse_email_target : Outside → String → Parsed MailMessage
parse_email_target out target = do
  parsed ← parse_target_url out target "smtp"
  refuse_if (str_eq parsed.host "") host_required
  from ← required_param parsed "from"
  to_value ← required_param parsed "to"
  recipients ← split_recipients out to_value
  username ← optional_env out parsed "username_env"
  password ← optional_env out parsed "password_env"
  refuse_if (not (str_eq password.1 "") && str_eq username.1 "") username_required
  check_starttls (starttls_of parsed)
  ok (record {
    address = if str_eq parsed.port "" then out.join_port parsed.hostname "587" else parsed.host;
    host = parsed.hostname;
    from = from;
    to = recipients;
    username = username.1;
    password = password.1;
    starttls_mode = starttls_of parsed;
  })

unfoldable pub validate_email_target_syntax : Outside → String → Parsed (Unit {0})
validate_email_target_syntax out target = do
  parsed ← parse_target_url out target "smtp"
  refuse_if (str_eq parsed.host "") host_required
  from ← required_param parsed "from"
  to_value ← required_param parsed "to"
  recipients ← split_recipients out to_value
  username_env ← optional_env_reference parsed "username_env"
  password_env ← optional_env_reference parsed "password_env"
  refuse_if (not (str_eq password_env "") && str_eq username_env "") username_required
  check_starttls (starttls_of parsed)

abbrev pub is_http : String → Bool
is_http url = has_prefix url "http://" || has_prefix url "https://"

unfoldable pub parse_feishu_target : Outside → String → Parsed String
parse_feishu_target out target = do
  parsed ← parse_target_url out target "feishu"
  env ← required_env out parsed "url_env"
  refuse_if (not (is_http env.1)) wrong_url
  ok env.1

unfoldable pub validate_feishu_target_syntax : Outside → String → Parsed (Unit {0})
validate_feishu_target_syntax out target = do
  parsed ← parse_target_url out target "feishu"
  env_name ← required_env_reference parsed "url_env"
  ok tt

pub record TelegramTarget : Type 0 where
  pub chat_id : String
  pub token : String
  pub api_base : String

-- `strings.ContainsAny(token, " \t\r\n/")`
unfoldable pub has_token_break : List ℕ → Bool
has_token_break [] = false
has_token_break (c ∷ cs) =
    (c == 32 || (c == 9 || (c == 13 || (c == 10 || c == b'/')))) || has_token_break cs

abbrev pub api_base_of : Url → String
api_base_of url =
    if str_eq (trim_space (url.query "api_base")) ""
    then "https://api.telegram.org"
    else trim_space (url.query "api_base")

unfoldable pub parse_telegram_target : Outside → String → Parsed TelegramTarget
unfolding has_token_break
parse_telegram_target out target = do
  parsed ← parse_target_url out target "telegram"
  chat_id ← required_param parsed "chat_id"
  token ← required_env out parsed "token_env"
  refuse_if (has_token_break (codes token.1)) wrong_token
  refuse_if (not (is_http (api_base_of parsed))) wrong_api_base
  ok (record { chat_id = chat_id; token = token.1; api_base = api_base_of parsed })

unfoldable pub validate_telegram_target_syntax : Outside → String → Parsed (Unit {0})
validate_telegram_target_syntax out target = do
  parsed ← parse_target_url out target "telegram"
  chat_id ← required_param parsed "chat_id"
  env_name ← required_env_reference parsed "token_env"
  let api_base = trim_space (parsed.query "api_base")
  refuse_if (not (str_eq api_base "") && not (is_http api_base)) wrong_api_base

unfoldable pub validate_webhook_target : Outside → String → Parsed (Unit {0})
validate_webhook_target out target = do
  refuse_if (str_eq target "") target_required
  parsed ← or_unparsable (out.parse_url target)
  refuse_if (not (str_eq parsed.scheme "http") && not (str_eq parsed.scheme "https")) wrong_scheme
  refuse_if (str_eq parsed.host "") host_required

-- `DemoProvider.Deliver`
unfoldable pub deliver_demo : String → Parsed (Unit {0})
deliver_demo target = do
  refuse_if (str_eq target "") target_required
  refuse_if (contains_text (to_lower target) "fail") rejected

unfoldable pub validate_demo_target_syntax : String → Parsed (Unit {0})
validate_demo_target_syntax target = refuse_if (str_eq (trim_space target) "") target_required

abbrev pub drop_value : {A : Type 0} → Parsed A → Parsed (Unit {0})
drop_value (ok a) = ok tt
drop_value (err e) = err e

unfoldable pub validate_provider_target : Outside → String → String → Parsed (Unit {0})
validate_provider_target out provider target =
    if str_eq provider "local" || str_eq provider "webhook-demo"
    then deliver_demo target
    else if str_eq provider "webhook"
    then validate_webhook_target out target
    else if str_eq provider "email"
    then drop_value (parse_email_target out target)
    else if str_eq provider "feishu"
    then drop_value (parse_feishu_target out target)
    else if str_eq provider "telegram"
    then drop_value (parse_telegram_target out target)
    else err (not_registered provider)

unfoldable pub validate_provider_target_syntax : Outside → String → String → Parsed (Unit {0})
validate_provider_target_syntax out provider target =
    if str_eq provider "local" || str_eq provider "webhook-demo"
    then validate_demo_target_syntax target
    else if str_eq provider "webhook"
    then validate_webhook_target out target
    else if str_eq provider "email"
    then validate_email_target_syntax out target
    else if str_eq provider "feishu"
    then validate_feishu_target_syntax out target
    else if str_eq provider "telegram"
    then validate_telegram_target_syntax out target
    else err (not_registered provider)
