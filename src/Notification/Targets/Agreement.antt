-- ===== src/Notification/Targets/Agreement.antt =====
-- internal/notification: the check of a new channel, and the parse at its deliveries.
use tictick_hi.Base.{
  String, not, false, ◌&&◌, ◌||◌, ◌≡◌, refl, sym, inl, inr, Option, none, some, ok, err, refuse_if,
  >>=-eq-ok, ok-injective, subst, ap, ◌∙◌, if◌then◌else◌, codes, Bool-cases, arith, str_eq,
  trim_space,
}
use tictick_hi.Notification.Texts.{valid_env_name}
use tictick_hi.Notification.Targets.{
  Outside, Url, Parsed, MailMessage, TelegramTarget, host_required, username_required, starttls_of,
  api_base_of, is_http, has_token_break, wrong_token, wrong_api_base, param_required,
  not_registered, optional_env_reference, required_env_reference, or_missing, optional_env,
  required_env, parse_target_url, required_param, split_recipients, check_starttls,
  parse_email_target, validate_email_target_syntax, parse_feishu_target,
  validate_feishu_target_syntax, parse_telegram_target, validate_telegram_target_syntax,
  validate_demo_target_syntax, validate_provider_target, validate_provider_target_syntax,
  drop_value,
}

-- A variable that is found is a reference that is accepted, and is named exactly if it has a value.
optional_env-reference :
    (out : Outside) (url : Url) (name : String) (env : String × String)
    → optional_env out url name ≡ ok env
    → (optional_env_reference url name ≡ ok env.0) × (str_eq env.0 "" ≡ str_eq env.1 "")
unfolding optional_env optional_env_reference
optional_env-reference out url name env h =
    let env_name = trim_space (url.query name) in
    elim (Bool-cases (str_eq env_name "")) [
      | inl blank ↦
          let same : ("", "") ≡ env = ok-injective (rw blank at h) in
          subst (λ e. (optional_env_reference url name ≡ ok e.0) × (str_eq e.0 "" ≡ str_eq e.1 ""))
            same (rw blank refl, refl)
      | inr named ↦ elim (Bool-cases (valid_env_name env_name)) [
        | inr wrong ↦ cc (rw (named, wrong) at h)
        | inl valid ↦
            let (value, found, h1) =
              >>=-eq-ok (or_missing env_name (out.lookup_env env_name)) _
                (rw (named, valid) at h) in
            let same : (env_name, value) ≡ env = ok-injective h1 in
            subst
              (λ e. (optional_env_reference url name ≡ ok e.0) × (str_eq e.0 "" ≡ str_eq e.1 ""))
              same
              (
                rw (named, valid) refl,
                named ∙ sym (value_shown env_name (out.lookup_env env_name) value found),
              )
      ]
    ]
  where
    value_shown :
        (n : String) (o : Option String) (v : String) → or_missing n o ≡ ok v → str_eq v "" ≡ false
    value_shown n none v e = absurd (ground arith)
    value_shown n (some w) v e = ground arith

required_env-reference :
    (out : Outside) (url : Url) (name : String) (env : String × String)
    → required_env out url name ≡ ok env
    → required_env_reference url name ≡ ok env.0
unfolding required_env required_env_reference
required_env-reference out url name env h =
    let (found, p, h1) = >>=-eq-ok (optional_env out url name) _ h in
    let (q, shown) = optional_env-reference out url name found p in
    let (u, r, h2) = >>=-eq-ok (refuse_if (str_eq found.0 "") (param_required name)) _ h1 in
    rw (q, r) (ap (λ (e : Parsed (String × String)). drop_second e) h2)
  where
    drop_second : Parsed (String × String) → Parsed String
    drop_second (ok e) = ok e.0
    drop_second (err e) = err e

parse_email-syntax :
    (out : Outside) (target : String) (m : MailMessage)
    → parse_email_target out target ≡ ok m
    → validate_email_target_syntax out target ≡ ok tt
unfolding parse_email_target validate_email_target_syntax
parse_email-syntax out target m h =
    let (url, p1, h1) = >>=-eq-ok (parse_target_url out target "smtp") _ h in
    let (u2, p2, h2) = >>=-eq-ok (refuse_if (str_eq url.host "") host_required) _ h1 in
    let (from, p3, h3) = >>=-eq-ok (required_param url "from") _ h2 in
    let (to_value, p4, h4) = >>=-eq-ok (required_param url "to") _ h3 in
    let (recipients, p5, h5) = >>=-eq-ok (split_recipients out to_value) _ h4 in
    let (username, p6, h6) = >>=-eq-ok (optional_env out url "username_env") _ h5 in
    let (password, p7, h7) = >>=-eq-ok (optional_env out url "password_env") _ h6 in
    let (u8, p8, h8) =
      >>=-eq-ok (refuse_if (not (str_eq password.1 "") && str_eq username.1 "") username_required) _
        h7 in
    let (u9, p9, h9) = >>=-eq-ok (check_starttls (starttls_of url)) _ h8 in
    let (q6, s6) = optional_env-reference out url "username_env" username p6 in
    let (q7, s7) = optional_env-reference out url "password_env" password p7 in
    rw (p1, p2, p3, p4, p5, q6, q7, s6, s7, p8) p9

parse_feishu-syntax :
    (out : Outside) (target url : String)
    → parse_feishu_target out target ≡ ok url
    → validate_feishu_target_syntax out target ≡ ok tt
unfolding parse_feishu_target validate_feishu_target_syntax
parse_feishu-syntax out target url h =
    let (parsed, p1, h1) = >>=-eq-ok (parse_target_url out target "feishu") _ h in
    let (env, p2, h2) = >>=-eq-ok (required_env out parsed "url_env") _ h1 in
    rw (p1, required_env-reference out parsed "url_env" env p2) refl

parse_telegram-syntax :
    (out : Outside) (target : String) (t : TelegramTarget)
    → parse_telegram_target out target ≡ ok t
    → validate_telegram_target_syntax out target ≡ ok tt
unfolding parse_telegram_target validate_telegram_target_syntax
parse_telegram-syntax out target t h =
    let (parsed, p1, h1) = >>=-eq-ok (parse_target_url out target "telegram") _ h in
    let (chat_id, p2, h2) = >>=-eq-ok (required_param parsed "chat_id") _ h1 in
    let (token, p3, h3) = >>=-eq-ok (required_env out parsed "token_env") _ h2 in
    let (u4, p4, h4) = >>=-eq-ok (refuse_if (has_token_break (codes token.1)) wrong_token) _ h3 in
    let (u5, p5, h5) =
      >>=-eq-ok (refuse_if (not (is_http (api_base_of parsed))) wrong_api_base) _ h4 in
    rw (p1, p2, required_env-reference out parsed "token_env" token p3)
      (base_accepted (trim_space (parsed.query "api_base")) p5)
  where
    base_accepted :
        (base : String) {v : Unit {0}}
        → refuse_if
            (not (is_http (if str_eq base "" then "https://api.telegram.org" else base)))
            wrong_api_base
          ≡ ok v
        → refuse_if (not (str_eq base "") && not (is_http base)) wrong_api_base ≡ ok tt
    base_accepted base e = elim (Bool-cases (str_eq base "")) [
      | inl blank ↦ rw blank refl
      | inr named ↦ rw named (rw named at e)
    ]

drop_value-ok : {A : Type 0} (r : Parsed A) → drop_value r ≡ ok tt → (a : A) × (r ≡ ok a)
drop_value-ok (ok a) h = (a, refl)
drop_value-ok (err e) h = cc

-- What a provider can use, a channel may be created with: a target that is not blank and that
-- `ValidateProviderTarget` accepts, environment included, is accepted by
-- `ValidateProviderTargetSyntax` as well, whatever the provider.
pub validate_provider_target-syntax :
    (out : Outside) (provider target : String)
    → str_eq (trim_space target) "" ≡ false
    → validate_provider_target out provider target ≡ ok tt
    → validate_provider_target_syntax out provider target ≡ ok tt
unfolding validate_provider_target validate_provider_target_syntax validate_demo_target_syntax
validate_provider_target-syntax out provider target shown h =
    elim (Bool-cases (str_eq provider "local" || str_eq provider "webhook-demo")) [
      | inl demo ↦ rw (demo, shown) refl
      | inr d ↦ elim (Bool-cases (str_eq provider "webhook")) [
        | inl webhook ↦ rw (d, webhook) (rw (d, webhook) at h)
        | inr w ↦ elim (Bool-cases (str_eq provider "email")) [
          | inl email ↦
              let (m, e) = drop_value-ok (parse_email_target out target) (rw (d, w, email) at h) in
              rw (d, w, email) (parse_email-syntax out target m e)
          | inr m ↦ elim (Bool-cases (str_eq provider "feishu")) [
            | inl feishu ↦
                let (u, e) =
                  drop_value-ok (parse_feishu_target out target) (rw (d, w, m, feishu) at h) in
                rw (d, w, m, feishu) (parse_feishu-syntax out target u e)
            | inr f ↦ elim (Bool-cases (str_eq provider "telegram")) [
              | inl telegram ↦
                  let (t, e) =
                    drop_value-ok (parse_telegram_target out target)
                      (rw (d, w, m, f, telegram) at h) in
                  rw (d, w, m, f, telegram) (parse_telegram-syntax out target t e)
              | inr other ↦ absurd (rejected_provider (rw (d, w, m, f, other) at h))
            ]
          ]
        ]
      ]
    ]
  where
    rejected_provider : ¬ (◌≡◌ {A = Parsed (Unit {0})} (err (not_registered provider)) (ok tt))
    rejected_provider e = ground arith
