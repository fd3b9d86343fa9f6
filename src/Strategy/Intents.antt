-- ===== src/Strategy/Intents.antt =====
-- internal/strategy/runtime.go, `Intent`. The payload, which no decision reads, is left out.
use tictick_hi.Base.{ℕ, String}

pub record Intent : Type 0 where
  pub id : String
  pub intent_type : String
  pub side : String
  pub price : String
  pub quantity : String
  pub message : String
  pub occurred_at : ℕ

-- registry.go
abbrev pub intent_type_order : String
intent_type_order = "order"

abbrev pub intent_type_notification : String
intent_type_notification = "notification"
