-- ===== src/Changefeed/Event.antt =====
-- ChangefeedEvent of include/changefeed/changefeed_engine.h.
use origindb.Prelude.{ℕ, Text, ascii}

-- `operation` is the text "INSERT", "UPDATE" or "DELETE" for the engine's own events.
pub record ChangefeedEvent : Type 0 where
  pub offset : ℕ
  pub transaction_id : Text
  pub table : Text
  pub operation : Text
  pub key : Text
  pub old_value : Text
  pub new_value : Text
  pub timestamp : ℕ

abbrev pub insert_text : Text
insert_text = ascii "INSERT"

abbrev pub update_text : Text
update_text = ascii "UPDATE"

abbrev pub delete_text : Text
delete_text = ascii "DELETE"
