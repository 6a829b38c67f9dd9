-- ===== src/Redaction/Slots.antt =====
-- The conditions on the tool and the lower-cased key that server/redaction.py and runbook.py share.
use browser.Prelude.{String, Bool, ◌&&◌, [], ◌∷◌, ◌==◌, one_of}

unfoldable pub is_typed_text : String → String → Bool
is_typed_text tool lk = tool == "type" && lk == "text"

unfoldable pub is_fetch_body : String → String → Bool
is_fetch_body tool lk = one_of tool ("fetch" ∷ "http" ∷ []) && lk == "body"

unfoldable pub is_fetch_headers : String → String → Bool
is_fetch_headers tool lk = one_of tool ("fetch" ∷ "http" ∷ []) && lk == "headers"

unfoldable pub is_form_fill : String → String → Bool
is_form_fill tool lk = tool == "form" && lk == "fill"

unfoldable pub is_cookie_value : String → String → Bool
is_cookie_value tool lk = tool == "cookies" && one_of lk ("value" ∷ "cookies" ∷ [])

unfoldable pub is_totp_secret : String → String → Bool
is_totp_secret tool lk = tool == "totp" && lk == "secret"

unfoldable pub is_storage_value : String → String → Bool
is_storage_value tool lk = tool == "storage" && lk == "value"

unfoldable pub is_storage_items : String → String → Bool
is_storage_items tool lk = tool == "storage" && lk == "items"
