-- ===== src/Accounting/Coa/Posting/Key.antt =====
-- The idempotency key of a source posting fits its column, at a price.
use sanmitra_backend.Base.{ℕ, ◌-◌, String}
use sanmitra_backend.Base.Text.{text_length, append_text}
use sanmitra_backend.Accounting.Entities.{SourceSystem}
use sanmitra_backend.Accounting.Coa.Systems.{system_name}

-- The characters that the prefix leaves to the client's key.
abbrev pub room : SourceSystem → ℕ
room system = 120 - text_length (append_text (system_name system) ":")
