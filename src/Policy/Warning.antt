-- ===== src/Policy/Warning.antt =====
-- IsQuarantineMarginWarning and QuarantineMarginAnomalyKey of internal/policy/policy.go.
use onlybackup.Prelude.{String, Bool, ◌&&◌, ◌==◌, string_eq}

abbrev pub quarantine_margin_anomaly_key : String
quarantine_margin_anomaly_key = "capacity:quarantine-margin"

unfoldable pub is_quarantine_margin_warning : String → String → Bool
is_quarantine_margin_warning kind stable_key =
    kind == "capacity" && stable_key == quarantine_margin_anomaly_key
