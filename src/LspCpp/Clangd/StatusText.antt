-- ===== src/LspCpp/Clangd/StatusText.antt =====
-- The status of a child that ended goes through a text, from clangd.rs to the supervisor in mcp.rs.
use mcp_tools.Prelude.{
  ◌≡◌, ◌≢◌, inl, inr, false, Bool-cases, str_eq_iff, sym, refl, ap, ◌∙◌, Option, none, some, Str,
  str, str_eq, strip_prefix,
}
use mcp_tools.Prelude.Int.{ℤ}
use mcp_tools.Prelude.Signed.{IsI32, decimal_ℤ, parse_i32, parse_i32-decimal_ℤ}
use mcp_tools.LspCpp.Supervisor.{RestartReason, child_exited, child_signaled, wait_failed}
use mcp_tools.LspCpp.Clangd.{ExitStatus, signal_status, code_status, format_exit_status}
use mcp_tools.LspCpp.Mcp.Outcome.{exit_status_to_reason}

-- What the supervisor is to learn of a status.
abbrev signal_reason : Option ℤ → RestartReason
signal_reason none = wait_failed (str "platform did not provide exit status")
signal_reason (some signal) = child_signaled signal

abbrev code_reason : Option ℤ → ExitStatus → RestartReason
code_reason none status = signal_reason status.signal
code_reason (some code) status = child_exited code

abbrev pub reason_of : ExitStatus → RestartReason
reason_of status = code_reason status.code status

abbrev IsOptionalI32 : Option ℤ → Type 0
IsOptionalI32 none = Unit
IsOptionalI32 (some n) = IsI32 n

-- The numbers of a status are values of `i32`.
abbrev pub IsStatus : ExitStatus → Type 0
IsStatus status = IsOptionalI32 status.code × IsOptionalI32 status.signal

mark-unread : (n : ℤ) → parse_i32 (str "?") ≢ some n
unfolding parse_i32
mark-unread n e = cc

decimal_ℤ-mark : (n : ℤ) → IsI32 n → str_eq (decimal_ℤ n) (str "?") ≡ false
decimal_ℤ-mark n h = elim (Bool-cases (str_eq (decimal_ℤ n) (str "?"))) [
  | inr differs ↦ differs
  | inl same ↦ absurd (
      mark-unread n (
        sym (ap parse_i32 ((str_eq_iff (decimal_ℤ n) (str "?")).0 same)) ∙ parse_i32-decimal_ℤ n h))
]

module _ (debug : Str → Str) where
  read_signal :
      (signal : Option ℤ)
      → IsOptionalI32 signal
      → exit_status_to_reason debug (some (signal_status signal)) ≡ signal_reason signal
  unfolding exit_status_to_reason strip_prefix str_eq
  read_signal none h = refl
  read_signal (some n) h = rw (parse_i32-decimal_ℤ n h) refl

  read_code :
      (code : Option ℤ) (status : ExitStatus)
      → IsOptionalI32 code
      → IsOptionalI32 status.signal
      → exit_status_to_reason debug (some (code_status code status)) ≡ code_reason code status
  unfolding exit_status_to_reason strip_prefix
  read_code none status hc hs = read_signal status.signal hs
  read_code (some n) status hc hs = rw (decimal_ℤ-mark n hc) (rw (parse_i32-decimal_ℤ n hc) refl)

  -- The supervisor learns from the text of a status what the status says: the exit code where there is
  -- one, else the signal, else that the platform told neither. The numbers are values of `i32`.
  pub exit_status_to_reason-format_exit_status :
      (status : ExitStatus)
      → IsStatus status
      → exit_status_to_reason debug (some (format_exit_status status)) ≡ reason_of status
  unfolding format_exit_status
  exit_status_to_reason-format_exit_status status h = read_code status.code status h.0 h.1
