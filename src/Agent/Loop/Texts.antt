-- ===== src/Agent/Loop/Texts.antt =====
-- The texts of the loop's errors and of the answers to calls that are not executed,
-- internal/agent/loop.go.
use Prim.Native.String.{◌++◌ as append}
use nowhere_agent.Base.{ℕ, suc, String, if◌then◌else◌}
use nowhere_agent.Base.Int.{ℤ, pos, negsuc, is_positive, clamp}
use nowhere_agent.Provider.{
  StopReason, stop_unknown, stop_end_turn, stop_tool_use, stop_max_tokens, stop_stop_sequence,
  stop_other,
}

-- `string(stop)`
abbrev pub raw_stop : StopReason → String
raw_stop stop_unknown = ""
raw_stop stop_end_turn = "end_turn"
raw_stop stop_tool_use = "tool_use"
raw_stop stop_max_tokens = "max_tokens"
raw_stop stop_stop_sequence = "stop_sequence"
raw_stop (stop_other raw) = raw

abbrev pub stop_reason_text : StopReason → String
stop_reason_text stop = elim stop [ stop_unknown ↦ "none reported" | other ↦ raw_stop other ]

abbrev pub empty_response : StopReason → String
empty_response stop =
    append "provider returned an empty response: no content, no tool calls (stop reason: "
      (append (stop_reason_text stop) ")")

abbrev pub truncated_response : String
truncated_response = "response was truncated before completion"

abbrev pub no_finish_reason : String
no_finish_reason =
    "provider closed the stream without a finish reason; the response may be incomplete"

abbrev pub ended_early : StopReason → String
ended_early stop =
    append "response ended early (stop reason: "
      (append (raw_stop stop) "); the output may be incomplete")

abbrev pub cancelled_call : String
cancelled_call = "not executed: the run was cancelled before this tool call could be dispatched"

abbrev pub aborted_call : String
aborted_call =
    "not executed: the run was aborted by middleware before this tool call could be dispatched"

abbrev pub interrupt_failed_call : String
interrupt_failed_call =
    "not executed: the run ended abnormally while requesting client input for this tool call. Re-issue the call to try again."

abbrev pub unknown_stop_call : String
unknown_stop_call =
    "not executed: the provider closed the stream without reporting a finish reason, so this tool call may be incomplete. Re-issue the call with complete arguments."

abbrev pub early_stop_call : StopReason → String
early_stop_call stop = append "not executed: the response ended early (stop reason: " (
    append (stop_reason_text stop)
      ") while these tool calls were being written, so the batch may be incomplete. Re-issue the call with complete arguments.")

module _ (decimal : ℕ → String) where
  abbrev pub max_tokens_limit_text : ℤ → String
  max_tokens_limit_text max_tokens =
      if is_positive max_tokens
      then append "the max_tokens limit (" (append (decimal (clamp max_tokens)) ")")
      else "the max_tokens limit"

  abbrev pub truncated_call : ℤ → String
  truncated_call max_tokens = append "not executed: the response hit " (
      append (max_tokens_limit_text max_tokens)
        " while this tool call was being written, so its arguments may be incomplete. Re-issue the call with complete arguments, keeping the response shorter.")

  -- A signed integer in a text.
  abbrev pub signed_decimal : ℤ → String
  signed_decimal (pos n) = decimal n
  signed_decimal (negsuc n) = append "-" (decimal (suc n))

  abbrev pub max_iterations_exceeded : ℤ → String
  max_iterations_exceeded n = append "max iterations (" (append (signed_decimal n) ") exceeded")
