-- ===== src/Llm/Response/Reasons.antt =====
-- What the reasons of src/llm/openai.rs for the end of a response stand for.
use mathlib.Core.Path.{subst}
use animus_rs.Prelude.{sym, Bool-cases, inl, inr, false, text_eq_iff, ◌≡◌, Text, lit, text_eq}
use animus_rs.Llm.Types.{StopReason}
use animus_rs.Llm.Response.{parse_finish_reason}

-- What the reason of the wire stands for.
pub data Means : Text → StopReason → Type 0 where
  stop : Means (lit "stop") StopReason.end_turn
  length_reached : Means (lit "length") StopReason.max_tokens
  tool_calls : Means (lit "tool_calls") StopReason.tool_use
  another :
      {reason : Text}
      → (reason ≡ lit "stop" → ⊥)
      → (reason ≡ lit "length" → ⊥)
      → (reason ≡ lit "tool_calls" → ⊥)
      → Means reason (StopReason.other reason)

pub parse_finish_reason-Means : (reason : Text) → Means reason (parse_finish_reason reason)
unfolding parse_finish_reason
parse_finish_reason-Means reason = elim (Bool-cases (text_eq reason (lit "stop"))) [
  | inl e ↦
      let same : reason ≡ lit "stop" = (text_eq_iff reason (lit "stop")).0 e in
      subst (λ s. Means s (parse_finish_reason s)) (sym same) (unfold text_eq in stop)
  | inr not_stop ↦ elim (Bool-cases (text_eq reason (lit "length"))) [
    | inl e ↦
        let same : reason ≡ lit "length" = (text_eq_iff reason (lit "length")).0 e in
        subst (λ s. Means s (parse_finish_reason s)) (sym same) (unfold text_eq in length_reached)
    | inr not_length ↦ elim (Bool-cases (text_eq reason (lit "tool_calls"))) [
      | inl e ↦
          let same : reason ≡ lit "tool_calls" = (text_eq_iff reason (lit "tool_calls")).0 e in
          subst (λ s. Means s (parse_finish_reason s)) (sym same) (unfold text_eq in tool_calls)
      | inr not_tools ↦
          rw (not_stop, not_length, not_tools)
            (another (λ h. differs not_stop h) (λ h. differs not_length h)
              (λ h. differs not_tools h))
    ]
  ]
]
  where
    differs : {s : Text} → text_eq reason s ≡ false → reason ≡ s → ⊥
    differs {s} not_s h = cc ((text_eq_iff reason s).1 h, not_s)
