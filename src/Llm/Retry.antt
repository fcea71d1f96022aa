-- ===== src/Llm/Retry.antt =====
-- src/llm/openai.rs: `OpenAiClient` and its `complete`, with the retries on status 429.
pub mod Bounds
pub mod Rounds
use animus_rs.Prelude.{
  ℕ, zero, suc, ◌+◌, ◌^◌, ◌%◌, ◌==◌, Bool, false, Option, none, some, List, [], ◌∷◌, ◌++◌, Text,
  lit, Result, ok, err, unwrap_or, leb, if◌then◌else◌,
}
use animus_rs.Json.{JsonLib}
use animus_rs.Llm.Types.{CompletionRequest, CompletionResponse, LlmError}
use animus_rs.Llm.Http.{HttpResponse, is_success, too_many_requests, retry_after_secs}
use animus_rs.Llm.Request.{build_request_body}
use animus_rs.Llm.Response.{parse_response_body}

pub record OpenAiClient : Type 0 where
  pub api_key : Text
  pub base_url : Text
  pub max_retries : ℕ

-- Seconds to wait before the next request. `2u64.pow(retries)` wraps in a release build.
pub backoff_secs : Option ℕ → ℕ → ℕ
backoff_secs retry_after retries = unwrap_or (2 ^ retries % 2 ^ 64) retry_after

-- What a call did: its result, the requests that it made, and its waits in order.
pub record Call (A : Type 0) : Type 0 where
  pub result : Result LlmError A
  pub requests : ℕ
  pub waits : List ℕ

-- One more request, and a wait, in front of what follows.
abbrev pub after_wait : {A : Type 0} → ℕ → Option (Call A) → Option (Call A)
after_wait secs none = none
after_wait secs (some call) =
    some (record call { requests = suc call.requests; waits = secs ∷ call.waits })

abbrev pub returns : {A : Type 0} → Result LlmError A → Option (Call A)
returns r = some (record { result = r; requests = 1; waits = [] })

module _ (j : JsonLib) where
  open j use {Value, from_str}

  -- The reply's body as a response. A body that is no JSON is an error of `reqwest`.
  pub read_body : HttpResponse → Result LlmError (CompletionResponse Value)
  read_body resp = elim resp.body [
    | err e ↦ err (LlmError.http e)
    | ok body ↦ elim (from_str body) [
      | err e ↦ err (LlmError.http e)
      | ok json ↦ parse_response_body j json
    ]
  ]

  -- A reply that is no 429.
  pub finish : HttpResponse → Result LlmError (CompletionResponse Value)
  finish resp =
      if is_success resp.status
      then read_body resp
      else err (LlmError.api resp.status (elim resp.body [ ok message ↦ message | err e ↦ [] ]))

  -- One round of the loop on the reply to request number `retries`; `again` is the rounds after it.
  pub round :
      (max_retries retries : ℕ)
      → Result Text HttpResponse
      → Option (Call (CompletionResponse Value))
      → Option (Call (CompletionResponse Value))
  round max_retries retries (err e) again = returns (err (LlmError.http e))
  round max_retries retries (ok resp) again =
      if resp.status == too_many_requests
      then (if leb max_retries retries
          then returns (err (LlmError.rate_limited (retry_after_secs resp)))
          else after_wait (backoff_secs (retry_after_secs resp) retries) again)
      else returns (finish resp)

  -- The loop; `reply n` is the reply to the request number n. `none` is fuel that ran out.
  pub complete_loop :
      (reply : ℕ → Result Text HttpResponse) (max_retries fuel retries : ℕ)
      → Option (Call (CompletionResponse Value))
  complete_loop reply max_retries zero retries = none
  complete_loop reply max_retries (suc fuel) retries =
      let again = complete_loop reply max_retries fuel (suc retries) in
      round max_retries retries (reply retries) again

  -- `post n url api_key body` is the reply to the request number n of the call.
  pub complete :
      OpenAiClient
      → (post : ℕ → Text → Text → Value → Result Text HttpResponse)
      → CompletionRequest Value j.Float
      → Option (Call (CompletionResponse Value))
  complete client post request =
      complete_loop
        (λ n.
          post n (client.base_url ++ lit "/chat/completions") client.api_key
            (build_request_body j request false))
        client.max_retries (suc client.max_retries) 0
