-- ===== src/Llm/Retry/Bounds.antt =====
-- The retries of `complete` in src/llm/openai.rs: which reply decides, how many requests are made,
-- and how long is waited.
use animus_rs.Prelude.{
  ℕ, suc, ◌+◌, ◌≤◌, ◌<◌, ◌≡◌, refl, true, false, some, Text, lit, length, Result, err, arith, inl,
  inr, ◌++◌, ◌⊎◌,
}
use animus_rs.Json.{JsonLib}
use animus_rs.Llm.Types.{CompletionRequest, CompletionResponse, LlmError}
use animus_rs.Llm.Http.{HttpResponse}
use animus_rs.Llm.Request.{build_request_body}
use animus_rs.Llm.Retry.{OpenAiClient, Call, complete}
use animus_rs.Llm.Retry.Rounds.{
  limited, hint, waits_from, length-waits_from, settle, round_settles, round_gives_up, loop_lem,
  first_settled,
}

-- The reply to the request number `n` of a call.
abbrev pub reply_of :
    (j : JsonLib)
    → OpenAiClient
    → (ℕ → Text → Text → j.Value → Result Text HttpResponse)
    → CompletionRequest j.Value j.Float
    → ℕ
    → Result Text HttpResponse
reply_of j client post request n =
    post n (client.base_url ++ lit "/chat/completions") client.api_key
      (build_request_body j request false)

module _ (j : JsonLib) (client : OpenAiClient)
    (post : ℕ → Text → Text → j.Value → Result Text HttpResponse)
    (request : CompletionRequest j.Value j.Float) where
  -- The first reply that is no 429 decides the result, if it comes within `max_retries` retries;
  -- before it, one wait follows each 429, of the seconds that its `retry-after` names or else
  -- of a power of two that wraps at 64 bits.
  complete_settles :
      (k : ℕ)
      → k ≤ client.max_retries
      → ((i : ℕ) → i < k → limited (reply_of j client post request i) ≡ true)
      → limited (reply_of j client post request k) ≡ false
      → complete j client post request
        ≡ some (record {
          result = settle j (reply_of j client post request k);
          requests = suc k;
          waits = waits_from (reply_of j client post request) k 0;
        })
  unfolding complete
  complete_settles k le all stop =
      let add_zero : k + 0 ≡ k = omega arith in
      loop_lem j (reply_of j client post request) client.max_retries k 0 (suc client.max_retries) _
        (omega arith) (omega arith) (λ i low high. all i (omega arith))
        (λ again.
          rw add_zero
            (round_settles j client.max_retries k (reply_of j client post request k) stop again))

  -- If `max_retries` retries meet a 429 each, the call gives up with the last one's hint.
  complete_gives_up :
      ((i : ℕ) → i ≤ client.max_retries → limited (reply_of j client post request i) ≡ true)
      → complete j client post request
        ≡ some (record {
          result =
              err
                (LlmError.rate_limited (hint (reply_of j client post request client.max_retries)));
          requests = suc client.max_retries;
          waits = waits_from (reply_of j client post request) client.max_retries 0;
        })
  unfolding complete
  complete_gives_up all =
      let max = client.max_retries in
      let add_zero : max + 0 ≡ max = omega arith in
      loop_lem j (reply_of j client post request) max max 0 (suc max) _ (omega arith) (omega arith)
        (λ i low high. all i (omega arith))
        (λ again.
          rw add_zero (
            round_gives_up j max (reply_of j client post request max) (all max (omega arith))
              again))

  -- How a call ends: with the first reply that is no 429, or with the hint of the last one where all
  -- were. There is one wait after each 429 but the last, of the seconds that its `retry-after` names
  -- or else of a power of two that wraps at 64 bits.
  abbrev pub EndsBy : Call (CompletionResponse j.Value) → Type 0
  EndsBy call =
      ((k : ℕ) × (k ≤ client.max_retries)
        × ((i : ℕ) → i < k → limited (reply_of j client post request i) ≡ true)
        × (limited (reply_of j client post request k) ≡ false)
        × (call.result ≡ settle j (reply_of j client post request k))
        × (call.requests ≡ suc k)
        × (call.waits ≡ waits_from (reply_of j client post request) k 0))
      ⊎ (((i : ℕ) → i ≤ client.max_retries → limited (reply_of j client post request i) ≡ true)
          × (call.result
              ≡ err (
                  LlmError.rate_limited (hint (reply_of j client post request client.max_retries))))
          × (call.requests ≡ suc client.max_retries)
          × (call.waits ≡ waits_from (reply_of j client post request) client.max_retries 0))

  -- A call always returns, after `max_retries + 1` requests at most, with one wait between each
  -- request and the next. It ends with the first reply that is no 429, or with an error that has the
  -- hint of the last reply if all were. It waits for the seconds that `retry-after` names, or else
  -- for `2 ^ n` behind request `n` from 0, as a 64-bit number.
  pub complete_total :
      (call : Call (CompletionResponse j.Value)) × (complete j client post request ≡ some call)
      × (call.requests ≤ client.max_retries + 1)
      × (length call.waits + 1 ≡ call.requests)
      × EndsBy call
  complete_total =
      elim (first_settled j (reply_of j client post request) client.max_retries
        (suc client.max_retries)) [
          | inl (k, lt, all, stop) ↦ (
            _,
            complete_settles k (omega arith) all stop,
            omega arith,
            omega (arith, length-waits_from (reply_of j client post request) k 0),
            inl (k, omega arith, all, stop, refl, refl, refl),
          )
          | inr all ↦ (
            _,
            complete_gives_up (λ i le. all i (omega arith)),
            omega arith,
            omega (arith, length-waits_from (reply_of j client post request) client.max_retries 0),
            inr ((λ i le. all i (omega arith)), refl, refl, refl),
          )
        ]
