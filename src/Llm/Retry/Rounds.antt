-- ===== src/Llm/Retry/Rounds.antt =====
-- The rounds of `complete` in src/llm/openai.rs: what each reply leads to, and the loop over them.
use native.Mathlib.Decide.{dec_lt}
use animus_rs.Prelude.{
  ℕ, zero, suc, ◌+◌, ◌≤◌, ◌<◌, ◌==◌, ◌≡◌, refl, sym, ap, ◌∙◌, Bool, true, false, Option, none, some,
  List, [], ◌∷◌, Text, length, Result, ok, err, leb, arith, Bool-cases, inl, inr, ◌⊎◌,
}
use animus_rs.Json.{JsonLib}
use animus_rs.Llm.Types.{CompletionResponse, LlmError}
use animus_rs.Llm.Http.{HttpResponse, too_many_requests, retry_after_secs}
use animus_rs.Llm.Retry.{backoff_secs, Call, after_wait, returns, finish, round, complete_loop}

abbrev pub limited : Result Text HttpResponse → Bool
limited (err e) = false
limited (ok resp) = resp.status == too_many_requests

-- The wait in seconds that a reply asks for.
abbrev pub hint : Result Text HttpResponse → Option ℕ
hint (err e) = none
hint (ok resp) = retry_after_secs resp

-- The waits behind the requests `n`, `n + 1`, and so on, `k` of them.
abbrev pub waits_from : (ℕ → Result Text HttpResponse) → ℕ → ℕ → List ℕ
waits_from reply zero n = []
waits_from reply (suc k) n = backoff_secs (hint (reply n)) n ∷ waits_from reply k (suc n)

pub length-waits_from :
    (reply : ℕ → Result Text HttpResponse) (k n : ℕ) → length (waits_from reply k n) ≡ k
length-waits_from reply zero n = refl
length-waits_from reply (suc k) n = ap suc (length-waits_from reply k (suc n))

module _ (j : JsonLib) where
  -- What becomes of a reply that is no 429.
  abbrev pub settle : Result Text HttpResponse → Result LlmError (CompletionResponse j.Value)
  settle (err e) = err (LlmError.http e)
  settle (ok resp) = finish j resp

  pub round_settles :
      (max_retries n : ℕ) (r : Result Text HttpResponse)
      → limited r ≡ false
      → (again : Option (Call (CompletionResponse j.Value)))
      → round j max_retries n r again ≡ returns (settle r)
  unfolding round
  round_settles max_retries n (err e) h again = refl
  round_settles max_retries n (ok resp) h again = rw h

  round_waits :
      (max_retries n : ℕ) (r : Result Text HttpResponse)
      → limited r ≡ true
      → n < max_retries
      → (again : Option (Call (CompletionResponse j.Value)))
      → round j max_retries n r again ≡ after_wait (backoff_secs (hint r) n) again
  unfolding round
  round_waits max_retries n (err e) h lt again = cc
  round_waits max_retries n (ok resp) h lt again =
      let more : leb max_retries n ≡ false = ground arith in rw h (rw more)

  pub round_gives_up :
      (max_retries : ℕ) (r : Result Text HttpResponse)
      → limited r ≡ true
      → (again : Option (Call (CompletionResponse j.Value)))
      → round j max_retries max_retries r again ≡ returns (err (LlmError.rate_limited (hint r)))
  unfolding round
  round_gives_up max_retries (err e) h again = cc
  round_gives_up max_retries (ok resp) h again =
      let last : leb max_retries max_retries ≡ true = ground arith in rw h (rw last)

  module _ (reply : ℕ → Result Text HttpResponse) (max_retries : ℕ) where
    -- `k` limited replies before the one that decides.
    pub loop_lem :
        (k n fuel : ℕ) (last : Result LlmError (CompletionResponse j.Value))
        → k < fuel
        → k + n ≤ max_retries
        → ((i : ℕ) → n ≤ i → i < k + n → limited (reply i) ≡ true)
        → ((again : Option (Call (CompletionResponse j.Value)))
            → round j max_retries (k + n) (reply (k + n)) again ≡ returns last)
        → complete_loop j reply max_retries fuel n
          ≡ some (record { result = last; requests = suc k; waits = waits_from reply k n })
    unfolding complete_loop
    loop_lem zero n (suc fuel) last lt le all decides =
        let zero_add : 0 + n ≡ n = omega arith in
        ap (λ m. round j max_retries m (reply m) (complete_loop j reply max_retries fuel (suc n)))
          (sym zero_add)
        ∙ decides _
    loop_lem k n zero last lt le all decides = absurd (omega arith)
    loop_lem (suc k) n (suc fuel) last lt le all decides =
        let shift : suc k + n ≡ k + suc n = omega arith in
        let rest =
          loop_lem k (suc n) fuel last (omega arith) (omega arith)
            (λ i low high. all i (omega arith) (omega arith)) (rw shift at decides) in
        round_waits max_retries n (reply n) (all n (omega arith) (omega arith)) (omega arith) _
        ∙ ap (after_wait (backoff_secs (hint (reply n)) n)) rest

    -- The first reply below `n` that is no 429, if there is one.
    pub first_settled :
        (n : ℕ)
        → ((k : ℕ) × (k < n)
            × ((i : ℕ) → i < k → limited (reply i) ≡ true)
            × (limited (reply k) ≡ false))
          ⊎ ((i : ℕ) → i < n → limited (reply i) ≡ true)
    first_settled zero = inr (λ i lt. absurd (omega arith))
    first_settled (suc n) = elim (first_settled n) [
      | inl (k, lt, all, stop) ↦ inl (k, omega arith, all, stop)
      | inr all ↦ elim (Bool-cases (limited (reply n))) [
        | inl h ↦ inr (λ i lt. elim (dec_lt i n) [
          | yes below ↦ all i below
          | no top ↦ let same : i ≡ n = omega arith in rw same h
        ])
        | inr h ↦ inl (n, omega arith, all, h)
      ]
    ]
