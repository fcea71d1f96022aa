-- ===== src/Llm/Http.antt =====
-- What the client of src/llm/openai.rs sees of `reqwest`: the replies to its requests. An error of
-- the transport is its message.
use animus_rs.Prelude.{ℕ, ◌^◌, ◌&&◌, Bool, Option, none, some, List, Text, Result, leb, parse_uint}

pub record HttpResponse : Type 0 where
  pub status : ℕ
  -- the `retry-after` header, if it is there and is visible ASCII
  pub retry_after : Option Text
  -- the body read whole, as text
  pub body : Result Text Text
  -- the body as a stream of byte chunks
  pub chunks : List (Result Text (List ℕ))

-- `StatusCode::is_success`
abbrev pub is_success : ℕ → Bool
is_success status = leb 200 status && leb status 299

abbrev pub too_many_requests : ℕ
too_many_requests = 429

-- `v.parse::<u64>().ok()` on the header.
pub retry_after_secs : HttpResponse → Option ℕ
retry_after_secs resp = elim resp.retry_after [ none ↦ none | some v ↦ parse_uint (2 ^ 64) v ]
