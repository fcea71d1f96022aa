-- ===== src/Llm/Stream/Reply.antt =====
-- `complete_stream` of src/llm/openai.rs on a reply that carries a whole stream.
use animus_rs.Prelude.{
  ℕ, ◌==◌, ◌≡◌, ap, ◌∙◌, true, false, List, [], ◌∷◌, ◌++◌, map, concat, Text, ok, arith,
}
use animus_rs.Json.{JsonLib}
use animus_rs.Llm.Types.{CompletionResponse, StreamEvent}
use animus_rs.Llm.Http.{HttpResponse, is_success, too_many_requests}
use animus_rs.Llm.Sse
use animus_rs.Llm.Sse.{SseEvent, feed}
use animus_rs.Llm.Stream.{initial, read_chunks, response_of, stream_response}
use animus_rs.Llm.Stream.Conserve.{texts_sent, text_of}
use animus_rs.Llm.Stream.Contents.{contents, final-sent}
use animus_rs.Llm.Stream.Complete.{NoneDone, done_event, final, read_chunks-final, text_of-final}

module _ (j : JsonLib) (lossy : List ℕ → Text) where
  -- A success whose chunks, each decoded on its own, join to a text with these events and then the
  -- end marker, however that text is written and wherever it is cut.
  pub record Carries (resp : HttpResponse) (events : List SseEvent) : Type 0 where
    pub success : is_success resp.status ≡ true
    pub chunks : List (List ℕ)
    pub arrived : resp.chunks ≡ map ok chunks
    pub decoded : (feed Sse.new (concat (map lossy chunks))).0 ≡ events ++ done_event ∷ []

  -- The response and the events sent are those of taking the events in order.
  pub stream_response-final :
      (resp : HttpResponse) (events : List SseEvent)
      → Carries resp events
      → NoneDone events
      → stream_response j lossy resp
        ≡ (ok (response_of j lossy (final j lossy events)), (final j lossy events).sent)
  unfolding stream_response
  stream_response-final resp events c h =
      let limited : (resp.status == too_many_requests) ≡ false = ground (arith, c.success) in
      let read =
        ap (λ chunks. read_chunks j lossy chunks Sse.new initial) c.arrived
        ∙ read_chunks-final j lossy events c.chunks h c.decoded in
      rw (limited) (rw (c.success) (rw read))

  -- If the reply is a success and its chunks, each decoded on its own, join to a text whose events end
  -- in the one end marker, a response is returned, and its text is the text of the deltas sent while
  -- the stream ran, which is that of the field content in the deltas of the events, in order.
  pub stream_response-texts_sent :
      (resp : HttpResponse) (events : List SseEvent)
      → Carries resp events
      → NoneDone events
      → (response : CompletionResponse j.Value) × (sent : List StreamEvent) × (stream_response j
            lossy resp
          ≡ (ok response, sent))
        × (text_of response.content ≡ texts_sent sent)
        × (texts_sent sent ≡ contents j events)
  stream_response-texts_sent resp events c h = (
    response_of j lossy (final j lossy events),
    (final j lossy events).sent,
    stream_response-final resp events c h,
    text_of-final j lossy events h,
    final-sent j lossy events h,
  )
