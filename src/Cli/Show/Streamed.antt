-- ===== src/Cli/Show/Streamed.antt =====
-- src/bin/animus.rs: `llm complete --stream` on a reply that carries a whole stream.
use mathlib.Core.Path.{subst}
use animus_rs.Prelude.{
  append-nil, ℕ, ◌≡◌, refl, sym, ap, ◌∙◌, true, List, [], ◌∷◌, ◌++◌, Text, lit, Result, ok,
}
use animus_rs.Json.{JsonLib}
use animus_rs.Llm.Types.{CompletionRequest, CompletionResponse, StreamEvent}
use animus_rs.Llm.Http.{HttpResponse}
use animus_rs.Llm.Request.{build_request_body}
use animus_rs.Llm.Retry.{OpenAiClient}
use animus_rs.Llm.Client.{openai_client}
use animus_rs.Llm.Sse.{SseEvent}
use animus_rs.Llm.Stream.{response_of, stream_response, complete_stream}
use animus_rs.Llm.Stream.Complete.{NoneDone, final, text_of-final}
use animus_rs.Llm.Stream.Conserve.{texts_sent, texts_sent-append, text_of}
use animus_rs.Llm.Stream.Reply.{Carries, stream_response-final}
use animus_rs.Llm.Stream.Thinking.Ends.{final-Ends}
use animus_rs.Cli.Prompt.{Tera}
use animus_rs.Cli.Llm.{CompleteArgs, Shell, prepare}
use animus_rs.Cli.Show.{streaming, answering, answer, cmd_llm_complete}
use animus_rs.Cli.Show.Agree.{Same, streaming-Same}

module _ (j : JsonLib) (tera : Tera) (lossy : List ℕ → Text)
    (post : ℕ → Text → Text → j.Value → Result Text HttpResponse) where
  -- The request of a streamed answer.
  abbrev pub sent_by : OpenAiClient → CompletionRequest j.Value j.Float → Result Text HttpResponse
  sent_by client request =
      post 0 (client.base_url ++ lit "/chat/completions") client.api_key
        (build_request_body j request true)

  final-Same :
      (format : Text) (events : List SseEvent)
      → NoneDone events
      → Same
          (streaming j format
            (ok (response_of j lossy (final j lossy events)), (final j lossy events).sent))
          (answering j format (ok (response_of j lossy (final j lossy events))))
  final-Same format events none_done =
      let e = final-Ends j lossy events none_done in
      let texts : texts_sent e.deltas ≡ text_of (final j lossy events).content_blocks =
        sym (append-nil _)
        ∙ sym (texts_sent-append e.deltas (StreamEvent.done ∷ []))
        ∙ ap texts_sent (sym e.ended)
        ∙ sym (text_of-final j lossy events none_done) in
      rw (e.ended) (
        streaming-Same j format (response_of j lossy (final j lossy events)) e.deltas e.unended
          texts e.balance)

  posted :
      (client : OpenAiClient) (request : CompletionRequest j.Value j.Float) (resp : HttpResponse)
      → sent_by client request ≡ ok resp
      → complete_stream j lossy (post 0) client.base_url client.api_key request
        ≡ stream_response j lossy resp
  unfolding complete_stream
  posted client request resp r = rw (complete_stream, r) refl

  cmd_llm_complete_streams :
      (shell : Shell) (args : CompleteArgs) (client : OpenAiClient)
      (request : CompletionRequest j.Value j.Float) (resp : HttpResponse)
      → prepare j tera shell args ≡ ok (client, request)
      → args.streamed ≡ true
      → sent_by client request ≡ ok resp
      → cmd_llm_complete j tera (openai_client j lossy post) shell args
        ≡ streaming j args.format (stream_response j lossy resp)
  unfolding cmd_llm_complete answer
  cmd_llm_complete_streams shell args client request resp p s r =
      rw p (rw s (ap (streaming j args.format) (posted client request resp r)))

  -- If the request is prepared, the reply is a success, and its chunks, each decoded on its own, join to
  -- a text whose events end in the one end marker, then a streamed answer has the result that a plain
  -- answer with the streamed response has, and writes the same to standard output, in every format.
  pub cmd_llm_complete-Same :
      (shell : Shell) (args : CompleteArgs) (client : OpenAiClient)
      (request : CompletionRequest j.Value j.Float) (resp : HttpResponse) (events : List SseEvent)
      → prepare j tera shell args ≡ ok (client, request)
      → args.streamed ≡ true
      → sent_by client request ≡ ok resp
      → Carries j lossy resp events
      → NoneDone events
      → (response : CompletionResponse j.Value) × ((stream_response j lossy resp).0 ≡ ok response)
        × Same
            (cmd_llm_complete j tera (openai_client j lossy post) shell args)
            (answering j args.format (ok response))
  cmd_llm_complete-Same shell args client request resp events p s r c n =
      let e = stream_response-final j lossy resp events c n in
      let run =
        cmd_llm_complete_streams shell args client request resp p s r
        ∙ ap (streaming j args.format) e in
      (
        response_of j lossy (final j lossy events),
        rw e refl,
        subst
            (λ x.
              Same x (answering j args.format (ok (response_of j lossy (final j lossy events)))))
            (sym run) (final-Same args.format events n),
      )
