-- ===== src/Sender/Examples/Answers.antt =====
-- The theorems about the stored usage at a concrete answer, and the lifespan where each call returns.
use aristote_dispatcher.Common.{
  ◌≡◌, refl, string_eq, true, none, some, List, [], ◌∷◌, ◌==◌, if◌then◌else◌,
}
use aristote_dispatcher.Common.Exec.{ok}
use aristote_dispatcher.Sender.App.{lifespan}
use aristote_dispatcher.Sender.App.Lifespan.{Ends, lifespan-Ends}
use aristote_dispatcher.Sender.Http.{Metric}
use aristote_dispatcher.Sender.Usage.{counts, fields, Bytes, Library, Usage, respond}
use aristote_dispatcher.Sender.Usage.Recorded.{usage, respond_lem}

abbrev metric : Metric
metric = record {
  user_name = "ann";
  user_organization = none;
  model = "m";
  server = "http://a";
  server_organization = none;
  strategy = "round-robin";
  requeue_count = 0;
  max_parallel_requests = 1;
  current_parallel_requests = some 0;
  priority = 1;
  performance_score = none;
  routing_mode = "any";
}

-- An answer in two chunks, the last of which is the end mark.
abbrev library : Library
library = record {
  decode = λ body. some "data: counted\n\ndata: [DONE]\n\n";
  split = λ text mark. "" ∷ " counted\n\n" ∷ " [DONE]\n\n" ∷ [];
  strip = λ text. if text == " [DONE]\n\n" then "[DONE]" else text;
  replace = λ text old new. text;
  loads = λ text. if text == " counted\n\n" then some (fields (counts (some 7) (some 5))) else none;
  loads_bytes = λ body. none;
  commits = true;
}

abbrev chunks : List Bytes
chunks = (1 ∷ 2 ∷ []) ∷ (3 ∷ []) ∷ []

respond_example :
    respond library metric true chunks true []
    ≡ (chunks, (ok tt, usage metric (some 7) (some 5) ∷ []))
unfolding aristote_dispatcher.Sender.Usage.read
respond_example = respond_lem library metric true chunks true [] refl

lifespan-Ends_example :
    Ends
      (λ _. true)
      (λ _. true)
      "q"
      (λ client. record client { futures = ("id", 0) ∷ [] })
      (lifespan
        (λ _. true)
        (λ _. true)
        "q"
        (λ client. record client { futures = ("id", 0) ∷ [] })
        true
        (record { database = none; rpc_client = none }))
lifespan-Ends_example =
    lifespan-Ends (λ _. true) (λ _. true) "q" (λ client. record client { futures = ("id", 0) ∷ [] })
      true
