-- ===== src/Sender/Usage/Recorded.antt =====
-- What is stored of an answer, for each kind of body.
use aristote_dispatcher.Common.{
  append_assoc, append_nil, ◌≡◌, refl, sym, ap, ◌∙◌, Bool, true, false, Option, none, List, [], ◌∷◌,
  ◌++◌, ℕ, if◌then◌else◌,
}
use aristote_dispatcher.Common.Exec.{Result, ok, raised}
use aristote_dispatcher.Consumer.Exceptions.{Exception, attribute_error, rejected}
use aristote_dispatcher.Sender.Http.{Metric}
use aristote_dispatcher.Sender.Usage.{
  UsageField, missing, counts, ResponseData, fields, Bytes, Library, Usage, read, or_empty, tokens,
  commit, store_usage_metrics, stream_and_accumulate, after_stream, respond,
}

abbrev pub all_bytes : List Bytes → Bytes
all_bytes [] = []
all_bytes (chunk ∷ chunks) = chunk ++ all_bytes chunks

abbrev pub usage : Metric → Option ℕ → Option ℕ → Usage
usage metric prompt completion = record {
  metric = metric;
  prompt_tokens = prompt;
  completion_tokens = completion;
}

-- What is left of an answer whose whole body reads as that.
abbrev pub recorded :
    Metric → List Usage → Result Exception ResponseData → Result Exception Unit × List Usage
recorded metric rows (raised e) = (ok tt, rows ++ usage metric none none ∷ [])
recorded metric rows (ok (fields missing)) = (ok tt, rows ++ usage metric none none ∷ [])
recorded metric rows (ok (fields (counts prompt completion))) =
    (ok tt, rows ++ usage metric prompt completion ∷ [])
recorded metric rows (ok (fields UsageField.no_object)) = (raised attribute_error, rows)
recorded metric rows (ok ResponseData.no_object) = (raised attribute_error, rows)

accumulated :
    (full : Bytes) (chunks : List Bytes)
    → stream_and_accumulate full chunks ≡ (chunks, full ++ all_bytes chunks)
unfolding stream_and_accumulate
accumulated full [] = ap (λ b. ([], b)) (sym (append_nil full))
accumulated full (chunk ∷ chunks) =
    ap (λ (r : List Bytes × Bytes). (chunk ∷ r.0, r.1)) (accumulated (full ++ chunk) chunks)
    ∙ ap (λ b. (chunk ∷ chunks, b)) (sym (append_assoc full chunk (all_bytes chunks)))

committed :
    (lib : Library) (metric : Metric) (rows : List Usage) (out : Result Exception ResponseData)
    → lib.commits ≡ true
    → commit lib metric (tokens (or_empty out)) rows ≡ recorded metric rows out
committed lib metric rows (raised e) h = rw h refl
committed lib metric rows (ok (fields missing)) h = rw h refl
committed lib metric rows (ok (fields (counts prompt completion))) h = rw h refl
committed lib metric rows (ok (fields UsageField.no_object)) h = refl
committed lib metric rows (ok ResponseData.no_object) h = refl

-- Where the database takes every row, and whatever the chunks of an answer are: the user gets all chunks as
-- they came; an answer that comes to its end leaves one row with its two token counts, read from all bytes
-- of it together; with no counts where it cannot be read, or has no usage; and no row, but an AttributeError,
-- where it is no JSON object, or has a usage that is none. An answer that breaks off leaves no row.
pub respond_lem :
    (lib : Library) (metric : Metric) (stream : Bool) (chunks : List Bytes) (ends : Bool)
    (rows : List Usage)
    → lib.commits ≡ true
    → respond lib metric stream chunks ends rows ≡ (
      chunks,
      if ends
          then recorded metric rows (read lib (all_bytes chunks) stream)
          else (raised rejected, rows),
    )
unfolding respond store_usage_metrics
respond_lem lib metric stream chunks true rows h =
    ap (λ r. after_stream lib metric stream true r rows) (accumulated [] chunks)
    ∙ ap (λ o. (chunks, o)) (committed lib metric rows (read lib (all_bytes chunks) stream) h)
respond_lem lib metric stream chunks false rows h =
    ap (λ r. after_stream lib metric stream false r rows) (accumulated [] chunks)
