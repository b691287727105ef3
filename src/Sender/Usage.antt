-- ===== src/Sender/Usage.antt =====
-- sender/main.py: `stream_and_accumulate_response` and `store_usage_metrics`, what is kept of an answer that
-- went through the proxy. The text functions of Python, `json.loads` and the database are parameters. The
-- proofs are in `Recorded`.
pub mod Recorded
use aristote_dispatcher.Common.{
  ℕ, String, string_eq, Bool, true, false, Option, none, some, List, [], ◌∷◌, ◌++◌, ◌==◌,
  if◌then◌else◌,
}
use aristote_dispatcher.Common.Exec.{Exec, Result, ok, raised}
use aristote_dispatcher.Consumer.Exceptions.{
  Exception, index_error, attribute_error, value_error, json_decode_error, rejected,
}
use aristote_dispatcher.Sender.Http.{Metric}

-- The `usage` of an answer: the key is missing, it has an object with the two counts, or anything else, as
-- null; and the answer itself: a JSON object, or another JSON value.
pub data UsageField : Type 0 where
  missing : UsageField
  counts : (prompt_tokens completion_tokens : Option ℕ) → UsageField
  no_object : UsageField

pub data ResponseData : Type 0 where
  fields : UsageField → ResponseData
  no_object : ResponseData

abbrev pub Bytes : Type 0
Bytes = List ℕ

-- `none` is an exception of the function; `commits` says whether the commit returns.
pub record Library : Type 0 where
  pub decode : Bytes → Option String
  pub split : String → String → List String
  pub strip : String → String
  pub replace : String → String → String → String
  pub loads : String → Option ResponseData
  pub loads_bytes : Bytes → Option ResponseData
  pub commits : Bool

pub record Usage : Type 0 where
  pub metric : Metric
  pub prompt_tokens : Option ℕ
  pub completion_tokens : Option ℕ

-- `xs[-1]` and `xs[-2]`
abbrev pub last : List String → Option String
last [] = none
last (x ∷ []) = some x
last (x ∷ (y ∷ xs)) = last (y ∷ xs)

abbrev pub before_last : List String → Option String
before_last [] = none
before_last (x ∷ []) = none
before_last (x ∷ (y ∷ [])) = some x
before_last (x ∷ (y ∷ (z ∷ xs))) = before_last (y ∷ (z ∷ xs))

abbrev loaded : Option ResponseData → Result Exception ResponseData
loaded none = raised json_decode_error
loaded (some data_read) = ok data_read

abbrev chunk_read : Library → Option String → Result Exception ResponseData
chunk_read lib none = raised index_error
chunk_read lib (some chunk) = loaded (lib.loads chunk)

abbrev chunks_read : Library → List String → Option String → Result Exception ResponseData
chunks_read lib chunks none = raised index_error
chunks_read lib chunks (some chunk) =
    if lib.strip chunk == "[DONE]"
    then chunk_read lib (before_last chunks)
    else loaded (lib.loads (lib.replace chunk "[DONE]" ""))

abbrev text_read : Library → Option String → Result Exception ResponseData
text_read lib none = raised value_error
text_read lib (some text) =
    let chunks = lib.split text "data:" in chunks_read lib chunks (last chunks)

-- The body of the `try`. `json.loads` decodes bytes in its own way.
unfoldable pub read : Library → Bytes → Bool → Result Exception ResponseData
read lib body true = text_read lib (lib.decode body)
read lib body false = loaded (lib.loads_bytes body)

-- `except Exception`
abbrev pub or_empty : Result Exception ResponseData → ResponseData
or_empty (raised e) = fields missing
or_empty (ok data_read) = data_read

-- The two `get("usage", {}).get(...)`; what is no object has no `get`.
abbrev pub tokens : ResponseData → Result Exception (Option ℕ × Option ℕ)
tokens (fields missing) = ok (none, none)
tokens (fields (counts prompt completion)) = ok (prompt, completion)
tokens (fields UsageField.no_object) = raised attribute_error
tokens ResponseData.no_object = raised attribute_error

abbrev pub commit :
    Library → Metric → Result Exception (Option ℕ × Option ℕ) → Exec Exception (List Usage) Unit
commit lib metric (raised e) rows = (raised e, rows)
commit lib metric (ok (prompt, completion)) rows =
    let row : Usage = record {
      metric = metric;
      prompt_tokens = prompt;
      completion_tokens = completion;
    } in
    if lib.commits then (ok tt, rows ++ row ∷ []) else (raised rejected, rows)

unfoldable pub store_usage_metrics :
    Library → Bytes → Metric → Bool → Exec Exception (List Usage) Unit
store_usage_metrics lib body metric stream =
    commit lib metric (tokens (or_empty (read lib body stream)))

-- `stream_and_accumulate_response` on the chunks of an answer: what it yields, and all bytes of it.
unfoldable pub stream_and_accumulate : Bytes → List Bytes → List Bytes × Bytes
stream_and_accumulate full [] = ([], full)
stream_and_accumulate full (chunk ∷ chunks) =
    let rest = stream_and_accumulate (full ++ chunk) chunks in (chunk ∷ rest.0, rest.1)

abbrev pub after_stream :
    Library
    → Metric
    → Bool
    → Bool
    → List Bytes × Bytes
    → List Usage
    → List Bytes × (Result Exception Unit × List Usage)
after_stream lib metric stream ends (yielded, full) rows = (
  yielded,
  if ends then store_usage_metrics lib full metric stream rows else (raised rejected, rows),
)

-- An answer through the proxy, up to the storage of its usage, a task that is added at the end of the stream.
-- `ends` says whether the stream of the inference server comes to its end or raises.
unfoldable pub respond :
    Library
    → Metric
    → Bool
    → List Bytes
    → Bool
    → List Usage
    → List Bytes × (Result Exception Unit × List Usage)
respond lib metric stream chunks ends rows =
    after_stream lib metric stream ends (stream_and_accumulate [] chunks) rows
