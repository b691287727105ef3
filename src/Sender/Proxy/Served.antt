-- ===== src/Sender/Proxy/Served.antt =====
-- What a request was checked for before it reached an inference server.
use aristote_dispatcher.Common.{
  String, string_eq, ◌≡◌, refl, subst, ◌&&◌, inl, inr, Option, none, some, ◌==◌, Bool-cases,
}
use aristote_dispatcher.Common.Exec.{Result, ok, raised}
use aristote_dispatcher.Consumer.Message.{
  Body, raw, object, llm_params, IncomingMessage, MessageData,
}
use aristote_dispatcher.Sender.RpcClient.{
  Outcome, response, call_result, success, queue_overloaded, timeout,
}
use aristote_dispatcher.Sender.Users.{User}
use aristote_dispatcher.Sender.Http.{
  HttpException, Failure, server_error, channel_closed, failed, JsonBody, Request, Forwarded, Reply,
  plain, error, next, streamed, CallArguments, Backend, Sender,
}
use aristote_dispatcher.Sender.Access.{authorize, Admission, refused, admitted, admission}
use aristote_dispatcher.Sender.Proxy.{
  reply_with, read_answer, conclude, after_call, serve_admission, serve, serve_authorized, proxy,
}
use aristote_dispatcher.Sender.Access.Admitted.{IsAdmissible, Admits, admission-Admits}

-- What the reply that streams an inference server's answer rests on.
abbrev pub IsServed : Backend → Request → Forwarded → Type 0
IsServed b r f =
    (user : User) × (args : CallArguments) × (m : IncomingMessage) × (p : MessageData) × (authorize
        b r
      ≡ ok user)
    × IsAdmissible b user args
    × (b.call args ≡ ok (response m))
    × (m.body ≡ llm_params p)
    × (p.llm_url ≡ some f.url)
    × (f.metric.priority ≡ args.priority)
    × (f.metric.user_name ≡ user.name)

abbrev Sound : Backend → Request → Result Failure Reply → Type 0
Sound b r (ok (streamed f)) = IsServed b r f
Sound b r (ok (plain status)) = Unit
Sound b r (ok (error status)) = Unit
Sound b r (ok next) = Unit
Sound b r (raised e) = Unit

module _ (b : Backend) (r : Request) (user : User) (json : JsonBody) (args : CallArguments)
    (known : authorize b r ≡ ok user) (admissible : IsAdmissible b user args) where
  reply_with-Sound :
      (m : IncomingMessage) (p : MessageData) (url : Option String)
      → b.call args ≡ ok (response m)
      → m.body ≡ llm_params p
      → p.llm_url ≡ url
      → Sound b r (ok (reply_with r user json args m p url))
  reply_with-Sound m p none h k q = tt
  reply_with-Sound m p (some url) h k q = (user, args, m, p, known, admissible, h, k, q, refl, refl)

  read_answer-Sound :
      (m : IncomingMessage) (body : Body)
      → b.call args ≡ ok (response m)
      → m.body ≡ body
      → Sound b r (read_answer r user json args m body)
  read_answer-Sound m (raw text) h k = tt
  read_answer-Sound m (object fields) h k = tt
  read_answer-Sound m (llm_params p) h k = reply_with-Sound m p p.llm_url h k refl

  conclude-Sound : (o : Outcome) → b.call args ≡ ok o → Sound b r (conclude r user json args o)
  unfolding conclude
  conclude-Sound (call_result success) h = tt
  conclude-Sound (call_result queue_overloaded) h = tt
  conclude-Sound (call_result timeout) h = tt
  conclude-Sound (response m) h = read_answer-Sound m m.body h refl

  after_call-Sound :
      (o : Result Failure Outcome) (w : Sender)
      → b.call args ≡ o
      → Sound b r (after_call r user json args o w).0
  after_call-Sound (ok o) w h = conclude-Sound o h
  after_call-Sound (raised channel_closed) w h = tt
  after_call-Sound (raised server_error) w h = tt
  after_call-Sound (raised (failed e)) w h = tt

serve_admission-Sound :
    (b : Backend) (r : Request) (user : User) (json : JsonBody) (a : Result Failure Admission)
    (w : Sender)
    → authorize b r ≡ ok user
    → Admits b user a
    → Sound b r (serve_admission b r user json (a, w)).0
serve_admission-Sound b r user json (raised e) w known p = tt
serve_admission-Sound b r user json (ok (refused status)) w known p = tt
serve_admission-Sound b r user json (ok (admitted args)) w known p =
    after_call-Sound b r user json args known p (b.call args) w refl

serve-Sound :
    (b : Backend) (r : Request) (user : User) (body : Option JsonBody) (w : Sender)
    → authorize b r ≡ ok user
    → Sound b r (serve b r user body w).0
serve-Sound b r user none w known = tt
serve-Sound b r user (some json) w known =
    serve_admission-Sound b r user json (admission b user json w).0 (admission b user json w).1
      known (admission-Admits b user json w)

serve_authorized-Sound :
    (b : Backend) (r : Request) (a : Result HttpException User) (w : Sender)
    → authorize b r ≡ a
    → Sound b r (serve_authorized b r a w).0
serve_authorized-Sound b r (raised e) w known = tt
serve_authorized-Sound b r (ok user) w known = elim (Bool-cases (r.method == "GET")) [
  | inl get ↦ rw get tt
  | inr post ↦ rw post (serve-Sound b r user r.body w known)
]

proxy-Sound : (b : Backend) (r : Request) (w : Sender) → Sound b r (proxy b r w).0
unfolding proxy
proxy-Sound b r w = elim (Bool-cases (r.method == "GET" && r.path == "/health/liveness")) [
  | inl alive ↦ rw alive tt
  | inr other ↦ elim (Bool-cases (r.method == "GET" && r.path == "/health/readiness")) [
    | inl ready ↦ rw (other, ready) tt
    | inr request ↦ rw (other, request) (serve_authorized-Sound b r (authorize b r) w refl)
  ]
]

-- An inference server's answer is streamed only to a request with a known user's token, after a call of
-- the consumer with admissible arguments of that user, from the server that the response of the call
-- names; what is stored has the user's name and the priority of the call.
pub proxy-IsServed :
    (b : Backend) (r : Request) (w after : Sender) (f : Forwarded)
    → proxy b r w ≡ (ok (streamed f), after)
    → IsServed b r f
proxy-IsServed b r w after f h = subst (λ out. Sound b r out.0) h (proxy-Sound b r w)
