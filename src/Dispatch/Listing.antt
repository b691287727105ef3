-- ===== src/Dispatch/Listing.antt =====
-- The models that the sender lists are read from the queues that are bound to the default exchange, and each
-- queue that a consumer declares is one of those.
use Prim.Native.String.{◌++◌ as str_append, len, slice}
use text.Mathlib.TextPositions.{len-append, slice-append_right}
use text.Mathlib.TextLemmas.{append_assoc}
use aristote_dispatcher.Common.{
  ◌+◌, ◌-◌, leb, ◌≡◌, refl, sym, ap, ◌∙◌, String, string_eq, Bool, true, false, ◌&&◌, ◌==◌, List,
  [], ◌∷◌, arith, if◌then◌else◌,
}
use aristote_dispatcher.Consumer.Server.{VllmServer}
use aristote_dispatcher.Consumer.RpcServer.Connection.{
  Call, connect, open_channel, set_qos, declare_queue, consume, Limits, first_connect,
  private_calls, private_queue, completed_queue,
}
use aristote_dispatcher.Consumer.RpcServer.Connection.Consumers.{first_connect_lem}
use aristote_dispatcher.Consumer.RpcServer.State.{RpcServer}
use aristote_dispatcher.Sender.Models.{ends_with, is_model_queue, model_of, models_of}

-- The queues that are declared, in their order.
abbrev pub declared : List Call → List String
declared [] = []
declared (declare_queue queue arguments ∷ calls) = queue ∷ declared calls
declared (connect ∷ calls) = declared calls
declared (open_channel ∷ calls) = declared calls
declared (set_qos n ∷ calls) = declared calls
declared (consume queue callback ∷ calls) = declared calls

both : {a b : Bool} → a ≡ true → b ≡ true → (a && b) ≡ true
both p q = ground (arith, p, q)

-- A text ends with what was put behind it.
ends_with-append : (s t : String) → ends_with (str_append s t) t ≡ true
ends_with-append s t =
    both (ap (leb (len t)) (len-append s t) ∙ room)
      (ap (λ u. u == t) ends ∙ ground (arith, string_eq.decides t t))
  where
    room : leb (len t) (len s + len t) ≡ true
    room = ground arith

    ends : slice (str_append s t) (len (str_append s t) - len t) (len (str_append s t)) ≡ t
    ends =
        ap (λ n. slice (str_append s t) (n - len t) n) (len-append s t)
        ∙ ap (λ n. slice (str_append s t) n (len s + len t)) (omega arith)
        ∙ slice-append_right s t

hidden_completed : (s : String) → ends_with s "completed" ≡ true → is_model_queue s ≡ false
unfolding is_model_queue
hidden_completed s h = ground (arith, h)

hidden_private : (s : String) → ends_with s "private" ≡ true → is_model_queue s ≡ false
unfolding is_model_queue
hidden_private s h = ground (arith, h)

completed_hidden : (model : String) → is_model_queue (completed_queue model) ≡ false
completed_hidden model = hidden_completed _ (
    ap (λ s. ends_with s "completed") (sym (append_assoc model "_" "completed"))
    ∙ ends_with-append (str_append model "_") "completed")

private_hidden :
    (model : String) (server : VllmServer) → is_model_queue (private_queue model server) ≡ false
private_hidden model server = hidden_private _ (
    ap (λ s. ends_with s "private") (sym split)
    ∙ ends_with-append (str_append model (str_append "_" (str_append server.organization "_")))
        "private")
  where
    split :
        str_append
          (str_append model (str_append "_" (str_append server.organization "_")))
          "private"
        ≡ private_queue model server
    split =
        append_assoc model (str_append "_" (str_append server.organization "_")) "private"
        ∙ ap (str_append model) (append_assoc "_" (str_append server.organization "_") "private")
        ∙ ap (λ s. str_append model (str_append "_" s))
            (append_assoc server.organization "_" "private")

-- A queue that is not listed may come first.
skip :
    (queue : String) (queues : List String)
    → is_model_queue queue ≡ false
    → models_of (queue ∷ queues) ≡ models_of queues
skip queue queues hidden =
    ap (λ b. if b then model_of queue ∷ models_of queues else models_of queues) hidden

privates_hidden :
    (l : Limits) (model : String) (servers : List VllmServer)
    → models_of (declared (private_calls l model servers)) ≡ []
privates_hidden l model [] = refl
privates_hidden l model (server ∷ servers) =
    skip _ _ (private_hidden model server) ∙ privates_hidden l model servers

module _ (returns : Call → Bool) (all : (c : Call) → returns c ≡ true) (l : Limits) where
  -- Where no call of a first connection fails and the name of the settings' model is that of a model's queue,
  -- the models that the sender reads from the queues declared are just that model, whatever the organizations.
  pub listed_once :
      (rpc : RpcServer)
      → is_model_queue rpc.settings.model ≡ true
      → models_of (declared (first_connect returns l (record { rpc = rpc; calls = [] })).1.calls)
        ≡ model_of rpc.settings.model ∷ []
  listed_once rpc named =
      let model = rpc.settings.model in
      let privates = declared (private_calls l model rpc.settings.vllm_servers) in
      ap (λ o. models_of (declared o.1.calls)) (first_connect_lem returns all l rpc)
      ∙ ap
          (λ b.
            if b
            then model_of model ∷ models_of (completed_queue model ∷ privates)
            else models_of (completed_queue model ∷ privates))
          named
      ∙ ap (λ ms. model_of model ∷ ms)
          (skip _ privates (completed_hidden model)
            ∙ privates_hidden l model rpc.settings.vllm_servers)
