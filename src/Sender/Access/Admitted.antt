-- ===== src/Sender/Access/Admitted.antt =====
-- What a request was checked for before it reached the consumer.
use aristote_dispatcher.Common.{
  ◌≤◌, String, string_eq, ◌≡◌, refl, subst, true, ◌⊎◌, inl, inr, Option, none, some, List, ◌==◌,
  arith, eq_iff, Bool-cases,
}
use aristote_dispatcher.Common.Dict.{lookup, contains, or_default}
use aristote_dispatcher.Common.Exec.{Result, ok, raised}
use aristote_dispatcher.Consumer.Exceptions.{Exception}
use aristote_dispatcher.Sender.Models.{Model}
use aristote_dispatcher.Sender.Settings.{host_mapping}
use aristote_dispatcher.Sender.Users.{User}
use aristote_dispatcher.Sender.Http.{Failure, JsonBody, CallArguments, Backend, Sender}
use aristote_dispatcher.Sender.Access.{
  Admission, refused, admitted, routing_modes, arguments, is_hosted, admit_hosted, check_host,
  check_mode, requested_mode, after_search, admit_model, admission,
}

-- A private routing mode is for an organization that hosts the model.
abbrev pub IsHosted : Result Exception (List (String × List String)) → User → CallArguments → Type 0
IsHosted mapping user args =
    (args.routing_mode ≡ "any")
    ⊎ ((hosts_of : List (String × List String)) × (hosts : List String) × (mapping ≡ ok hosts_of)
        × (lookup args.model hosts_of ≡ some hosts)
        × (is_hosted user.organization hosts ≡ true))

-- The arguments of a call are the user's own: no better priority than the user has, the user's threshold
-- and organization, and a routing mode that exists and that the organization may ask for.
abbrev pub IsAdmissible : Backend → User → CallArguments → Type 0
IsAdmissible b user args =
    (args.priority ≤ user.priority)
    × (args.threshold ≡ or_default user.threshold 0)
    × (args.organization ≡ user.organization)
    × (contains args.routing_mode routing_modes ≡ true)
    × IsHosted (host_mapping b.model_host_mapping) user args

abbrev pub Admits : Backend → User → Result Failure Admission → Type 0
Admits b user (ok (admitted args)) = IsAdmissible b user args
Admits b user (ok (refused status)) = Unit
Admits b user (raised e) = Unit

argued :
    (b : Backend) (user : User) (json : JsonBody) (model mode : String)
    → contains mode routing_modes ≡ true
    → IsHosted (host_mapping b.model_host_mapping) user (arguments user json model mode)
    → IsAdmissible b user (arguments user json model mode)
argued b user json model mode known hosted = (omega arith, refl, refl, known, hosted)

admit_hosted-Admits :
    (b : Backend) (user : User) (json : JsonBody) (model mode : String)
    (mapping : List (String × List String)) (found : Option (List String))
    → contains mode routing_modes ≡ true
    → host_mapping b.model_host_mapping ≡ ok mapping
    → lookup model mapping ≡ found
    → Admits b user (admit_hosted user json model mode found)
admit_hosted-Admits b user json model mode mapping none known m h = tt
admit_hosted-Admits b user json model mode mapping (some hosts) known m h =
    elim (Bool-cases (is_hosted user.organization hosts)) [
      | inl hosted ↦
          rw hosted (argued b user json model mode known (inr (mapping, hosts, m, h, hosted)))
      | inr foreign ↦ rw foreign tt
    ]

check_host-Admits :
    (b : Backend) (user : User) (json : JsonBody) (model mode : String)
    (mapping : Result Exception (List (String × List String)))
    → contains mode routing_modes ≡ true
    → host_mapping b.model_host_mapping ≡ mapping
    → Admits b user (check_host mapping user json model mode)
check_host-Admits b user json model mode (raised e) known m = elim (Bool-cases (mode == "any")) [
  | inl any ↦ rw any (argued b user json model mode known (inl ((eq_iff mode "any").0 any)))
  | inr private ↦ rw private tt
]
check_host-Admits b user json model mode (ok mapping) known m = elim (Bool-cases (mode == "any")) [
  | inl any ↦ rw any (argued b user json model mode known (inl ((eq_iff mode "any").0 any)))
  | inr private ↦
      rw private
        (admit_hosted-Admits b user json model mode mapping (lookup model mapping) known m refl)
]

check_mode-Admits :
    (b : Backend) (user : User) (json : JsonBody) (model : String) (mode : Option String)
    → Admits b user (check_mode b user json model mode)
unfolding check_mode
check_mode-Admits b user json model none = tt
check_mode-Admits b user json model (some mode) = elim (Bool-cases (contains mode routing_modes)) [
  | inl known ↦
      rw known
        (check_host-Admits b user json model mode (host_mapping b.model_host_mapping) known refl)
  | inr unknown ↦ rw unknown tt
]

after_search-Admits :
    (b : Backend) (user : User) (json : JsonBody) (model : String) (w : Sender)
    (found : Result Exception (Option Model) × List Model)
    → Admits b user (after_search b user json model w found).0
after_search-Admits b user json model w (raised e, models) = tt
after_search-Admits b user json model w (ok none, models) = tt
after_search-Admits b user json model w (ok (some m), models) =
    check_mode-Admits b user json model (requested_mode user json)

admit_model-Admits :
    (b : Backend) (user : User) (json : JsonBody) (model : Option (Option String)) (w : Sender)
    → Admits b user (admit_model b user json model w).0
admit_model-Admits b user json none w = tt
admit_model-Admits b user json (some none) w = tt
admit_model-Admits b user json (some (some model)) w = elim (Bool-cases (model == "")) [
  | inl empty ↦ rw empty tt
  | inr named ↦ rw named (after_search-Admits b user json model w _)
]

pub admission-Admits :
    (b : Backend) (user : User) (json : JsonBody) (w : Sender)
    → Admits b user (admission b user json w).0
unfolding admission
admission-Admits b user json w = admit_model-Admits b user json json.model w

-- The arguments that the consumer is called with are admissible: the priority is at most the user's, the
-- threshold and the organization are the user's, the routing mode is one of the three, and a private one
-- is for an organization that hosts the model.
pub admission-IsAdmissible :
    (b : Backend) (user : User) (json : JsonBody) (w after : Sender) (args : CallArguments)
    → admission b user json w ≡ (ok (admitted args), after)
    → IsAdmissible b user args
admission-IsAdmissible b user json w after args h =
    subst (λ out. Admits b user out.0) h (admission-Admits b user json w)
