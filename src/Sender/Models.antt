-- ===== src/Sender/Models.antt =====
-- sender/models.py: the list of the models, read from the queues that are bound to the broker's default
-- exchange and kept between requests. The management interface is a parameter: the destinations of the
-- bindings that it answers, or an exception. The proofs are in `Cache`.
pub mod Cache
use Prim.Native.String.{len, slice}
use text.Mathlib.Text.{starts_with}
use aristote_dispatcher.Common.{
  ◌-◌, leb, String, string_eq, Bool, not, ◌&&◌, Option, none, some, List, [], ◌∷◌, map, ◌==◌,
  if◌then◌else◌,
}
use aristote_dispatcher.Common.Dict.{contains}
use aristote_dispatcher.Common.Exec.{Exec, Result, ok, raised}
use aristote_dispatcher.Consumer.Exceptions.{Exception}

-- The key "object" is "model" for each.
pub record Model : Type 0 where
  pub id : String
  pub owned_by : String

abbrev pub model_of : String → Model
model_of destination = record { id = destination; owned_by = destination }

abbrev pub ends_with : String → String → Bool
ends_with s t = leb (len t) (len s) && slice s (len s - len t) (len s) == t

-- A queue of a model, and not one of the broker's own, nor one of the two others that a consumer declares.
unfoldable pub is_model_queue : String → Bool
is_model_queue destination =
    not (starts_with destination "amq")
    && not (ends_with destination "completed")
    && not (ends_with destination "private")

abbrev pub models_of : List String → List Model
models_of [] = []
models_of (destination ∷ bindings) =
    let rest = models_of bindings in
    if is_model_queue destination then model_of destination ∷ rest else rest

abbrev store_models : Result Exception (List String) → Exec Exception (List Model) (List Model)
store_models (ok bindings) models = (ok (models_of bindings), models_of bindings)
store_models (raised e) models = (raised e, models)

unfoldable pub get_models :
    Result Exception (List String) → Exec Exception (List Model) (List Model)
get_models fetch models = store_models fetch models

abbrev pub find_model : String → List Model → Option Model
find_model model_id [] = none
find_model model_id (m ∷ models) =
    let rest = find_model model_id models in if m.id == model_id then some m else rest

abbrev search :
    String
    → Result Exception (List Model) × List Model
    → Result Exception (Option Model) × List Model
search model_id (ok _, models) = (ok (find_model model_id models), models)
search model_id (raised e, models) = (raised e, models)

unfoldable pub get_model_by_id :
    Result Exception (List String) → String → Exec Exception (List Model) (Option Model)
get_model_by_id fetch model_id models =
    if contains model_id (map (λ (m : Model). m.id) models)
    then (ok (find_model model_id models), models)
    else search model_id (get_models fetch models)
