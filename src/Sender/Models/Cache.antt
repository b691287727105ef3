-- ===== src/Sender/Models/Cache.antt =====
-- What the cache of models answers.
use aristote_dispatcher.Common.{
  String, string_eq, ◌≡◌, refl, sym, ap, ◌∙◌, ◌&&◌, if◌then◌else◌, inl, inr, true, false, none,
  some, List, [], ◌∷◌, map, arith, Bool-cases, ◌==◌, eq_iff,
}
use aristote_dispatcher.Common.Dict.{contains}
use aristote_dispatcher.Common.Exec.{Result, ok, raised}
use aristote_dispatcher.Consumer.Exceptions.{Exception}
use aristote_dispatcher.Sender.Models.{
  Model, models_of, model_of, is_model_queue, find_model, get_models, get_model_by_id,
}

abbrev pub ids : List Model → List String
ids models = map (λ (m : Model). m.id) models

find_model-contains :
    (id : String) (models : List Model)
    → contains id (ids models) ≡ true
    → (m : Model) × (find_model id models ≡ some m) × (m.id ≡ id)
unfolding contains
find_model-contains id [] h = cc
find_model-contains id (m ∷ models) h = elim (Bool-cases (m.id == id)) [
  | inl same ↦ (m, rw same refl, (eq_iff m.id id).0 same)
  | inr other ↦ rw other (find_model-contains id models (rw other at h))
]

find_model-models_of :
    (id : String) (bindings : List String)
    → find_model id (models_of bindings)
      ≡ (if contains id bindings && is_model_queue id then some (model_of id) else none)
unfolding contains
find_model-models_of id [] = refl
find_model-models_of id (d ∷ bindings) = elim (Bool-cases (d == id)) [
  | inl same ↦
      let d_id = (eq_iff d id).0 same in
      elim (Bool-cases (is_model_queue d)) [
        | inl kept ↦ rw (kept, same, sym d_id, kept) refl
        | inr dropped ↦
            let dropped_id : is_model_queue id ≡ false = ap is_model_queue (sym d_id) ∙ dropped in
            ground (arith, same, dropped, dropped_id, find_model-models_of id bindings)
      ]
  | inr other ↦ elim (Bool-cases (is_model_queue d)) [
    | inl kept ↦ rw (kept, other) (find_model-models_of id bindings)
    | inr dropped ↦ rw (dropped, other) (find_model-models_of id bindings)
  ]
]

-- A model that the cache has is answered from it. For one that it has not, the bindings are read again: if
-- that raises, so does the call, and the cache stays; otherwise the cache is the models of the bindings, and
-- the answer is the model just where its queue is bound and is a queue of a model.
pub get_model_by_id_lem :
    (id : String) (cache : List Model)
    → (contains id (ids cache) ≡ true
        → (fetch : Result Exception (List String))
        → (m : Model) × (get_model_by_id fetch id cache ≡ (ok (some m), cache)) × (m.id ≡ id))
      × (contains id (ids cache) ≡ false
          → (e : Exception) → get_model_by_id (raised e) id cache ≡ (raised e, cache))
      × (contains id (ids cache) ≡ false
          → (bindings : List String)
          → get_model_by_id (ok bindings) id cache ≡ (
            ok (if contains id bindings && is_model_queue id then some (model_of id) else none),
            models_of bindings,
          ))
unfolding get_model_by_id get_models
get_model_by_id_lem id cache = (
  λ h fetch. let (m, found, same) = find_model-contains id cache h in (m, rw (h, found) refl, same),
  λ h e. rw h refl,
  λ h bindings. rw (h, find_model-models_of id bindings) refl,
)
