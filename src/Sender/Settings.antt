-- ===== src/Sender/Settings.antt =====
-- sender/settings.py: which organizations host which model, and the check of what must be set. `json.loads` is
-- applied before; the setting is not set, or a text that is no JSON, or JSON but no object, or an object that
-- has for each model a list of strings or (`none`) another value.
use aristote_dispatcher.Common.{
  String, string_eq, Option, none, some, List, [], ◌∷◌, ◌==◌, if◌then◌else◌,
}
use aristote_dispatcher.Common.Exec.{Result, ok, raised}
use aristote_dispatcher.Consumer.Exceptions.{Exception, type_error, value_error}

pub data Mapping : Type 0 where
  not_set no_json no_object : Mapping
  of_models : List (String × Option (List String)) → Mapping

abbrev pub hosted_by :
    String
    → List String
    → Result Exception (List (String × List String))
    → Result Exception (List (String × List String))
hosted_by model hosts (raised e) = raised e
hosted_by model hosts (ok mapping) = ok ((model, hosts) ∷ mapping)

abbrev pub each_of_strings :
    List (String × Option (List String)) → Result Exception (List (String × List String))
each_of_strings [] = ok []
each_of_strings ((model, none) ∷ rest) = raised value_error
each_of_strings ((model, some hosts) ∷ rest) = hosted_by model hosts (each_of_strings rest)

-- `MODEL_HOST_MAPPING`. `json.loads(None)` is a TypeError, which is not caught.
unfoldable pub host_mapping : Mapping → Result Exception (List (String × List String))
host_mapping not_set = raised type_error
host_mapping no_json = raised value_error
host_mapping no_object = raised value_error
host_mapping (of_models entries) = each_of_strings entries

-- `check_required_fields` on `DATABASE_URL`.
unfoldable pub check_required_fields : Option String → Result Exception Unit
check_required_fields none = raised value_error
check_required_fields (some url) = if url == "" then raised value_error else ok tt
