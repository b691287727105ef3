-- ===== src/Sender/Users.antt =====
-- sender/command/manage_users.py over the table of sender/entities/user.py: the commands that edit the
-- users. The table is the list of its rows in the order of their ids; what it says to the commit of a row is
-- the parameter `verdict`. The proofs are in `Unique` and `Commands`.
pub mod Unique
pub mod Commands
use aristote_dispatcher.Common.{
  ℕ, suc, nat_eq, String, string_eq, Bool, true, false, ◌&&◌, ◌||◌, Option, none, some, List, [],
  ◌∷◌, ◌++◌, ◌==◌, Eq, option_eq, if◌then◌else◌,
}
use aristote_dispatcher.Common.Dict.{or_default}

pub record User : Type 0 where
  pub id : ℕ
  pub token : String
  pub name : String
  pub organization : Option String
  pub email : Option String
  pub priority : ℕ
  pub threshold : Option ℕ
  pub client_type : Option String
  pub default_routing_mode : String

-- `next_id` is the counter of the autoincremented key.
pub record Database : Type 0 where
  pub users : List User
  pub next_id : ℕ

-- How a command ends: with a message, with an exception, or with that exit code.
pub data Exit : Type 0 where
  done crashed : Exit
  exit : ℕ → Exit

-- What the database says to the commit of a row.
pub data Verdict : Type 0 where
  accepted integrity_error other_error : Verdict

-- `.filter(User.token == token).first()`
abbrev pub find_user : String → List User → Option User
find_user token [] = none
find_user token (u ∷ users) =
    let rest = find_user token users in if u.token == token then some u else rest

-- A row with that token or that name.
abbrev pub clashes : User → User → Bool
clashes u v = u.token == v.token || u.name == v.name

abbrev pub is_taken : User → List User → Bool
is_taken u [] = false
is_taken u (v ∷ users) = let rest = is_taken u users in clashes v u || rest

-- The commit of an IntegrityError is rolled back, and the command ends like the others.
abbrev pub commit_row : Verdict → User → Database → Exit × Database
commit_row accepted user db =
    (done, record db { users = db.users ++ user ∷ []; next_id = suc db.next_id })
commit_row integrity_error user db = (done, db)
commit_row other_error user db = (crashed, db)

abbrev pub new_user : ℕ → String → ℕ → ℕ → String → String → String → Option String → String → User
new_user id token priority threshold name organization email client_type mode = record {
  id = id;
  token = token;
  name = name;
  organization = some organization;
  email = some email;
  priority = priority;
  threshold = some threshold;
  client_type = client_type;
  default_routing_mode = mode;
}

unfoldable pub add_user :
    (User → Verdict)
    → String
    → ℕ
    → ℕ
    → String
    → String
    → String
    → Option String
    → String
    → Database
    → Exit × Database
add_user verdict token priority threshold name organization email client_type mode db =
    let user =
      new_user db.next_id token priority threshold name organization email client_type mode in
    commit_row (verdict user) user db

-- `session.delete(user)`, by the primary key.
abbrev pub delete_id : ℕ → List User → List User
delete_id id [] = []
delete_id id (u ∷ users) = let rest = delete_id id users in if u.id == id then rest else u ∷ rest

abbrev pub delete_found : Option User → Database → Exit × Database
delete_found none db = (exit 1, db)
delete_found (some user) db = (done, record db { users = delete_id user.id db.users })

unfoldable pub delete_user : String → Database → Exit × Database
delete_user token db = delete_found (find_user token db.users) db

-- The columns that `edit_user` may set. An option that is not passed is None.
pub record Updates : Type 0 where
  pub priority : Option ℕ
  pub threshold : Option ℕ
  pub organization : Option String
  pub email : Option String
  pub client_type : Option String
  pub default_routing_mode : Option String

abbrev is_none : {A : Type 0} → Option A → Bool
is_none none = true
is_none (some a) = false

abbrev pub is_empty : Updates → Bool
is_empty u =
    is_none u.priority
    && is_none u.threshold
    && is_none u.organization
    && is_none u.email
    && is_none u.client_type
    && is_none u.default_routing_mode

abbrev pub kept : {A : Type 0} → Option A → Option A → Option A
kept none old = old
kept (some a) old = some a

abbrev pub updated : Updates → User → User
updated u user = record user {
  priority = or_default u.priority user.priority;
  threshold = kept u.threshold user.threshold;
  organization = kept u.organization user.organization;
  email = kept u.email user.email;
  client_type = kept u.client_type user.client_type;
  default_routing_mode = or_default u.default_routing_mode user.default_routing_mode;
}

abbrev pub update_id : ℕ → Updates → List User → List User
update_id id u [] = []
update_id id u (v ∷ users) =
    let rest = update_id id u users in if v.id == id then updated u v ∷ rest else v ∷ rest

abbrev pub commit_update : Verdict → ℕ → Updates → Database → Exit × Database
commit_update accepted id u db = (done, record db { users = update_id id u db.users })
commit_update integrity_error id u db = (exit 1, db)
commit_update other_error id u db = (exit 1, db)

abbrev pub edit_found : (User → Verdict) → Updates → Option User → Database → Exit × Database
edit_found verdict u none db = (exit 1, db)
edit_found verdict u (some user) db = commit_update (verdict (updated u user)) user.id u db

-- No column that an update sets is unique.
unfoldable pub edit_user : (User → Verdict) → String → Updates → Database → Exit × Database
edit_user verdict token u db =
    if is_empty u then (exit 0, db) else edit_found verdict u (find_user token db.users) db

-- The filters of `list_users`: an option that is not passed filters nothing.
pub record Filters : Type 0 where
  pub token : Option String
  pub name : Option String
  pub organization : Option String
  pub email : Option String
  pub priority : Option ℕ
  pub threshold : Option ℕ
  pub client_type : Option String
  pub default_routing_mode : Option String

-- `column == value`, which a NULL does not satisfy; no clause for a value that is None.
abbrev column_is : {A : Type 0} ⦃e : Eq A⦄ → Option A → Option A → Bool
column_is column none = true
column_is column (some value) = column == some value

abbrev pub matches : Filters → User → Bool
matches f u =
    column_is (some u.token) f.token
    && column_is (some u.name) f.name
    && column_is u.organization f.organization
    && column_is u.email f.email
    && column_is (some u.priority) f.priority
    && column_is u.threshold f.threshold
    && column_is u.client_type f.client_type
    && column_is (some u.default_routing_mode) f.default_routing_mode

unfoldable pub list_users : Filters → List User → List User
list_users f [] = []
list_users f (u ∷ users) = let rest = list_users f users in if matches f u then u ∷ rest else rest
