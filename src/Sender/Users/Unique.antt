-- ===== src/Sender/Users/Unique.antt =====
-- The keys of the table under the commands.
use aristote_dispatcher.Common.{
  ℕ, suc, ◌<◌, ◌≡◌, ◌≢◌, refl, inl, inr, String, string_eq, nat_eq, false, Option, none, some, List,
  [], ◌∷◌, ◌++◌, ◌==◌, All, All-append, All-map, arith, Bool-cases,
}
use aristote_dispatcher.Sender.Users.{
  User, Database, Verdict, accepted, integrity_error, other_error, find_user, clashes, is_taken,
  commit_row, new_user, add_user, delete_id, delete_found, delete_user, Updates, is_empty, updated,
  update_id, commit_update, edit_found, edit_user,
}

abbrev pub Apart : User → User → Type 0
Apart u v = (clashes u v ≡ false) × (u.id ≢ v.id)

abbrev pub IsUnique : List User → Type 0
IsUnique [] = Unit
IsUnique (u ∷ users) = All (Apart u) users × IsUnique users

-- No two rows share an id, a token or a name, and the next id is above those given.
abbrev pub IsKeyed : Database → Type 0
IsKeyed db = IsUnique db.users × All (λ (u : User). u.id < db.next_id) db.users

snoc-IsUnique :
    (user : User) (users : List User)
    → is_taken user users ≡ false
    → All (λ (u : User). u.id < user.id) users
    → IsUnique users
    → IsUnique (users ++ user ∷ [])
snoc-IsUnique user [] fresh below p = (tt, tt)
snoc-IsUnique user (u ∷ users) fresh below p =
    let apart : clashes u user ≡ false = ground arith in
    let rest : is_taken user users ≡ false = ground arith in
    let differ : u.id ≢ user.id = λ q. omega (arith, below.0, q) in
    (
      All-append (Apart u) users (user ∷ []) p.0 ((apart, differ), tt),
      snoc-IsUnique user users rest below.1 p.1,
    )

commit_row-IsKeyed :
    (v : Verdict) (user : User) (db : Database)
    → (v ≡ accepted → is_taken user db.users ≡ false)
    → user.id ≡ db.next_id
    → IsKeyed db
    → IsKeyed (commit_row v user db).1
commit_row-IsKeyed accepted user db h k p = (
  snoc-IsUnique user db.users (h refl)
      (All-map db.users (λ (u : User) below. omega (arith, below, k)) p.1) p.0,
  All-append (λ (u : User). u.id < suc db.next_id) db.users (user ∷ [])
      (All-map db.users (λ (u : User) below. omega (arith, below)) p.1) (omega (arith, k), tt),
)
commit_row-IsKeyed integrity_error user db h k p = p
commit_row-IsKeyed other_error user db h k p = p

delete_id-All :
    (P : User → Type 0) (id : ℕ) (users : List User) → All P users → All P (delete_id id users)
delete_id-All P id [] a = tt
delete_id-All P id (u ∷ users) a = elim (Bool-cases (u.id == id)) [
  | inl same ↦ rw same (delete_id-All P id users a.1)
  | inr other ↦ rw other (a.0, delete_id-All P id users a.1)
]

delete_id-IsUnique : (id : ℕ) (users : List User) → IsUnique users → IsUnique (delete_id id users)
delete_id-IsUnique id [] p = tt
delete_id-IsUnique id (u ∷ users) p = elim (Bool-cases (u.id == id)) [
  | inl same ↦ rw same (delete_id-IsUnique id users p.1)
  | inr other ↦ rw other (delete_id-All (Apart u) id users p.0, delete_id-IsUnique id users p.1)
]

-- A property of the keys alone survives an update.
update_id-All :
    (P : User → Type 0) (id : ℕ) (up : Updates) (users : List User)
    → ((u : User) → P u → P (updated up u))
    → All P users
    → All P (update_id id up users)
update_id-All P id up [] f a = tt
update_id-All P id up (u ∷ users) f a = elim (Bool-cases (u.id == id)) [
  | inl same ↦ rw same (f u a.0, update_id-All P id up users f a.1)
  | inr other ↦ rw other (a.0, update_id-All P id up users f a.1)
]

update_id-IsUnique :
    (id : ℕ) (up : Updates) (users : List User) → IsUnique users → IsUnique (update_id id up users)
update_id-IsUnique id up [] p = tt
update_id-IsUnique id up (u ∷ users) p =
    let rest = update_id-All (Apart u) id up users (λ v a. a) p.0 in
    elim (Bool-cases (u.id == id)) [
      | inl same ↦ rw same (rest, update_id-IsUnique id up users p.1)
      | inr other ↦ rw other (rest, update_id-IsUnique id up users p.1)
    ]

delete_found-IsKeyed :
    (found : Option User) (db : Database) → IsKeyed db → IsKeyed (delete_found found db).1
delete_found-IsKeyed none db p = p
delete_found-IsKeyed (some user) db p = (
  delete_id-IsUnique user.id db.users p.0,
  delete_id-All (λ (u : User). u.id < db.next_id) user.id db.users p.1,
)

commit_update-IsKeyed :
    (v : Verdict) (id : ℕ) (up : Updates) (db : Database)
    → IsKeyed db
    → IsKeyed (commit_update v id up db).1
commit_update-IsKeyed accepted id up db p = (
  update_id-IsUnique id up db.users p.0,
  update_id-All (λ (u : User). u.id < db.next_id) id up db.users (λ u below. below) p.1,
)
commit_update-IsKeyed integrity_error id up db p = p
commit_update-IsKeyed other_error id up db p = p

edit_found-IsKeyed :
    (verdict : User → Verdict) (up : Updates) (found : Option User) (db : Database)
    → IsKeyed db
    → IsKeyed (edit_found verdict up found db).1
edit_found-IsKeyed verdict up none db p = p
edit_found-IsKeyed verdict up (some user) db p =
    commit_update-IsKeyed (verdict (updated up user)) user.id up db p

pub data Command : Type 0 where
  add : String → ℕ → ℕ → String → String → String → Option String → String → Command
  delete : String → Command
  edit : String → Updates → Command

-- The unique constraints of the table: a row that shares a token or a name is refused.
abbrev IsGuard : (List User → User → Verdict) → Type 0
IsGuard verdict =
    (rows : List User) (user : User) → verdict rows user ≡ accepted → is_taken user rows ≡ false

abbrev pub execute : (List User → User → Verdict) → Command → Database → Database
execute verdict (add token priority threshold name organization email client_type mode) db =
    (add_user (verdict db.users) token priority threshold name organization email client_type mode
      db).1
execute verdict (delete token) db = (delete_user token db).1
execute verdict (edit token up) db = (edit_user (verdict db.users) token up db).1

unfoldable execute_all : (List User → User → Verdict) → List Command → Database → Database
execute_all verdict [] db = db
execute_all verdict (c ∷ commands) db = execute_all verdict commands (execute verdict c db)

execute-IsKeyed :
    (verdict : List User → User → Verdict) (c : Command) (db : Database)
    → IsGuard verdict
    → IsKeyed db
    → IsKeyed (execute verdict c db)
unfolding add_user delete_user edit_user
execute-IsKeyed verdict (add token priority threshold name organization email client_type mode) db
      guard p =
    let user =
      new_user db.next_id token priority threshold name organization email client_type mode in
    commit_row-IsKeyed (verdict db.users user) user db (guard db.users user) refl p
execute-IsKeyed verdict (delete token) db guard p =
    delete_found-IsKeyed (find_user token db.users) db p
execute-IsKeyed verdict (edit token up) db guard p = elim (Bool-cases (is_empty up)) [
  | inl nothing ↦ rw (nothing, execute) p
  | inr something ↦
      rw (something, execute)
        (edit_found-IsKeyed (verdict db.users) up (find_user token db.users) db p)
]

-- Over a database that refuses a row which shares a token or a name with another, no sequence of commands makes
-- two rows share an id, a token or a name, if none do before it and the next id is above those given.
execute_all-IsKeyed :
    (verdict : List User → User → Verdict) (commands : List Command) (db : Database)
    → IsGuard verdict
    → IsKeyed db
    → IsKeyed (execute_all verdict commands db)
unfolding execute_all
execute_all-IsKeyed verdict [] db guard p = p
execute_all-IsKeyed verdict (c ∷ commands) db guard p =
    execute_all-IsKeyed verdict commands (execute verdict c db) guard
      (execute-IsKeyed verdict c db guard p)
