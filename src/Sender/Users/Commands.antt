-- ===== src/Sender/Users/Commands.antt =====
-- What each command does to the row that its token names.
use aristote_dispatcher.Common.{
  ℕ, ◌≡◌, ◌≢◌, refl, sym, ap, ◌∙◌, subst, String, string_eq, nat_eq, true, false, none, some, List,
  [], ◌∷◌, ◌==◌, inl, inr, All, All-map, arith, eq_iff, nat_beq_iff, Bool-cases,
}
use aristote_dispatcher.Sender.Users.{User, Database, done, exit, find_user, delete_id, delete_user}
use aristote_dispatcher.Sender.Users.Unique.{Apart, IsUnique, IsKeyed}

-- No row has that token.
abbrev Lacks : String → User → Type 0
Lacks token u = (u.token == token) ≡ false

Lacks-find :
    (token : String) (users : List User) → All (Lacks token) users → find_user token users ≡ none
Lacks-find token [] a = refl
Lacks-find token (u ∷ users) a = rw a.0 (Lacks-find token users a.1)

lacks_delete :
    (token : String) (id : ℕ) (users : List User)
    → find_user token users ≡ none
    → find_user token (delete_id id users) ≡ none
lacks_delete token id [] h = refl
lacks_delete token id (u ∷ users) h = ground (arith, lacks_delete token id users)

-- Behind the row of a token no other has it.
Apart-Lacks : (token : String) (u v : User) → u.token ≡ token → Apart u v → Lacks token v
Apart-Lacks token u v h a = ground (arith, h, a.0, eq_iff u.token v.token, eq_iff v.token token)

deleted :
    (token : String) (user : User) (users : List User)
    → IsUnique users
    → find_user token users ≡ some user
    → find_user token (delete_id user.id users) ≡ none
deleted token user [] p h = cc
deleted token user (u ∷ users) p h = elim (Bool-cases (u.token == token)) [
  | inl same ↦
      let found : u ≡ user = ground arith in
      let lacks =
        Lacks-find token users
          (All-map users (λ v. Apart-Lacks token u v ((eq_iff u.token token).0 same)) p.0) in
      let id_same : (u.id == user.id) ≡ true =
        ground (arith, ap (λ (v : User). v.id) found, nat_beq_iff u.id user.id) in
      rw id_same (lacks_delete token user.id users lacks)
  | inr other ↦ let ih = deleted token user users p.1 (rw other at h) in ground (arith, other, ih)
]

find-All :
    (P : User → Type 0) (token : String) (user : User) (users : List User)
    → All P users
    → find_user token users ≡ some user
    → P user
find-All P token user [] a h = cc
find-All P token user (u ∷ users) a h = elim (Bool-cases (u.token == token)) [
  | inl same ↦ let found : u ≡ user = ground arith in subst P found a.0
  | inr other ↦ find-All P token user users a.1 (rw other at h)
]

-- A row with that id has not the other token.
abbrev Shields : ℕ → String → User → Type 0
Shields id other u = (u.id == id) ≡ true → (u.token == other) ≡ false

shields :
    (token other : String) (user : User) (users : List User)
    → token ≢ other
    → IsUnique users
    → find_user token users ≡ some user
    → All (Shields user.id other) users
shields token other user [] ne p h = tt
shields token other user (u ∷ users) ne p h = elim (Bool-cases (u.token == token)) [
  | inl same ↦
      let found : u ≡ user = ground arith in
      let ids = ap (λ (v : User). v.id) found in
      (
        λ hit. ground (arith, same, ne, eq_iff u.token token, eq_iff u.token other),
        All-map users
            (λ (v : User) (a : Apart u v) hit.
              absurd (a.1 (ids ∙ sym ((nat_beq_iff v.id user.id).0 hit))))
            p.0,
      )
  | inr differs ↦
      let rest = rw differs at h in
      let apart = find-All (Apart u) token user users p.0 rest in
      (
        λ hit. absurd (apart.1 ((nat_beq_iff u.id user.id).0 hit)),
        shields token other user users ne p.1 rest,
      )
]

delete_other :
    (id : ℕ) (other : String) (users : List User)
    → All (Shields id other) users
    → find_user other (delete_id id users) ≡ find_user other users
delete_other id other [] a = refl
delete_other id other (u ∷ users) a = elim (Bool-cases (u.id == id)) [
  | inl hit ↦ rw (hit, a.0 hit) (delete_other id other users a.1)
  | inr missed ↦ ground (arith, missed, delete_other id other users a.1)
]

-- In a table with unique keys, deleting a user's token leaves no row with the token, and every other token
-- finds the row it found. A token that no row has ends the command with exit code 1 and changes nothing.
pub delete_user_lem :
    (token : String) (db : Database)
    → IsKeyed db
    → ((user : User)
        → find_user token db.users ≡ some user
        → (after : Database) × (delete_user token db ≡ (done, after))
          × (find_user token after.users ≡ none)
          × ((other : String)
              → token ≢ other
              → find_user other after.users ≡ find_user other db.users))
      × (find_user token db.users ≡ none → delete_user token db ≡ (exit 1, db))
unfolding delete_user
delete_user_lem token db p = (
  λ user h. (
    record db { users = delete_id user.id db.users },
    rw h refl,
    deleted token user db.users p.0 h,
    λ other ne. delete_other user.id other db.users (shields token other user db.users ne p.0 h),
  ),
  λ h. rw h refl,
)
