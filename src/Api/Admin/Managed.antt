-- ===== src/Api/Admin/Managed.antt =====
-- The users while the handlers of src/svc/internal/api/admin.go run, and what adminPatchUser
-- leaves of them.
use dcalcon.Base.{
  ℕ, ◌+◌, ◌≤◌, Bool, true, Option, some, List, [], ◌∷◌, ◌++◌, Text, all, all-append, count-append,
  count-update_where, count-update_one, count, update_where, find_first, ltb, ◌≡◌, refl, ap, arith,
  Bool-cases, Option-cases, ◌⊎◌, inl, inr,
}
use dcalcon.Storage.{User, Result-cases, Db}
use dcalcon.Storage.Users.{is_user, user_by_id, is_active_admin, active_admin_count}
use dcalcon.Storage.Provision.Defaults.{accounts}
use dcalcon.Storage.Sessions.Ends.{user_of_ok}
use dcalcon.Auth.{Principal}
use dcalcon.Api.{path_id}
use dcalcon.Api.Admin.{UserPatch, Columns, patched, patch_user, patch_found, admin_patch_user}
use dcalcon.Api.Admin.LastAdmin.{patch_user-cases, keeps_one, rewritten}

-- The ids of the users are below the next one and each is the id of one user, and an active
-- administrator is left.
pub record IsManaged (users : List User) (next : ℕ) : Type 0 where
  pub once : (id : ℕ) → count (is_user id) users ≤ 1
  pub below : all (λ (u : User). ltb u.id next) users ≡ true
  pub left : 1 ≤ count is_active_admin users

-- A change that keeps each user's id.
pub all-changed :
    (next id : ℕ) (change : User → User) (users : List User)
    → ((u : User) → (change u).id ≡ u.id)
    → all (λ (u : User). ltb u.id next) users ≡ true
    → all (λ (u : User). ltb u.id next) (update_where (is_user id) change users) ≡ true
unfolding all update_where
all-changed next id change [] same_id h = refl
all-changed next id change (u ∷ users) same_id h =
    ground (arith, same_id u, all-changed next id change users same_id)

none_above :
    (next id : ℕ) (users : List User)
    → all (λ (u : User). ltb u.id next) users ≡ true
    → next ≤ id
    → count (is_user id) users ≡ 0
unfolding all count
none_above next id [] h up = refl
none_above next id (u ∷ users) h up = ground (arith, none_above next id users)

all-risen :
    (next : ℕ) (users : List User)
    → all (λ (u : User). ltb u.id next) users ≡ true
    → all (λ (u : User). ltb u.id (next + 1)) users ≡ true
unfolding all
all-risen next [] h = refl
all-risen next (u ∷ users) h = ground (arith, all-risen next users)

pub IsManaged-added :
    (users : List User) (next : ℕ) (u : User)
    → u.id ≡ next
    → IsManaged users next
    → IsManaged (users ++ u ∷ []) (next + 1)
unfolding count all
IsManaged-added users next u e m = record {
  once = λ id. rw (count-append (is_user id) users (u ∷ [])) (elim (Bool-cases (is_user id u)) [
    | inl hit ↦ rw hit (omega (arith, none_above next id users m.below (ground arith)))
    | inr miss ↦ rw miss (omega (arith, m.once id))
  ]);
  below =
      rw
        (
          all-append (λ (v : User). ltb v.id (next + 1)) users (u ∷ []),
          all-risen next users m.below,
        )
        (ground arith);
  left = rw (count-append is_active_admin users (u ∷ [])) (omega (arith, m.left));
}

patched-cases :
    (parse_address : Text → Bool) (body : UserPatch) (old : User)
    → ((message : Text) × (patched parse_address body old ≡ inl message))
      ⊎ ((new : Columns) × (patched parse_address body old ≡ inr new))
patched-cases parse_address body old = either (patched parse_address body old)
  where
    either :
        (s : Text ⊎ Columns)
        → ((message : Text) × (s ≡ inl message)) ⊎ ((new : Columns) × (s ≡ inr new))
    either (inl message) = inl (message, refl)
    either (inr new) = inr (new, refl)

abbrev pub Managed : Db → Type 0
Managed db = IsManaged db.users db.next_user

-- The same accounts.
pub Managed-same : (db next : Db) → accounts next ≡ accounts db → Managed db → Managed next
Managed-same db next e m = record {
  once = rw (ap (λ (a : List User × ℕ). a.0) e) m.once;
  below = rw (ap (λ (a : List User × ℕ). a.0) e, ap (λ (a : List User × ℕ). a.1) e) m.below;
  left = rw (ap (λ (a : List User × ℕ). a.0) e) m.left;
}

patch_user-Managed :
    (actor_id id : ℕ) (old : User) (new : Columns) (db : Db)
    → find_first (is_user id) db.users ≡ some old
    → Managed db
    → Managed (patch_user actor_id id old new db).1
unfolding active_admin_count
patch_user-Managed actor_id id old new db found m = elim (patch_user-cases actor_id id old new db) [
  | inl same_rows ↦ Managed-same db (patch_user actor_id id old new db).1 same_rows m
  | inr (e, guard) ↦
      Managed-same (record db { users = update_where (is_user id) (rewritten new) db.users })
        (patch_user actor_id id old new db).1 e
        (record {
          once = λ i.
              rw (count-update_where (is_user i) (is_user id) (rewritten new) db.users (λ u. refl))
                (m.once i);
          below = all-changed db.next_user id (rewritten new) db.users (λ u. refl) m.below;
          left = keeps_one old new _ _ guard m.left (
              count-update_one is_active_admin (is_user id) (rewritten new) db.users old found
                (m.once id));
        })
]

pub patch-Managed :
    (parse_address : Text → Bool) (actor : Principal) (param : Text) (body : Option UserPatch)
    (db : Db)
    → Managed db
    → Managed (admin_patch_user parse_address actor param body db).1
unfolding admin_patch_user patch_found
patch-Managed parse_address actor param body db m = elim (Option-cases (path_id param)) [
  | inl e ↦ rw (e, admin_patch_user) m
  | inr (id, e) ↦ elim (Result-cases (user_by_id db id)) [
    | inl (x, h) ↦ rw (e, h, admin_patch_user) m
    | inr (old, h) ↦
        rw (e, h, admin_patch_user)
          (elim (Option-cases body) [
            | inl no_body ↦ rw no_body m
            | inr (b, some_body) ↦ rw some_body (elim (patched-cases parse_address b old) [
              | inl (message, k) ↦ rw (k, patch_found) m
              | inr (new, k) ↦
                  rw (k, patch_found)
                    (patch_user-Managed actor.id id old new db (user_of_ok db id old h) m)
            ])
          ])
  ]
]
