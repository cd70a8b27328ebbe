-- ===== src/Api/Admin/LastAdmin.antt =====
-- What the handlers of src/svc/internal/api/admin.go leave of the active administrators.
use dcalcon.Base.{
  ℕ, ◌+◌, ◌≤◌, Bool, true, false, not, ◌&&◌, update_where, leb, ◌==◌, ◌≡◌, refl, arith, Bool-cases,
  ◌⊎◌, inl, inr, if◌then◌else◌,
}
use dcalcon.Storage.{conflict, User, Result, ok, err, Db}
use dcalcon.Storage.Users.{
  is_user, is_role_admin, is_active_admin, active_admin_count, email_taken, update_user,
  admin_update_user, delete_sessions_for_user,
}
use dcalcon.Storage.Provision.Defaults.{accounts}
use dcalcon.Api.Admin.{Columns, written, patch_user}

pub written-accounts :
    (id : ℕ) (is_active : Bool) (r : Result (Unit {0}) × Db)
    → accounts (written id is_active r).1 ≡ accounts r.1
unfolding delete_sessions_for_user
written-accounts id true (ok t, db) = refl
written-accounts id false (ok t, db) = refl
written-accounts id b (err conflict, db) = refl
written-accounts id b (err e, db) = refl

-- The change of a row in AdminUpdateUser.
abbrev pub rewritten : Columns → User → User
rewritten new u = record u {
  email = new.email;
  display_name = new.display_name;
  role = new.role;
  is_active = new.is_active;
  timezone = new.timezone;
}

pub keeps_one :
    (old : User) (new : Columns) (n m : ℕ)
    → (is_active_admin old && not (is_role_admin new.role && new.is_active)) && leb n 1 ≡ false
    → 1 ≤ n
    → m + (if is_active_admin old then 1 else 0)
      ≡ n + (if is_role_admin new.role && new.is_active then 1 else 0)
    → 1 ≤ m
keeps_one old new n m guard some_left counted = ground arith

-- What adminPatchUser leaves of the accounts: all of them, or one row rewritten where an active
-- administrator is left besides it or in it.
pub patch_user-cases :
    (actor_id id : ℕ) (old : User) (new : Columns) (db : Db)
    → (accounts (patch_user actor_id id old new db).1 ≡ accounts db)
      ⊎ ((accounts (patch_user actor_id id old new db).1
            ≡ (update_where (is_user id) (rewritten new) db.users, db.next_user))
          × ((is_active_admin old && not (is_role_admin new.role && new.is_active))
                && leb (active_admin_count db) 1
              ≡ false))
unfolding patch_user admin_update_user update_user
patch_user-cases actor_id id old new db = elim (Bool-cases (actor_id == id && not new.is_active)) [
  | inl own ↦ inl (rw own refl)
  | inr other ↦
      elim (Bool-cases (
        (is_active_admin old && not (is_role_admin new.role && new.is_active))
        && leb (active_admin_count db) 1)) [
          | inl last ↦ inl (rw (other, last) refl)
          | inr more ↦ elim (Bool-cases (email_taken id new.email db)) [
            | inl taken ↦ inl (rw (other, more, taken) refl)
            | inr free ↦ inr (
              rw (other, more, free)
                  (written-accounts id new.is_active (ok tt, update_user id (rewritten new) db)),
              more,
            )
          ]
        ]
]
