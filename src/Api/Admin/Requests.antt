-- ===== src/Api/Admin/Requests.antt =====
-- Sequences of requests to the handlers of src/svc/internal/api/admin.go.
use dcalcon.Base.{
  ℕ, ◌+◌, Bool, Option, none, some, List, [], ◌∷◌, ◌++◌, Text, codes, count-update_where, ◌≡◌, refl,
  Bool-cases, Option-cases, inl, inr, trim_space,
}
use dcalcon.Storage.{conflict, User, Result, Result-cases, ok, err, Db}
use dcalcon.Storage.Users.{
  is_user, user_by_id, is_active_admin, update_user, set_password, delete_sessions_for_user,
  create_user, or_text,
}
use dcalcon.Storage.Users.Created.{create_user-accounts}
use dcalcon.Storage.Users.Passwords.{set_password-ok, set_password-long}
use dcalcon.Storage.Provision.Defaults.{accounts}
use dcalcon.Storage.Audit.{audit}
use dcalcon.Auth.{Principal}
use dcalcon.Api.{
  path_id, valid_username, valid_email, valid_password, valid_role, normalize_timezone, audit_as,
}
use dcalcon.Api.Admin.{
  NewUser, created, admin_create_user, UserPatch, admin_patch_user, reset, admin_reset_password,
}
use dcalcon.Api.Admin.Managed.{Managed, Managed-same, IsManaged-added, all-changed, patch-Managed}

created-accounts :
    (actor : Principal) (r : Result User × Db) → accounts (created actor r).1 ≡ accounts r.1
unfolding audit_as audit
created-accounts actor (ok u, db) = refl
created-accounts actor (err conflict, db) = refl
created-accounts actor (err e, db) = refl

create-Managed :
    (table : ℕ → ℕ) (parse_address : Text → Bool) (hash : Text → Option Text) (actor : Principal)
    (body : Option NewUser) (now : Text) (db : Db)
    → Managed db
    → Managed (admin_create_user table parse_address hash actor body now db).1
unfolding admin_create_user
create-Managed table parse_address hash actor none now db m = m
create-Managed table parse_address hash actor (some body) now db m =
    let made =
      create_user hash (trim_space body.username) (trim_space body.email) body.password
        (trim_space body.display_name) (or_text body.role (codes "user"))
        (normalize_timezone body.timezone) now db in
    let stored : Managed made.1 =
      elim (create_user-accounts hash (trim_space body.username) (trim_space body.email)
        body.password (trim_space body.display_name) (or_text body.role (codes "user"))
        (normalize_timezone body.timezone) now db) [
          | inl same_rows ↦ Managed-same db made.1 same_rows m
          | inr (u, e, grown) ↦
              Managed-same (record db { users = db.users ++ u ∷ []; next_user = db.next_user + 1 })
                made.1 grown (IsManaged-added db.users db.next_user u e m)
        ] in
    let answered =
      Managed-same made.1 (created actor made).1 (created-accounts actor made) stored in
    elim (Bool-cases (valid_username (trim_space body.username))) [
      | inr bad ↦ rw bad m
      | inl named ↦ elim (Bool-cases (valid_email parse_address (trim_space body.email))) [
        | inr bad ↦ rw (named, bad) m
        | inl reachable ↦ elim (Bool-cases (valid_password table body.password)) [
          | inr bad ↦ rw (named, reachable, bad) m
          | inl strong ↦ elim (Bool-cases (valid_role (or_text body.role (codes "user")))) [
            | inr bad ↦ rw (named, reachable, strong, bad) m
            | inl known ↦ rw (named, reachable, strong, known) answered
          ]
        ]
      ]
    ]

set_password-Managed :
    (hash : Text → Option Text) (id : ℕ) (password : Text) (db : Db)
    → Managed db
    → Managed (reset id (set_password hash id password db)).1
unfolding update_user delete_sessions_for_user
set_password-Managed hash id password db m = elim (Option-cases (hash password)) [
  | inl e ↦ rw (set_password-long hash id password db e) m
  | inr (hashed, e) ↦
      let change : User → User = λ u. record u { password_hash = hashed } in
      rw (set_password-ok hash id password hashed db e) (record {
        once = λ i.
            rw (count-update_where (is_user i) (is_user id) change db.users (λ u. refl)) (m.once i);
        below = all-changed db.next_user id change db.users (λ u. refl) m.below;
        left =
            rw (count-update_where is_active_admin (is_user id) change db.users (λ u. refl)) m.left;
      })
]

reset-Managed :
    (table : ℕ → ℕ) (hash : Text → Option Text) (param : Text) (body : Option Text) (db : Db)
    → Managed db
    → Managed (admin_reset_password table hash param body db).1
unfolding admin_reset_password
reset-Managed table hash param body db m = elim (Option-cases (path_id param)) [
  | inl e ↦ rw (e, admin_reset_password) m
  | inr (id, e) ↦ elim (Result-cases (user_by_id db id)) [
    | inl (x, h) ↦ rw (e, h, admin_reset_password) m
    | inr (u, h) ↦ elim (Option-cases body) [
      | inl no_body ↦ rw (e, h, no_body, admin_reset_password) m
      | inr (password, given) ↦ elim (Bool-cases (valid_password table password)) [
        | inr bad ↦ rw (e, h, given, bad, admin_reset_password) m
        | inl strong ↦
            rw (e, h, given, strong, admin_reset_password)
              (set_password-Managed hash id password db m)
      ]
    ]
  ]
]

-- A request of an administrator.
pub data Request : Type 0 where
  create : Principal → Option NewUser → Text → Request
  patch : Principal → Text → Option UserPatch → Request
  reset_password : Text → Option Text → Request

module _ (table : ℕ → ℕ) (parse_address : Text → Bool) (hash : Text → Option Text) where
  unfoldable pub handle : Request → Db → Db
  handle (create actor body now) db =
      (admin_create_user table parse_address hash actor body now db).1
  handle (patch actor param body) db = (admin_patch_user parse_address actor param body db).1
  handle (reset_password param body) db = (admin_reset_password table hash param body db).1

  unfoldable pub handle_all : List Request → Db → Db
  unfolding handle
  handle_all [] db = db
  handle_all (r ∷ requests) db = handle_all requests (handle r db)

  handle-Managed : (r : Request) (db : Db) → Managed db → Managed (handle r db)
  unfolding handle
  handle-Managed (create actor body now) db m =
      create-Managed table parse_address hash actor body now db m
  handle-Managed (patch actor param body) db m = patch-Managed parse_address actor param body db m
  handle-Managed (reset_password param body) db m = reset-Managed table hash param body db m

-- Whatever requests administrators send to create a user, to patch one and to set a password, an
-- active administrator is left, if there is one at the start and the ids of the users differ and
-- are below the next one.
pub handle_all-Managed :
    (table : ℕ → ℕ) (parse_address : Text → Bool) (hash : Text → Option Text)
    (requests : List Request) (db : Db)
    → Managed db
    → Managed (handle_all table parse_address hash requests db)
unfolding handle_all
handle_all-Managed table parse_address hash [] db m = m
handle_all-Managed table parse_address hash (r ∷ requests) db m =
    handle_all-Managed table parse_address hash requests (handle table parse_address hash r db)
      (handle-Managed table parse_address hash r db m)
