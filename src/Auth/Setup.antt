-- ===== src/Auth/Setup.antt =====
-- `CreateInitialAdmin` of internal/auth/auth.go.
use Prim.Native.String.{String}
use wgrift.Base.{
  ◌≤◌, ◌≡◌, ◌==◌, refl, sym, ap, ◌∙◌, Bool, true, false, List, [], ◌∷◌, arith, Text, codes, text_eq,
  byte_length, length, ltb, any, inl, inr, Bool-cases,
}
use wgrift.Base.Result.{Result, ok, err}
use wgrift.Models.{User}
use wgrift.App.{Env, World, Error, ◌>>=◌, ◌>>◌, pure, wrapping, wrap_error, execute}
use wgrift.App.Reads.{
  Reads, Reads-then, Reads-bind, Reads-pure, Reads-fail, Reads-if, Reads-wrapping, Reads-query,
  Reads-external_call, Reads-time_now, Reads-new_uuid,
}
use wgrift.Store.Db.{Db, role_allowed}
use wgrift.Store.Users.{count_users, create_user, ensure_user_id, insert_user}
use wgrift.Auth.{
  Service, needs_setup, refuse_unless, validate_password_strength, hash_password,
  create_initial_admin, initial_admin,
}

-- The outcomes of a setup: the user table as it was, or one administrator in a table that was empty.
pub data Setup (s : Service) (username password : Text) (w : World)
    : Result Error User × World → Type 0 where
  refused : (e : Error) (w' : World) → w'.db ≡ w.db → Setup s username password w (err e, w')
  set_up :
      (admin : User) (w' : World)
      → w.db.users ≡ []
      → s.min_password_length ≤ byte_length password
      → admin.username ≡ username
      → admin.role ≡ codes "admin"
      → w'.db ≡ record w.db { users = admin ∷ [] }
      → Setup s username password w (ok admin, w')

no_users : (us : List User) → (length us == 0) ≡ true → us ≡ []
no_users [] h = refl
no_users (u ∷ us) h = ground arith

needs_setup-Reads :
    (env : Env) (db : Db) → Reads env db (λ needs. needs ≡ true → db.users ≡ []) needs_setup
unfolding needs_setup count_users
needs_setup-Reads env db =
    Reads-bind (λ n. n ≡ length db.users) _ _ _ (Reads-wrapping _ _ _ (Reads-query _ _ refl))
      (λ n e. Reads-pure _ _ (λ h. no_users db.users (rw e at h)))

refuse_unless-Reads :
    (env : Env) (db : Db) (b : Bool) (e : Error) → Reads env db (λ u. b ≡ true) (refuse_unless b e)
refuse_unless-Reads env db true e = Reads-pure _ tt refl
refuse_unless-Reads env db false e = Reads-fail _ e

validate_password_strength-Reads :
    (env : Env) (db : Db) (s : Service) (password : Text)
    → Reads env db
        (λ u. s.min_password_length ≤ byte_length password)
        (validate_password_strength s password)
unfolding validate_password_strength
validate_password_strength-Reads env db s password =
    Reads-if _ (ltb (byte_length password) s.min_password_length) _ _ (λ short. Reads-fail _ _)
      (λ long. Reads-pure _ tt (ground arith))

IsAdmin : Text → User → Type 0
IsAdmin username u = (u.username ≡ username) × (u.role ≡ codes "admin") × (u.oidc_issuer ≡ [])

ensure_user_id-Reads :
    (env : Env) (db : Db) (username hash : Text)
    → Reads env db (IsAdmin username) (ensure_user_id (initial_admin username hash))
unfolding ensure_user_id IsAdmin
ensure_user_id-Reads env db username hash =
    Reads-bind (λ t. Unit) _ _ _ Reads-new_uuid (λ t u. Reads-pure _ _ (refl, refl, refl))

-- An administrator is stored in an empty table, unless the store fails.
insert_admin :
    (env : Env) (s : Service) (username password : Text) (w v : World) (admin : User)
    → w.db.users ≡ []
    → s.min_password_length ≤ byte_length password
    → IsAdmin username admin
    → v.db ≡ w.db
    → Setup s username password w
        ((do wrapping "inserting user" (execute (insert_user admin)); pure admin) env v)
unfolding IsAdmin ◌>>=◌ wrapping execute insert_user role_allowed text_eq any
insert_admin env s username password w v admin empty long is_admin same =
    elim (Bool-cases (env.db_fails v.tick)) [
      | inl down ↦ rw down (refused _ _ same)
      | inr up ↦
          let none_yet : v.db.users ≡ [] = ap (λ d. d.users) same ∙ empty in
          let allowed : role_allowed admin.role ≡ true = rw is_admin.1 refl in
          rw (up, allowed, none_yet)
            (set_up admin _ empty long is_admin.0 is_admin.1 (
              ap {A = Db} (λ d. record d { users = record admin { oidc_issuer = [] } ∷ [] }) same
              ∙ ap {A = Text} (λ i. record w.db { users = record admin { oidc_issuer = i } ∷ [] })
                  (sym is_admin.2)))
    ]

create_admin :
    (env : Env) (s : Service) (username password hash : Text) (w v : World)
    → w.db.users ≡ []
    → s.min_password_length ≤ byte_length password
    → v.db ≡ w.db
    → Setup s username password w (create_user (initial_admin username hash) env v)
unfolding create_user
create_admin env s username password hash w v empty long same =
    Reads-then (IsAdmin username) (Setup s username password w) v _ _
      (ensure_user_id-Reads env v.db username hash) (λ e w' db calls. refused e w' (db ∙ same))
      (λ named v1 is_admin db1 calls1.
        Reads-then (λ t. Unit) (Setup s username password w) v1 _ _ Reads-time_now
          (λ e w' db calls. refused e w' (db ∙ db1 ∙ same))
          (λ now v2 u db2 calls2.
            insert_admin env s username password w v2
              (record named { created_at = now; updated_at = now }) empty long
              (unfold IsAdmin in is_admin) (db2 ∙ db1 ∙ same)))

wrapped-Setup :
    (s : Service) (username password : Text) (w : World) (text : String)
    (r : Result Error User × World)
    → Setup s username password w r
    → Setup s username password w (wrap_error text r.0, r.1)
wrapped-Setup s username password w text _ (refused e w' h) = refused _ w' h
wrapped-Setup s username password w text _ (set_up a w' empty long name role h) =
    set_up a w' empty long name role h

create_wrapped :
    (env : Env) (s : Service) (username password hash : Text) (w v : World)
    → w.db.users ≡ []
    → s.min_password_length ≤ byte_length password
    → v.db ≡ w.db
    → Setup s username password w
        (wrapping "creating admin user" (create_user (initial_admin username hash)) env v)
unfolding wrapping
create_wrapped env s username password hash w v empty long same =
    wrapped-Setup s username password w _ _
      (create_admin env s username password hash w v empty long same)

-- An administrator is set up only where there is no user at all, with a password that is long
-- enough, and is then the only user. Otherwise there is an error, and the tables stay as they were.
pub create_initial_admin-Setup :
    (env : Env) (s : Service) (username password : Text) (w : World)
    → Setup s username password w (create_initial_admin s username password env w)
unfolding create_initial_admin hash_password
create_initial_admin-Setup env s username password w =
    Reads-then (λ needs. needs ≡ true → w.db.users ≡ []) (Setup s username password w) w _ _
      (needs_setup-Reads env w.db) (λ e w' db calls. refused e w' db)
      (λ needs w1 told db1 calls1.
        Reads-then (λ u. needs ≡ true) (Setup s username password w) w1 _ _
          (refuse_unless-Reads env w1.db needs _) (λ e w' db calls. refused e w' (db ∙ db1))
          (λ u w2 yes' db2 calls2.
            Reads-then (λ u. s.min_password_length ≤ byte_length password)
              (Setup s username password w) w2 _ _
              (validate_password_strength-Reads env w2.db s password)
              (λ e w' db calls. refused e w' (db ∙ db2 ∙ db1))
              (λ u w3 long db3 calls3.
                Reads-then (λ h. Unit) (Setup s username password w) w3 _ _
                  (Reads-wrapping _ _ _ (Reads-external_call _ _ (λ t a e. tt)))
                  (λ e w' db calls. refused e w' (db ∙ db3 ∙ db2 ∙ db1))
                  (λ hash w4 u db4 calls4.
                    create_wrapped env s username password hash w w4 (told yes') long
                      (db4 ∙ db3 ∙ db2 ∙ db1)))))
