-- ===== src/Server/Routes/Entered.antt =====
-- The way of a request through `authRequired` and `csrfProtect` of internal/server/middleware.go.
use Prim.Native.String.{String}
use wgrift.Base.{
  ◌≡◌, ◌≢◌, ◌⊎◌, refl, ap, Bool, true, Option, none, some, arith, [], Text, text_eq, text_eq_iff,
  is_nil, inl, inr, Bool-cases,
}
use wgrift.Base.Result.{Result, ok, err}
use wgrift.Models.{Time, User, Session}
use wgrift.App.{Env, World, Error, ◌>>=◌, attempt}
use wgrift.App.Keeps.{Keeps, After, Keeps-execute, keeps_rules}
use wgrift.Store.Db.{Db, delete_where, update_where}
use wgrift.Store.Users.{get_user}
use wgrift.Store.Sessions.{
  get_session, touch_session, set_last_seen, delete_session, remove_session,
}
use wgrift.Auth.{
  Service, validate_session, with_session, check_expiry, touch_and_load, drop_session, with_user,
}
use wgrift.Server.{Server, Request}
use wgrift.Server.Response.{Response, answering, said, unless_error}
use wgrift.Server.Routes.{Route, serve, is_safe, csrf_protect, auth_required, with_cookie, api}

-- Nothing but the session table differs from `old`.
abbrev pub IsSameButSessions : Db → Db → Type 0
IsSameButSessions old db = db ≡ record old { sessions = db.sessions }

-- A safe method, or the token of the session.
abbrev pub HasToken : Request → Session → Bool → Type 0
HasToken r session safe =
    (safe ≡ true) ⊎ ((r.csrf_header ≡ session.csrf_token) × (r.csrf_header ≢ []))

-- The outcomes of a request: it is turned away, or it is served as the user of its session.
pub data Entered (env : Env) (s : Server) (r : Request) (route : Route) (w : World)
    : Result Error Response × World → Type 0 where
  turned_away :
      (resp : Response) (w' : World)
      → resp.status ≡ 403
      → IsSameButSessions w.db w'.db
      → Entered env s r route w (ok resp, w')
  served :
      (id : Text) (session : Session) (user : User) (w' : World)
      → r.cookie ≡ some id
      → validate_session s.auth id env w ≡ (ok (session, user), w')
      → HasToken r session (is_safe route)
      → Entered env s r route w (serve s r user route env w')

module _ (old : Db) where
  set_last_seen-IsSameButSessions :
      (now : Time) (id : Text) (fk : Bool) (db : Db)
      → IsSameButSessions old db
      → After (IsSameButSessions old) (set_last_seen now id fk db)
  unfolding set_last_seen
  set_last_seen-IsSameButSessions now id fk db h =
      ap {A = Db}
        (λ d. record d {
          sessions =
              update_where (λ s. text_eq s.id id) (λ s. record s { last_seen_at = now })
                db.sessions;
        })
        h

  remove_session-IsSameButSessions :
      (id : Text) (fk : Bool) (db : Db)
      → IsSameButSessions old db
      → After (IsSameButSessions old) (remove_session id fk db)
  unfolding remove_session
  remove_session-IsSameButSessions id fk db h =
      ap {A = Db} (λ d. record d { sessions = delete_where (λ s. text_eq s.id id) db.sessions }) h

module _ {env : Env} (old : Db) where
  drop_session-Keeps :
      {A : Type 0} (id : Text) (text : String)
      → Keeps env (IsSameButSessions old) (drop_session {A = A} id text)
  unfolding drop_session delete_session
  drop_session-Keeps id text =
      search (keeps_rules, Keeps-execute, remove_session-IsSameButSessions old) depth 10

  with_user-Keeps :
      (id : Text) (session : Session) (found : Option User)
      → Keeps env (IsSameButSessions old) (with_user id session found)
  with_user-Keeps id session none = drop_session-Keeps id "user not found"
  with_user-Keeps id session (some user) = search keeps_rules depth 3

  check_expiry-Keeps :
      (s : Service) (id : Text) (session : Session) (now : Time)
      → Keeps env (IsSameButSessions old) (check_expiry s id session now)
  unfolding check_expiry touch_and_load touch_session get_user
  check_expiry-Keeps s id session now =
      search
        (
          keeps_rules,
          Keeps-execute,
          set_last_seen-IsSameButSessions old,
          drop_session-Keeps,
          with_user-Keeps,
        )
        depth 14

  with_session-Keeps :
      (s : Service) (id : Text) (found : Option Session)
      → Keeps env (IsSameButSessions old) (with_session s id found)
  with_session-Keeps s id none = search keeps_rules depth 3
  with_session-Keeps s id (some session) = search (keeps_rules, check_expiry-Keeps) depth 6

  validate_session-Keeps :
      (s : Service) (id : Text) → Keeps env (IsSameButSessions old) (validate_session s id)
  unfolding validate_session get_session
  validate_session-Keeps s id = search (keeps_rules, with_session-Keeps) depth 8

module _ (env : Env) (s : Server) (r : Request) (route : Route) (w : World) where
  past_csrf :
      (id : Text) (session : Session) (user : User) (w' : World)
      → r.cookie ≡ some id
      → validate_session s.auth id env w ≡ (ok (session, user), w')
      → IsSameButSessions w.db w'.db
      → Entered env s r route w
          (csrf_protect (is_safe route) r session (serve s r user route) env w')
  unfolding csrf_protect ◌>>=◌
  past_csrf id session user w' cookie valid same = elim (Bool-cases (is_safe route)) [
    | inl safe ↦ rw safe (served id session user w' cookie valid (inl safe))
    | inr unsafe ↦ elim (Bool-cases (is_nil r.csrf_header)) [
      | inl missing ↦ rw (unsafe, missing) (turned_away _ w' refl same)
      | inr given ↦ elim (Bool-cases (text_eq r.csrf_header session.csrf_token)) [
        | inl ours ↦
            rw (unsafe, given, ours)
              (served id session user w' cookie valid (
                inr ((text_eq_iff r.csrf_header session.csrf_token).0 ours, ground (arith, given))))
        | inr other ↦ rw (unsafe, given, other) (turned_away _ w' refl same)
      ]
    ]
  ]

  validated :
      (id : Text) (v : Result Error (Session × User) × World)
      → r.cookie ≡ some id
      → validate_session s.auth id env w ≡ v
      → IsSameButSessions w.db v.1.db
      → Entered env s r route w (
          unless_error
            (said 403 "invalid session")
            v.0
            (λ found. csrf_protect (is_safe route) r found.0 (serve s r found.1 route))
            env
            v.1)
  unfolding ◌>>=◌
  validated id (err e, w') cookie v same = turned_away _ w' refl same
  validated id (ok (session, user), w') cookie v same = past_csrf id session user w' cookie v same

  with_cookie-Entered :
      (cookie : Option Text)
      → r.cookie ≡ cookie
      → Entered env s r route w (
          with_cookie cookie
            (λ id.
              answering
                (said 403 "invalid session")
                (validate_session s.auth id)
                (λ found. csrf_protect (is_safe route) r found.0 (serve s r found.1 route)))
            env
            w)
  unfolding answering ◌>>=◌ attempt
  with_cookie-Entered none h = turned_away _ w refl refl
  with_cookie-Entered (some id) h =
      validated id (validate_session s.auth id env w) h refl
        ((validate_session-Keeps w.db s.auth id).at w refl)

  -- A request to a protected route is turned away with nothing changed but sessions, or it has the
  -- cookie of a session that is validated and, if its method is not safe, the token of that session;
  -- then it is served as the session's user.
  pub api-Entered : Entered env s r route w (api s r route env w)
  unfolding api auth_required
  api-Entered = with_cookie-Entered r.cookie refl
