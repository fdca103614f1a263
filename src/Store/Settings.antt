-- ===== src/Store/Settings.antt =====
-- internal/store/store_settings.go: the settings, the OIDC providers and the states of logins.
pub mod Refined
use wgrift.Base.{
  ℕ, ◌+◌, ◌*◌, Bool, not, ◌&&◌, ◌||◌, Option, none, some, List, [], ◌∷◌, ◌++◌, Text, text_eq,
  find_first, any, is_nil, leb, ltb, if◌then◌else◌,
}
use wgrift.Base.Result.{Result, ok, err}
use wgrift.Models.{Time, OidcProvider, OidcState}
use wgrift.Store.Db.{Db, Constraint, not_unique, update_where, delete_where, order_by}
use wgrift.App.{App, pure, ◌>>=◌, ◌>>◌, wrapping, time_now, new_uuid, query, execute}

-- The value of the first row with the key.
unfoldable pub setting_of : Text → List (Text × Text) → Option Text
setting_of key [] = none
setting_of key ((k, v) ∷ rest) =
    let found = setting_of key rest in if text_eq k key then some v else found

abbrev pub or_empty : Option Text → Text
or_empty none = []
or_empty (some v) = v

-- A missing key reads as the empty text.
unfoldable pub get_setting : Text → App Text
unfolding setting_of
get_setting key = wrapping "querying setting" (query (λ db. or_empty (setting_of key db.settings)))

-- `INSERT … ON CONFLICT(key) DO UPDATE`.
unfoldable pub put_setting : Text → Text → List (Text × Text) → List (Text × Text)
put_setting key value [] = (key, value) ∷ []
put_setting key value ((k, v) ∷ rest) =
    if text_eq k key then (k, value) ∷ rest else (k, v) ∷ put_setting key value rest

-- The time of the update is a column that nothing reads.
unfoldable pub set_setting : Text → Text → App (Unit {0})
unfolding put_setting
set_setting key value = do
  time_now
  wrapping "setting"
      (execute (λ fk db. ok (record db { settings = put_setting key value db.settings })))

unfoldable pub insert_oidc_provider : OidcProvider → Bool → Db → Result Constraint Db
insert_oidc_provider p fk db =
    if any (λ old. text_eq old.id p.id || text_eq old.name p.name) db.oidc_providers
    then err not_unique
    else ok (record db { oidc_providers = db.oidc_providers ++ p ∷ [] })

unfoldable pub ensure_provider_id : OidcProvider → App OidcProvider
ensure_provider_id p =
    if is_nil p.id then (do id ← new_uuid; pure (record p { id = id })) else pure p

unfoldable pub create_oidc_provider : OidcProvider → App OidcProvider
unfolding ensure_provider_id insert_oidc_provider
create_oidc_provider provider = do
  named ← ensure_provider_id provider
  now ← time_now
  let row = record named { created_at = now; updated_at = now }
  wrapping "inserting OIDC provider" (execute (insert_oidc_provider row))
  pure row

unfoldable pub get_oidc_provider : Text → App (Option OidcProvider)
get_oidc_provider id =
    wrapping "querying OIDC provider"
      (query (λ db. find_first (λ p. text_eq p.id id) db.oidc_providers))

unfoldable pub get_oidc_provider_by_name : Text → App (Option OidcProvider)
get_oidc_provider_by_name name =
    wrapping "querying OIDC provider by name"
      (query (λ db. find_first (λ p. text_eq p.name name) db.oidc_providers))

-- SQLite's binary order of texts: that of their UTF-8 bytes, which is that of the code points.
unfoldable pub text_le : Text → Text → Bool
text_le [] t = Bool.true
text_le (c ∷ s) [] = Bool.false
text_le (c ∷ s) (d ∷ t) = ltb c d || leb c d && text_le s t

-- `ORDER BY name`.
unfoldable pub list_oidc_providers : App (List OidcProvider)
unfolding text_le
list_oidc_providers =
    wrapping "querying OIDC providers"
      (query (λ db. order_by (λ a b. text_le a.name b.name) db.oidc_providers))

unfoldable pub set_oidc_provider : OidcProvider → Bool → Db → Result Constraint Db
set_oidc_provider p fk db =
    if any (λ old. text_eq old.id p.id) db.oidc_providers
      && any (λ old. not (text_eq old.id p.id) && text_eq old.name p.name) db.oidc_providers
    then err not_unique
    else ok (record db {
      oidc_providers =
          update_where (λ old. text_eq old.id p.id)
            (λ old. record p { created_at = old.created_at }) db.oidc_providers;
    })

unfoldable pub update_oidc_provider : OidcProvider → App OidcProvider
unfolding set_oidc_provider
update_oidc_provider provider = do
  now ← time_now
  let row = record provider { updated_at = now }
  wrapping "updating OIDC provider" (execute (set_oidc_provider row))
  pure row

unfoldable pub delete_oidc_provider : Text → App (Unit {0})
delete_oidc_provider id = wrapping "deleting OIDC provider" (
    execute (λ fk db.
      ok (record db { oidc_providers = delete_where (λ p. text_eq p.id id) db.oidc_providers })))

unfoldable pub insert_oidc_state : OidcState → Bool → Db → Result Constraint Db
insert_oidc_state s fk db =
    if any (λ old. text_eq old.state s.state) db.oidc_states
    then err not_unique
    else ok (record db { oidc_states = db.oidc_states ++ s ∷ [] })

unfoldable pub create_oidc_state : OidcState → App OidcState
unfolding insert_oidc_state
create_oidc_state state = do
  now ← time_now
  let row = record state { created_at = now }
  wrapping "inserting OIDC state" (execute (insert_oidc_state row))
  pure row

unfoldable pub get_oidc_state : Text → App (Option OidcState)
get_oidc_state state =
    wrapping "querying OIDC state"
      (query (λ db. find_first (λ s. text_eq s.state state) db.oidc_states))

unfoldable pub remove_oidc_state : Text → Bool → Db → Result Constraint Db
remove_oidc_state state fk db =
    ok (record db { oidc_states = delete_where (λ s. text_eq s.state state) db.oidc_states })

unfoldable pub delete_oidc_state : Text → App (Unit {0})
unfolding remove_oidc_state
delete_oidc_state state = wrapping "deleting OIDC state" (execute (remove_oidc_state state))

-- Ten minutes, in nanoseconds.
abbrev pub state_lifetime : ℕ
state_lifetime = 10 * 60 * 1_000_000_000

-- `created_at < now - 10 minutes`, written without the difference.
unfoldable pub remove_expired_oidc_states : Time → Bool → Db → Result Constraint Db
remove_expired_oidc_states now fk db = ok (record db {
  oidc_states = delete_where (λ s. ltb (s.created_at + state_lifetime) now) db.oidc_states;
})

unfoldable pub delete_expired_oidc_states : App (Unit {0})
unfolding remove_expired_oidc_states
delete_expired_oidc_states = do
  now ← time_now
  wrapping "deleting expired OIDC states" (execute (remove_expired_oidc_states now))
