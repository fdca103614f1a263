-- ===== src/Store/Consistent/Settings/Keyed.antt =====
-- The statements on settings, providers and states and the keys of their tables.
use wgrift.Base.{
  sym, text_eq_iff, ◌++◌, [], ◌∷◌, ◌≡◌, refl, false, arith, Bool, ◌&&◌, ◌||◌, not, List, Text,
  text_eq, any, Bool-cases, inl, inr,
}
use wgrift.Models.{OidcProvider, OidcState}
use wgrift.App.Keeps.{After}
use wgrift.Store.Db.{Db, update_where, delete_where}
use wgrift.Store.Keys.{
  IsDistinct, IsDistinct-append, IsDistinct-select, IsDistinct-update_where, update_where-none,
  has_key,
}
use wgrift.Store.Renewal.{IsDistinct-renew}
use wgrift.Store.Consistent.{IsConsistent, IsKeyed}
use wgrift.Store.Settings.{
  put_setting, insert_oidc_provider, set_oidc_provider, insert_oidc_state, remove_oidc_state,
}

-- These three tables may be replaced by keyed ones.
beside :
    (db : Db) (settings : List (Text × Text)) (providers : List OidcProvider)
    (states : List OidcState)
    → IsConsistent db
    → IsKeyed settings providers states
    → IsConsistent
        (record db { settings = settings; oidc_providers = providers; oidc_states = states })
beside db settings providers states c k = record {
  interface_ids = c.interface_ids;
  interface_types = c.interface_types;
  peer_ids = c.peer_ids;
  public_keys = c.public_keys;
  peer_types = c.peer_types;
  peers_belong = c.peers_belong;
  logs_belong = c.logs_belong;
  user_ids = c.user_ids;
  usernames = c.usernames;
  roles = c.roles;
  sessions_belong = c.sessions_belong;
  session_ids = c.session_ids;
  log_ids = c.log_ids;
  log_events = c.log_events;
  identities = c.identities;
  keyed = k;
}

-- The providers may be replaced by others with distinct keys.
providers-IsConsistent :
    (db : Db) (ps : List OidcProvider)
    → IsConsistent db
    → IsDistinct (λ p. p.id) ps
    → IsDistinct (λ p. p.name) ps
    → IsConsistent (record db { oidc_providers = ps })
providers-IsConsistent db ps c ids names = beside db db.settings ps db.oidc_states c (record {
  setting_keys = c.keyed.setting_keys;
  provider_ids = ids;
  provider_names = names;
  state_keys = c.keyed.state_keys;
})

states-IsConsistent :
    (db : Db) (states : List OidcState)
    → IsConsistent db
    → IsDistinct (λ s. s.state) states
    → IsConsistent (record db { oidc_states = states })
states-IsConsistent db states c keys = beside db db.settings db.oidc_providers states c (record {
  setting_keys = c.keyed.setting_keys;
  provider_ids = c.keyed.provider_ids;
  provider_names = c.keyed.provider_names;
  state_keys = keys;
})

other_keys :
    (key value k : Text) (settings : List (Text × Text))
    → text_eq key k ≡ false
    → any (has_key (λ kv. kv.0) k) settings ≡ false
    → any (has_key (λ kv. kv.0) k) (put_setting key value settings) ≡ false
unfolding any put_setting
other_keys key value k [] other h = ground (arith, other)
other_keys key value k ((k', v) ∷ rest) other h = elim (Bool-cases (text_eq k' key)) [
  | inl here ↦ rw here h
  | inr there ↦ rw there (ground (arith, other_keys key value k rest other))
]

put_setting-IsDistinct :
    (key value : Text) (settings : List (Text × Text))
    → IsDistinct (λ kv. kv.0) settings
    → IsDistinct (λ kv. kv.0) (put_setting key value settings)
unfolding put_setting
put_setting-IsDistinct key value [] d = (unfold any in refl, tt)
put_setting-IsDistinct key value ((k, v) ∷ rest) d = elim (Bool-cases (text_eq k key)) [
  | inl here ↦ rw here d
  | inr there ↦ rw there (
    other_keys key value k rest (ground (arith, there, text_eq_iff k key, text_eq_iff key k)) d.0,
    put_setting-IsDistinct key value rest d.1,
  )
]

pub put_setting-IsConsistent :
    (key value : Text) (db : Db)
    → IsConsistent db
    → IsConsistent (record db { settings = put_setting key value db.settings })
put_setting-IsConsistent key value db c = beside db _ db.oidc_providers db.oidc_states c (record {
  setting_keys = put_setting-IsDistinct key value db.settings c.keyed.setting_keys;
  provider_ids = c.keyed.provider_ids;
  provider_names = c.keyed.provider_names;
  state_keys = c.keyed.state_keys;
})

other_ids :
    (p : OidcProvider) (ps : List OidcProvider)
    → any (λ old. text_eq old.id p.id || text_eq old.name p.name) ps ≡ false
    → any (λ old. text_eq old.id p.id) ps ≡ false
unfolding any
other_ids p [] h = refl
other_ids p (q ∷ ps) h = ground (arith, other_ids p ps)

other_names :
    (p : OidcProvider) (ps : List OidcProvider)
    → any (λ old. text_eq old.id p.id || text_eq old.name p.name) ps ≡ false
    → any (λ old. text_eq old.name p.name) ps ≡ false
unfolding any
other_names p [] h = refl
other_names p (q ∷ ps) h = ground (arith, other_names p ps)

pub insert_oidc_provider-IsConsistent :
    (p : OidcProvider) (fk : Bool) (db : Db)
    → IsConsistent db
    → After IsConsistent (insert_oidc_provider p fk db)
unfolding insert_oidc_provider
insert_oidc_provider-IsConsistent p fk db c =
    elim (Bool-cases
      (any (λ old. text_eq old.id p.id || text_eq old.name p.name) db.oidc_providers)) [
        | inl old ↦ rw old tt
        | inr new ↦ rw new (
            providers-IsConsistent db (db.oidc_providers ++ p ∷ []) c
              (IsDistinct-append (λ q. q.id) db.oidc_providers p (other_ids p db.oidc_providers new)
                c.keyed.provider_ids)
              (IsDistinct-append (λ q. q.name) db.oidc_providers p
                (other_names p db.oidc_providers new) c.keyed.provider_names))
      ]

-- A row that an update replaces keeps its identifier; no other row has its name, if there is one.
set_names :
    (p : OidcProvider) (ps : List OidcProvider)
    → IsDistinct (λ q. q.id) ps
    → IsDistinct (λ q. q.name) ps
    → (any (λ old. text_eq old.id p.id) ps
        && any (λ old. not (text_eq old.id p.id) && text_eq old.name p.name) ps)
      ≡ false
    → IsDistinct
        (λ q. q.name)
        (update_where
          (λ old. text_eq old.id p.id)
          (λ old. record p { created_at = old.created_at })
          ps)
set_names p ps ids names free = elim (Bool-cases (any (λ old. text_eq old.id p.id) ps)) [
  | inl there ↦
      IsDistinct-renew (λ q. q.id) (λ q. q.name) p.id p.name
        (λ old. record p { created_at = old.created_at }) (λ q. refl) ps ids names
        (ground (arith, there, free))
  | inr missing ↦ rw (update_where-none _ _ ps missing) names
]

pub set_oidc_provider-IsConsistent :
    (p : OidcProvider) (fk : Bool) (db : Db)
    → IsConsistent db
    → After IsConsistent (set_oidc_provider p fk db)
unfolding set_oidc_provider
set_oidc_provider-IsConsistent p fk db c =
    elim (Bool-cases (
      any (λ old. text_eq old.id p.id) db.oidc_providers
      && any (λ old. not (text_eq old.id p.id) && text_eq old.name p.name) db.oidc_providers)) [
        | inl old ↦ rw old tt
        | inr new ↦ rw new (
            providers-IsConsistent db _ c
              (IsDistinct-update_where (λ q. q.id) _ _ db.oidc_providers
                (λ q h. sym ((text_eq_iff q.id p.id).0 h)) c.keyed.provider_ids)
              (set_names p db.oidc_providers c.keyed.provider_ids c.keyed.provider_names new))
      ]

pub remove_oidc_provider-IsConsistent :
    (id : Text) (db : Db)
    → IsConsistent db
    → IsConsistent
        (record db { oidc_providers = delete_where (λ p. text_eq p.id id) db.oidc_providers })
unfolding delete_where
remove_oidc_provider-IsConsistent id db c =
    providers-IsConsistent db _ c
      (IsDistinct-select (λ p. p.id) _ db.oidc_providers c.keyed.provider_ids)
      (IsDistinct-select (λ p. p.name) _ db.oidc_providers c.keyed.provider_names)

pub insert_oidc_state-IsConsistent :
    (s : OidcState) (fk : Bool) (db : Db)
    → IsConsistent db
    → After IsConsistent (insert_oidc_state s fk db)
unfolding insert_oidc_state
insert_oidc_state-IsConsistent s fk db c =
    elim (Bool-cases (any (λ old. text_eq old.state s.state) db.oidc_states)) [
      | inl old ↦ rw old tt
      | inr new ↦ rw new (
          states-IsConsistent db (db.oidc_states ++ s ∷ []) c
            (IsDistinct-append (λ t. t.state) db.oidc_states s new c.keyed.state_keys))
    ]

pub remove_oidc_state-IsConsistent :
    (state : Text) (fk : Bool) (db : Db)
    → IsConsistent db
    → After IsConsistent (remove_oidc_state state fk db)
unfolding remove_oidc_state delete_where
remove_oidc_state-IsConsistent state fk db c =
    states-IsConsistent db _ c
      (IsDistinct-select (λ t. t.state) _ db.oidc_states c.keyed.state_keys)
