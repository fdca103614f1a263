-- ===== src/Store/Consistent/Users.antt =====
-- The statements on users of internal/store/store_users.go and the consistency of the tables.
use wgrift.Base.{
  is_nil, ap, ◌≡◌, refl, sym, ◌∙◌, Bool, true, false, not, ◌&&◌, List, [], ◌∷◌, ◌++◌, arith, Text,
  text_eq, text_eq_iff, any, every, every-append, inl, inr, Bool-cases,
}
use wgrift.Base.Tables.{any-append, any-select}
use wgrift.Models.{User}
use wgrift.App.Keeps.{After}
use wgrift.Store.Db.{Db, update_where, delete_where, role_allowed, user_exists}
use wgrift.Store.Users.{insert_user, set_user, remove_user, same_identity}
use wgrift.Store.Keys.{
  IsDistinct, IsDistinct-append, IsDistinct-select, IsDistinct-update_where, every-select,
  every-weaken, every-update_where, any-update_where,
}
use wgrift.Store.Renewal.{IsDistinct-renew}
use wgrift.Store.Apart.{IsApart, IsApart-append, IsApart-select, IsApart-renew}
use wgrift.Store.Consistent.{IsConsistent, same_oidc}

-- A deletion of a user keeps the tables consistent, as its sessions go with it.
pub remove_user-IsConsistent :
    (id : Text) (db : Db) → IsConsistent db → After IsConsistent (remove_user id true db)
unfolding remove_user delete_where
remove_user-IsConsistent id db c = record {
  interface_ids = c.interface_ids;
  interface_types = c.interface_types;
  peer_ids = c.peer_ids;
  public_keys = c.public_keys;
  peer_types = c.peer_types;
  peers_belong = c.peers_belong;
  logs_belong = c.logs_belong;
  user_ids = IsDistinct-select (λ u. u.id) _ db.users c.user_ids;
  usernames = IsDistinct-select (λ u. u.username) _ db.users c.usernames;
  roles = every-select _ _ _ db.users (λ u h k. h) c.roles;
  sessions_belong =
      every-select _ _ _ db.sessions
        (λ s h k.
          any-select (λ u. text_eq u.id s.user_id) (λ u. not (text_eq u.id id)) db.users
            (λ u e. ground (arith, k, text_eq_iff u.id s.user_id))
          ∙ h)
        c.sessions_belong;
  session_ids = IsDistinct-select (λ s. s.id) _ db.sessions c.session_ids;
  log_ids = c.log_ids;
  log_events = c.log_events;
  identities = IsApart-select same_oidc _ db.users c.identities;
  keyed = c.keyed;
}

users_with-IsConsistent :
    (db : Db) (users : List User)
    → IsConsistent db
    → IsDistinct (λ u. u.id) users
    → IsDistinct (λ u. u.username) users
    → every (λ u. role_allowed u.role) users ≡ true
    → IsApart same_oidc users
    → ((k : Text) → user_exists k db ≡ true → any (λ u. text_eq u.id k) users ≡ true)
    → IsConsistent (record db { users = users })
users_with-IsConsistent db users c ids names roles apart kept = record {
  interface_ids = c.interface_ids;
  interface_types = c.interface_types;
  peer_ids = c.peer_ids;
  public_keys = c.public_keys;
  peer_types = c.peer_types;
  peers_belong = c.peers_belong;
  logs_belong = c.logs_belong;
  user_ids = ids;
  usernames = names;
  roles = roles;
  sessions_belong = every-weaken _ _ db.sessions (λ s h. kept s.user_id h) c.sessions_belong;
  session_ids = c.session_ids;
  log_ids = c.log_ids;
  log_events = c.log_events;
  identities = apart;
  keyed = c.keyed;
}

other_name :
    (u : User) (us : List User)
    → any (same_identity u) us ≡ false
    → any (λ v. text_eq v.username u.username) us ≡ false
unfolding any
other_name u [] h = refl
other_name u (v ∷ us) h =
    ground
      (arith, other_name u us, text_eq_iff u.username v.username, text_eq_iff v.username u.username)

text_eq_comm : (s t : Text) → text_eq s t ≡ text_eq t s
text_eq_comm s t = elim (Bool-cases (text_eq s t)) [
  | inl same ↦ rw ((text_eq_iff s t).0 same) refl
  | inr other ↦ ground (arith, other, text_eq_iff s t, text_eq_iff t s)
]

same_text :
    (p q : Text) (b : Bool)
    → (not (is_nil p) && (text_eq p q && b)) ≡ (not (is_nil q) && (text_eq q p && b))
same_text p q b = elim (Bool-cases (text_eq p q)) [
  | inl same ↦ rw ((text_eq_iff p q).0 same) refl
  | inr other ↦ ground (arith, other, text_eq_comm p q)
]

same_oidc_comm : (u v : User) → same_oidc u v ≡ same_oidc v u
same_oidc_comm u v =
    same_text u.oidc_provider v.oidc_provider (text_eq u.oidc_subject v.oidc_subject)
    ∙ ap (λ b. not (is_nil v.oidc_provider) && (text_eq v.oidc_provider u.oidc_provider && b))
        (text_eq_comm u.oidc_subject v.oidc_subject)

other_identity :
    (u : User) (us : List User) → any (same_identity u) us ≡ false → any (same_oidc u) us ≡ false
unfolding any
other_identity u [] h = refl
other_identity u (v ∷ us) h = ground (arith, other_identity u us)

-- An insertion of a user keeps the tables consistent.
pub insert_user-IsConsistent :
    (u : User) (fk : Bool) (db : Db) → IsConsistent db → After IsConsistent (insert_user u fk db)
unfolding insert_user
insert_user-IsConsistent u fk db c = elim (Bool-cases (role_allowed u.role)) [
  | inr bad ↦ rw bad tt
  | inl allowed ↦ elim (Bool-cases (user_exists u.id db)) [
    | inl old ↦ rw (allowed, old) tt
    | inr new ↦ elim (Bool-cases (any (same_identity u) db.users)) [
      | inl old ↦ rw (allowed, new, old) tt
      | inr free ↦
          rw (allowed, new, free)
            (users_with-IsConsistent db (db.users ++ record u { oidc_issuer = [] } ∷ []) c
              (IsDistinct-append (λ v. v.id) db.users (record u { oidc_issuer = [] }) new
                c.user_ids)
              (IsDistinct-append (λ v. v.username) db.users (record u { oidc_issuer = [] })
                (other_name u db.users free) c.usernames)
              (every-append (λ v. role_allowed v.role) db.users (record u { oidc_issuer = [] } ∷ [])
                ∙ unfold every in ground (arith, c.roles, allowed))
              (IsApart-append same_oidc db.users (record u { oidc_issuer = [] })
                (λ v. same_oidc_comm v (record u { oidc_issuer = [] }))
                (other_identity u db.users free) c.identities)
              (λ k h.
                any-append (λ v. text_eq v.id k) db.users (record u { oidc_issuer = [] } ∷ [])
                ∙ ground (arith, h)))
    ]
  ]
]

same_name :
    (u : User) (us : List User)
    → any (λ old. not (text_eq old.id u.id) && same_identity u old) us ≡ false
    → any (λ old. not (text_eq old.id u.id) && text_eq old.username u.username) us ≡ false
unfolding any
same_name u [] h = refl
same_name u (v ∷ us) h =
    ground
      (arith, same_name u us, text_eq_iff u.username v.username, text_eq_iff v.username u.username)

same_identity_free :
    (u : User) (us : List User)
    → any (λ old. not (text_eq old.id u.id) && same_identity u old) us ≡ false
    → any (λ old. not (text_eq old.id u.id) && same_oidc u old) us ≡ false
unfolding any
same_identity_free u [] h = refl
same_identity_free u (v ∷ us) h = ground (arith, same_identity_free u us)

still_user :
    (u : User) (us : List User) (k : Text)
    → any
        (λ v. text_eq v.id k)
        (update_where
          (λ old. text_eq old.id u.id)
          (λ old. record u { created_at = old.created_at; oidc_issuer = [] })
          us)
      ≡ any (λ v. text_eq v.id k) us
still_user u us k =
    any-update_where (λ v. text_eq v.id k) _ _ us (λ v e. rw ((text_eq_iff v.id u.id).0 e) refl)

-- An update of a user does.
pub set_user-IsConsistent :
    (u : User) (fk : Bool) (db : Db) → IsConsistent db → After IsConsistent (set_user u fk db)
unfolding set_user
set_user-IsConsistent u fk db c = elim (Bool-cases (user_exists u.id db)) [
  | inr missing ↦ rw missing c
  | inl there ↦ elim (Bool-cases (role_allowed u.role)) [
    | inr bad ↦ rw (there, bad) tt
    | inl allowed ↦
        elim (Bool-cases (any (λ old. not (text_eq old.id u.id) && same_identity u old) db.users)) [
          | inl old ↦ rw (there, allowed, old) tt
          | inr free ↦
              rw (there, allowed, free)
                (users_with-IsConsistent db _ c
                  (IsDistinct-update_where (λ v. v.id) _ _ db.users
                    (λ v h. sym ((text_eq_iff v.id u.id).0 h)) c.user_ids)
                  (IsDistinct-renew (λ v. v.id) (λ v. v.username) u.id u.username
                    (λ old. record u { created_at = old.created_at; oidc_issuer = [] }) (λ v. refl)
                    db.users c.user_ids c.usernames (same_name u db.users free))
                  (every-update_where (λ v. role_allowed v.role) _ _ db.users (λ v h. allowed)
                    c.roles)
                  (IsApart-renew same_oidc (λ v. v.id) u u.id
                    (λ old. record u { created_at = old.created_at; oidc_issuer = [] })
                    (λ x y. refl) (λ x y. same_oidc_comm y u) db.users c.user_ids c.identities
                    (same_identity_free u db.users free))
                  (λ k h. still_user u db.users k ∙ h))
        ]
  ]
]
