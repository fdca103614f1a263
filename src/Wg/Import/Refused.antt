-- ===== src/Wg/Import/Refused.antt =====
-- What becomes of an import that has peers.
use wgrift.Base.{
  ◌+◌, ◌≡◌, refl, subst, ap, ◌∙◌, List, [], ◌∷◌, ◌++◌, Text, text_eq, is_nil, inl, inr, Bool-cases,
}
use wgrift.Base.Result.{Result, ok, err}
use wgrift.Models.{Interface, Peer}
use wgrift.App.{
  App, Env, World, Error, ◌>>=◌, ◌>>◌, continue, pure, wrapping, wrap_error, execute, time_now,
}
use wgrift.App.Reads.{
  Reads, Reads-then, Reads-if, Reads-bind, Reads-pure, Reads-wrapping, Reads-external_call,
  Reads-new_uuid, Reads-time_now,
}
use wgrift.Store.Db.{Db, peer_type_allowed, interface_type_allowed, interface_exists}
use wgrift.Store.Peers.{create_peer, ensure_peer_id, insert_peer}
use wgrift.Store.Interfaces.{create_interface, insert_interface}
use wgrift.Confgen.Parse.{ParsedConfig, ParsedPeer}
use wgrift.Wg.Sync.{encrypt}
use wgrift.Wg.Import.{
  imported_interface, imported_peer, with_imported_psk, import_peers, import_interface,
}

-- An error, with the tables as they were.
pub data FailedOn (db : Db) {A : Type 0} : Result Error A × World → Type 0 where
  failed_on : (e : Error) (w : World) → w.db ≡ db → FailedOn db (err e, w)

FailedOn-continue :
    (env : Env) (db : Db) {A B : Type 0} (r : Result Error A × World) (f : A → App B)
    → FailedOn db r
    → FailedOn db (continue r.0 f env r.1)
FailedOn-continue env db _ f (failed_on e w h) = failed_on e w h

FailedOn-same :
    (db db' : Db) {A : Type 0} (r : Result Error A × World)
    → db ≡ db'
    → FailedOn db r
    → FailedOn db' r
FailedOn-same db db' _ same (failed_on e w h) = failed_on e w (h ∙ same)

FailedOn-wrapped :
    (db : Db) {A : Type 0} (text : _) (r : Result Error A × World)
    → FailedOn db r
    → FailedOn db (wrap_error text r.0, r.1)
FailedOn-wrapped db text _ (failed_on e w h) = failed_on _ w h

abbrev HasNoType : Peer → Type 0
HasNoType p = p.peer_type ≡ []

with_imported_psk-Reads :
    (env : Env) (db : Db) (psk : Text) (p : Peer)
    → HasNoType p
    → Reads env db HasNoType (with_imported_psk psk p)
unfolding with_imported_psk encrypt
with_imported_psk-Reads env db psk p h =
    Reads-if _ (is_nil psk) _ _ (λ e. Reads-pure _ p h)
      (λ e.
        Reads-bind (λ t. Unit) _ _ _ (Reads-wrapping _ _ _ (Reads-external_call _ _ (λ t a _. tt)))
          (λ t u. Reads-pure _ _ h))

ensure_peer_id-Reads :
    (env : Env) (db : Db) (p : Peer) → HasNoType p → Reads env db HasNoType (ensure_peer_id p)
unfolding ensure_peer_id
ensure_peer_id-Reads env db p h =
    Reads-if _ (is_nil p.id) _ _
      (λ e. Reads-bind (λ t. Unit) _ _ _ Reads-new_uuid (λ t u. Reads-pure _ _ h))
      (λ e. Reads-pure _ p h)

-- The statement refuses a peer that has no type, whatever its connection.
insert_peer-FailedOn :
    (env : Env) (w : World) (p : Peer) → HasNoType p → FailedOn w.db (execute (insert_peer p) env w)
unfolding execute insert_peer peer_type_allowed text_eq
insert_peer-FailedOn env w p h = elim (Bool-cases (env.db_fails w.tick)) [
  | inl down ↦ rw down (failed_on _ _ refl)
  | inr up ↦ rw (up, h) (failed_on _ _ refl)
]

create_peer-FailedOn :
    (env : Env) (w : World) (p : Peer) → HasNoType p → FailedOn w.db (create_peer p env w)
unfolding create_peer
create_peer-FailedOn env w p h =
    Reads-then HasNoType (FailedOn w.db) w _ _ (ensure_peer_id-Reads env w.db p h)
      (λ e w' db calls. failed_on e w' db)
      (λ q v hq db calls.
        Reads-then (λ t. Unit) (FailedOn w.db) v _ _ Reads-time_now
          (λ e w' db' calls'. failed_on e w' (db' ∙ db))
          (λ now u t db' calls'.
            unfold ◌>>=◌ wrapping in
            FailedOn-continue env w.db _ _ (
              FailedOn-wrapped w.db _ _ (
                FailedOn-same u.db w.db _ (db' ∙ db) (
                  insert_peer-FailedOn env u (record q { created_at = now; updated_at = now })
                    hq)))))

import_peers-FailedOn :
    (env : Env) (w : World) (id : Text) (pp : ParsedPeer) (rest : List ParsedPeer)
    → FailedOn w.db (import_peers id (pp ∷ rest) env w)
unfolding import_peers imported_peer
import_peers-FailedOn env w id pp rest =
    Reads-then HasNoType (FailedOn w.db) w _ _
      (with_imported_psk-Reads env w.db pp.preshared_key (imported_peer id pp) refl)
      (λ e w' db calls. failed_on e w' db)
      (λ p v hp db calls.
        unfold ◌>>=◌ wrapping in
        FailedOn-continue env w.db _ _ (
          FailedOn-wrapped w.db _ _
            (FailedOn-same v.db w.db _ db (create_peer-FailedOn env v p hp))))

-- How an import ends that leaves no peer behind: with an error, before or after the interface was
-- stored.
pub data NoPeersImported (w : World) (id : Text) : Result Error Interface × World → Type 0 where
  nothing_stored : (e : Error) (w' : World) → w'.db ≡ w.db → NoPeersImported w id (err e, w')
  interface_stored :
      (e : Error) (w' : World) (iface : Interface)
      → iface.id ≡ id
      → w'.db ≡ record w.db { interfaces = w.db.interfaces ++ iface ∷ [] }
      → NoPeersImported w id (err e, w')

-- How a row is stored: not at all, or behind the others.
data Stored (db : Db) (id : Text) : Result Error Interface × World → Type 0 where
  not_stored : (e : Error) (w : World) → w.db ≡ db → Stored db id (err e, w)
  stored :
      (iface : Interface) (w : World)
      → iface.id ≡ id
      → w.db ≡ record db { interfaces = db.interfaces ++ iface ∷ [] }
      → Stored db id (ok iface, w)

create_interface-Stored :
    (env : Env) (w : World) (i : Interface) → Stored w.db i.id (create_interface i env w)
unfolding create_interface ◌>>=◌ time_now wrapping execute insert_interface
create_interface-Stored env w i = elim (Bool-cases (env.db_fails (w.tick + 1))) [
  | inl down ↦ rw down (not_stored _ _ refl)
  | inr up ↦ elim (Bool-cases (interface_type_allowed i.interface_type)) [
    | inr bad ↦ rw (up, bad) (not_stored _ _ refl)
    | inl allowed ↦ elim (Bool-cases (interface_exists i.id w.db)) [
      | inl old ↦ rw (up, allowed, old) (not_stored _ _ refl)
      | inr new ↦ rw (up, allowed, new) (stored _ _ refl refl)
    ]
  ]
]

wrapped-Stored :
    (db : Db) (id : Text) (text : _) (r : Result Error Interface × World)
    → Stored db id r
    → Stored db id (wrap_error text r.0, r.1)
wrapped-Stored db id text _ (not_stored e w h) = not_stored _ w h
wrapped-Stored db id text _ (stored i w same h) = stored i w same h

peers_fail :
    (env : Env) (w : World) (id : Text) (iface : Interface) (r : Result Error (Unit {0}) × World)
    (db : Db)
    → iface.id ≡ id
    → db ≡ record w.db { interfaces = w.db.interfaces ++ iface ∷ [] }
    → FailedOn db r
    → NoPeersImported w id (continue r.0 (λ u. pure iface) env r.1)
peers_fail env w id iface _ db same added (failed_on e w' h) =
    interface_stored e w' iface same (h ∙ added)

after_interface :
    (env : Env) (w : World) (id : Text) (pp : ParsedPeer) (rest : List ParsedPeer)
    (r : Result Error Interface × World)
    → Stored w.db id r
    → NoPeersImported w id
        (continue r.0 (λ iface. import_peers id (pp ∷ rest) >> pure iface) env r.1)
unfolding ◌>>=◌
after_interface env w id pp rest _ (not_stored e w' h) = nothing_stored e w' h
after_interface env w id pp rest _ (stored iface v same h) =
    peers_fail env w id iface _ v.db same h (import_peers-FailedOn env v id pp rest)

moved :
    (w v : World) (id : Text) (r : Result Error Interface × World)
    → v.db ≡ w.db
    → NoPeersImported v id r
    → NoPeersImported w id r
moved w v id _ db (nothing_stored e w' h) = nothing_stored e w' (h ∙ db)
moved w v id _ db (interface_stored e w' i same h) =
    interface_stored e w' i same
      (h ∙ ap {A = Db} (λ d. record d { interfaces = d.interfaces ++ i ∷ [] }) db)

encrypted_import :
    (env : Env) (v : World) (id : Text) (pp : ParsedPeer) (rest : List ParsedPeer) (i : Interface)
    → i.id ≡ id
    → NoPeersImported v id (
        (do
          iface ← wrapping "storing interface" (create_interface i)
          import_peers id (pp ∷ rest)
          pure iface)
          env v)
unfolding ◌>>=◌ wrapping
encrypted_import env v id pp rest i same = after_interface env v id pp rest _ (
    wrapped-Stored v.db id _ _ (
      subst (λ k. Stored v.db k (create_interface i env v)) same (create_interface-Stored env v i)))

-- The import of a configuration that has a peer always ends with an error, and stores none of its
-- peers; the interface may be left in the store. The peers that it builds have no type, and the
-- table refuses them.
pub import_interface-NoPeersImported :
    (env : Env) (w : World) (parsed : ParsedConfig) (id iface_type : Text) (pp : ParsedPeer)
    (rest : List ParsedPeer)
    → parsed.peers ≡ pp ∷ rest
    → NoPeersImported w id (import_interface parsed id iface_type env w)
unfolding import_interface imported_interface encrypt
import_interface-NoPeersImported env w parsed id iface_type pp rest has = rw has (
    Reads-then {env = env} {A = Text} (λ t. Unit) (NoPeersImported w id) w _ _
      (Reads-wrapping _ _ _ (Reads-external_call _ _ (λ t a e. tt)))
      (λ e w' db calls. nothing_stored e w' db)
      (λ encrypted v u db calls. moved w v id _ db (
        encrypted_import env v id pp rest (imported_interface parsed id iface_type encrypted)
          refl)))
