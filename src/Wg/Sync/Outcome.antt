-- ===== src/Wg/Sync/Outcome.antt =====
-- The outcomes of `SyncInterface` of internal/wg/manager.go.
use mathlib.Core.List.{append-nil}
use wgrift.Base.{
  ℕ, ◌≡◌, refl, sym, ap, ◌∙◌, Bool, true, false, not, Option, none, some, List, [], ◌∷◌, Text,
  select, if◌then◌else◌,
}
use wgrift.Base.Result.{Result, ok, err}
use wgrift.Models.{Interface}
use wgrift.App.{Env, World, Error, ◌>>=◌, ◌>>◌, pure, net_call, attempt, set_down}
use wgrift.App.Reads.{
  Reads-then, Reads-wrapping, Reads-external_call, Reads-query, Reads-net_exists_told,
}
use wgrift.Store.Db.{Db}
use wgrift.Store.Peers.{list_peers, select_peers}
use wgrift.Store.Interfaces.{select_interface, get_interface}
use wgrift.Confgen.Generate.{ServerPeerBlock, ServerConfParams}
use wgrift.Wg.Sync.{decrypt, sync_interface, sync_found, sync_enabled, conf_params}
use wgrift.Wg.Sync.Applied.{AreBlocksOf, collect_blocks-Reads}
use wgrift.Wg.Sync.Pushed.{Added, Added-moved, Pushed, Pushed-moved, apply_conf-Pushed}

-- The configuration is that of the interface, its decrypted key and its enabled peers.
pub record IsConfOf (env : Env) (db : Db) (id : Text) (iface : Interface)
    (params : ServerConfParams) : Type 0 where
  pub private_key : Text
  pub blocks : List ServerPeerBlock
  pub decrypted : env.decrypt iface.private_key_encrypted ≡ some private_key
  pub enabled_peers : AreBlocksOf env (select (λ p. p.enabled) (select_peers id db)) blocks
  pub is_conf : params ≡ conf_params iface private_key blocks

-- Every outcome of a sync: nothing was done, a disabled interface was set down, or the
-- configuration of an enabled one was pushed.
pub data Synced (env : Env) (id : Text) (w : World) : Result Error (Unit {0}) × World → Type 0 where
  not_done : (e : Error) (w' : World) → Added w w' [] → Synced env id w (err e, w')
  disabled :
      (iface : Interface) (w' : World)
      → select_interface id w.db ≡ some iface
      → iface.enabled ≡ false
      → Added w w' (set_down id ∷ [])
      → Synced env id w (ok tt, w')
  pushed :
      (iface : Interface) (params : ServerConfParams) (running : Bool) (t : ℕ)
      (r : Result Error (Unit {0}) × World)
      → select_interface id w.db ≡ some iface
      → iface.enabled ≡ true
      → IsConfOf env w.db id iface params
      → env.net_exists t ≡ running
      → Pushed env id params w running r
      → Synced env id w r

nothing_done :
    (env : Env) (id : Text) (w : World) (e : Error) (w' : World)
    → w'.db ≡ w.db
    → w'.calls ≡ w.calls
    → Synced env id w (err e, w')
nothing_done env id w e w' db calls =
    not_done e w' (record { same_db = db; added = calls ∙ sym (append-nil w.calls) })

module _ (env : Env) (id : Text) (iface : Interface) where
  sync_enabled-Synced :
      (w : World)
      → select_interface id w.db ≡ some iface
      → iface.enabled ≡ true
      → Synced env id w (sync_enabled id iface env w)
  unfolding sync_enabled decrypt list_peers
  sync_enabled-Synced w found on =
      Reads-then (λ k. env.decrypt iface.private_key_encrypted ≡ some k) (Synced env id w) w _ _
        (Reads-wrapping _ _ _ (Reads-external_call _ _ (λ t a e. e))) (nothing_done env id w)
        (λ key w1 decrypts db1 calls1.
          Reads-then (λ ps. ps ≡ select_peers id w.db) (Synced env id w) w1 _ _
            (Reads-wrapping _ _ _
              (Reads-wrapping _ _ _ (Reads-query _ _ (ap (select_peers id) db1))))
            (λ e w' db calls. nothing_done env id w e w' (db ∙ db1) (calls ∙ calls1))
            (λ ps w2 is_ps db2 calls2.
              Reads-then (AreBlocksOf env (select (λ p. p.enabled) ps)) (Synced env id w) w2 _ _
                (collect_blocks-Reads env w2.db ps)
                (λ e w' db calls.
                  nothing_done env id w e w' (db ∙ db2 ∙ db1) (calls ∙ calls2 ∙ calls1))
                (λ bs w3 are_blocks db3 calls3.
                  Reads-then (λ b. (t : ℕ) × (env.net_exists t ≡ b)) (Synced env id w) w3 _ _
                    (Reads-wrapping _ _ _ Reads-net_exists_told)
                    (λ e w' db calls.
                      nothing_done env id w e w' (db ∙ db3 ∙ db2 ∙ db1)
                        (calls ∙ calls3 ∙ calls2 ∙ calls1))
                    (λ running w4 told db4 calls4.
                      pushed iface (conf_params iface key bs) running told.0 _ found on
                        (record {
                          private_key = key;
                          blocks = bs;
                          decrypted = decrypts;
                          enabled_peers = rw (← is_ps) are_blocks;
                          is_conf = refl;
                        })
                        told.1
                        (Pushed-moved env id (conf_params iface key bs) w w4 running _
                          (db4 ∙ db3 ∙ db2 ∙ db1) (calls4 ∙ calls3 ∙ calls2 ∙ calls1)
                          (apply_conf-Pushed env id (conf_params iface key bs) running w4))))))

enabled_or_not :
    (env : Env) (id : Text) (w : World) (iface : Interface) (on : Bool)
    → select_interface id w.db ≡ some iface
    → iface.enabled ≡ on
    → Synced env id w (
        (if not on then (do attempt (net_call (set_down id)); pure tt) else sync_enabled id iface)
          env w)
enabled_or_not env id w iface true found e = sync_enabled-Synced env id iface w found e
enabled_or_not env id w iface false found e =
    unfold ◌>>=◌ attempt net_call in
    disabled iface _ found e (record { same_db = refl; added = refl })

found_or_not :
    (env : Env) (id : Text) (w : World) (found : Option Interface)
    → select_interface id w.db ≡ found
    → Synced env id w (sync_found id found env w)
unfolding sync_found
found_or_not env id w none e = unfold ◌>>=◌ in nothing_done env id w _ _ refl refl
found_or_not env id w (some iface) e = enabled_or_not env id w iface iface.enabled e refl

Synced-moved :
    (env : Env) (id : Text) (w v : World) (r : Result Error (Unit {0}) × World)
    → v.db ≡ w.db
    → v.calls ≡ w.calls
    → Synced env id v r
    → Synced env id w r
Synced-moved env id w v _ db calls (not_done e w' a) =
    not_done e w' (Added-moved w v w' _ db calls a)
Synced-moved env id w v _ db calls (disabled iface w' found off a) =
    disabled iface w' (rw (← db) found) off (Added-moved w v w' _ db calls a)
Synced-moved env id w v r db calls (pushed iface params running t _ found on conf told p) =
    pushed iface params running t r (rw (← db) found) on (rw (← db) conf) told
      (Pushed-moved env id params w v running r db calls p)

-- `SyncInterface` ends in one of these outcomes: it fails before it has changed anything, with no
-- call; it sets down an interface that is stored as disabled; or it pushes the configuration of the
-- stored and enabled interface, whose blocks are those of its enabled peers alone, in the order of
-- their creation: where the system told that the interface is running it is given the stripped file
-- and then the full one is saved, and where it told that it is not the full one is saved and then
-- the interface is brought up, up to the first of these calls that fails. The tables stay as they were in every case.
pub sync_interface-Synced :
    (env : Env) (id : Text) (w : World) → Synced env id w (sync_interface id env w)
unfolding sync_interface get_interface
sync_interface-Synced env id w =
    Reads-then (λ f. f ≡ select_interface id w.db) (Synced env id w) w _ _
      (Reads-wrapping _ _ _ (Reads-wrapping _ _ _ (Reads-query _ _ refl))) (nothing_done env id w)
      (λ found v is_found db calls.
        Synced-moved env id w v _ db calls (found_or_not env id v found (rw db (sym is_found))))
