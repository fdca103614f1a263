-- ===== src/Wg/Sync/Applied.antt =====
-- What `SyncInterface` of internal/wg/manager.go does to the system.
use wgrift.Base.{
  ◌≡◌, Bool, true, false, not, some, List, [], ◌∷◌, Text, select, is_nil, if◌then◌else◌,
}
use wgrift.Models.{Peer}
use wgrift.App.{App, Env, ◌>>=◌, pure}
use wgrift.App.Reads.{Reads, Reads-pure, Reads-if, Reads-bind, Reads-wrapping, Reads-external_call}
use wgrift.Store.Db.{Db}
use wgrift.Confgen.Generate.{ServerPeerBlock}
use wgrift.Wg.Sync.{decrypt, peer_block, block_with, collect_blocks}

-- A block of the file is that of a peer: only the preshared key is decrypted.
pub data IsBlockOf (env : Env) : Peer → ServerPeerBlock → Type 0 where
  no_psk : (p : Peer) → is_nil p.preshared_key_encrypted ≡ true → IsBlockOf env p (block_with p [])
  with_psk :
      (p : Peer) (psk : Text)
      → is_nil p.preshared_key_encrypted ≡ false
      → env.decrypt p.preshared_key_encrypted ≡ some psk
      → IsBlockOf env p (block_with p psk)

-- The blocks are those of the peers, one for one and in order.
pub data AreBlocksOf (env : Env) : List Peer → List ServerPeerBlock → Type 0 where
  no_blocks : AreBlocksOf env [] []
  more_blocks :
      {p : Peer} {ps : List Peer} {b : ServerPeerBlock} {bs : List ServerPeerBlock}
      → IsBlockOf env p b
      → AreBlocksOf env ps bs
      → AreBlocksOf env (p ∷ ps) (b ∷ bs)

peer_block-Reads : (env : Env) (db : Db) (p : Peer) → Reads env db (IsBlockOf env p) (peer_block p)
unfolding peer_block decrypt
peer_block-Reads env db p =
    Reads-if _ (is_nil p.preshared_key_encrypted) _ _ (λ none'. Reads-pure _ _ (no_psk p none'))
      (λ some'.
        Reads-bind (λ psk. env.decrypt p.preshared_key_encrypted ≡ some psk) _ _ _
          (Reads-wrapping _ _ _ (Reads-external_call _ _ (λ t a e. e)))
          (λ psk e. Reads-pure _ _ (with_psk p psk some' e)))

collect_step :
    (env : Env) (db : Db) (enabled : Bool) (p : Peer) (on : List Peer)
    (rest : App (List ServerPeerBlock))
    → Reads env db (AreBlocksOf env on) rest
    → Reads env db (AreBlocksOf env (if enabled then p ∷ on else on)) (
        if not enabled
        then rest
        else (do block ← peer_block p; blocks ← rest; pure (block ∷ blocks)))
collect_step env db false p on rest h = h
collect_step env db true p on rest h =
    Reads-bind (IsBlockOf env p) _ _ _ (peer_block-Reads env db p) (λ b hb.
      Reads-bind (AreBlocksOf env on) _ _ _ h (λ bs hbs. Reads-pure _ _ (more_blocks hb hbs)))

pub collect_blocks-Reads :
    (env : Env) (db : Db) (ps : List Peer)
    → Reads env db (AreBlocksOf env (select (λ p. p.enabled) ps)) (collect_blocks ps)
unfolding collect_blocks select
collect_blocks-Reads env db [] = Reads-pure _ _ no_blocks
collect_blocks-Reads env db (p ∷ ps) =
    collect_step env db p.enabled p (select (λ p. p.enabled) ps) (collect_blocks ps)
      (collect_blocks-Reads env db ps)
