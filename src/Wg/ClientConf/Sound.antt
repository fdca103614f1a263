-- ===== src/Wg/ClientConf/Sound.antt =====
-- The files that `GenerateConfig` of internal/wg/manager.go hands out.
use wgrift.Base.{◌≡◌, refl, sym, ◌∙◌, true, false, Option, none, some, [], Text, is_nil}
use wgrift.Models.{Interface, Peer}
use wgrift.App.{Env, Error}
use wgrift.App.Reads.{
  Reads, Reads-pure, Reads-fail, Reads-if, Reads-bind, Reads-wrapping, Reads-query,
  Reads-external_call,
}
use wgrift.Store.Db.{Db}
use wgrift.Store.Interfaces.{get_interface, select_interface}
use wgrift.Store.Peers.{get_peer, select_peer}
use wgrift.Confgen.Generate.{generate_peer_conf}
use wgrift.Wg.Sync.{decrypt}
use wgrift.Wg.Manager.{required}
use wgrift.Wg.Status.{public_key_from_private}
use wgrift.Wg.ClientConf.{client_params, require_key, decrypt_psk, generate_config}

-- A preshared key is the decrypted one of the peer, or empty where it has none.
pub data IsPskOf (env : Env) (peer : Peer) : Text → Type 0 where
  has_none : is_nil peer.preshared_key_encrypted ≡ true → IsPskOf env peer []
  has_one :
      (psk : Text)
      → is_nil peer.preshared_key_encrypted ≡ false
      → env.decrypt peer.preshared_key_encrypted ≡ some psk
      → IsPskOf env peer psk

-- A client file of the stored peer: with the peer's own private key and the public key of the
-- interface that it belongs to.
pub record IsClientFile (env : Env) (db : Db) (external_ip peer_id : Text) (file : Text)
    : Type 0 where
  pub peer : Peer
  pub iface : Interface
  pub private_key : Text
  pub server_key : Text
  pub server_public_key : Text
  pub psk : Text
  pub found_peer : select_peer peer_id db ≡ some peer
  pub found_iface : select_interface peer.interface_id db ≡ some iface
  pub has_key : is_nil peer.private_key_encrypted ≡ false
  pub decrypted : env.decrypt peer.private_key_encrypted ≡ some private_key
  pub server_decrypted : env.decrypt iface.private_key_encrypted ≡ some server_key
  pub derived : env.public_key server_key ≡ some server_public_key
  pub is_psk : IsPskOf env peer psk
  pub is_file :
      file
      ≡ generate_peer_conf (client_params external_ip peer iface private_key server_public_key psk)

required-found :
    (env : Env) (db : Db) {A : Type 0} (e : Error) (found : Option A)
    → Reads env db (λ a. found ≡ some a) (required e found)
required-found env db e none = Reads-fail _ e
required-found env db e (some a) = Reads-pure _ a refl

require_key-Reads :
    (env : Env) (db : Db) (peer : Peer)
    → Reads env db (λ u. is_nil peer.private_key_encrypted ≡ false) (require_key peer)
unfolding require_key
require_key-Reads env db peer =
    Reads-if _ (is_nil peer.private_key_encrypted) _ _ (λ e. Reads-fail _ _)
      (λ e. Reads-pure _ tt e)

decrypt-Reads :
    (env : Env) (db : Db) (text : Text)
    → Reads env db (λ t. env.decrypt text ≡ some t) (decrypt text)
unfolding decrypt
decrypt-Reads env db text = Reads-external_call _ _ (λ t a e. e)

decrypt_psk-Reads :
    (env : Env) (db : Db) (peer : Peer) → Reads env db (IsPskOf env peer) (decrypt_psk peer)
unfolding decrypt_psk decrypt
decrypt_psk-Reads env db peer =
    Reads-if _ (is_nil peer.preshared_key_encrypted) _ _ (λ e. Reads-pure _ [] (has_none e))
      (λ no'. Reads-wrapping _ _ _ (Reads-external_call _ _ (λ t psk e. has_one psk no' e)))

-- A file is handed out only for a stored peer that has a private key and whose interface is stored,
-- with the keys that decrypt from their rows. Nothing is written.
pub generate_config-Reads :
    (env : Env) (db : Db) (external_ip peer_id : Text)
    → Reads env db (IsClientFile env db external_ip peer_id) (generate_config external_ip peer_id)
unfolding generate_config get_peer get_interface public_key_from_private
generate_config-Reads env db external_ip peer_id =
    Reads-bind (λ f. f ≡ select_peer peer_id db) _ _ _
      (Reads-wrapping _ _ _ (Reads-wrapping _ _ _ (Reads-query _ _ refl)))
      (λ found e.
        Reads-bind (λ p. found ≡ some p) _ _ _ (required-found env db _ found)
          (λ peer is_peer.
            Reads-bind (λ f. f ≡ select_interface peer.interface_id db) _ _ _
              (Reads-wrapping _ _ _ (Reads-wrapping _ _ _ (Reads-query _ _ refl)))
              (λ found' e'.
                Reads-bind (λ i. found' ≡ some i) _ _ _ (required-found env db _ found')
                  (λ iface is_iface.
                    Reads-bind (λ u. is_nil peer.private_key_encrypted ≡ false) _ _ _
                      (require_key-Reads env db peer)
                      (λ u has_key.
                        Reads-bind (λ t. env.decrypt peer.private_key_encrypted ≡ some t) _ _ _
                          (Reads-wrapping _ _ _ (decrypt-Reads env db _))
                          (λ key is_key.
                            Reads-bind (λ t. env.decrypt iface.private_key_encrypted ≡ some t) _ _ _
                              (Reads-wrapping _ _ _ (decrypt-Reads env db _))
                              (λ server is_server.
                                Reads-bind (λ t. env.public_key server ≡ some t) _ _ _
                                  (Reads-wrapping _ _ _ (Reads-external_call _ _ (λ t a e. e)))
                                  (λ public is_public.
                                    Reads-bind (IsPskOf env peer) _ _ _
                                      (decrypt_psk-Reads env db peer)
                                      (λ psk is_psk. Reads-pure _ _ (record {
                                        peer = peer;
                                        iface = iface;
                                        private_key = key;
                                        server_key = server;
                                        server_public_key = public;
                                        psk = psk;
                                        found_peer = sym e ∙ is_peer;
                                        found_iface = sym e' ∙ is_iface;
                                        has_key = has_key;
                                        decrypted = is_key;
                                        server_decrypted = is_server;
                                        derived = is_public;
                                        is_psk = is_psk;
                                        is_file = refl;
                                      }))))))))))
