-- ===== src/Store/TunnelIps/Sound.antt =====
-- What `IsTunnelIPInUse` of internal/store/store.go answers.
use wgrift.Base.{
  ◌≡◌, refl, Bool, not, ◌&&◌, ◌||◌, List, [], ◌∷◌, map, arith, Text, text_eq, is_nil, any, select,
}
use wgrift.Models.{Interface, Peer}
use wgrift.App.{Env}
use wgrift.App.Reads.{Reads, Reads-if, Reads-bind, Reads-pure, Reads-query, Reads-wrapping}
use wgrift.Store.Db.{Db}
use wgrift.Store.TunnelIps.{
  extract_host_ip, host_in_rows, peer_addresses, interface_addresses, is_tunnel_ip_in_use,
}

-- A row other than the excluded one, with an address of the same host.
abbrev pub holds_host : Text → Text → Text → Text → Bool
holds_host target exclude id address =
    not (text_eq id exclude) && not (is_nil address) && text_eq (extract_host_ip address) target

-- The host of the address is that of some peer or interface that is not excluded.
unfoldable pub host_taken : Text → Text → Text → Db → Bool
host_taken target exclude_peer_id exclude_iface_id db =
    any (λ p. holds_host target exclude_peer_id p.id p.address) db.peers
    || any (λ i. holds_host target exclude_iface_id i.id i.address) db.interfaces

peers_lem :
    (target exclude : Text) (ps : List Peer)
    → host_in_rows target exclude
        (select (λ row. not (is_nil row.1)) (map (λ p. (p.id, p.address)) ps))
      ≡ any (λ p. holds_host target exclude p.id p.address) ps
unfolding host_in_rows select any
peers_lem target exclude [] = refl
peers_lem target exclude (p ∷ ps) = ground (arith, peers_lem target exclude ps)

interfaces_lem :
    (target exclude : Text) (is : List Interface)
    → host_in_rows target exclude
        (select (λ row. not (is_nil row.1)) (map (λ i. (i.id, i.address)) is))
      ≡ any (λ i. holds_host target exclude i.id i.address) is
unfolding host_in_rows select any
interfaces_lem target exclude [] = refl
interfaces_lem target exclude (i ∷ is) = ground (arith, interfaces_lem target exclude is)

-- The answer, where the reads succeed: an address that is neither a CIDR nor an IP is never in use,
-- and another is in use exactly if a peer or an interface that is not excluded has its host, with
-- whatever prefix length and in whatever spelling. Nothing is written.
pub is_tunnel_ip_in_use-Reads :
    (env : Env) (db : Db) (ip exclude_peer_id exclude_iface_id : Text)
    → Reads env db
        (λ answer. answer ≡ (
          not (is_nil (extract_host_ip ip))
          && host_taken (extract_host_ip ip) exclude_peer_id exclude_iface_id db))
        (is_tunnel_ip_in_use ip exclude_peer_id exclude_iface_id)
unfolding is_tunnel_ip_in_use host_taken
is_tunnel_ip_in_use-Reads env db ip exclude_peer_id exclude_iface_id =
    Reads-if _ (is_nil (extract_host_ip ip)) _ _ (λ nil. Reads-pure _ _ (rw nil refl))
      (λ cons.
        Reads-bind (λ rows. rows ≡ peer_addresses db) _ _ _
          (Reads-wrapping _ _ _ (Reads-query _ _ refl))
          (λ rows e.
            Reads-if _ (host_in_rows (extract_host_ip ip) exclude_peer_id rows) _ _
              (λ yes'. Reads-pure _ _ (
                ground (
                  arith,
                  cons,
                  rw e at yes',
                  peers_lem (extract_host_ip ip) exclude_peer_id db.peers,
                )))
              (λ no'.
                Reads-bind (λ rows'. rows' ≡ interface_addresses db) _ _ _
                  (Reads-wrapping _ _ _ (Reads-query _ _ refl))
                  (λ rows' e'. Reads-pure _ _ (
                    rw e' (
                      ground (
                        arith,
                        cons,
                        rw e at no',
                        peers_lem (extract_host_ip ip) exclude_peer_id db.peers,
                        interfaces_lem (extract_host_ip ip) exclude_iface_id db.interfaces,
                      )))))))
