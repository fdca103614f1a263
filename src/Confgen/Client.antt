-- ===== src/Confgen/Client.antt =====
-- What the parser reads back from the client configuration of `GeneratePeerConf`.
use wgrift.Base.{
  InRange, ◌≡◌, refl, [], ◌∷◌, arith, false, Text, codes, text_eq, byte_length, every, is_nil,
}
use wgrift.Base.Result.{ok}
use wgrift.Confgen.Generate.{
  PeerConfParams, ServerPeerBlock, key_line_unless_empty, generate_peer_conf,
}
use wgrift.Confgen.Parse.{
  ParsedInterface, initial, empty_interface, assign_interface, to_lower, parse_config,
}
use wgrift.Confgen.Lines.{IsClean, IsKey-of, Runs, Runs-unless_empty, Runs-interface_header}
use wgrift.Confgen.Peers.{or_zero, read_back_peer, IsCleanPeer, ◌⊳◌, Runs-header, Runs-peer_lines}
use wgrift.Confgen.Hooks.{in_interface, Runs-interface_key}
use wgrift.Confgen.RoundTrip.{
  with_key, parse_config-Reads, Runs-private_key, Runs-address, Runs-mtu, IsBetween-initial,
}

-- The server, as the client's only peer.
abbrev server_block : PeerConfParams → ServerPeerBlock
server_block p = record {
  name = [];
  public_key = p.server_public_key;
  preshared_key = p.preshared_key;
  allowed_ips = p.allowed_ips;
  endpoint = p.server_endpoint;
  persistent_keepalive = p.persistent_keepalive;
}

pub record IsCleanClient (p : PeerConfParams) : Type 0 where
  pub private_key : IsClean p.private_key
  pub has_private_key : is_nil p.private_key ≡ false
  pub address : IsClean p.address
  pub dns : IsClean p.dns
  pub mtu : InRange p.mtu
  pub server : IsCleanPeer (server_block p)

Runs-dns :
    (dns : Text) (i : ParsedInterface)
    → IsClean dns
    → i.dns ≡ []
    → Runs
        (key_line_unless_empty (codes "DNS") dns)
        (in_interface i)
        (in_interface (record i { dns = dns }))
Runs-dns dns i clean none_yet =
    Runs-unless_empty (codes "DNS") dns _ _ (λ e. ground arith)
      (Runs-interface_key (codes "DNS") dns i _ (IsKey-of _ (unfold every byte_length in refl))
        clean (unfold assign_interface to_lower text_eq in refl))

-- A client configuration reads back as an interface with the client's key, address, DNS servers
-- and MTU, and one unnamed peer, the server: the name that it was given is lost. The private
-- key must not be empty, it, the address, the DNS servers and the texts of the server must be single
-- lines of at most 65000 bytes without spaces at their ends, and the numbers in the range of an `int`.
pub parse_config-generate_peer_conf :
    (p : PeerConfParams)
    → IsCleanClient p
    → parse_config (generate_peer_conf p)
      ≡ ok (record {
        interface = record empty_interface {
          private_key = p.private_key;
          address = p.address;
          dns = p.dns;
          mtu = or_zero p.mtu;
        };
        peers = read_back_peer (server_block p) ∷ [];
      })
unfolding generate_peer_conf
parse_config-generate_peer_conf p c =
    let i0 = with_key p.private_key in
    let i1 = record i0 { address = p.address } in
    let i2 = record i1 { dns = p.dns } in
    let i3 = record i2 { mtu = or_zero p.mtu } in
    parse_config-Reads _ i3 (read_back_peer (server_block p) ∷ [])
      (Runs-interface_header initial
        ⊳ Runs-private_key p.private_key c.private_key
        ⊳ Runs-address p.address i0 c.address
        ⊳ Runs-dns p.dns i1 c.dns refl
        ⊳ Runs-mtu p.mtu i2 c.mtu refl
        ⊳ Runs-header i3 [] (in_interface i3) (IsBetween-initial i3)
        ⊳ record {
          last = _;
          runs = Runs-peer_lines i3 [] [] [] (server_block p) c.server;
          between = record { interface = refl; peers = refl; no_comment = refl };
        })
      c.has_private_key
