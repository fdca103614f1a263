-- ===== src/Tests/ConfgenWitnesses.antt =====
-- The theorems on the configuration files at concrete files.
use wgrift.Base.{
  pos, ◌≡◌, ◌≢◌, refl, [], ◌∷◌, map, codes, every, is_space, trim_left, trim_right, trim_space,
  text_eq, byte_length, arith,
}
use wgrift.Base.Result.{ok, err, ◌>>=◌}
use wgrift.Confgen.Generate.{
  PeerConfParams, generate_server_conf, generate_stripped_conf, generate_peer_conf,
}
use wgrift.Confgen.Parse.{parse_config, parse_line, index_out_of_range, empty_interface, empty_peer}
use wgrift.Confgen.Lines.{IsClean-of}
use wgrift.Confgen.Peers.{IsCleanPeer, read_back_peer, in_peer}
use wgrift.Confgen.RoundTrip.{
  IsCleanServer, read_back_interface, parse_config-generate_server_conf,
  parse_config-generate_stripped_conf,
}
use wgrift.Confgen.Client.{IsCleanClient, parse_config-generate_peer_conf}
use wgrift.Confgen.Safety.{parse_config-ne-index_out_of_range}
use wgrift.Confgen.Comments.{comment_names_two_peers}
use wgrift.Tests.ConfgenTests.{laptop, server}

laptop_IsClean : IsCleanPeer laptop
unfolding every is_space trim_left trim_right text_eq byte_length
laptop_IsClean = record {
  name = IsClean-of (codes "laptop") refl;
  public_key = IsClean-of (codes "pub=") refl;
  preshared_key = IsClean-of [] refl;
  allowed_ips = IsClean-of (codes "10.0.0.2/32") refl;
  endpoint = IsClean-of [] refl;
  persistent_keepalive = omega arith;
}

server_IsClean : IsCleanServer server
unfolding every is_space trim_left trim_right text_eq byte_length
server_IsClean = record {
  private_key = IsClean-of (codes "priv=") refl;
  has_private_key = refl;
  address = IsClean-of (codes "10.0.0.1/24") refl;
  listen_port = omega arith;
  mtu = omega arith;
  post_up = omega arith;
  post_down = omega arith;
  peers = (laptop_IsClean, tt);
}

parse_config-generate_server_conf_example :
    parse_config (generate_server_conf server)
    ≡ ok
        (record { interface = read_back_interface server; peers = map read_back_peer server.peers })
parse_config-generate_server_conf_example = parse_config-generate_server_conf server server_IsClean

parse_config-generate_stripped_conf_example :
    parse_config (generate_stripped_conf server)
    ≡ ok (record {
      interface = record empty_interface {
        private_key = server.private_key;
        listen_port = server.listen_port;
      };
      peers = map (λ b. read_back_peer (record b { name = [] })) server.peers;
    })
parse_config-generate_stripped_conf_example =
    parse_config-generate_stripped_conf server server_IsClean

abbrev pub phone : PeerConfParams
phone = record {
  name = codes "phone";
  private_key = codes "priv=";
  address = codes "10.0.0.2/32";
  dns = codes "1.1.1.1";
  server_public_key = codes "pub=";
  server_endpoint = codes "vpn.example.com:51820";
  allowed_ips = codes "0.0.0.0/0";
  preshared_key = [];
  persistent_keepalive = pos 25;
  mtu = pos 1420;
}

phone_IsClean : IsCleanClient phone
unfolding every is_space trim_left trim_right text_eq byte_length
phone_IsClean = record {
  private_key = IsClean-of (codes "priv=") refl;
  has_private_key = refl;
  address = IsClean-of (codes "10.0.0.2/32") refl;
  dns = IsClean-of (codes "1.1.1.1") refl;
  mtu = omega arith;
  server = record {
    name = IsClean-of [] refl;
    public_key = IsClean-of (codes "pub=") refl;
    preshared_key = IsClean-of [] refl;
    allowed_ips = IsClean-of (codes "0.0.0.0/0") refl;
    endpoint = IsClean-of (codes "vpn.example.com:51820") refl;
    persistent_keepalive = omega arith;
  };
}

parse_config-generate_peer_conf_example :
    parse_config (generate_peer_conf phone)
    ≡ ok (record {
      interface = record empty_interface {
        private_key = codes "priv=";
        address = codes "10.0.0.2/32";
        dns = codes "1.1.1.1";
        mtu = pos 1420;
      };
      peers =
          record empty_peer {
            public_key = codes "pub=";
            allowed_ips = codes "0.0.0.0/0";
            endpoint = codes "vpn.example.com:51820";
            persistent_keepalive = pos 25;
          }
          ∷ [];
    })
parse_config-generate_peer_conf_example = parse_config-generate_peer_conf phone phone_IsClean

parse_config-ne-index_out_of_range_example :
    parse_config (codes "[Peer]\n# a\nPublicKey = x\n[Interface]\n[Peer]\n")
    ≢ err index_out_of_range
parse_config-ne-index_out_of_range_example =
    parse_config-ne-index_out_of_range (codes "[Peer]\n# a\nPublicKey = x\n[Interface]\n[Peer]\n")

comment_names_two_peers_example :
    (parse_line
        (in_peer empty_interface [] [] (record empty_peer { public_key = codes "a=" }))
        (codes "# second")
      >>= λ q. parse_line q (codes "[Peer]"))
    ≡ ok (
        in_peer empty_interface
          (record empty_peer { name = trim_space (codes " second"); public_key = codes "a=" } ∷ [])
          []
          (record empty_peer { name = trim_space (codes " second") }))
comment_names_two_peers_example =
    comment_names_two_peers empty_interface [] [] (record empty_peer { public_key = codes "a=" })
      (codes " second") refl
