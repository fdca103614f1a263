-- ===== src/Tests/ConfgenTests.antt =====
-- The configuration writers and the parser on a small server configuration.
use wgrift.Base.{
  pos, [], ◌∷◌, ◌≡◌, refl, codes, print_int, split_at, trim_space, text_eq, atoi, byte_length,
  drop_cr,
}
use wgrift.Base.Result.{ok, err}
use wgrift.Confgen.Generate.{ServerConfParams, ServerPeerBlock, generate_server_conf}
use wgrift.Confgen.Parse.{
  ParsedConfig, invalid_mtu, missing_private_key, empty_interface, empty_peer, parse_config,
  parse_lines, parse_line, scan_lines, require_private_key, equal_fold, parse_key_value,
  assign_interface, assign_peer, to_lower,
}

abbrev pub laptop : ServerPeerBlock
laptop = record {
  name = codes "laptop";
  public_key = codes "pub=";
  preshared_key = [];
  allowed_ips = codes "10.0.0.2/32";
  endpoint = [];
  persistent_keepalive = pos 25;
}

abbrev pub server : ServerConfParams
server = record {
  private_key = codes "priv=";
  address = codes "10.0.0.1/24";
  listen_port = pos 51820;
  mtu = pos 1420;
  dns = codes "1.1.1.1";
  post_up = codes " up one\n\nup two";
  post_down = [];
  peers = laptop ∷ [];
}

generate_server :
    generate_server_conf server
    ≡ codes
        "[Interface]\nPrivateKey = priv=\nAddress = 10.0.0.1/24\nListenPort = 51820\nMTU = 1420\nPostUp = up one\nPostUp = up two\n\n[Peer]\n# laptop\nPublicKey = pub=\nAllowedIPs = 10.0.0.2/32\nPersistentKeepalive = 25\n"
unfolding generate_server_conf print_int split_at trim_space
generate_server = refl

abbrev pub parsed_server : ParsedConfig
parsed_server = record {
  interface = record empty_interface {
    private_key = codes "priv=";
    address = codes "10.0.0.1/24";
    listen_port = pos 51820;
    mtu = pos 1420;
    post_up = codes "up one" ∷ codes "up two" ∷ [];
  };
  peers =
      record empty_peer {
        name = codes "laptop";
        public_key = codes "pub=";
        allowed_ips = codes "10.0.0.2/32";
        persistent_keepalive = pos 25;
      }
      ∷ [];
}

parse_server : parse_config (generate_server_conf server) ≡ ok parsed_server
unfolding parse_config parse_lines parse_line scan_lines require_private_key generate_server_conf
    print_int split_at trim_space text_eq atoi byte_length drop_cr equal_fold parse_key_value
    assign_interface assign_peer to_lower
parse_server = refl

parse_errors :
    (parse_config (codes "[Interface]\nPrivateKey=x\r\nmtu = 1x\n")
      ≡ err (invalid_mtu (codes "1x")))
    × (parse_config (codes "# c\n[Peer]\nPublicKey=x\n") ≡ err missing_private_key)
unfolding parse_config parse_lines parse_line scan_lines require_private_key split_at trim_space
    text_eq atoi byte_length drop_cr equal_fold parse_key_value assign_interface assign_peer
    to_lower
parse_errors = (refl, refl)
