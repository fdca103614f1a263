-- ===== src/Confgen/Generate.antt =====
-- internal/confgen/confgen.go: the three writers. A `strings.Builder` is the text written so far,
-- so a writer is the concatenation of its pieces, in order.
use wgrift.Base.{
  ℤ, is_positive, print_int, List, [], ◌∷◌, ◌++◌, Text, codes, trim_space, split_at, is_nil,
  if◌then◌else◌,
}

-- Name is written nowhere by `generate_peer_conf`.
pub record PeerConfParams : Type 0 where
  pub name : Text
  pub private_key : Text
  pub address : Text
  pub dns : Text
  pub server_public_key : Text
  pub server_endpoint : Text
  pub allowed_ips : Text
  pub preshared_key : Text
  pub persistent_keepalive : ℤ
  pub mtu : ℤ

pub record ServerPeerBlock : Type 0 where
  pub name : Text
  pub public_key : Text
  pub preshared_key : Text
  pub allowed_ips : Text
  pub endpoint : Text
  pub persistent_keepalive : ℤ

pub record ServerConfParams : Type 0 where
  pub private_key : Text
  pub address : Text
  pub listen_port : ℤ
  pub mtu : ℤ
  pub dns : Text
  pub post_up : Text
  pub post_down : Text
  pub peers : List ServerPeerBlock

-- `fmt.Fprintf(&b, "Key = %s\n", value)`.
abbrev pub key_line : Text → Text → Text
key_line key value = key ++ (codes " = " ++ (value ++ codes "\n"))

abbrev pub key_line_unless_empty : Text → Text → Text
key_line_unless_empty key value = if is_nil value then [] else key_line key value

abbrev pub key_line_if_positive : Text → ℤ → Text
key_line_if_positive key i = if is_positive i then key_line key (print_int i) else []

unfoldable pub generate_peer_conf : PeerConfParams → Text
generate_peer_conf p =
    codes "[Interface]\n"
    ++ (key_line (codes "PrivateKey") p.private_key
        ++ (key_line (codes "Address") p.address
            ++ (key_line_unless_empty (codes "DNS") p.dns
                ++ (key_line_if_positive (codes "MTU") p.mtu
                    ++ (codes "\n[Peer]\n"
                        ++ (key_line (codes "PublicKey") p.server_public_key
                            ++ (key_line_unless_empty (codes "PresharedKey") p.preshared_key
                                ++ (key_line (codes "AllowedIPs") p.allowed_ips
                                    ++ (key_line_unless_empty (codes "Endpoint") p.server_endpoint
                                        ++ key_line_if_positive (codes "PersistentKeepalive")
                                            p.persistent_keepalive)))))))))

-- The loop over the commands of a hook.
unfoldable pub hook_lines : Text → List Text → Text
hook_lines key [] = []
hook_lines key (cmd ∷ rest) = key_line_unless_empty key (trim_space cmd) ++ hook_lines key rest

abbrev pub hook_block : Text → Text → Text
hook_block key hook = if is_nil hook then [] else hook_lines key (split_at b'\n' hook)

-- The lines of a peer below its name, which both server writers share.
abbrev pub peer_lines : ServerPeerBlock → Text
peer_lines peer =
    key_line (codes "PublicKey") peer.public_key
    ++ (key_line_unless_empty (codes "PresharedKey") peer.preshared_key
        ++ (key_line (codes "AllowedIPs") peer.allowed_ips
            ++ (key_line_unless_empty (codes "Endpoint") peer.endpoint
                ++ key_line_if_positive (codes "PersistentKeepalive") peer.persistent_keepalive)))

abbrev pub name_comment : Text → Text
name_comment name = if is_nil name then [] else codes "# " ++ (name ++ codes "\n")

unfoldable pub peer_blocks : List ServerPeerBlock → Text
peer_blocks [] = []
peer_blocks (peer ∷ rest) =
    codes "\n[Peer]\n" ++ (name_comment peer.name ++ (peer_lines peer ++ peer_blocks rest))

unfoldable pub generate_server_conf : ServerConfParams → Text
unfolding hook_lines peer_blocks
generate_server_conf p =
    codes "[Interface]\n"
    ++ (key_line (codes "PrivateKey") p.private_key
        ++ (key_line (codes "Address") p.address
            ++ (key_line (codes "ListenPort") (print_int p.listen_port)
                ++ (key_line_if_positive (codes "MTU") p.mtu
                    ++ (hook_block (codes "PostUp") p.post_up
                        ++ (hook_block (codes "PostDown") p.post_down ++ peer_blocks p.peers))))))

unfoldable pub stripped_peer_blocks : List ServerPeerBlock → Text
stripped_peer_blocks [] = []
stripped_peer_blocks (peer ∷ rest) =
    codes "\n[Peer]\n" ++ (peer_lines peer ++ stripped_peer_blocks rest)

unfoldable pub generate_stripped_conf : ServerConfParams → Text
unfolding stripped_peer_blocks
generate_stripped_conf p =
    codes "[Interface]\n"
    ++ (key_line (codes "PrivateKey") p.private_key
        ++ (key_line (codes "ListenPort") (print_int p.listen_port)
            ++ stripped_peer_blocks p.peers))
