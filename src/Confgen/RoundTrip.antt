-- ===== src/Confgen/RoundTrip.antt =====
-- What the parser reads back from the three writers.
use mathlib.Core.List.{append-nil}
use wgrift.Base.{
  ℤ, pos, print_int, atoi-print_int, InRange, ◌≤◌, ◌≡◌, refl, sym, ap, ◌∙◌, false, List, [], arith,
  Text, codes, text_eq, split_at, byte_length, every, is_nil, map, All,
}
use wgrift.Base.Result.{ok}
use wgrift.Confgen.Generate.{
  ServerConfParams, key_line, key_line_if_positive, generate_server_conf, generate_stripped_conf,
}
use wgrift.Confgen.Parse.{
  ParsedInterface, ParsedPeer, initial, empty_interface, assign_interface, to_lower, parse_lines,
  scan_lines, parse_config, require_private_key,
}
use wgrift.Confgen.Lines.{
  IsClean, IsKey-of, IsClean-print_int, Runs, Runs-if_positive, Runs-interface_header,
}
use wgrift.Confgen.Peers.{
  or_zero, read_back_peer, IsCleanPeer, IsBetween, Reads, ◌⊳◌, Reads-peer_blocks,
  Reads-stripped_peer_blocks,
}
use wgrift.Confgen.Hooks.{commands, in_interface, Runs-interface_key, Runs-post_up, Runs-post_down}

-- Texts that stand on a line of their own, with a private key, hooks that are not too long, and
-- numbers that are `int`s.
pub record IsCleanServer (p : ServerConfParams) : Type 0 where
  pub private_key : IsClean p.private_key
  pub has_private_key : is_nil p.private_key ≡ false
  pub address : IsClean p.address
  pub listen_port : InRange p.listen_port
  pub mtu : InRange p.mtu
  pub post_up : byte_length p.post_up ≤ 65000
  pub post_down : byte_length p.post_down ≤ 65000
  pub peers : All IsCleanPeer p.peers

parse_lines-Reads :
    (t : Text) (i : ParsedInterface) (ps : List ParsedPeer) (reads : Reads t initial i ps)
    → parse_lines initial (scan_lines t) ≡ ok reads.last
parse_lines-Reads t i ps reads =
    ap (λ s. parse_lines initial (scan_lines s)) (sym (append-nil t))
    ∙ reads.runs.apply []
    ∙ unfold parse_lines scan_lines split_at in refl

-- A text that takes the parser from the start to a state between blocks is accepted.
pub parse_config-Reads :
    (t : Text) (i : ParsedInterface) (ps : List ParsedPeer)
    → Reads t initial i ps
    → is_nil i.private_key ≡ false
    → parse_config t ≡ ok (record { interface = i; peers = ps })
parse_config-Reads t i ps reads h =
    unfold parse_config require_private_key in
    ground (arith, parse_lines-Reads t i ps reads, reads.between.interface, reads.between.peers)

abbrev pub read_back_interface : ServerConfParams → ParsedInterface
read_back_interface p = record {
  private_key = p.private_key;
  address = p.address;
  listen_port = p.listen_port;
  dns = [];
  mtu = or_zero p.mtu;
  post_up = commands p.post_up;
  post_down = commands p.post_down;
}

-- The address, the port and the MTU behind the private key.
abbrev pub with_key : Text → ParsedInterface
with_key k = record empty_interface { private_key = k }

pub IsBetween-initial : (i : ParsedInterface) → IsBetween i [] (in_interface i)
IsBetween-initial i = record { interface = refl; peers = refl; no_comment = refl }

pub Runs-private_key :
    (k : Text)
    → IsClean k
    → Runs
        (key_line (codes "PrivateKey") k)
        (in_interface empty_interface)
        (in_interface (with_key k))
Runs-private_key k clean =
    Runs-interface_key (codes "PrivateKey") k empty_interface (with_key k)
      (IsKey-of _ (unfold every byte_length in refl)) clean
      (unfold assign_interface to_lower text_eq in refl)

pub Runs-address :
    (a : Text) (i : ParsedInterface)
    → IsClean a
    → Runs (key_line (codes "Address") a) (in_interface i) (in_interface (record i { address = a }))
Runs-address a i clean =
    Runs-interface_key (codes "Address") a i _ (IsKey-of _ (unfold every byte_length in refl)) clean
      (unfold assign_interface to_lower text_eq in refl)

Runs-listen_port :
    (n : ℤ) (i : ParsedInterface)
    → InRange n
    → Runs
        (key_line (codes "ListenPort") (print_int n))
        (in_interface i)
        (in_interface (record i { listen_port = n }))
Runs-listen_port n i range =
    Runs-interface_key (codes "ListenPort") (print_int n) i _
      (IsKey-of _ (unfold every byte_length in refl)) (IsClean-print_int n range)
      (unfold assign_interface to_lower text_eq in ground (arith, atoi-print_int n range))

pub Runs-mtu :
    (n : ℤ) (i : ParsedInterface)
    → InRange n
    → i.mtu ≡ pos 0
    → Runs
        (key_line_if_positive (codes "MTU") n)
        (in_interface i)
        (in_interface (record i { mtu = or_zero n }))
Runs-mtu n i range zero_mtu =
    Runs-if_positive (codes "MTU") n _ _ (λ h. ground arith)
      λ h.
        Runs-interface_key (codes "MTU") (print_int n) i _
          (IsKey-of _ (unfold every byte_length in refl)) (IsClean-print_int n range)
          (unfold assign_interface to_lower text_eq in ground (arith, atoi-print_int n range))

-- Reading back what `GenerateServerConf` wrote gives the interface and the peers, in order, that
-- it was given: less the DNS servers, with the hooks as lists of commands, and with 0 for an MTU
-- or a keepalive that is not positive. The private
-- key must not be empty, it, the address and the texts of the peers must be single lines of at most
-- 65000 bytes without spaces at their ends, each hook must have at most 65000 bytes, and the numbers
-- must be in the range of an `int`. The handlers do not see to that for names and endpoints.
pub parse_config-generate_server_conf :
    (p : ServerConfParams)
    → IsCleanServer p
    → parse_config (generate_server_conf p)
      ≡ ok (record { interface = read_back_interface p; peers = map read_back_peer p.peers })
unfolding generate_server_conf
parse_config-generate_server_conf p c =
    let i0 = with_key p.private_key in
    let i1 = record i0 { address = p.address } in
    let i2 = record i1 { listen_port = p.listen_port } in
    let i3 = record i2 { mtu = or_zero p.mtu } in
    let i4 = record i3 { post_up = commands p.post_up } in
    parse_config-Reads _ (read_back_interface p) (map read_back_peer p.peers)
      (Runs-interface_header initial
        ⊳ Runs-private_key p.private_key c.private_key
        ⊳ Runs-address p.address i0 c.address
        ⊳ Runs-listen_port p.listen_port i1 c.listen_port
        ⊳ Runs-mtu p.mtu i2 c.mtu refl
        ⊳ Runs-post_up p.post_up i3 c.post_up
        ⊳ Runs-post_down p.post_down i4 c.post_down
        ⊳ Reads-peer_blocks p.peers (read_back_interface p) [] _ (IsBetween-initial _) c.peers)
      c.has_private_key

-- `wg syncconf` is given a file that agrees with the full one on the key, the port and the peers;
-- addresses, MTU, hooks and names are left out. The conditions are those of the full file.
pub parse_config-generate_stripped_conf :
    (p : ServerConfParams)
    → IsCleanServer p
    → parse_config (generate_stripped_conf p)
      ≡ ok (record {
        interface = record empty_interface {
          private_key = p.private_key;
          listen_port = p.listen_port;
        };
        peers = map (λ b. read_back_peer (record b { name = [] })) p.peers;
      })
unfolding generate_stripped_conf
parse_config-generate_stripped_conf p c =
    let i = record (with_key p.private_key) { listen_port = p.listen_port } in
    parse_config-Reads _ i _
      (Runs-interface_header initial
        ⊳ Runs-private_key p.private_key c.private_key
        ⊳ Runs-listen_port p.listen_port _ c.listen_port
        ⊳ Reads-stripped_peer_blocks p.peers i [] _ (IsBetween-initial _) c.peers)
      c.has_private_key
