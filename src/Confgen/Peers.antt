-- ===== src/Confgen/Peers.antt =====
-- The `[Peer]` blocks of a written configuration, read back by the parser.
use mathlib.Core.List.{append_assoc, append-nil}
use wgrift.Base.{
  ℤ, pos, is_positive, print_int, atoi-print_int, InRange, ◌≡◌, refl, ap, subst, List, [], ◌∷◌,
  ◌++◌, map, some, arith, Text, codes, text_eq, byte_length, every, length, length-append,
  get_elem?, set, if◌then◌else◌, All,
}
use wgrift.Base.Result.{ok}
use wgrift.Confgen.Generate.{
  ServerPeerBlock, key_line, peer_lines, name_comment, peer_blocks, stripped_peer_blocks,
}
use wgrift.Confgen.Parse.{
  ParsedInterface, ParsedPeer, Parser, section_peer, empty_peer, open_peer, on_comment, on_pair,
  assign_peer, to_lower,
}
use wgrift.Confgen.Lines.{
  IsClean, IsKey, IsKey-of, IsClean-print_int, Runs, Runs-nil, Runs-append, Runs-key_line,
  Runs-unless_empty, Runs-if_positive, Runs-blank, Runs-peer_header, Runs-name_comment,
}

-- What the parser makes of a number that is written only if it is positive.
abbrev pub or_zero : ℤ → ℤ
or_zero i = if is_positive i then i else pos 0

abbrev pub read_back_peer : ServerPeerBlock → ParsedPeer
read_back_peer b = record {
  name = b.name;
  public_key = b.public_key;
  preshared_key = b.preshared_key;
  allowed_ips = b.allowed_ips;
  endpoint = b.endpoint;
  persistent_keepalive = or_zero b.persistent_keepalive;
}

pub record IsCleanPeer (b : ServerPeerBlock) : Type 0 where
  pub name : IsClean b.name
  pub public_key : IsClean b.public_key
  pub preshared_key : IsClean b.preshared_key
  pub allowed_ips : IsClean b.allowed_ips
  pub endpoint : IsClean b.endpoint
  pub persistent_keepalive : InRange b.persistent_keepalive

-- The parser inside the block of the last peer, `x`, after the peers `ps`.
abbrev pub in_peer : ParsedInterface → List ParsedPeer → Text → ParsedPeer → Parser
in_peer i ps comment x = record {
  config = record { interface = i; peers = ps ++ x ∷ [] };
  current = section_peer;
  last_comment = comment;
  peer_index = pos (length ps);
}

pub get_elem?-concat :
    (ps : List ParsedPeer) (x : ParsedPeer) → get_elem? (ps ++ x ∷ []) (length ps) ≡ some x
get_elem?-concat [] x = refl
get_elem?-concat (p ∷ ps) x = get_elem?-concat ps x

pub set-concat :
    (ps : List ParsedPeer) (x y : ParsedPeer) → set (ps ++ x ∷ []) (length ps) y ≡ ps ++ y ∷ []
set-concat [] x y = refl
set-concat (p ∷ ps) x y = ap (◌∷◌ p) (set-concat ps x y)

module _ (i : ParsedInterface) (ps : List ParsedPeer) where
  Runs-peer_key :
      (k v comment : Text) (x y : ParsedPeer)
      → IsKey k
      → IsClean v
      → assign_peer x (to_lower k) v ≡ ok y
      → Runs (key_line k v) (in_peer i ps comment x) (in_peer i ps [] y)
  Runs-peer_key k v comment x y key clean e =
      Runs-key_line k v _ _ key clean
        (unfold on_pair in ground (arith, get_elem?-concat ps x, set-concat ps x y))

-- The fields that the five lines of a block set, one line after the other.
abbrev with_public_key : ServerPeerBlock → ParsedPeer → ParsedPeer
with_public_key b x = record x { public_key = b.public_key }

abbrev with_preshared_key : ServerPeerBlock → ParsedPeer → ParsedPeer
with_preshared_key b x = record x { preshared_key = b.preshared_key }

abbrev with_allowed_ips : ServerPeerBlock → ParsedPeer → ParsedPeer
with_allowed_ips b x = record x { allowed_ips = b.allowed_ips }

abbrev with_endpoint : ServerPeerBlock → ParsedPeer → ParsedPeer
with_endpoint b x = record x { endpoint = b.endpoint }

abbrev with_keepalive : ServerPeerBlock → ParsedPeer → ParsedPeer
with_keepalive b x = record x { persistent_keepalive = or_zero b.persistent_keepalive }

-- The lines of a block fill in the peer that the header opened.
pub Runs-peer_lines :
    (i : ParsedInterface) (ps : List ParsedPeer) (comment name : Text) (b : ServerPeerBlock)
    → IsCleanPeer b
    → Runs
        (peer_lines b)
        (in_peer i ps comment (record empty_peer { name = name }))
        (in_peer i ps [] (record (read_back_peer b) { name = name }))
Runs-peer_lines i ps comment name b c =
    let x = record empty_peer { name = name } in
    let x1 = with_public_key b x in
    let x2 = with_preshared_key b x1 in
    let x3 = with_allowed_ips b x2 in
    let x4 = with_endpoint b x3 in
    Runs-append
      (Runs-peer_key i ps (codes "PublicKey") b.public_key comment x x1
        (IsKey-of _ (unfold every byte_length in refl)) c.public_key
        (unfold assign_peer to_lower text_eq in refl))
      (Runs-append
        (Runs-unless_empty (codes "PresharedKey") b.preshared_key _ (in_peer i ps [] x2)
          (λ e. ground arith)
          (Runs-peer_key i ps (codes "PresharedKey") b.preshared_key [] x1 x2
            (IsKey-of _ (unfold every byte_length in refl)) c.preshared_key
            (unfold assign_peer to_lower text_eq in refl)))
        (Runs-append
          (Runs-peer_key i ps (codes "AllowedIPs") b.allowed_ips [] x2 x3
            (IsKey-of _ (unfold every byte_length in refl)) c.allowed_ips
            (unfold assign_peer to_lower text_eq in refl))
          (Runs-append
            (Runs-unless_empty (codes "Endpoint") b.endpoint _ (in_peer i ps [] x4)
              (λ e. ground arith)
              (Runs-peer_key i ps (codes "Endpoint") b.endpoint [] x3 x4
                (IsKey-of _ (unfold every byte_length in refl)) c.endpoint
                (unfold assign_peer to_lower text_eq in refl)))
            (Runs-if_positive (codes "PersistentKeepalive") b.persistent_keepalive
              (in_peer i ps [] x4) _ (λ e. ground arith)
              λ h.
                Runs-peer_key i ps (codes "PersistentKeepalive") (print_int b.persistent_keepalive)
                  [] x4 (with_keepalive b x4) (IsKey-of _ (unfold every byte_length in refl))
                  (IsClean-print_int b.persistent_keepalive c.persistent_keepalive)
                  (unfold assign_peer to_lower text_eq in
                    ground
                      (arith, atoi-print_int b.persistent_keepalive c.persistent_keepalive))))))

Runs-name :
    (i : ParsedInterface) (ps : List ParsedPeer) (name : Text)
    → IsClean name
    → Runs
        (name_comment name)
        (in_peer i ps [] empty_peer)
        (in_peer i ps name (record empty_peer { name = name }))
Runs-name i ps [] clean = Runs-nil _
Runs-name i ps (c ∷ name) clean = Runs-name_comment (c ∷ name) _ _ clean refl (
    unfold on_comment in
    ground (
      arith,
      get_elem?-concat ps empty_peer,
      set-concat ps empty_peer (record empty_peer { name = c ∷ name }),
    ))

abbrev pub open_block : ParsedInterface → List ParsedPeer → Parser
open_block i ps = in_peer i ps [] empty_peer

-- Between blocks: nothing is pending.
pub record IsBetween (i : ParsedInterface) (ps : List ParsedPeer) (p : Parser) : Type 0 where
  pub interface : p.config.interface ≡ i
  pub peers : p.config.peers ≡ ps
  pub no_comment : p.last_comment ≡ []

open_peer-IsBetween :
    (i : ParsedInterface) (ps : List ParsedPeer) (p : Parser)
    → IsBetween i ps p
    → open_peer p ≡ open_block i ps
unfolding open_peer
open_peer-IsBetween i ps p between = ground (
  arith,
  between.interface,
  between.peers,
  between.no_comment,
  length-append ps (empty_peer ∷ []),
)

pub Runs-header :
    (i : ParsedInterface) (ps : List ParsedPeer) (p : Parser)
    → IsBetween i ps p
    → Runs (codes "\n[Peer]\n") p (open_block i ps)
Runs-header i ps p between =
    Runs-append (Runs-blank p)
      (subst (Runs (codes "[Peer]\n") p) (open_peer-IsBetween i ps p between) (Runs-peer_header p))

abbrev anonymous : ServerPeerBlock → ServerPeerBlock
anonymous b = record b { name = [] }

-- The parser reaches a state that holds the peers `ps` and nothing pending.
pub record Reads (t : Text) (p : Parser) (i : ParsedInterface) (ps : List ParsedPeer) : Type 0 where
  pub last : Parser
  pub runs : Runs t p last
  pub between : IsBetween i ps last

-- All blocks, in order.
pub Reads-peer_blocks :
    (bs : List ServerPeerBlock) (i : ParsedInterface) (ps : List ParsedPeer) (p : Parser)
    → IsBetween i ps p
    → All IsCleanPeer bs
    → Reads (peer_blocks bs) p i (ps ++ map read_back_peer bs)
unfolding peer_blocks
Reads-peer_blocks [] i ps p between clean = record {
  last = p;
  runs = Runs-nil p;
  between = rw append-nil between;
}
Reads-peer_blocks (b ∷ bs) i ps p between (c, cs) =
    let rest =
      Reads-peer_blocks bs i (ps ++ read_back_peer b ∷ []) (in_peer i ps [] (read_back_peer b))
        (record { interface = refl; peers = refl; no_comment = refl }) cs in
    record {
      last = rest.last;
      runs = Runs-append (Runs-header i ps p between) (
          Runs-append (Runs-name i ps b.name c.name)
            (Runs-append (Runs-peer_lines i ps b.name b.name b c) rest.runs));
      between =
          subst (λ l. IsBetween i l rest.last)
            (append_assoc ps (read_back_peer b ∷ []) (map read_back_peer bs)) rest.between;
    }

pub Reads-stripped_peer_blocks :
    (bs : List ServerPeerBlock) (i : ParsedInterface) (ps : List ParsedPeer) (p : Parser)
    → IsBetween i ps p
    → All IsCleanPeer bs
    → Reads
        (stripped_peer_blocks bs)
        p
        i
        (ps ++ map (λ b. read_back_peer (record b { name = [] })) bs)
unfolding stripped_peer_blocks
Reads-stripped_peer_blocks [] i ps p between clean = record {
  last = p;
  runs = Runs-nil p;
  between = rw append-nil between;
}
Reads-stripped_peer_blocks (b ∷ bs) i ps p between (c, cs) =
    let x = read_back_peer (anonymous b) in
    let rest =
      Reads-stripped_peer_blocks bs i (ps ++ x ∷ []) (in_peer i ps [] x)
        (record { interface = refl; peers = refl; no_comment = refl }) cs in
    record {
      last = rest.last;
      runs =
          Runs-append (Runs-header i ps p between)
            (Runs-append (Runs-peer_lines i ps [] [] b c) rest.runs);
      between =
          subst (λ l. IsBetween i l rest.last)
            (append_assoc ps (x ∷ []) (map (λ b. read_back_peer (record b { name = [] })) bs))
            rest.between;
    }

infixr 60 ◌⊳◌
pub ◌⊳◌ :
    {t u : Text} {p q : Parser} {i : ParsedInterface} {ps : List ParsedPeer}
    → Runs t p q
    → Reads u q i ps
    → Reads (t ++ u) p i ps
f ⊳ g = record { last = g.last; runs = Runs-append f g.runs; between = g.between }
