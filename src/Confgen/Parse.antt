-- ===== src/Confgen/Parse.antt =====
-- internal/confgen/parse.go: `ParseConfig` as a state machine over the lines of the input. The
-- parser keeps the section, the last comment and the index of the open peer, as the loop does.
use Prim.Native.Nat.{ℕ}
use wgrift.Base.{
  Bool, ◌+◌, ◌-◌, ℤ, pos, negsuc, atoi, List, [], ◌∷◌, ◌++◌, map, Option, none, some, ◌&&◌, Text,
  codes, text_eq, trim_space, split_at, byte_length, drop_cr, is_nil, length, get_elem?, set, ◌==◌,
  leb, if◌then◌else◌,
}
use wgrift.Base.Result.{Result, ok, err, ◌>>=◌}

pub record ParsedInterface : Type 0 where
  pub private_key : Text
  pub address : Text
  pub listen_port : ℤ
  pub dns : Text
  pub mtu : ℤ
  pub post_up : List Text
  pub post_down : List Text

pub record ParsedPeer : Type 0 where
  pub name : Text
  pub public_key : Text
  pub preshared_key : Text
  pub allowed_ips : Text
  pub endpoint : Text
  pub persistent_keepalive : ℤ

pub record ParsedConfig : Type 0 where
  pub interface : ParsedInterface
  pub peers : List ParsedPeer

pub data Section : Type 0 where
  section_none section_interface section_peer : Section

pub data ParseError : Type 0 where
  invalid_listen_port invalid_mtu invalid_persistent_keepalive : Text → ParseError
  reading_config missing_private_key : ParseError
  -- a slice index out of range, which panics
  index_out_of_range : ParseError

pub record Parser : Type 0 where
  pub config : ParsedConfig
  pub current : Section
  pub last_comment : Text
  pub peer_index : ℤ

abbrev pub empty_interface : ParsedInterface
empty_interface = record {
  private_key = [];
  address = [];
  listen_port = pos 0;
  dns = [];
  mtu = pos 0;
  post_up = [];
  post_down = [];
}

abbrev pub empty_peer : ParsedPeer
empty_peer = record {
  name = [];
  public_key = [];
  preshared_key = [];
  allowed_ips = [];
  endpoint = [];
  persistent_keepalive = pos 0;
}

abbrev pub initial : Parser
initial = record {
  config = record { interface = empty_interface; peers = [] };
  current = section_none;
  last_comment = [];
  peer_index = negsuc 0;
}

-- `strings.EqualFold` against a lower-case ASCII text with no `k` and no `s`, the letters that
-- have folds outside ASCII.
abbrev fold_rune : ℕ → ℕ
fold_rune c = if leb b'A' c && leb c b'Z' then c + 32 else c

unfoldable pub equal_fold : Text → Text → Bool
equal_fold s t = text_eq (map fold_rune s) t

-- `strings.ToLower` as far as its result can be ASCII: besides `A` to `Z`, the Kelvin sign and the
-- dotted capital I have ASCII lower-case forms. Other capitals are left alone: their lower-case
-- forms are not ASCII either, and no key that the parser knows.
abbrev lower_rune : ℕ → ℕ
lower_rune c =
    if leb b'A' c && leb c b'Z'
    then c + 32
    else if c == 0x212a
    then b'k'
    else if c == 0x130
    then b'i'
    else c

unfoldable pub to_lower : Text → Text
to_lower s = map lower_rune s

abbrev before_with : ℕ → Option (Text × Text) → Option (Text × Text)
before_with c none = none
before_with c (some (a, b)) = some (c ∷ a, b)

-- The text before and after the first `sep`.
unfoldable pub cut_at : ℕ → Text → Option (Text × Text)
cut_at sep [] = none
cut_at sep (c ∷ s) =
    let rest = before_with c (cut_at sep s) in if c == sep then some ([], s) else rest

keep_key : Text → Text → Option (Text × Text)
keep_key [] value = none
keep_key (c ∷ key) value = some (c ∷ key, value)

unfoldable pub parse_key_value : Text → Option (Text × Text)
unfolding cut_at keep_key
parse_key_value line = elim (cut_at b'=' line) [
  | none ↦ none
  | some (key, value) ↦ keep_key (trim_space key) (trim_space value)
]

-- A numeric value: the assignment, or the key's error.
abbrev with_int : {A : Type 0} → Text → ParseError → (ℤ → A) → Result ParseError A
with_int value e f = elim (atoi value) [ none ↦ err e | some n ↦ ok (f n) ]

unfoldable pub assign_interface : ParsedInterface → Text → Text → Result ParseError ParsedInterface
assign_interface i key value =
    if text_eq key (codes "privatekey")
    then ok (record i { private_key = value })
    else if text_eq key (codes "address")
    then ok (record i { address = value })
    else if text_eq key (codes "listenport")
    then with_int value (invalid_listen_port value) (λ n. record i { listen_port = n })
    else if text_eq key (codes "dns")
    then ok (record i { dns = value })
    else if text_eq key (codes "mtu")
    then with_int value (invalid_mtu value) (λ n. record i { mtu = n })
    else if text_eq key (codes "postup")
    then ok (record i { post_up = i.post_up ++ value ∷ [] })
    else if text_eq key (codes "postdown")
    then ok (record i { post_down = i.post_down ++ value ∷ [] })
    else ok i

unfoldable pub assign_peer : ParsedPeer → Text → Text → Result ParseError ParsedPeer
assign_peer p key value =
    if text_eq key (codes "publickey")
    then ok (record p { public_key = value })
    else if text_eq key (codes "presharedkey")
    then ok (record p { preshared_key = value })
    else if text_eq key (codes "allowedips")
    then ok (record p { allowed_ips = value })
    else if text_eq key (codes "endpoint")
    then ok (record p { endpoint = value })
    else if text_eq key (codes "persistentkeepalive")
    then with_int value (invalid_persistent_keepalive value)
        (λ n. record p { persistent_keepalive = n })
    else ok p

abbrev with_peers : Parser → List ParsedPeer → Parser
with_peers p ps = record p { config = record p.config { peers = ps } }

abbrev with_interface : Parser → ParsedInterface → Parser
with_interface p i = record p { config = record p.config { interface = i } }

-- `cfg.Peers[peerIndex]` is read and written by `f`. The guard `peerIndex >= 0` leaves the state
-- alone; an index past the end panics.
unfoldable pub update_peer :
    Parser → ℤ → (ParsedPeer → Result ParseError ParsedPeer) → Result ParseError Parser
update_peer p (negsuc n) f = ok p
update_peer p (pos i) f = elim (get_elem? p.config.peers i) [
  | none ↦ err index_out_of_range
  | some peer ↦ (do peer' ← f peer; ok (with_peers p (set p.config.peers i peer')))
]

-- Inside a peer that has no name yet, a comment names it.
unfoldable pub name_if_unnamed : Text → ParsedPeer → Result ParseError ParsedPeer
name_if_unnamed comment peer =
    ok (if is_nil peer.name then record peer { name = comment } else peer)

unfoldable pub on_comment : Section → Parser → Text → Result ParseError Parser
unfolding update_peer name_if_unnamed
on_comment section_peer p comment =
    update_peer (record p { last_comment = comment }) p.peer_index (name_if_unnamed comment)
on_comment _ p comment = ok (record p { last_comment = comment })

-- A `[Peer]` header opens a peer, which the last comment names.
unfoldable pub open_peer : Parser → Parser
open_peer p =
    let ps = p.config.peers ++ record empty_peer { name = p.last_comment } ∷ [] in
    record p {
      config = record p.config { peers = ps };
      current = section_peer;
      last_comment = [];
      peer_index = pos (length ps - 1);
    }

unfoldable pub on_pair : Section → Parser → Text → Text → Result ParseError Parser
unfolding update_peer
on_pair section_none p key value = ok p
on_pair section_interface p key value = do
  i ← assign_interface p.config.interface (to_lower key) value
  ok (with_interface p i)
on_pair section_peer p key value =
    update_peer p p.peer_index (λ peer. assign_peer peer (to_lower key) value)

-- A line that is no pair is skipped.
unfoldable pub on_key_value : Section → Parser → Option (Text × Text) → Result ParseError Parser
on_key_value current p none = ok p
on_key_value current p (some (key, value)) = on_pair current p key value

-- One line of the loop, after `strings.TrimSpace`.
unfoldable pub parse_line : Parser → Text → Result ParseError Parser
unfolding on_comment open_peer on_key_value on_pair
parse_line p [] = ok p
parse_line p (c ∷ s) =
    if c == b'#'
    then on_comment p.current p (trim_space s)
    else if equal_fold (c ∷ s) (codes "[interface]")
    then ok (record p { current = section_interface; last_comment = [] })
    else if equal_fold (c ∷ s) (codes "[peer]")
    then ok (open_peer p)
    else let q = record p { last_comment = [] } in
      on_key_value p.current q (parse_key_value (c ∷ s))

-- The pieces between newlines, less an empty last one: no line stands behind the last newline.
unfoldable pub without_empty_last : List Text → List Text
without_empty_last [] = []
without_empty_last ([] ∷ []) = []
without_empty_last ((c ∷ s) ∷ []) = (c ∷ s) ∷ []
without_empty_last (s ∷ t ∷ rest) = s ∷ without_empty_last (t ∷ rest)

unfoldable pub scan_lines : Text → List Text
unfolding without_empty_last
scan_lines input = without_empty_last (split_at b'\n' input)

-- `bufio.MaxScanTokenSize`: a line of this many bytes stops the scanner with an error.
abbrev pub max_line : ℕ
max_line = 65536

unfoldable pub parse_lines : Parser → List Text → Result ParseError Parser
parse_lines p [] = ok p
parse_lines p (raw ∷ rest) =
    if leb max_line (byte_length raw)
    then err reading_config
    else do q ← parse_line p (trim_space (drop_cr raw)); parse_lines q rest

unfoldable pub require_private_key : ParsedConfig → Result ParseError ParsedConfig
require_private_key config =
    if is_nil config.interface.private_key then err missing_private_key else ok config

unfoldable pub parse_config : Text → Result ParseError ParsedConfig
parse_config input = do p ← parse_lines initial (scan_lines input); require_private_key p.config
