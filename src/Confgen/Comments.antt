-- ===== src/Confgen/Comments.antt =====
-- Comments as peer names.
use wgrift.Base.{◌≡◌, List, [], ◌∷◌, ◌++◌, arith, Text, codes, text_eq, trim_space, length-append}
use wgrift.Base.Result.{ok, ◌>>=◌}
use wgrift.Confgen.Parse.{
  ParsedInterface, ParsedPeer, empty_peer, on_comment, open_peer, equal_fold, parse_line,
}
use wgrift.Confgen.Peers.{in_peer, get_elem?-concat, set-concat}

-- A comment behind a peer that has no name, and in front of the next `[Peer]` header, becomes the
-- name of both peers.
pub comment_names_two_peers :
    (i : ParsedInterface) (ps : List ParsedPeer) (before : Text) (x : ParsedPeer) (s : Text)
    → x.name ≡ []
    → (parse_line (in_peer i ps before x) (b'#' ∷ s) >>= λ q. parse_line q (codes "[Peer]"))
      ≡ ok (
          in_peer i
            (ps ++ record x { name = trim_space s } ∷ [])
            []
            (record empty_peer { name = trim_space s }))
unfolding parse_line on_comment open_peer
comment_names_two_peers i ps before x s unnamed =
    let y = record x { name = trim_space s } in
    unfold equal_fold text_eq in
    ground (
      arith,
      get_elem?-concat ps x,
      set-concat ps x y,
      length-append (ps ++ y ∷ []) (record empty_peer { name = trim_space s } ∷ []),
    )
