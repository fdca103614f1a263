-- ===== src/Confgen/Safety.antt =====
-- The parser's index of the open peer is that of the last peer, so no access to the slice of peers
-- is out of range.
use wgrift.Base.{
  ℕ, zero, suc, ℤ, pos, negsuc, ◌<◌, ◌≡◌, ◌≢◌, refl, List, [], ◌∷◌, Option, none, some, arith, Text,
  trim_space, drop_cr, byte_length, leb, length, length-append, get_elem?, set, Bool-cases,
  Option-cases, inl, inr,
}
use wgrift.Base.Result.{Result, ok, err, ◌>>=◌}
use wgrift.Confgen.Parse.{
  ParsedInterface, ParsedPeer, Parser, ParseError, Section, section_none, section_interface,
  section_peer, index_out_of_range, initial, empty_peer, on_comment, open_peer, on_pair,
  on_key_value, parse_key_value, assign_interface, assign_peer, parse_line, parse_lines,
  parse_config, require_private_key, name_if_unnamed, update_peer, to_lower, max_line, scan_lines,
}

-- `-1` while there is no peer, and afterwards the index of the last one.
abbrev IsLastIndex : ℤ → ℕ → Type 0
IsLastIndex (pos i) n = suc i ≡ n
IsLastIndex (negsuc i) n = n ≡ 0

abbrev IsIndexed : Parser → Type 0
IsIndexed p = IsLastIndex p.peer_index (length p.config.peers)

abbrev Harmless : {A : Type 0} → Result ParseError A → Type 0
Harmless (ok a) = Unit
Harmless (err e) = e ≢ index_out_of_range

-- An indexed parser, or an error of the input.
abbrev Safe : Result ParseError Parser → Type 0
Safe (ok p) = IsIndexed p
Safe (err e) = e ≢ index_out_of_range

module _ {ℓ} {A : Type ℓ} where
  length-set : (xs : List A) (i : ℕ) (x : A) → length (set xs i x) ≡ length xs
  length-set [] i x = refl
  length-set (y ∷ xs) zero x = refl
  length-set (y ∷ xs) (suc i) x = ground (arith, length-set xs i x)

  get_elem?-ne-none : (xs : List A) (i : ℕ) → i < length xs → get_elem? xs i ≢ none
  get_elem?-ne-none [] i h = elim h [ ]
  get_elem?-ne-none (y ∷ xs) zero h = λ e. cc
  get_elem?-ne-none (y ∷ xs) (suc i) h = get_elem?-ne-none xs i (omega arith)

update_peer-Safe :
    (p : Parser) (i : ℤ) (f : ParsedPeer → Result ParseError ParsedPeer)
    → IsLastIndex i (length p.config.peers)
    → IsIndexed p
    → ((x : ParsedPeer) → Harmless (f x))
    → Safe (update_peer p i f)
unfolding update_peer
update_peer-Safe p (negsuc n) f h hp hf = hp
update_peer-Safe p (pos i) f h hp hf = elim (Option-cases (get_elem? p.config.peers i)) [
  | inl missing ↦ absurd (get_elem?-ne-none p.config.peers i (omega arith) missing)
  | inr (x, found) ↦ rw (found, Safe, update_peer) (go (f x) (hf x))
]
  where
    go :
        (r : Result ParseError ParsedPeer)
        → Harmless r
        → Safe (
            r >>= λ x.
            ok (record p { config = record p.config { peers = set p.config.peers i x } }))
    go (ok x) hr = rw length-set hp
    go (err e) hr = hr

name_if_unnamed-Harmless : (comment : Text) (x : ParsedPeer) → Harmless (name_if_unnamed comment x)
unfolding name_if_unnamed
name_if_unnamed-Harmless comment x = tt

assign_peer-Harmless : (x : ParsedPeer) (key value : Text) → Harmless (assign_peer x key value)
unfolding assign_peer
assign_peer-Harmless x key value = ground arith

assign_interface-Harmless :
    (i : ParsedInterface) (key value : Text) → Harmless (assign_interface i key value)
unfolding assign_interface
assign_interface-Harmless i key value = ground arith

on_comment-Safe :
    (s : Section) (p : Parser) (comment : Text) → IsIndexed p → Safe (on_comment s p comment)
unfolding on_comment
on_comment-Safe section_peer p comment h =
    update_peer-Safe (record p { last_comment = comment }) p.peer_index (name_if_unnamed comment) h
      h (name_if_unnamed-Harmless comment)
on_comment-Safe section_none p comment h = h
on_comment-Safe section_interface p comment h = h

on_pair-Safe :
    (s : Section) (p : Parser) (key value : Text) → IsIndexed p → Safe (on_pair s p key value)
unfolding on_pair
on_pair-Safe section_none p key value h = h
on_pair-Safe section_interface p key value h =
    ground (arith, assign_interface-Harmless p.config.interface (to_lower key) value)
on_pair-Safe section_peer p key value h =
    update_peer-Safe p p.peer_index (λ x. assign_peer x (to_lower key) value) h h
      (λ x. assign_peer-Harmless x (to_lower key) value)

open_peer-IsIndexed : (p : Parser) → IsIndexed (open_peer p)
unfolding open_peer
open_peer-IsIndexed p =
    omega (arith, length-append p.config.peers (record empty_peer { name = p.last_comment } ∷ []))

on_key_value-Safe :
    (s : Section) (p : Parser) (kv : Option (Text × Text))
    → IsIndexed p
    → Safe (on_key_value s p kv)
unfolding on_key_value
on_key_value-Safe s p none h = h
on_key_value-Safe s p (some (key, value)) h = on_pair-Safe s p key value h

parse_line-Safe : (p : Parser) (line : Text) → IsIndexed p → Safe (parse_line p line)
unfolding parse_line
parse_line-Safe p [] h = h
parse_line-Safe p (c ∷ s) h =
    let q = record p { last_comment = [] } in
    ground (
      arith,
      on_comment-Safe p.current p (trim_space s) h,
      open_peer-IsIndexed p,
      on_key_value-Safe p.current q (parse_key_value (c ∷ s)) h,
    )

parse_lines-Safe : (ls : List Text) (p : Parser) → IsIndexed p → Safe (parse_lines p ls)
unfolding parse_lines
parse_lines-Safe [] p h = h
parse_lines-Safe (raw ∷ ls) p h = elim (Bool-cases (leb max_line (byte_length raw))) [
  | inl long ↦ rw (long, Safe) (λ e. cc)
  | inr short ↦
      rw (short, Safe)
        (go (parse_line p (trim_space (drop_cr raw)))
          (parse_line-Safe p (trim_space (drop_cr raw)) h) (λ q. parse_lines-Safe ls q))
]
  where
    go :
        (r : Result ParseError Parser)
        → Safe r
        → ((q : Parser) → IsIndexed q → Safe (parse_lines q ls))
        → Safe (r >>= λ q. parse_lines q ls)
    go (ok q) hq rest = rest q hq
    go (err e) he rest = he

-- Whatever the input, `ParseConfig` indexes no slice out of range.
pub parse_config-ne-index_out_of_range :
    (input : Text) → parse_config input ≢ err index_out_of_range
unfolding parse_config require_private_key
parse_config-ne-index_out_of_range input e =
    go (parse_lines initial (scan_lines input)) (parse_lines-Safe (scan_lines input) initial refl) e
  where
    go :
        (r : Result ParseError Parser)
        → Safe r
        → (r >>= λ p. require_private_key p.config) ≢ err index_out_of_range
    go (ok p) h = ground arith
    go (err e) h = ground arith
