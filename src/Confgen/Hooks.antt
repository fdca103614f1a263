-- ===== src/Confgen/Hooks.antt =====
-- The `[Interface]` section of a written configuration, read back by the parser.
use mathlib.Core.List.{append_assoc, append-nil}
use wgrift.Base.{
  ℕ, negsuc, ◌≤◌, ◌≡◌, refl, ◌∙◌, inl, inr, not, List, [], ◌∷◌, ◌++◌, arith, Text, codes, text_eq,
  trim_space, split_at, byte_length, every, is_nil, select, Bool-cases, map, All,
}
use wgrift.Base.Result.{ok}
use wgrift.Base.Trim.{IsPiece, split_at-All}
use wgrift.Confgen.Generate.{key_line, hook_lines, hook_block}
use wgrift.Confgen.Parse.{
  ParsedInterface, Parser, section_interface, on_pair, assign_interface, to_lower,
}
use wgrift.Confgen.Lines.{
  IsClean, IsKey, IsKey-of, IsClean-piece, Runs, Runs-nil, Runs-append, Runs-key_line,
}

-- The commands of a hook: its lines, trimmed, less the empty ones.
abbrev pub commands : Text → List Text
commands hook = select (λ cmd. not (is_nil cmd)) (map trim_space (split_at b'\n' hook))

-- The parser inside the section, with what it has read so far.
abbrev pub in_interface : ParsedInterface → Parser
in_interface i = record {
  config = record { interface = i; peers = [] };
  current = section_interface;
  last_comment = [];
  peer_index = negsuc 0;
}

pub Runs-interface_key :
    (k v : Text) (i j : ParsedInterface)
    → IsKey k
    → IsClean v
    → assign_interface i (to_lower k) v ≡ ok j
    → Runs (key_line k v) (in_interface i) (in_interface j)
Runs-interface_key k v i j key clean e =
    Runs-key_line k v _ _ key clean (unfold on_pair in ground arith)

-- One assignment for each command, in order.
add_all : (ParsedInterface → Text → ParsedInterface) → ParsedInterface → List Text → ParsedInterface
add_all add i [] = i
add_all add i (cmd ∷ cmds) = add_all add (add i cmd) cmds

module _ (k : Text) (key : IsKey k) (add : ParsedInterface → Text → ParsedInterface)
    (assign : (i : ParsedInterface) (v : Text)
      → assign_interface i (to_lower k) v ≡ ok (add i v)) where
  Runs-hook_lines :
      (bound : ℕ) (ls : List Text) (i : ParsedInterface)
      → bound ≤ 65000
      → All (IsPiece b'\n' bound) ls
      → Runs
          (hook_lines k ls)
          (in_interface i)
          (in_interface (add_all add i (select (λ cmd. not (is_nil cmd)) (map trim_space ls))))
  unfolding hook_lines select add_all
  Runs-hook_lines bound [] i le pieces = Runs-nil _
  Runs-hook_lines bound (l ∷ ls) i le (piece, pieces) = elim (Bool-cases (is_nil (trim_space l))) [
    | inl empty ↦ rw empty (Runs-hook_lines bound ls i le pieces)
    | inr full ↦ rw full (
        Runs-append
          (Runs-interface_key k (trim_space l) i _ key (IsClean-piece bound l le piece)
            (assign i (trim_space l)))
          (Runs-hook_lines bound ls _ le pieces))
  ]

  Runs-hook_block :
      (hook : Text) (i : ParsedInterface)
      → byte_length hook ≤ 65000
      → Runs (hook_block k hook) (in_interface i) (in_interface (add_all add i (commands hook)))
  Runs-hook_block [] i le = unfold select split_at trim_space add_all in Runs-nil _
  Runs-hook_block (c ∷ hook) i le =
      Runs-hook_lines (byte_length (c ∷ hook)) (split_at b'\n' (c ∷ hook)) i le
        (split_at-All b'\n' (c ∷ hook))

abbrev add_post_up : ParsedInterface → Text → ParsedInterface
add_post_up i v = record i { post_up = i.post_up ++ v ∷ [] }

abbrev add_post_down : ParsedInterface → Text → ParsedInterface
add_post_down i v = record i { post_down = i.post_down ++ v ∷ [] }

add_all-post_up :
    (i : ParsedInterface) (cmds : List Text)
    → add_all add_post_up i cmds ≡ record i { post_up = i.post_up ++ cmds }
unfolding add_all
add_all-post_up i [] = rw append-nil
add_all-post_up i (cmd ∷ cmds) = add_all-post_up (add_post_up i cmd) cmds ∙ rw append_assoc

add_all-post_down :
    (i : ParsedInterface) (cmds : List Text)
    → add_all add_post_down i cmds ≡ record i { post_down = i.post_down ++ cmds }
unfolding add_all
add_all-post_down i [] = rw append-nil
add_all-post_down i (cmd ∷ cmds) = add_all-post_down (add_post_down i cmd) cmds ∙ rw append_assoc

pub Runs-post_up :
    (hook : Text) (i : ParsedInterface)
    → byte_length hook ≤ 65000
    → Runs
        (hook_block (codes "PostUp") hook)
        (in_interface i)
        (in_interface (record i { post_up = i.post_up ++ commands hook }))
Runs-post_up hook i le = rw (← add_all-post_up i (commands hook)) (
    Runs-hook_block (codes "PostUp") (IsKey-of _ (unfold every byte_length in refl)) add_post_up
      (unfold assign_interface to_lower text_eq in λ i v. refl) hook i le)

pub Runs-post_down :
    (hook : Text) (i : ParsedInterface)
    → byte_length hook ≤ 65000
    → Runs
        (hook_block (codes "PostDown") hook)
        (in_interface i)
        (in_interface (record i { post_down = i.post_down ++ commands hook }))
Runs-post_down hook i le = rw (← add_all-post_down i (commands hook)) (
    Runs-hook_block (codes "PostDown") (IsKey-of _ (unfold every byte_length in refl)) add_post_down
      (unfold assign_interface to_lower text_eq in λ i v. refl) hook i le)
