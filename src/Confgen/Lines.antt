-- ===== src/Confgen/Lines.antt =====
-- The parser over text that the writers put together: what one written line does to the state of
-- the parser, whatever text follows.
mod Clean
use mathlib.Core.List.{append_assoc}
use wgrift.Base.{
  ℤ, is_positive, print_int, InRange, is_plain, every-print_int, length-print_int, length, ℕ, ◌≤◌,
  ◌≡◌, ◌≢◌, refl, ap, ◌∙◌, subst, inl, inr, Bool, true, not, false, ◌&&◌, ◌||◌, List, [], ◌∷◌, ◌++◌,
  some, arith, Text, codes, text_eq, is_space, trim_left, trim_right, trim_space, split_at,
  byte_length, every, every-append, is_nil, leb, Bool-cases,
}
use wgrift.Base.Result.{Result, ok}
use wgrift.Base.Trim.{
  trim_right-append, trim_space-drop_cr, byte_length-append, byte_length-trim_space,
  trim_left-trim_space, trim_right-trim_space, every-trim_space, IsPiece, differs_from,
  split_at-ne-nil, split_at-append,
}
pub use wgrift.Confgen.Lines.Clean.{
  IsClean, IsClean-of, is_letter, IsKey, IsKey-of, IsClean-print_int, IsClean-piece,
}
use wgrift.Confgen.Generate.{key_line, key_line_unless_empty, key_line_if_positive}
use wgrift.Confgen.Parse.{
  Parser, ParseError, section_interface, open_peer, on_comment, parse_line, parse_lines, scan_lines,
  without_empty_last, on_pair, cut_at, parse_key_value, equal_fold,
}

abbrev pub parse_text : Parser → Text → Result ParseError Parser
parse_text p s = parse_lines p (scan_lines s)

-- The parser takes the text `t` from state `p` to state `q`, whatever follows it.
pub record Runs (t : Text) (p q : Parser) : Type 0 where
  pub apply : (rest : Text) → parse_text p (t ++ rest) ≡ parse_text q rest

pub Runs-nil : (p : Parser) → Runs [] p p
Runs-nil p = record { apply = λ rest. refl }

pub Runs-append : {t u : Text} {p q r : Parser} → Runs t p q → Runs u q r → Runs (t ++ u) p r
Runs-append {t} {u} f g = record {
  apply = λ rest. rw append_assoc (f.apply (u ++ rest) ∙ g.apply rest);
}

without_empty_last-cons :
    (l : Text) (ls : List Text) → ls ≢ [] → without_empty_last (l ∷ ls) ≡ l ∷ without_empty_last ls
unfolding without_empty_last
without_empty_last-cons l [] h = absurd (h refl)
without_empty_last-cons [] (t ∷ ls) h = refl
without_empty_last-cons (c ∷ l) (t ∷ ls) h = refl

scan_lines-append :
    (l rest : Text)
    → every (differs_from b'\n') l ≡ true
    → scan_lines (l ++ (b'\n' ∷ rest)) ≡ l ∷ scan_lines rest
unfolding scan_lines
scan_lines-append l rest h =
    ap without_empty_last (split_at-append b'\n' l rest h)
    ∙ without_empty_last-cons l (split_at b'\n' rest) (split_at-ne-nil b'\n' rest)

-- One line, by what `parse_line` makes of it.
pub Runs-line :
    (l : Text) (p q : Parser)
    → every (differs_from b'\n') l ≡ true
    → byte_length l ≤ 65535
    → parse_line p (trim_space l) ≡ ok q
    → Runs (l ++ codes "\n") p q
unfolding parse_lines
Runs-line l p q h len e = record {
  apply = λ rest.
      rw append_assoc
        (ap (parse_lines p) (scan_lines-append l rest h) ∙ ground (arith, trim_space-drop_cr l));
}

-- The text of a key, an equals sign and a value, as it is left by trimming.
abbrev value_tail : Text → Text
value_tail [] = []
value_tail (c ∷ v) = b' ' ∷ c ∷ v

trim_right-line :
    (k v : Text)
    → trim_right v ≡ v
    → trim_right (k ++ (codes " = " ++ v)) ≡ k ++ (codes " =" ++ value_tail v)
trim_right-line k [] h = trim_right-append k (codes " = ") (unfold trim_right is_space in refl)
trim_right-line k (c ∷ v) h =
    trim_right-append k (codes " = " ++ (c ∷ v)) (unfold trim_right in ground arith)

trim_left-letters :
    (k s : Text) → every is_letter k ≡ true → is_nil k ≡ false → trim_left (k ++ s) ≡ k ++ s
unfolding trim_left every is_space
trim_left-letters [] s h n = cc
trim_left-letters (c ∷ k) s h n = ground arith

trim_right-letters : (k : Text) → every is_letter k ≡ true → trim_right (k ++ codes " ") ≡ k
unfolding trim_right every is_space
trim_right-letters [] h = refl
trim_right-letters (c ∷ []) h = ground arith
trim_right-letters (c ∷ d ∷ k) h = ground (arith, trim_right-letters (d ∷ k))

cut_at-letters :
    (k s : Text)
    → every is_letter k ≡ true
    → cut_at b'=' (k ++ (codes " =" ++ s)) ≡ some (k ++ codes " ", s)
unfolding cut_at every
cut_at-letters [] s h = refl
cut_at-letters (c ∷ k) s h = ground (arith, cut_at-letters k s)

trim_space-value_tail : (v : Text) → IsClean v → trim_space (value_tail v) ≡ v
unfolding trim_space is_space
trim_space-value_tail [] clean = refl
trim_space-value_tail (c ∷ v) clean = ap trim_right clean.trimmed_left ∙ clean.trimmed_right

module _ (k v : Text) (key : IsKey k) (clean : IsClean v) where
  trim_space-line : trim_space (k ++ (codes " = " ++ v)) ≡ k ++ (codes " =" ++ value_tail v)
  unfolding trim_space
  trim_space-line =
      ap trim_right (trim_left-letters k (codes " = " ++ v) key.letters key.nonempty)
      ∙ trim_right-line k v clean.trimmed_right

  trim_space-key : trim_space (k ++ codes " ") ≡ k
  unfolding trim_space
  trim_space-key =
      ap trim_right (trim_left-letters k (codes " ") key.letters key.nonempty)
      ∙ trim_right-letters k key.letters

  parse_key_value-line : parse_key_value (k ++ (codes " =" ++ value_tail v)) ≡ some (k, v)
  unfolding parse_key_value
  parse_key_value-line = ground (
    arith,
    key.nonempty,
    cut_at-letters k (value_tail v) key.letters,
    trim_space-key,
    trim_space-value_tail v clean,
  )

-- A line that starts with a letter is a pair, if it holds one.
parse_line-letter :
    (p : Parser) (l k v : Text)
    → (c : ℕ) (s : Text) → l ≡ c ∷ s
    → is_letter c ≡ true
    → parse_key_value l ≡ some (k, v)
    → parse_line p l ≡ on_pair p.current (record p { last_comment = [] }) k v
unfolding parse_line equal_fold text_eq
parse_line-letter p l k v c s e h kv = rw e (ground (arith, rw e at kv))

every-letters : (k : Text) → every is_letter k ≡ true → every (differs_from b'\n') k ≡ true
unfolding every
every-letters [] h = refl
every-letters (c ∷ k) h = ground (arith, every-letters k)

every-line :
    (k v : Text) → IsKey k → IsClean v → every (differs_from b'\n') (k ++ (codes " = " ++ v)) ≡ true
every-line k v key clean =
    rw every-append (unfold every in ground (arith, every-letters k key.letters, clean.one_line))

byte_length-line :
    (k v : Text) → IsKey k → IsClean v → byte_length (k ++ (codes " = " ++ v)) ≤ 65535
byte_length-line k v key clean =
    rw byte_length-append (unfold byte_length in omega (arith, key.short, clean.fits))

-- The parser reads the line of a key back as that key and its value.
pub Runs-key_line :
    (k v : Text) (p q : Parser)
    → IsKey k
    → IsClean v
    → on_pair p.current (record p { last_comment = [] }) k v ≡ ok q
    → Runs (key_line k v) p q
Runs-key_line [] v p q key clean e = cc (key.nonempty)
Runs-key_line (c ∷ k) v p q key clean e =
    subst (λ t. Runs t p q) (append_assoc (c ∷ k) (codes " = " ++ v) (codes "\n"))
      (Runs-line ((c ∷ k) ++ (codes " = " ++ v)) p q (every-line (c ∷ k) v key clean)
        (byte_length-line (c ∷ k) v key clean)
        (ap (parse_line p) (trim_space-line (c ∷ k) v key clean)
          ∙ parse_line-letter p ((c ∷ k) ++ (codes " =" ++ value_tail v)) (c ∷ k) v c
              (k ++ (codes " =" ++ value_tail v)) refl (unfold every in ground (arith, key.letters))
              (parse_key_value-line (c ∷ k) v key clean)
          ∙ e))

-- A line that is left out where its value is empty.
pub Runs-unless_empty :
    (k v : Text) (p q : Parser)
    → (v ≡ [] → p ≡ q)
    → Runs (key_line k v) p q
    → Runs (key_line_unless_empty k v) p q
Runs-unless_empty k [] p q same run = rw (← same refl) (Runs-nil p)
Runs-unless_empty k (c ∷ v) p q same run = run

pub Runs-if_positive :
    (k : Text) (i : ℤ) (p q : Parser)
    → (is_positive i ≡ false → p ≡ q)
    → (is_positive i ≡ true → Runs (key_line k (print_int i)) p q)
    → Runs (key_line_if_positive k i) p q
Runs-if_positive k i p q same run = elim (Bool-cases (is_positive i)) [
  | inl yes' ↦ rw yes' (run yes')
  | inr no' ↦ rw no' (rw (← same no') (Runs-nil p))
]

-- A blank line changes nothing.
pub Runs-blank : (p : Parser) → Runs (codes "\n") p p
Runs-blank p =
    Runs-line [] p p (unfold every in refl) (unfold byte_length in omega arith)
      (unfold parse_line trim_space in refl)

pub Runs-interface_header :
    (p : Parser)
    → Runs (codes "[Interface]\n") p (record p { current = section_interface; last_comment = [] })
Runs-interface_header p =
    Runs-line (codes "[Interface]") p _ (unfold every in refl) (unfold byte_length in omega arith)
      (unfold parse_line trim_space equal_fold text_eq in refl)

pub Runs-peer_header : (p : Parser) → Runs (codes "[Peer]\n") p (open_peer p)
Runs-peer_header p =
    Runs-line (codes "[Peer]") p _ (unfold every in refl) (unfold byte_length in omega arith)
      (unfold parse_line trim_space equal_fold text_eq in refl)

trim_space-comment :
    (name : Text)
    → IsClean name
    → is_nil name ≡ false
    → trim_space (codes "# " ++ name) ≡ codes "# " ++ name
unfolding trim_space trim_right is_space
trim_space-comment [] clean h = cc
trim_space-comment (c ∷ name) clean h = ground (arith, clean.trimmed_right)

trim_space-space : (name : Text) → IsClean name → trim_space (b' ' ∷ name) ≡ name
unfolding trim_space is_space
trim_space-space name clean = ap trim_right clean.trimmed_left ∙ clean.trimmed_right

-- The line that names a peer is a comment for the parser.
pub Runs-name_comment :
    (name : Text) (p q : Parser)
    → IsClean name
    → is_nil name ≡ false
    → on_comment p.current p name ≡ ok q
    → Runs (codes "# " ++ (name ++ codes "\n")) p q
Runs-name_comment name p q clean h e =
    Runs-line (codes "# " ++ name) p q (unfold every in clean.one_line)
      (unfold byte_length in omega (arith, clean.fits))
      (ap (parse_line p) (trim_space-comment name clean h)
        ∙ unfold parse_line in (ap (on_comment p.current p) (trim_space-space name clean) ∙ e))
