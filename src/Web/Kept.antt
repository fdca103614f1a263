-- ===== src/Web/Kept.antt =====
-- What the texts of the web front end keep of their inputs.
use wgrift.Base.{
  if◌then◌else◌, print_nat-ne-nil, sym, ◌==◌, join_with, All, List, codes, ◌≤◌, ◌+◌, ◌*◌, ap, ◌∙◌,
  ◌%◌, ℕ, suc, Bool, true, false, none, some, [], ◌∷◌, ◌++◌, Text, trim_space, print_nat, print_int,
  length, ◌==◌, ℤ, pos, negsuc, ◌≡◌, refl, arith, ◌⊎◌, inl, inr, Bool-cases, leb, Option-cases,
}
use mathlib.Core.List.{append-nil}
use wgrift.Net.{parse_ip, parse_cidr, Address}
use wgrift.Web.Texts.{
  unless_bare, normalize_cidr, normalize_trimmed, with_prefix, format_number, commas,
}

abbrev joined : List Text → Text
joined [] = []
joined (piece ∷ pieces) = piece ++ joined pieces

-- The shown text is the plain one cut into pieces with commas in between: three characters each,
-- but one to three in the first.
pub record IsGrouped (shown plain : Text) : Type 0 where
  pub head : Text
  pub rest : List Text
  pub is_shown : shown ≡ join_with (codes ",") (head ∷ rest)
  pub is_plain : plain ≡ joined (head ∷ rest)
  pub at_least_one : 1 ≤ length head
  pub at_most_three : length head ≤ 3
  pub threes : All (λ piece. length piece ≡ 3) rest
  pub counted : length plain ≡ length head + 3 * length rest

join_with-cons :
    (c : ℕ) (head : Text) (rest : List Text)
    → join_with (codes ",") ((c ∷ head) ∷ rest) ≡ c ∷ join_with (codes ",") (head ∷ rest)
unfolding join_with
join_with-cons c head [] = refl
join_with-cons c head (piece ∷ rest) = refl

module _ (c : ℕ) {shown plain : Text} (g : IsGrouped shown plain) where
  in_group : length g.head ≤ 2 → IsGrouped (c ∷ shown) (c ∷ plain)
  in_group h = record {
    head = c ∷ g.head;
    rest = g.rest;
    is_shown = ap (λ t. c ∷ t) g.is_shown ∙ sym (join_with-cons c g.head g.rest);
    is_plain = ap (λ t. c ∷ t) g.is_plain;
    at_least_one = omega arith;
    at_most_three = omega (arith, h);
    threes = g.threes;
    counted = omega (arith, g.counted);
  }

  new_group : length g.head ≡ 3 → IsGrouped (c ∷ b',' ∷ shown) (c ∷ plain)
  unfolding join_with
  new_group h = record {
    head = c ∷ [];
    rest = g.head ∷ g.rest;
    is_shown = ap (λ t. c ∷ b',' ∷ t) g.is_shown;
    is_plain = ap (λ t. c ∷ t) g.is_plain;
    at_least_one = omega arith;
    at_most_three = omega arith;
    threes = (h, g.threes);
    counted = omega (arith, g.counted, h);
  }

-- Three characters or more stand behind a comma exactly if they fill their groups.
commas-IsGrouped : (c : ℕ) (s : Text) → IsGrouped (commas true (c ∷ s)) (c ∷ s)
unfolding commas join_with
commas-IsGrouped c [] = record {
  head = c ∷ [];
  rest = [];
  is_shown = refl;
  is_plain = refl;
  at_least_one = omega arith;
  at_most_three = omega arith;
  threes = tt;
  counted = refl;
}
commas-IsGrouped c (d ∷ s) =
    let g = commas-IsGrouped d s in
    elim (Bool-cases (suc (length s) % 3 == 0)) [
      | inl full ↦
          rw (commas, full)
            (new_group c g (ground (arith, g.counted, g.at_least_one, g.at_most_three, full)))
      | inr open' ↦
          rw (commas, open')
            (in_group c g (ground (arith, g.counted, g.at_least_one, g.at_most_three, open')))
    ]

one_group : (s : Text) → 1 ≤ length s → length s ≤ 3 → IsGrouped s s
unfolding join_with
one_group s h h' = record {
  head = s;
  rest = [];
  is_shown = refl;
  is_plain = sym (append-nil s);
  at_least_one = h;
  at_most_three = h';
  threes = tt;
  counted = omega arith;
}

format_text-IsGrouped :
    (s : Text) → 1 ≤ length s → IsGrouped (if leb (length s) 3 then s else commas true s) s
format_text-IsGrouped [] h = elim h [ ]
format_text-IsGrouped (c ∷ s) h = elim (Bool-cases (leb (length (c ∷ s)) 3)) [
  | inl short ↦ rw short (one_group (c ∷ s) h (ground arith))
  | inr long ↦ rw long (commas-IsGrouped c s)
]

length-print_nat-positive : (n : ℕ) → 1 ≤ length (print_nat n)
length-print_nat-positive n = ground (arith, print_nat-ne-nil n)

-- A formatted number is its decimal text with a comma in front of each three characters that end a
-- group: cut at the commas, every piece has three characters but the first, which has one to three,
-- and together they are the decimal text. A minus sign counts as a character.
pub format_number-IsGrouped : (n : ℤ) → IsGrouped (format_number n) (print_int n)
unfolding format_number print_int
format_number-IsGrouped (pos n) = format_text-IsGrouped (print_nat n) (length-print_nat-positive n)
format_number-IsGrouped (negsuc n) = format_text-IsGrouped (b'-' ∷ print_nat (suc n)) (omega arith)

-- What a form keeps is empty or a CIDR; what it refuses is the trimmed input, which is no CIDR.
abbrev pub IsNormal : Text → Text × Bool → Type 0
IsNormal s (kept, true) = (kept ≡ []) ⊎ ((ip : Address) × (parse_cidr kept ≡ some ip))
IsNormal s (kept, false) = (kept ≡ s) × (parse_cidr kept ≡ none)

with_prefix-IsNormal :
    (s default_prefix : Text) → parse_cidr s ≡ none → IsNormal s (with_prefix s default_prefix)
with_prefix-IsNormal s default_prefix h = elim (Option-cases (parse_cidr (s ++ default_prefix))) [
  | inl bad ↦ rw (with_prefix, bad) (refl, h)
  | inr (ip, good) ↦ rw (with_prefix, good) (inr (ip, good))
]

normalize_trimmed-IsNormal :
    (s default_prefix : Text) → IsNormal s (normalize_trimmed s default_prefix)
normalize_trimmed-IsNormal [] default_prefix = inl refl
normalize_trimmed-IsNormal (c ∷ s) default_prefix = elim (Option-cases (parse_cidr (c ∷ s))) [
  | inr (ip, good) ↦ rw (normalize_trimmed, good) (inr (ip, good))
  | inl bad ↦
      rw (normalize_trimmed, bad)
        (elim (Option-cases (parse_ip (c ∷ s))) [
          | inl no_ip ↦ rw (unless_bare, no_ip) (refl, bad)
          | inr (ip, bare) ↦
              rw (unless_bare, bare) (with_prefix-IsNormal (c ∷ s) default_prefix bad)
        ])
]

-- Whatever is entered, what the form keeps is empty or a CIDR, and what it refuses is the trimmed
-- input, which is no CIDR.
pub normalize_cidr-IsNormal :
    (input default_prefix : Text)
    → IsNormal (trim_space input) (normalize_cidr input default_prefix)
unfolding normalize_cidr
normalize_cidr-IsNormal input default_prefix =
    normalize_trimmed-IsNormal (trim_space input) default_prefix
