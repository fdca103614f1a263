-- ===== src/Wg/Merge.antt =====
-- What `mergeAllowedIPStrings` leaves of the lists it merges.
use mathlib.Core.List.{append_assoc, append-nil}
use wgrift.Base.{
  ◌≡◌, refl, sym, ap, ◌∙◌, Bool, true, not, ◌&&◌, List, [], ◌∷◌, ◌++◌, map, arith, Text, text_eq,
  text_eq_iff, trim_space, split_at, select, any, is_nil, inl, inr, Bool-cases,
}
use wgrift.Base.Tables.{select-select, select-ext}
use wgrift.Wg.AllowedIps.{merge_loop, merged_parts}

-- Each text once, where it occurs first.
unfoldable pub first_occurrences : List Text → List Text
first_occurrences [] = []
first_occurrences (x ∷ xs) = x ∷ select (λ y. not (text_eq y x)) (first_occurrences xs)

-- The entries of a list that has commas between them, without blank ones.
unfoldable pub entries : List Text → List Text
entries raws = select (λ c. not (is_nil c)) (map trim_space raws)

abbrev unseen : List Text → Text → Bool
unseen seen y = not (any (text_eq y) seen)

select-seen :
    (x : Text) (seen xs : List Text)
    → any (text_eq x) seen ≡ true
    → select (unseen seen) (select (λ y. not (text_eq y x)) xs) ≡ select (unseen seen) xs
select-seen x seen xs h =
    select-select (unseen seen) (λ y. not (text_eq y x)) xs
    ∙ select-ext _ _ xs (λ y. elim (Bool-cases (text_eq y x)) [
      | inl yes' ↦ rw (yes', (text_eq_iff y x).0 yes', h) refl
      | inr no' ↦ rw no' refl
    ])

select-unseen :
    (x : Text) (seen xs : List Text)
    → select (unseen seen) (select (λ y. not (text_eq y x)) xs) ≡ select (unseen (x ∷ seen)) xs
select-unseen x seen xs =
    select-select (unseen seen) (λ y. not (text_eq y x)) xs
    ∙ select-ext (λ y. not (text_eq y x) && unseen seen y) (unseen (x ∷ seen)) xs
        (λ y. unfold any in ground arith)

merge_loop_lem :
    (seen parts raws : List Text)
    → merge_loop seen parts raws ≡ parts ++ select (unseen seen) (first_occurrences (entries raws))
unfolding merge_loop first_occurrences entries select
merge_loop_lem seen parts [] = sym (append-nil parts)
merge_loop_lem seen parts (raw ∷ raws) =
    let cidr = trim_space raw in
    elim (Bool-cases (is_nil cidr)) [
      | inl blank ↦ rw blank (merge_loop_lem seen parts raws)
      | inr text ↦ elim (Bool-cases (any (text_eq cidr) seen)) [
        | inl old ↦
            rw (text, old, select-seen cidr seen (first_occurrences (entries raws)) old)
              (merge_loop_lem seen parts raws)
        | inr new ↦
            rw (text, new, select-unseen cidr seen (first_occurrences (entries raws)))
              (merge_loop_lem (cidr ∷ seen) (parts ++ cidr ∷ []) raws
                ∙ append_assoc parts (cidr ∷ []) _)
      ]
    ]

-- The merged list is the tunnel address and the entries that are not blank, each once and where it
-- occurs first.
pub merged_parts_lem :
    (tunnel_ip allowed_ips : Text)
    → merged_parts tunnel_ip allowed_ips
      ≡ first_occurrences (trim_space tunnel_ip ∷ entries (split_at b',' allowed_ips))
unfolding merged_parts first_occurrences
merged_parts_lem tunnel_ip allowed_ips =
    merge_loop_lem (trim_space tunnel_ip ∷ []) (trim_space tunnel_ip ∷ [])
      (split_at b',' allowed_ips)
    ∙ ap (λ t. trim_space tunnel_ip ∷ t)
        (select-ext (unseen (trim_space tunnel_ip ∷ []))
          (λ y. not (text_eq y (trim_space tunnel_ip)))
          (first_occurrences (entries (split_at b',' allowed_ips)))
          (λ y. unfold any in ground arith))
