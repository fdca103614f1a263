-- ===== src/Store/Renewal.antt =====
-- The replacement of the row with an identifier, in a table that has another key beside it.
use wgrift.Base.{
  ◌≡◌, refl, Bool, false, not, ◌&&◌, List, [], ◌∷◌, arith, Text, text_eq, text_eq_iff, any, inl,
  inr, Bool-cases,
}
use wgrift.Store.Db.{update_where}
use wgrift.Store.Keys.{IsDistinct, has_key, update_where-none}

module _ {A : Type 0} (id key : A → Text) (i k : Text) (f : A → A)
    (f_key : (x : A) → key (f x) ≡ k) where
  abbrev pub renew : List A → List A
  renew xs = update_where (has_key id i) f xs

  -- Another row has the key.
  abbrev pub is_taken_by : A → Bool
  is_taken_by x = not (text_eq (id x) i) && text_eq (key x) k

  not_taken :
      (xs : List A) (other : Text)
      → text_eq k other ≡ false
      → any (has_key key other) xs ≡ false
      → any (has_key key other) (renew xs) ≡ false
  unfolding any update_where
  not_taken [] other h e = refl
  not_taken (x ∷ xs) other h e = elim (Bool-cases (text_eq (id x) i)) [
    | inl yes' ↦ rw (yes', f_key x) (ground (arith, h, not_taken xs other h))
    | inr no' ↦ rw no' (ground (arith, e, not_taken xs other h))
  ]

  no_other :
      (xs : List A)
      → any (has_key id i) xs ≡ false
      → any is_taken_by xs ≡ false
      → any (has_key key k) xs ≡ false
  unfolding any
  no_other [] h e = refl
  no_other (x ∷ xs) h e = ground (arith, no_other xs)

  pub IsDistinct-renew :
      (xs : List A)
      → IsDistinct id xs
      → IsDistinct key xs
      → any is_taken_by xs ≡ false
      → IsDistinct key (renew xs)
  unfolding update_where
  IsDistinct-renew [] ids keys free = tt
  IsDistinct-renew (x ∷ xs) ids keys free = elim (Bool-cases (text_eq (id x) i)) [
    | inl yes' ↦
        let alone : any (has_key id i) xs ≡ false = rw (← (text_eq_iff (id x) i).0 yes') ids.0 in
        rw (yes', update_where-none (has_key id i) f xs alone, f_key x)
          (no_other xs alone (unfold any in ground (arith, free)), keys.1)
    | inr no' ↦ rw no' (
      not_taken xs (key x)
          (unfold any in ground (arith, free, text_eq_iff k (key x), text_eq_iff (key x) k)) keys.0,
      IsDistinct-renew xs ids.1 keys.1 (unfold any in ground (arith, free)),
    )
  ]
