-- ===== src/Pagination/Pages.antt =====
-- The pages of a listing, one after the other, are the listing.
use native.Mathlib.Nat.{lt-div-mul-add, suc-mul, zero-mul}
use kigali_pack.Base.{
  ℕ, zero, suc, ◌+◌, ◌-◌, ◌*◌, ◌≤◌, ◌<◌, ◌≡◌, refl, sym, ap, ◌∙◌, List, [], ◌∷◌, ◌++◌, arith,
  length, take, drop, lt→ltb,
}
use kigali_pack.Pagination.{build_pagination_meta, paginate_offset, page_of}

-- The reported number of pages holds the whole listing.
pages_enough :
    (page limit total : ℕ)
    → 0 < limit
    → total ≤ (build_pagination_meta page limit total).total_pages * limit
unfolding build_pagination_meta
pages_enough page limit total h =
    rw (lt→ltb 0 limit h) (omega (arith, lt-div-mul-add {a = total + limit - 1} h))

suc-add : (m n : ℕ) → suc m + n ≡ suc (m + n)
suc-add m n = omega arith

module _ {ℓ} {A : Type ℓ} where
  -- The first `n` pages.
  unfoldable pub first_pages : ℕ → ℕ → List A → List A
  first_pages zero limit xs = []
  first_pages (suc n) limit xs = first_pages n limit xs ++ page_of (suc n) limit xs

  take_more : (m n : ℕ) (xs : List A) → take (m + n) xs ≡ take m xs ++ take n (drop m xs)
  take_more zero n xs = ap (λ k. take k xs) (omega arith)
  take_more (suc m) n [] = take_nil (suc m + n) ∙ sym (take_nil n)
    where
      take_nil : (k : ℕ) → take {A = A} k [] ≡ []
      take_nil zero = refl
      take_nil (suc k) = refl
  take_more (suc m) n (x ∷ xs) =
      ap (λ k. take k (x ∷ xs)) (suc-add m n) ∙ ap (λ t. x ∷ t) (take_more m n xs)

  take_all : (n : ℕ) (xs : List A) → length xs ≤ n → take n xs ≡ xs
  take_all zero [] h = refl
  take_all (suc n) [] h = refl
  take_all zero (x ∷ xs) h = absurd (omega arith)
  take_all (suc n) (x ∷ xs) h = ap (λ t. x ∷ t) (take_all n xs (omega arith))

  first_pages-take : (n limit : ℕ) (xs : List A) → first_pages n limit xs ≡ take (n * limit) xs
  unfolding first_pages page_of paginate_offset
  first_pages-take zero limit xs = ap (λ k. take k xs) (sym (zero-mul limit))
  first_pages-take (suc n) limit xs =
      ap (λ t. t ++ page_of (suc n) limit xs) (first_pages-take n limit xs)
      ∙ ap (λ k. take (n * limit) xs ++ take limit (drop (k * limit) xs)) (pred_suc n)
      ∙ sym (take_more (n * limit) limit xs)
      ∙ ap (λ k. take k xs) (sym (suc-mul n limit))
    where
      pred_suc : (n : ℕ) → suc n - 1 ≡ n
      pred_suc n = omega arith

  -- With a positive limit, the pages of a listing from the first to the last that its pagination
  -- reports, one after the other, are the listing: nothing is lost, repeated or moved.
  pub pages_partition :
      (page limit : ℕ) (xs : List A)
      → 0 < limit
      → first_pages (build_pagination_meta page limit (length xs)).total_pages limit xs ≡ xs
  pages_partition page limit xs h =
      first_pages-take _ limit xs ∙ take_all _ xs (pages_enough page limit (length xs) h)
