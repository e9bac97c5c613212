-- ===== src/Pagination/Tests.antt =====
-- The pages of a listing of five.
use kigali_pack.Base.{ℕ, ◌≡◌, refl, List, [], ◌∷◌, arith, length}
use kigali_pack.Pagination.{build_pagination_meta, page_of}
use kigali_pack.Pagination.Pages.{first_pages, pages_partition}

abbrev five : List ℕ
five = 10 ∷ 20 ∷ 30 ∷ 40 ∷ 50 ∷ []

page_of_second : page_of 2 2 five ≡ 30 ∷ 40 ∷ []
unfolding page_of
page_of_second = refl

total_pages_of_five : (build_pagination_meta 1 2 (length five)).total_pages ≡ 3
unfolding build_pagination_meta
total_pages_of_five = refl

pages_partition_example :
    first_pages (build_pagination_meta 1 2 (length five)).total_pages 2 five ≡ five
pages_partition_example = pages_partition 1 2 five (omega arith)
