-- ===== src/Pagination.antt =====
-- common/utils/pagination.util.ts, and the page that BillingService.listInvoices
-- (modules/billing/billing.service.ts) cuts out of a listing.
pub mod Pages
mod Tests
use kigali_pack.Base.{ℕ, ◌+◌, ◌-◌, ◌*◌, ◌/◌, Bool, List, take, drop, ltb, if◌then◌else◌}

pub record PaginationMeta : Type 0 where
  pub page : ℕ
  pub limit : ℕ
  pub total : ℕ
  pub total_pages : ℕ

-- `Math.ceil(total / limit)` for a positive limit is the quotient of `total + limit - 1`.
unfoldable pub build_pagination_meta : ℕ → ℕ → ℕ → PaginationMeta
build_pagination_meta page limit total = record {
  page = page;
  limit = limit;
  total = total;
  total_pages = if ltb 0 limit then (total + limit - 1) / limit else 0;
}

-- Pages are counted from 1, which the validation of the query asks for.
unfoldable pub paginate_offset : ℕ → ℕ → ℕ
paginate_offset page limit = (page - 1) * limit

-- `slice(offset, offset + limit)`
unfoldable pub page_of {ℓ} : {A : Type ℓ} → ℕ → ℕ → List A → List A
unfolding paginate_offset
page_of page limit xs = take limit (drop (paginate_offset page limit) xs)
