-- ===== src/Services/Records/Listing/Bounds.antt =====
-- What a listing holds.
use rescs.Prelude.{ℕ, ◌≤◌, ◌≡◌, true, All, length, arith}
use rescs.Prelude.Int.{ℤ}
use rescs.Errors.{ok}
use rescs.Domain.{RecordData, Page}
use mathlib.Core.Path.{subst, refl}
use rescs.Memory.Store
use rescs.Memory.Store.{Store}
use rescs.Memory.Store.Pages.{page_lem}
use rescs.Memory.Records as Repo
use rescs.Memory.Records.{RecordFilter, record_item}
use rescs.World.{Runtime, World}
use rescs.Services.Common.{Service, max_limit, clamp_pagination}
use rescs.Services.Common.Laws.{clamp_pagination_bounds}
use rescs.Services.Records.Listing.{list}

-- What a page holds: at most 500 records and no more than its total, which counts the matches, and
-- each of them matches.
pub record IsListing (f : RecordFilter) (now : ℕ) (s : Store RecordData) (page : Page RecordData)
    : Type 0 where
  pub small : length page.items ≤ max_limit
  pub within : length page.items ≤ page.total
  pub counted : page.total ≡ Store.count_items (Repo.list_matches f now) s
  pub matching : All (λ r. Repo.list_matches f now r ≡ true) page.items

module _ (rt : Runtime) (svc : Service) where
  -- Whatever limit and offset a client sends, a listing that is returned holds at most 500 records
  -- and no more than its total, which counts the records that pass the filter, and each of them
  -- passes it.
  pub list-IsListing :
      (f : RecordFilter) (limit offset : ℤ) (page : Page RecordData) (w : World)
      → (list rt svc f limit offset w).0 ≡ ok page
      → IsListing f (rt.clock w.ticks) w.records page
  unfolding list
  list-IsListing f limit offset page w done =
      let (l, o) = clamp_pagination limit offset in
      let test = Repo.list_matches f (rt.clock w.ticks) in
      let (matching, _, size) = page_lem test l o w.records in
      let (_, small, _) = clamp_pagination_bounds limit offset in
      let found : Page RecordData = record {
        items = Store.page test l o w.records;
        total = Store.count_items test w.records;
        limit = l;
        offset = o;
      } in
      let same : found ≡ page = ground arith in
      subst (IsListing f (rt.clock w.ticks) w.records) same (record {
        small = omega (arith, small, size);
        within = omega (arith, size);
        counted = refl;
        matching = matching;
      })
