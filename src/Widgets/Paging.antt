-- ===== src/Widgets/Paging.antt =====
-- web/src/components/ui/pagination.tsx. `Number(search.get(param) ?? "1")` is the browser's: `asked` is
-- that number with its fraction cut off, `none` where it is not finite.
use codolympics.Prelude.{
  ℕ, ◌+◌, ◌-◌, ◌*◌, ◌/◌, Bool, List, Option, none, some, if◌then◌else◌, leb, ◌==◌, ℤ, pos, negsuc,
  length, take, drop, min, max,
}

abbrev page_size : ℕ
page_size = 25

pub record Paged (T : Type 0) : Type 0 where
  pub rows : List T
  pub page : ℕ
  pub pages : ℕ
  pub total : ℕ
  pub from : ℕ
  pub to : ℕ

-- `Math.max(1, Math.ceil(total / size))`.
unfoldable pub pages_of : (total size : ℕ) → ℕ
pages_of total size = max 1 ((total + size - 1) / size)

-- `Math.min(pages, Math.max(1, asked))`, or 1.
unfoldable pub clamp_page : (pages : ℕ) → Option ℤ → ℕ
clamp_page pages none = 1
clamp_page pages (some (pos n)) = min pages (max 1 n)
clamp_page pages (some (negsuc n)) = min pages 1

unfoldable pub use_paged : {T : Type 0} → List T → (size : ℕ) → Option ℤ → Paged T
unfolding pages_of clamp_page
use_paged all size asked =
    let total = length all in
    let pages = pages_of total size in
    let page = clamp_page pages asked in
    let start = (page - 1) * size in
    record {
      rows = take size (drop start all);
      page = page;
      pages = pages;
      total = total;
      from = if total == 0 then 0 else start + 1;
      to = min total (start + size);
    }

-- A control of the bar: the page that it leads to, unless it is inert.
pub record Step : Type 0 where
  pub page : ℕ
  pub disabled : Bool

pub record Bar : Type 0 where
  pub first : Step
  pub previous : Step
  pub next : Step
  pub last : Step

-- `Pagination`: nothing where everything fits on one page.
unfoldable pagination : {T : Type 0} → Paged T → Option Bar
pagination p =
    if leb p.pages 1
    then none
    else some (record {
      first = record { page = 1; disabled = p.page == 1 };
      previous = record { page = p.page - 1; disabled = p.page == 1 };
      next = record { page = p.page + 1; disabled = p.page == p.pages };
      last = record { page = p.pages; disabled = p.page == p.pages };
    })

-- `href(page)`: the query parameter of the address, absent for the first page.
unfoldable param_for : ℕ → Option ℕ
param_for page = if leb page 1 then none else some page
