-- ===== src/Paging/Walk.antt =====
-- How the processor translates an address with such tables, with 4 MB pages enabled.
use cheet_os.Base.{ℕ, ◌+◌, ◌*◌, ◌/◌, ◌%◌, ◌^◌, Option, none, some, ◌==◌, if◌then◌else◌}
use cheet_os.Paging.{Paging}

-- A small page: the present bit and the upper 20 bits of a page table's entry.
unfoldable pub small_page : (entry address : ℕ) → Option ℕ
small_page entry address =
    if entry % 2 == 0 then none else some (entry / 2 ^ 12 * 2 ^ 12 + address % 2 ^ 12)

-- The entry for an address in the page table at `base`; memory that is none of the two tables is
-- not known.
unfoldable pub table_entry : Paging → (base address : ℕ) → Option ℕ
table_entry p base address =
    let index = address / 2 ^ 12 % 2 ^ 10 in
    if base == p.page_table_address
    then some (p.page_table index)
    else if base == p.video_pages_address
    then some (p.video_pages index)
    else none

unfoldable pub through_table : (entry : Option ℕ) → (address : ℕ) → Option ℕ
through_table none address = none
through_table (some entry) address = small_page entry address

-- The physical address, or `none` for a page fault.
unfoldable pub translate : Paging → (address : ℕ) → Option ℕ
translate p address =
    let entry = p.page_directory (address / 2 ^ 22) in
    if entry % 2 == 0
    then none
    else if entry / 2 ^ 7 % 2 == 1
    then some (entry / 2 ^ 22 * 2 ^ 22 + address % 2 ^ 22)
    else through_table (table_entry p (entry / 2 ^ 12 * 2 ^ 12) address) address
