-- ===== src/Paging.antt =====
-- student-distrib/paging.c and `vidmap` of syscalls.c: the page directory and the page tables.
pub mod Walk
pub mod Maps
mod Tests
use cheet_os.Base.{
  ℕ, ◌+◌, ◌*◌, ◌/◌, ◌%◌, ◌^◌, Bool, ◌&&◌, ◌||◌, Option, none, some, ltb, leb, ◌==◌, if◌then◌else◌,
  bit_or, minus_one,
}
use cheet_os.Screen.{store}

-- The three arrays, by index, and the addresses where the linker put the two page tables.
pub record Paging : Type 0 where
  pub page_directory : ℕ → ℕ
  pub page_table : ℕ → ℕ
  pub video_pages : ℕ → ℕ
  pub page_table_address : ℕ
  pub video_pages_address : ℕ

abbrev pub vm_start : ℕ
vm_start = 0xB8

abbrev pub num_entries : ℕ
num_entries = 1024

abbrev pub video : ℕ
video = 0xB8000

abbrev pub page_table_present_entry : ℕ
page_table_present_entry = 7

-- The second loop of `paging_init`: only the video pages are marked present.
unfoldable pub low_entry : ℕ → ℕ
low_entry i =
    if leb vm_start i && leb i (vm_start + 3) then bit_or (i * 0x1000) 3 else bit_or (i * 0x1000) 2

unfoldable pub paging_init : Paging → Paging
paging_init p = record p {
  page_directory =
      store
        (store (λ i. if ltb i num_entries then 2 else p.page_directory i) 0
          (bit_or p.page_table_address 3))
        1 0x00400083;
  page_table = λ i. if ltb i num_entries then low_entry i else p.page_table i;
}

unfoldable pub update_page_directory : (virt_address phys_address flags : ℕ) → Paging → Paging
update_page_directory virt_address phys_address flags p = record p {
  page_directory = store p.page_directory (virt_address / 2 ^ 22) (bit_or phys_address flags);
}

unfoldable pub remap_video : (virt_address : ℕ) → Paging → Paging
remap_video virt_address p = record p {
  page_directory =
      store p.page_directory (virt_address / 2 ^ 22)
        (bit_or p.page_table_address page_table_present_entry);
  page_table = store p.page_table (video / 2 ^ 12) (bit_or video page_table_present_entry);
}

abbrev pub page_top : ℕ
page_top = 0x08048000

abbrev pub page_bottom : ℕ
page_bottom = 0x083FFFFC

abbrev pub page_vidmem : ℕ
page_vidmem = 0x08400000

abbrev pub page_vidmap : ℕ
page_vidmap = 33

-- `vidmap` with the address that it is given: the value returned, what it stores there at the end,
-- and the new tables.
unfoldable pub vidmap : (screen_start : ℕ) → Paging → ℕ × Option ℕ × Paging
vidmap screen_start p =
    if screen_start == 0 || ltb screen_start page_top || ltb page_bottom screen_start
    then (minus_one, none, p)
    else (
      0,
      some page_vidmem,
      record p {
        page_directory = store p.page_directory page_vidmap (bit_or p.video_pages_address 7);
        video_pages = store p.video_pages 0 (bit_or video 7);
      },
    )
