-- ===== src/Paging/Tests.antt =====
-- Tables at two addresses, and the theorems at them.
use cheet_os.Base.{◌+◌, ◌≡◌, refl, ◌&&◌, none, some, leb, ◌==◌, if◌then◌else◌, arith, minus_one}
use cheet_os.Screen.{store}
use cheet_os.Paging.{Paging, paging_init, vidmap, page_top, page_bottom, page_vidmem, video}
use cheet_os.Paging.Walk.{translate}
use cheet_os.Paging.Maps.{vidmap_lem}

abbrev tables : Paging
tables = record {
  page_directory = λ i. 0;
  page_table = λ i. 0;
  video_pages = λ i. 0;
  page_table_address = 0x00410000;
  video_pages_address = 0x00420000;
}

kernel_is_mapped : translate (paging_init tables) 0x00412345 ≡ some 0x00412345
unfolding translate paging_init store
kernel_is_mapped = refl

vidmap_lem_example :
    let (r, start, q) = vidmap 0x08050000 tables in
    let accepted = leb page_top 0x08050000 && leb 0x08050000 page_bottom in
    (r ≡ (if accepted then 0 else minus_one))
    × (start ≡ (if accepted then some page_vidmem else none))
    × (translate q (page_vidmem + 5)
        ≡ (if accepted then some (video + 5) else translate tables (page_vidmem + 5)))
    × (q.page_directory 33 ≡ (
        if accepted && 33 == 33 then tables.video_pages_address + 7 else tables.page_directory 33))
vidmap_lem_example = vidmap_lem tables 0x08050000 5 33 refl (omega arith) (omega arith)
