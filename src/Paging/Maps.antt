-- ===== src/Paging/Maps.antt =====
-- The mappings that the kernel sets up, as the processor sees them.
use cheet_os.Base.{
  ℕ, ◌+◌, ◌-◌, ◌*◌, ◌/◌, ◌%◌, ◌^◌, ◌<◌, ◌≡◌, ◌≢◌, ◌&&◌, none, some, ltb, leb, ◌==◌, if◌then◌else◌,
  arith, minus_one, bit_or_flags, bit_or_byte,
}
use cheet_os.Screen.{store}
use cheet_os.Paging.{
  Paging, num_entries, low_entry, paging_init, update_page_directory, vidmap, video, vm_start,
  page_vidmem, page_top, page_bottom,
}
use cheet_os.Paging.Walk.{small_page, table_entry, through_table, translate}

-- Where the 4 MB page of a process stands.
abbrev pub process_page : ℕ → ℕ
process_page n = 0x00800000 + n * 0x00400000

-- After the update for a process `n` below 6, an address of the user's 4 MB page translates to
-- the same place of that process's page, and every address outside that page translates as
-- before.
pub update_page_directory_lem :
    (p : Paging) (n address : ℕ)
    → n < 6
    → let q = update_page_directory 0x08000000 (process_page n) 0x87 p in
      translate q address ≡ (
        if leb 0x08000000 address && ltb address 0x08400000
        then some (process_page n + (address - 0x08000000))
        else translate p address)
unfolding update_page_directory translate store table_entry
update_page_directory_lem p n address h = ground (arith, bit_or_byte (process_page n) 0x87)

low_entry-lt :
    (i : ℕ)
    → i < num_entries
    → low_entry i ≡ i * 0x1000 + (if leb vm_start i && leb i (vm_start + 3) then 3 else 2)
unfolding low_entry
low_entry-lt i h = ground (arith, bit_or_flags (i * 0x1000) 3, bit_or_flags (i * 0x1000) 2)

-- After `paging_init`, with the page table on a page boundary, the addresses of 32 bits that are
-- mapped are the kernel's 4 MB from 4 MB on and the 16 KB of video memory from 0xB8000 on, each
-- to itself.
pub paging_init_lem :
    (p : Paging) (address : ℕ)
    → p.page_table_address % 4096 ≡ 0
    → address < 2 ^ 32
    → translate (paging_init p) address ≡ (
        if leb 0x00400000 address && ltb address 0x00800000
        then some address
        else if leb 0xB8000 address && ltb address 0xBC000
        then some address
        else none)
unfolding paging_init translate store table_entry through_table small_page
paging_init_lem p address aligned h =
    ground (arith, bit_or_flags p.page_table_address 3, low_entry-lt (address / 2 ^ 12 % 2 ^ 10))

-- With the two page tables apart and the second one on a page boundary, `vidmap` given an address
-- from 0x08048000 to 0x083FFFFC returns 0 and the address 0x08400000, from which on 4096 bytes
-- translate to video memory, and changes no entry of the directory but number 33. It refuses any
-- other address with -1, stores nothing, and leaves the directory and the translation of those
-- 4096 bytes as they were.
pub vidmap_lem :
    (p : Paging) (screen_start o i : ℕ)
    → p.video_pages_address % 4096 ≡ 0
    → p.video_pages_address ≢ p.page_table_address
    → o < 4096
    → let (r, start, q) = vidmap screen_start p in
      let accepted = leb page_top screen_start && leb screen_start page_bottom in
      (r ≡ (if accepted then 0 else minus_one))
      × (start ≡ (if accepted then some page_vidmem else none))
      × (translate q (page_vidmem + o)
          ≡ (if accepted then some (video + o) else translate p (page_vidmem + o)))
      × (q.page_directory i
          ≡ (if accepted && i == 33 then p.video_pages_address + 7 else p.page_directory i))
unfolding vidmap translate store table_entry through_table small_page
vidmap_lem p screen_start o i aligned apart h = (
  ground arith,
  ground arith,
  ground (arith, bit_or_flags p.video_pages_address 7),
  ground (arith, bit_or_flags p.video_pages_address 7),
)
