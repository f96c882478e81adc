-- ===== src/Tasks/Pages.antt =====
-- syscalls.c: the pages that `execute` and `halt` map for the processes.
use cheet_os.Base.{ℕ, ◌+◌, ◌*◌, ◌-◌, ◌≡◌, ◌≢◌, ◌<◌, ◌≤◌, some, arith}
use cheet_os.Paging.{Paging}
use cheet_os.Paging.Walk.{translate}
use cheet_os.Paging.Maps.{update_page_directory_lem}
use cheet_os.Tasks.{map_process}

-- Two addresses of the user's 4 MB page never translate to the same place, one in the tables in which the
-- page of a process has been mapped and the other in those for another process, both of them numbered
-- below 6; and a process numbered `n` has its page from `8 + 4 * n` MB on.
pub process_pages_apart :
    (p : Paging) (n m a b x y : ℕ)
    → n < 6
    → m < 6
    → n ≢ m
    → 0x08000000 ≤ a
    → a < 0x08400000
    → 0x08000000 ≤ b
    → b < 0x08400000
    → translate (map_process n p) a ≡ some x
    → translate (map_process m p) b ≡ some y
    → (x ≢ y) × (x ≡ 0x800000 + n * 0x400000 + (a - 0x08000000))
unfolding map_process
process_pages_apart p n m a b x y hn hm ne a1 a2 b1 b2 ex ey = (
  ground (arith, update_page_directory_lem p n a hn, update_page_directory_lem p m b hm),
  ground (arith, update_page_directory_lem p n a hn),
)
