-- ===== src/Fish/Tests.antt =====
-- Blinks on a board, and the two frames of a small file.
use cheet_os.Base.{
  ◌≤◌, ℕ, ◌+◌, ◌*◌, ◌^◌, ◌<◌, ◌⊎◌, All, minus_one, ◌≡◌, ◌≢◌, refl, [], ◌∷◌, Option, none, some,
  arith, length, bytes,
}
use cheet_os.Filesys.{
  block_start, data_block_num, flength, inode_count, word_at, byte_at, inode_length,
}
use cheet_os.Filesys.Contents.{slice, file_byte}
use cheet_os.Screen.{store}
use cheet_os.Files.{Process, free_from}
use cheet_os.Programs.Kernel.{kernel_calls}
use cheet_os.Programs.Tests
use cheet_os.Fish.Blinks.{
  num_blinks, Blink, Board, cleared, put, malloc_from, mp1_malloc, mp1_poke, add_at, mp1_ioctl_add,
  mp1_ioctl_remove, mp1_rtc_tasklet, mp1_ioctl_sync, find_loop, mp1_find_helper, sync_found,
  sync_at,
}
use cheet_os.Fish.{goes_on, add_frames}
use cheet_os.Fish.Frames.{add_all, lines, frame_blinks, place, line_blinks}
use cheet_os.Fish.Chain.{lit, Shows, Added, mp1_ioctl_add_lem}
use cheet_os.Fish.Remove.{removed, mp1_ioctl_remove_lem}
use cheet_os.Fish.Tick.{ticks, shine, mp1_rtc_tasklet_lem}
use cheet_os.Fish.Lit.{OnScreen, all_lit}
use cheet_os.Fish.Files.{Names, add_frames_lem, add_frames-Shows}

abbrev empty : Board
empty = record { blink_array = λ i. cleared; mp1_list_head = none; vmem = λ a. 0 }

abbrev star : Blink
star = record cleared {
  location = 81;
  on_char = b'*';
  off_char = b'.';
  on_length = 2;
  off_length = 3;
}

empty-Shows : Shows empty []
empty-Shows = record { structs = []; chain = refl }

-- One blink, lit.
abbrev one : Board
one = record {
  blink_array = put (λ i. cleared) 0 (lit star);
  mp1_list_head = some 0;
  vmem = λ a. 0;
}

one-Shows : Shows one (lit star ∷ [])
unfolding put
one-Shows = record {
  structs = 0 ∷ [];
  chain = (refl, omega arith, refl, (λ e. absurd (omega (arith, e))), tt, refl);
}

mp1_ioctl_add_lem_example : Added star one (lit star ∷ []) (mp1_ioctl_add star one)
mp1_ioctl_add_lem_example = mp1_ioctl_add_lem star one (lit star ∷ []) one-Shows (omega arith)

mp1_rtc_tasklet_lem_example :
    (q : Board) × (mp1_rtc_tasklet one ≡ some q)
    × Shows q (ticks (lit star ∷ []))
    × (q.vmem ≡ shine (lit star ∷ []) one.vmem)
mp1_rtc_tasklet_lem_example = mp1_rtc_tasklet_lem one (lit star ∷ []) one-Shows

-- A line of two characters against one of one.
pairs :
    frame_blinks cleared 1 (bytes "a " ∷ []) (bytes "b" ∷ [])
    ≡ record cleared {
      on_length = 15;
      off_length = 15;
      on_char = b'a';
      off_char = b'b';
      location = 120;
    }
      ∷ []
unfolding frame_blinks line_blinks place
pairs = refl

splits : lines (bytes "ab\n\nc") ≡ bytes "ab" ∷ [] ∷ bytes "c" ∷ []
unfolding lines
splits = refl

ab-Names : Names Tests.process 40 Tests.ab Tests.ab_entry
unfolding inode_count word_at byte_at
ab-Names = record {
  chars = (λ i lt. ((Tests.is_text Tests.ab refl).0 i lt).0);
  short = omega arith;
  room = omega arith;
  found = Tests.finds_ab;
  regular = refl;
  inside = omega arith;
  blocks = Tests.disk-HasBlocks;
}

add_frames_lem_example :
    let frame = lines (slice Tests.disk 1 0 5) in
    (q : Process) × (add_frames
        (kernel_calls Tests.chip Tests.nothing 40 0x7FBF00 Tests.kernel)
        cleared
        12
        Tests.ab
        Tests.ab
        Tests.process
        empty
      ≡ some (goes_on q (add_all (frame_blinks cleared 0 frame frame) empty)))
unfolding flength inode_length word_at byte_at free_from
add_frames_lem_example =
    add_frames_lem Tests.chip Tests.nothing 40 0x7FBF00 Tests.kernel cleared 12 Tests.process empty
      Tests.ab Tests.ab Tests.ab_entry Tests.ab_entry ab-Names ab-Names refl (omega arith)
      (omega arith) (omega arith)

mp1_ioctl_remove_lem_example :
    (q : Board) × (v : ℕ) × (mp1_ioctl_remove 81 one ≡ some (v, q))
    × Shows q (removed 81 (lit star ∷ []))
    × (q.vmem ≡ one.vmem)
    × (((v ≡ 0) × (length (removed 81 (lit star ∷ [])) < length (lit star ∷ [])))
        ⊎ ((v ≡ minus_one) × (q ≡ one) × All (λ b. b.location ≢ 81) (lit star ∷ [])))
mp1_ioctl_remove_lem_example = mp1_ioctl_remove_lem 81 one (lit star ∷ []) (omega arith) one-Shows

-- Two blinks at location 0 get the same struct, since it still counts as free: it is its own successor.
abbrev corner : Blink
corner = record star { location = 0 }

twice_at_zero :
    let s = (mp1_ioctl_add corner (mp1_ioctl_add corner empty).1).1 in
    (s.mp1_list_head ≡ some 0) × ((s.blink_array 0).next ≡ some 0)
unfolding mp1_ioctl_add mp1_malloc malloc_from add_at mp1_poke put
twice_at_zero = (refl, refl)

abbrev seen_second : Option (ℕ × Board) → ℕ × ℕ
seen_second none = (0, 0)
seen_second (some (v, s)) = ((s.blink_array 1).status, s.vmem 164)

-- A blink that is made equal to one that is on gets its other character on the screen.
synced_shows_off :
    seen_second
      (mp1_ioctl_sync (81 * 2 ^ 16 + 82) (mp1_ioctl_add (record star { location = 82 }) one).1)
    ≡ (1, b'.')
unfolding mp1_ioctl_add mp1_malloc malloc_from add_at mp1_poke put mp1_ioctl_sync mp1_find_helper
    find_loop sync_found sync_at store
synced_shows_off = refl

hello_text : slice Tests.disk 1 0 5 ≡ bytes "hello"
unfolding slice file_byte data_block_num word_at byte_at block_start inode_count
hello_text = refl

-- The five blinks of one line over itself.
on_screen :
    let frame = lines (slice Tests.disk 1 0 5) in
    All OnScreen (frame_blinks cleared 0 frame frame)
    × (length (frame_blinks cleared 0 frame frame) ≤ num_blinks)
unfolding lines frame_blinks line_blinks place
on_screen = rw hello_text (
  (
    (real 40 (omega arith), omega arith),
    (
      (real 41 (omega arith), omega arith),
      (
        (real 42 (omega arith), omega arith),
        ((real 43 (omega arith), omega arith), ((real 44 (omega arith), omega arith), tt)),
      ),
    ),
  ),
  omega arith,
)
  where
    real : (n : ℕ) → 0 < n → n ≢ 0
    real n lt e = omega arith

add_frames-Shows_example :
    let frame = lines (slice Tests.disk 1 0 5) in
    (q : Process) × (board : Board) × (add_frames
        (kernel_calls Tests.chip Tests.nothing 40 0x7FBF00 Tests.kernel)
        cleared
        12
        Tests.ab
        Tests.ab
        Tests.process
        empty
      ≡ some (goes_on q board))
    × Shows board (all_lit (frame_blinks cleared 0 frame frame) [])
unfolding flength inode_length word_at byte_at free_from
add_frames-Shows_example =
    add_frames-Shows Tests.chip Tests.nothing 40 0x7FBF00 Tests.kernel cleared 12 Tests.process
      empty Tests.ab Tests.ab Tests.ab_entry Tests.ab_entry ab-Names ab-Names refl (omega arith)
      (omega arith) (omega arith) refl (λ j. refl) on_screen.0 on_screen.1
