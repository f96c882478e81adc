-- ===== src/Fish/Blinks.antt =====
-- fish/blink.S, with `mp1_malloc` and `mp1_free` of fish/fish.c: characters of the text screen that blink,
-- in a linked list through an array.
use cheet_os.Base.{
  ℕ, zero, suc, ◌+◌, ◌-◌, ◌*◌, ◌/◌, ◌%◌, ◌^◌, not, ◌&&◌, Option, none, some, ◌==◌, ltb, leb,
  if◌then◌else◌, minus_one,
}
use cheet_os.Screen.{store}

-- `struct mp1_blink_struct`; a pointer to one is its index in `blink_array`.
pub record Blink : Type 0 where
  pub location : ℕ
  pub on_char : ℕ
  pub off_char : ℕ
  pub on_length : ℕ
  pub off_length : ℕ
  pub countdown : ℕ
  pub status : ℕ
  pub next : Option ℕ

-- The array, the list, and the memory from `vmem_base_addr` on.
pub record Board : Type 0 where
  pub blink_array : ℕ → Blink
  pub mp1_list_head : Option ℕ
  pub vmem : ℕ → ℕ

-- 80 * 25
abbrev pub num_blinks : ℕ
num_blinks = 2000

-- A struct of zeros.
abbrev pub cleared : Blink
cleared = record {
  location = 0;
  on_char = 0;
  off_char = 0;
  on_length = 0;
  off_length = 0;
  countdown = 0;
  status = 0;
  next = none;
}

unfoldable pub put : (ℕ → Blink) → ℕ → Blink → ℕ → Blink
put m i b j = if j == i then b else m j

-- The loop with `todo` structs to go.
unfoldable pub malloc_from : (ℕ → Blink) → (todo i : ℕ) → Option ℕ
malloc_from m zero i = none
malloc_from m (suc todo) i =
    let rest = malloc_from m todo (i + 1) in if (m i).location == 0 then some i else rest

unfoldable pub mp1_malloc : Board → Option ℕ
mp1_malloc s = malloc_from s.blink_array num_blinks 0

unfoldable pub mp1_free : ℕ → Board → Board
mp1_free i s = record s { blink_array = put s.blink_array i cleared }

unfoldable pub mp1_poke : (cl eax : ℕ) → Board → Board
mp1_poke cl eax s = record s { vmem = store s.vmem eax cl }

-- `decw`, and `xorw $0x1`, of a word.
abbrev pub decremented : ℕ → ℕ
decremented w = (w + 65535) % 2 ^ 16

abbrev pub flipped : ℕ → ℕ
flipped w = if w % 2 == 1 then w - 1 else w + 1

-- The character that a blink changes to, and how long it stays.
abbrev pub next_char : Blink → ℕ
next_char b = if b.status % 2 == 1 then b.off_char else b.on_char

abbrev pub next_length : Blink → ℕ
next_length b = if b.status % 2 == 1 then b.off_length else b.on_length

-- One round of `tasklet_loop`; `jg` is on the signed word.
unfoldable pub tasklet_step : ℕ → Board → Board
tasklet_step i s =
    let b = s.blink_array i in
    let left = decremented b.countdown in
    if not (left == 0) && ltb left (2 ^ 15)
    then record s { blink_array = put s.blink_array i (record b { countdown = left }) }
    else let shown = mp1_poke (next_char b) (b.location * 2) s in
      record shown {
        blink_array =
            put s.blink_array i (record b { countdown = next_length b; status = flipped b.status });
      }

-- A list that goes on after the fuel is a loop; there are no more structs than the array has.
unfoldable pub tasklet_loop : (fuel : ℕ) → Option ℕ → Board → Option Board
tasklet_loop fuel none s = some s
tasklet_loop zero (some i) s = none
tasklet_loop (suc fuel) (some i) s =
    let done = tasklet_step i s in tasklet_loop fuel (done.blink_array i).next done

unfoldable pub mp1_rtc_tasklet : Board → Option Board
mp1_rtc_tasklet s = tasklet_loop num_blinks s.mp1_list_head s

unfoldable pub find_loop : (fuel : ℕ) → (ax : ℕ) → Option ℕ → (ℕ → Blink) → Option (Option ℕ)
find_loop fuel ax none m = some none
find_loop zero ax (some i) m = none
find_loop (suc fuel) ax (some i) m =
    let rest = find_loop fuel ax (m i).next m in
    if (m i).location == ax then some (some i) else rest

unfoldable pub mp1_find_helper : (ax : ℕ) → Board → Option (Option ℕ)
mp1_find_helper ax s = find_loop num_blinks (ax % 2 ^ 16) s.mp1_list_head s.blink_array

-- `mp1_ioctl_add` on the struct that the argument points to.
unfoldable pub add_at : Blink → Board → Option ℕ → ℕ × Board
add_at b s none = (minus_one, s)
add_at b s (some i) = (
  0,
  mp1_poke b.on_char (b.location * 2) (record s {
    blink_array =
        put s.blink_array i
          (record b { status = 1; countdown = b.on_length; next = s.mp1_list_head });
    mp1_list_head = some i;
  }),
)

unfoldable pub mp1_ioctl_add : Blink → Board → ℕ × Board
mp1_ioctl_add b s = if leb num_blinks b.location then (minus_one, s) else add_at b s (mp1_malloc s)

-- What `edx` points to: the head of the list, or the link of a struct.
unfoldable pub load : Option ℕ → Board → Option ℕ
load none s = s.mp1_list_head
load (some j) s = (s.blink_array j).next

unfoldable pub set_link : Option ℕ → Option ℕ → Board → Board
set_link none p s = record s { mp1_list_head = p }
set_link (some j) p s = record s {
  blink_array = put s.blink_array j (record (s.blink_array j) { next = p });
}

-- `remove_find_prev`; past the end of the list it would read at 0.
unfoldable pub unlink_from : (fuel : ℕ) → (eax : ℕ) → (edx : Option ℕ) → Board → Option Board
unlink_from zero eax edx s = none
unlink_from (suc fuel) eax edx s = elim (load edx s) [
  | none ↦ none
  | some j ↦
      let rest = unlink_from fuel eax (some j) s in
      if j == eax then some (set_link edx (s.blink_array eax).next s) else rest
]

unfoldable pub remove_at : Board → Option ℕ → Option (ℕ × Board)
remove_at s none = some (minus_one, s)
remove_at s (some i) = elim (unlink_from (num_blinks + 1) i none s) [
  | none ↦ none
  | some q ↦ some (0, mp1_free i q)
]

unfoldable pub mp1_ioctl_remove : (location : ℕ) → Board → Option (ℕ × Board)
mp1_ioctl_remove location s = elim (mp1_find_helper location s) [
  | none ↦ none
  | some found ↦ remove_at s found
]

-- `cmovl` after the `testb` is never taken, since the test leaves the sign and the overflow flag at 0.
unfoldable pub sync_at : (esi edi : ℕ) → Board → Board
sync_at esi edi s =
    let a = s.blink_array esi in
    let b = s.blink_array edi in
    mp1_poke b.off_char (b.location * 2) (record s {
      blink_array = put s.blink_array edi (record b {
        on_length = a.on_length;
        off_length = a.off_length;
        countdown = a.countdown;
        status = a.status;
      });
    })

-- The two structs that were looked for.
unfoldable pub sync_found : Board → Option ℕ → Option ℕ → ℕ × Board
sync_found s (some esi) (some edi) = (0, sync_at esi edi s)
sync_found s _ _ = (minus_one, s)

unfoldable pub mp1_ioctl_sync : (arg : ℕ) → Board → Option (ℕ × Board)
mp1_ioctl_sync arg s = elim (mp1_find_helper (arg / 2 ^ 16) s) [
  | none ↦ none
  | some first ↦ elim (mp1_find_helper (arg % 2 ^ 16) s) [
    | none ↦ none
    | some second ↦ some (sync_found s first second)
  ]
]

-- The struct that is copied out.
unfoldable pub mp1_ioctl_find : (location : ℕ) → Board → Option (ℕ × Option Blink)
mp1_ioctl_find location s = elim (mp1_find_helper location s) [
  | none ↦ none
  | some none ↦ some (minus_one, none)
  | some (some i) ↦ some (0, some (s.blink_array i))
]
