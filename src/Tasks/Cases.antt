-- ===== src/Tasks/Cases.antt =====
-- The ways in which `execute` ends, for a property of its endings.
use cheet_os.Base.{
  ℕ, ◌+◌, ◌<◌, ◌≤◌, ◌⊎◌, ◌≡◌, inl, inr, List, true, false, Option, none, some, ◌==◌, leb,
  Bool-cases, get_or, set, length, minus_one, arith, refl,
}
use cheet_os.Filesys.{Dentry, flength, read_data, read_dentry_by_name}
use cheet_os.Filesys.Read.{read_data-Ends}
use cheet_os.Screen.{puts}
use cheet_os.Command.{strtok, strtok_on}
use cheet_os.Command.Words.{left, words_of, join, strtok_on-left, arguments_from-join}
use cheet_os.Tasks.{
  Kernel, Frame, Ending, refused, overruns, buffer_size, program_room, num_max_processes,
  get_next_process_number, map_process, start, create, is_program, run_entry, run_token, execute,
  too_many,
}
use cheet_os.Tasks.Slots.{Slot, get_next_process_number_lem}

-- The kernel with slot `n` taken and its page mapped.
abbrev pub taking : Kernel → (n : ℕ) → Kernel
taking k n = record k { pid_array = set k.pid_array n 1; paging = map_process n k.paging }

-- A file that does not fit in the page of a program, from the program's start on.
abbrev pub TooLarge : Kernel → Dentry → Type 0
TooLarge k d = program_room < flength k.image d.inode_num

-- What lets `execute` write behind the end of `buffer` or of the page: the words behind the first one of
-- the command take 128 bytes or more, or the file that the first one names is too large.
abbrev pub Overflows : Kernel → (command : List ℕ) → Type 0
Overflows k command =
    (buffer_size ≤ length (join (words_of (strtok (some command) none).1)))
    ⊎ ((token : List ℕ) × (d : Dentry) × ((strtok (some command) none).0 ≡ some token)
        × (read_dentry_by_name k.image (some token) ≡ some d)
        × TooLarge k d)

module _ (frame : Frame) (k : Kernel) (P : Ending → Type 0) (same : (v : ℕ) → P (refused v k))
    (full : P (refused 256 (record k { screen = (puts too_many k.screen).1 })))
    (started : (args : List ℕ) (n size : ℕ) (read : ℕ) (bytes : List ℕ)
      → n < num_max_processes
      → get_or k.pid_array n 0 ≡ 0
      → (program_room < length bytes → P overruns)
      → P (start frame args n size (taking k n) (some (read, bytes)))) where
  create-cases :
      (d : Dentry) (args : List ℕ)
      → (buffer_size ≤ length args → P overruns)
      → (TooLarge k d → P overruns)
      → P (create frame d k (some args))
  unfolding create
  create-cases d args long large = elim (Bool-cases (leb buffer_size (length args))) [
    | inl e ↦ rw (create, e) (long (ground arith))
    | inr short ↦
        go (get_next_process_number k.pid_array) refl (get_next_process_number_lem k.pid_array)
          short
  ]
    where
      go :
          (r : ℕ × List ℕ)
          → get_next_process_number k.pid_array ≡ r
          → Slot num_max_processes k.pid_array r
          → leb buffer_size (length args) ≡ false
          → P (create frame d k (some args))
      go (n, pids) e (inr (no_slot, unchanged, all)) short =
          let none_free : (n == minus_one) ≡ true = ground arith in
          rw (create, e, short, none_free) full
      go (n, pids) e (inl (lt, free, first, taken)) short =
          let room : (n == minus_one) ≡ false = ground arith in
          let size = flength k.image d.inode_num in
          let (r, read, small) = read_data-Ends k.image d.inode_num size 0 in
          rw (create, e, short, room, taken, read)
            (started args n size r.0 r.1 lt free (λ b. large (omega (arith, b, small))))

  run_entry-cases :
      (fuel : ℕ) (last : Option (List ℕ)) (d : Option Dentry)
      → left last < fuel
      → (buffer_size ≤ length (join (words_of last)) → P overruns)
      → ((d' : Dentry) → d ≡ some d' → TooLarge k d' → P overruns)
      → P (run_entry frame fuel last k d)
  unfolding run_entry
  run_entry-cases fuel last none h long large = same minus_one
  run_entry-cases fuel last (some d) h long large = elim (Bool-cases (d.filetype == 2)) [
    | inr other ↦ rw other (same minus_one)
    | inl regular ↦ rw regular (elim (Bool-cases (is_program (read_data k.image d.inode_num 0 4))) [
      | inr bad ↦ rw bad (same minus_one)
      | inl good ↦
          rw (good, arguments_from-join fuel last h)
            (create-cases d (join (words_of last)) long (large d refl))
    ])
  ]

  run_token-cases :
      (fuel : ℕ) (r : Option (List ℕ) × Option (List ℕ))
      → left r.1 < fuel
      → (buffer_size ≤ length (join (words_of r.1)) → P overruns)
      → ((token : List ℕ) (d : Dentry)
          → r.0 ≡ some token
          → read_dentry_by_name k.image (some token) ≡ some d
          → TooLarge k d
          → P overruns)
      → P (run_token frame fuel k r)
  unfolding run_token
  run_token-cases fuel (none, last) h long large = same minus_one
  run_token-cases fuel (some token, last) h long large = elim (Bool-cases (leb 31 (length token))) [
    | inl long ↦ rw long (same minus_one)
    | inr short ↦ rw short (
        run_entry-cases fuel last (read_dentry_by_name k.image (some token)) h long
          (λ d e big. large token d refl e big))
  ]

  -- A property holds of every run of `execute` if it holds of a refusal that changes nothing, of the one
  -- for want of a slot, of what follows once a free slot is taken, and of an overrun if the arguments or the
  -- file are too long.
  pub execute-cases :
      (command : List ℕ) → (Overflows k command → P overruns) → P (execute frame command k)
  unfolding execute strtok
  execute-cases command over =
      run_token-cases (length command + 1) (strtok_on command)
        (omega (arith, strtok_on-left command)) (λ h. over (inl h))
        (λ token d first found big. over (inr (token, d, first, found, big)))
