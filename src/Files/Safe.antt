-- ===== src/Files/Safe.antt =====
-- No system call on a sound table jumps through a null table, and all of them keep it sound.
use cheet_os.Base.{
  ℕ, ◌^◌, ◌≤◌, ◌<◌, ◌≡◌, refl, inl, inr, Bool, true, false, not, ◌||◌, Option, none, some, List,
  ◌==◌, ltb, set, arith, lt_signed, add32, Bool-cases,
}
use cheet_os.Io.{Device}
use cheet_os.Filesys.{Dentry, read_data}
use cheet_os.Terminal.{Terminal, Buffer}
use cheet_os.Files.{
  Ops, no_ops, terminal_ops, file_ops, directory_ops, rtc_ops, blank, Process, file,
  num_max_open_files, file_avail, file_occup, file_close, directory_close, Outcome, returns, waits,
  faults, out_of_table, advance, file_read, list_entry, directory_read, close_by, close, read_by,
  read, write_by, write, Events, from_terminal,
}
use cheet_os.Files.Table.{IsTable, Keeps, set-IsTable, is_entry_free, allowed}

-- An outcome that is no fault, with what it has kept if it returns.
abbrev pub Good : Process → Outcome → Type 0
Good p (returns r buf q) = Keeps p q
Good p waits = Unit {0}
Good p faults = ⊥

-- An outcome that returns, with what it has kept.
abbrev pub Done : Process → Outcome → Type 0
Done p (returns r buf q) = Keeps p q
Done p waits = ⊥
Done p faults = ⊥

in_table :
    (low fd : ℕ)
    → fd < 2 ^ 32
    → low ≤ 2
    → out_of_table low fd ≡ false
    → (low ≤ fd) × (fd < num_max_open_files)
in_table low fd h l e = ground arith

-- An open descriptor of a sound table has operations, those of its kind.
open-allowed :
    (p : Process) (fd : ℕ)
    → IsTable p.file_array
    → fd < num_max_open_files
    → ((file p fd).flags == file_avail) ≡ false
    → ((file p fd).flags ≡ file_occup) × (allowed (ltb fd 2) (file p fd).file_ops_table_ptr ≡ true)
open-allowed p fd t h e = ground (arith, t.entry fd h)

module _ (p : Process) (t : IsTable p.file_array) where
  same : Keeps p p
  same = record { image = refl; table = t }

  file_close-Keeps : (fd : ℕ) → fd < num_max_open_files → Keeps p (file_close fd p).1
  unfolding file_close
  file_close-Keeps fd h =
      elim (Bool-cases (not (lt_signed fd num_max_open_files) || lt_signed fd 0)) [
        | inl e ↦ rw e same
        | inr e ↦ rw e (elim (Bool-cases ((file p fd).flags == file_avail)) [
          | inl e ↦ rw e same
          | inr e ↦ rw e (record {
            image = refl;
            table = set-IsTable fd blank t h (is_entry_free fd blank refl);
          })
        ])
      ]

  close_by-Done :
      (o : Ops) (fd : ℕ)
      → fd < num_max_open_files
      → allowed false o ≡ true
      → Done p (close_by o fd p)
  unfolding close_by directory_close
  close_by-Done no_ops fd h ok = cc
  close_by-Done terminal_ops fd h ok = cc
  close_by-Done file_ops fd h ok = file_close-Keeps fd h
  close_by-Done directory_ops fd h ok = file_close-Keeps fd h
  close_by-Done rtc_ops fd h ok = cc

  -- With a sound table `close` on any word returns, without a fault, and keeps the image and a sound
  -- table.
  pub close-Done : (fd : ℕ) → fd < 2 ^ 32 → Done p (close fd p)
  unfolding close
  close-Done fd h = elim (Bool-cases (out_of_table 2 fd)) [
    | inl e ↦ rw e same
    | inr inside ↦ rw inside (elim (Bool-cases ((file p fd).flags == file_avail)) [
      | inl e ↦ rw e same
      | inr busy ↦
          let range = in_table 2 fd h (omega arith) inside in
          let file_like : allowed false (file p fd).file_ops_table_ptr ≡ true =
            ground (arith, open-allowed p fd t range.1 busy) in
          rw busy (close_by-Done (file p fd).file_ops_table_ptr fd range.1 file_like)
    ])
  ]

  moved-Keeps :
      (fd position : ℕ)
      → fd < num_max_open_files
      → Keeps p (record p {
        file_array = set p.file_array fd (record (file p fd) { file_position = position });
      })
  moved-Keeps fd position h = record {
    image = refl;
    table = set-IsTable fd (record (file p fd) { file_position = position }) t h (t.entry fd h);
  }

  advance-Good :
      (fd : ℕ) (buf : ℕ → ℕ) (o : Option (ℕ × List ℕ))
      → fd < num_max_open_files
      → Good p (advance fd buf p o)
  unfolding advance
  advance-Good fd buf none h = tt
  advance-Good fd buf (some (r, bytes)) h = moved-Keeps fd (add32 (file p fd).file_position r) h

  file_read-Good :
      (fd : ℕ) (buf : ℕ → ℕ) (nbytes : ℕ)
      → fd < num_max_open_files
      → Good p (file_read fd buf nbytes p)
  unfolding file_read
  file_read-Good fd buf nbytes h = elim (Bool-cases (fd == 1 || fd == 0)) [
    | inl e ↦ rw e same
    | inr e ↦ rw e (
        advance-Good fd buf
          (read_data p.image (file p fd).inode_num (file p fd).file_position nbytes) h)
  ]

  list_entry-Good :
      (fd : ℕ) (buf : ℕ → ℕ) (o : Option Dentry)
      → fd < num_max_open_files
      → Good p (list_entry fd buf p o)
  unfolding list_entry
  list_entry-Good fd buf none h = same
  list_entry-Good fd buf (some d) h = moved-Keeps fd (add32 (file p fd).file_position 1) h

  from_terminal-Good : (o : Option (ℕ × Buffer × Terminal)) → Good p (from_terminal p o)
  unfolding from_terminal
  from_terminal-Good none = tt
  from_terminal-Good (some (r, buf, u)) = record { image = refl; table = t }

  read_by-Good :
      (device : Device) (events : Events) (low : Bool) (o : Ops) (fd : ℕ) (buf : ℕ → ℕ) (nbytes : ℕ)
      → fd < num_max_open_files
      → allowed low o ≡ true
      → Good p (read_by device events o fd buf nbytes p)
  unfolding read_by directory_read
  read_by-Good device events low terminal_ops fd buf nbytes h ok = from_terminal-Good _
  read_by-Good device events low file_ops fd buf nbytes h ok = file_read-Good fd buf nbytes h
  read_by-Good device events low directory_ops fd buf nbytes h ok = list_entry-Good fd buf _ h
  read_by-Good device events true no_ops fd buf nbytes h ok = cc
  read_by-Good device events false no_ops fd buf nbytes h ok = cc
  read_by-Good device events true rtc_ops fd buf nbytes h ok = cc
  read_by-Good device events false rtc_ops fd buf nbytes h ok = cc

  -- With a sound table `read` on any word does not fault: it waits, or it returns and has kept
  -- the image and a sound table.
  pub read-Good :
      (device : Device) (events : Events) (fd : ℕ) (buf : ℕ → ℕ) (nbytes : ℕ)
      → fd < 2 ^ 32
      → Good p (read device events fd buf nbytes p)
  unfolding read
  read-Good device events fd buf nbytes h = elim (Bool-cases (out_of_table 0 fd)) [
    | inl e ↦ rw e same
    | inr inside ↦ rw inside (elim (Bool-cases ((file p fd).flags == file_avail)) [
      | inl e ↦ rw e same
      | inr busy ↦
          let range = in_table 0 fd h (omega arith) inside in
          rw busy (
            read_by-Good device events (ltb fd 2) (file p fd).file_ops_table_ptr fd buf nbytes
              range.1 (open-allowed p fd t range.1 busy).1)
    ])
  ]

  write_by-Done :
      (low : Bool) (o : Ops) (fd : ℕ) (buf : ℕ → ℕ) (nbytes : ℕ)
      → allowed low o ≡ true
      → Done p (write_by o fd buf nbytes p)
  unfolding write_by
  write_by-Done low terminal_ops fd buf nbytes ok = record { image = refl; table = t }
  write_by-Done low file_ops fd buf nbytes ok = same
  write_by-Done low directory_ops fd buf nbytes ok = same
  write_by-Done true no_ops fd buf nbytes ok = cc
  write_by-Done false no_ops fd buf nbytes ok = cc
  write_by-Done true rtc_ops fd buf nbytes ok = cc
  write_by-Done false rtc_ops fd buf nbytes ok = cc

  -- With a sound table `write` on any word returns, without a fault, and keeps the image and a sound
  -- table.
  pub write-Done :
      (fd : ℕ) (buf : ℕ → ℕ) (nbytes : ℕ) → fd < 2 ^ 32 → Done p (write fd buf nbytes p)
  unfolding write
  write-Done fd buf nbytes h = elim (Bool-cases (out_of_table 0 fd)) [
    | inl e ↦ rw e same
    | inr inside ↦ rw inside (elim (Bool-cases ((file p fd).flags == file_avail)) [
      | inl e ↦ rw e same
      | inr busy ↦
          let range = in_table 0 fd h (omega arith) inside in
          rw busy (
            write_by-Done (ltb fd 2) (file p fd).file_ops_table_ptr fd buf nbytes
              (open-allowed p fd t range.1 busy).1)
    ])
  ]
