-- ===== src/Files/Table.antt =====
-- The descriptor table: what every call keeps, and that no call jumps through a null table.
use cheet_os.Base.{
  ℕ, zero, suc, ◌+◌, ◌≤◌, ◌<◌, ◌≡◌, refl, ◌≢◌, inl, inr, ◌∙◌, sym, ◌&&◌, Bool, true, false, not,
  ◌||◌, Option, none, some, List, ◌==◌, ltb, leb, if◌then◌else◌, get_or, set, length, length-set,
  get_or-set_self, get_or-set_ne, arith, minus_one, Bool-cases, Option-cases, ==_iff, tested_below,
  tested_value, replicate, ◌∷◌,
}
use native.Mathlib.Decide.{ℕ_discrete}
use cheet_os.Io.{Device}
use cheet_os.Filesys.{Dentry, filename_len, read_dentry_by_name}
use cheet_os.Files.{
  Ops, terminal_ops, file_ops, directory_ops, File, blank, Process, file, opened, of_clock,
  num_max_open_files, file_avail, file_occup, free_from, open_entry, open_found, file_open,
  directory_open, open_as, open_file, terminal_file, init_file_array,
}

-- The operations that an open descriptor may have: the terminal's below 2, a file's or a
-- directory's from there on.
abbrev pub allowed : (terminal : Bool) → Ops → Bool
allowed true terminal_ops = true
allowed false file_ops = true
allowed false directory_ops = true
allowed _ _ = false

-- A descriptor is free, or open with such operations.
abbrev pub is_entry : ℕ → File → Bool
is_entry fd f =
    f.flags == file_avail || (f.flags == file_occup && allowed (ltb fd 2) f.file_ops_table_ptr)

pub record IsTable (files : List File) : Type 0 where
  pub size : length files ≡ num_max_open_files
  pub entry : (fd : ℕ) → fd < num_max_open_files → is_entry fd (get_or files fd blank) ≡ true

pub get_or-set :
    (files : List File) (i j : ℕ) (f : File)
    → i < length files
    → get_or (set files i f) j blank ≡ (if i == j then f else get_or files j blank)
get_or-set files i j f h = elim (ℕ_discrete i j) [
  | yes e ↦
      let same : (i == j) ≡ true = ground arith in
      rw same (rw (← e) (get_or-set_self files i f blank h))
  | no ne ↦
      let other : (i == j) ≡ false = ground arith in rw other (get_or-set_ne files i j f blank ne)
]

pub set-IsTable :
    {files : List File} (i : ℕ) (f : File)
    → IsTable files
    → i < num_max_open_files
    → is_entry i f ≡ true
    → IsTable (set files i f)
set-IsTable {files} i f t h e = record {
  size = length-set files i f ∙ t.size;
  entry = λ fd lt.
      rw (get_or-set files i fd f (omega (arith, t.size))) (elim (Bool-cases (i == fd)) [
        | inl same ↦ let here : fd ≡ i = sym ((==_iff _ _).0 same) in rw same (rw here e)
        | inr other ↦ rw other (t.entry fd lt)
      ]);
}

pub free_from-le :
    (files : List File) (todo idx : ℕ)
    → (idx ≤ free_from files todo idx) × (free_from files todo idx ≤ idx + todo)
unfolding free_from
free_from-le files zero idx = omega arith
free_from-le files (suc todo) idx = ground (arith, free_from-le files todo (idx + 1))

-- The descriptor found is free, and none before it is.
pub free_from-free :
    (files : List File) (todo idx : ℕ)
    → free_from files todo idx < idx + todo
    → (get_or files (free_from files todo idx) blank).flags ≡ file_avail
unfolding free_from
free_from-free files zero idx h = absurd (omega arith)
free_from-free files (suc todo) idx h = ground (arith, free_from-free files todo (idx + 1))

pub free_from-first :
    (files : List File) (todo idx j : ℕ)
    → idx ≤ j
    → j < free_from files todo idx
    → (get_or files j blank).flags ≢ file_avail
unfolding free_from
free_from-first files zero idx j lo hi = absurd (omega arith)
free_from-first files (suc todo) idx j lo hi = elim (ℕ_discrete idx j) [
  | yes e ↦ rw (← e) (ground arith)
  | no ne ↦ ground (arith, free_from-first files todo (idx + 1) j)
]

pub is_entry_open :
    (fd : ℕ) (f : File)
    → 2 ≤ fd
    → f.flags ≡ file_occup
    → allowed false f.file_ops_table_ptr ≡ true
    → is_entry fd f ≡ true
is_entry_open fd f lo open_flag ok =
    let high : ltb fd 2 ≡ false = ground arith in rw (open_flag, high, ok) refl

pub is_entry_free : (fd : ℕ) (f : File) → f.flags ≡ file_avail → is_entry fd f ≡ true
is_entry_free fd f free = rw free refl

-- The entries of a new table.
fresh_entries :
    tested_below num_max_open_files
      (λ fd. is_entry fd (get_or (terminal_file ∷ terminal_file ∷ replicate 6 blank) fd blank))
    ≡ true
unfolding tested_below
fresh_entries = refl

-- The table that a new process gets is sound.
pub init_file_array-IsTable : (files : List File) → IsTable (init_file_array files)
unfolding init_file_array
init_file_array-IsTable files = record {
  size = refl;
  entry = λ fd lt.
      tested_value num_max_open_files
        (λ fd. is_entry fd (get_or (terminal_file ∷ terminal_file ∷ replicate 6 blank) fd blank)) fd
        fresh_entries lt;
}

-- What no call changes: the image, and that the table is sound.
pub record Keeps (p q : Process) : Type 0 where
  pub image : q.image ≡ p.image
  pub table : IsTable q.file_array

module _ (device : Device) {p : Process} (t : IsTable p.file_array) where
  open_entry-Keeps :
      (d : Dentry) (idx : ℕ)
      → 2 ≤ idx
      → idx < num_max_open_files
      → (file p idx).flags ≡ file_avail
      → Keeps p (open_entry device d idx p).1
  unfolding open_entry
  open_entry-Keeps d idx lo hi free = elim (Bool-cases (d.filetype == 2)) [
    | inl e ↦ rw e (record {
      image = refl;
      table =
          set-IsTable idx (opened file_ops d.inode_num) t hi
            (is_entry_open idx (opened file_ops d.inode_num) lo refl refl);
    })
    | inr e ↦ rw e (elim (Bool-cases (d.filetype == 1)) [
      | inl e ↦ rw e (record {
        image = refl;
        table =
            set-IsTable idx (opened directory_ops d.inode_num) t hi
              (is_entry_open idx (opened directory_ops d.inode_num) lo refl refl);
      })
      | inr e ↦ rw e (elim (Bool-cases (d.filetype == 0)) [
        | inl e ↦ rw e (record {
          image = refl;
          table =
              set-IsTable idx (of_clock d.inode_num (file p idx)) t hi
                (is_entry_free idx (of_clock d.inode_num (file p idx)) free);
        })
        | inr e ↦ rw e (record { image = refl; table = t })
      ])
    ])
  ]

  open_found-Keeps : (o : Option Dentry) → Keeps p (open_found device o p).1
  unfolding open_found
  open_found-Keeps none = record { image = refl; table = t }
  open_found-Keeps (some d) =
      let idx = free_from p.file_array 6 2 in
      elim (Bool-cases (leb num_max_open_files idx)) [
        | inl full ↦ rw full (record { image = refl; table = t })
        | inr room ↦ rw room (
            open_entry-Keeps d idx (free_from-le p.file_array 6 2).0 (ground arith)
              (free_from-free p.file_array 6 2 (ground arith)))
      ]

  file_open-Keeps : (name : Option (List ℕ)) → Keeps p (file_open device name p).1
  unfolding file_open
  file_open-Keeps none = record { image = refl; table = t }
  file_open-Keeps (some name) = elim (Bool-cases (leb filename_len (length name))) [
    | inl long ↦ rw long (record { image = refl; table = t })
    | inr ok ↦ rw ok (open_found-Keeps (read_dentry_by_name p.image (some name)))
  ]

  directory_open-Keeps : (name : Option (List ℕ)) → Keeps p (directory_open device name p).1
  unfolding directory_open
  directory_open-Keeps name = elim (Option-cases (read_dentry_by_name p.image name)) [
    | inl e ↦ rw (e, directory_open) (record { image = refl; table = t })
    | inr (d, e) ↦
        rw (e, directory_open)
          (elim (Bool-cases (not (d.filetype == 1))) [
            | inl other ↦ rw other (record { image = refl; table = t })
            | inr dir ↦ rw dir (file_open-Keeps name)
          ])
  ]

Keeps-trans : {p q r : Process} → Keeps p q → Keeps q r → Keeps p r
Keeps-trans a b = record { image = b.image ∙ a.image; table = b.table }

module _ (device : Device) {p : Process} (t : IsTable p.file_array) (name : Option (List ℕ)) where
  open_as-Keeps : (filetype : ℕ) → Keeps p (open_as device name filetype p).1
  unfolding open_as
  open_as-Keeps filetype =
      let once = file_open-Keeps device t name in
      elim (Bool-cases (filetype == 1)) [
        | inl e ↦ rw e (directory_open-Keeps device t name)
        | inr e ↦ rw e (elim (Bool-cases (filetype == 0)) [
          | inl e ↦ rw e (elim (Bool-cases ((file_open device name p).0 == minus_one)) [
            | inl e ↦ rw e once
            | inr e ↦ rw e (Keeps-trans once (file_open-Keeps device once.table name))
          ])
          | inr e ↦ rw e (elim (Bool-cases (filetype == 2)) [
            | inl e ↦ rw e once
            | inr e ↦ rw e (record { image = refl; table = t })
          ])
        ])
      ]

  -- `open` with a sound table keeps the image and a sound table, whatever is opened and whether
  -- it succeeds.
  pub open_file-Keeps : Keeps p (open_file device name p).1
  unfolding open_file
  open_file-Keeps = elim (Option-cases (read_dentry_by_name p.image name)) [
    | inl e ↦ rw (e, open_file) (record { image = refl; table = t })
    | inr (d, e) ↦ rw (e, open_file) (open_as-Keeps d.filetype)
  ]
