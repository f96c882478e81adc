-- ===== src/Boot/Reports.antt =====
-- `entry` comes to the end of its preparations: its reports on the boot loader's data end.
use cheet_os.Base.{
  ℕ, zero, suc, ◌+◌, ◌-◌, ◌%◌, ◌^◌, ◌<◌, ◌≡◌, ◌≤◌, ◌⊎◌, subst, sym, refl, inl, inr, Bool, true,
  false, Option, some, List, [], ◌∷◌, ◌++◌, ltb, get_or, bytes, ◌>>=◌, arith, All, Bool-cases,
}
use cheet_os.Screen.{Screen, puts}
use cheet_os.Printf.{Frame, plain, text_at}
use cheet_os.Printf.Rendered.{rendered, described, printf_lem}
use cheet_os.Boot.{
  Loader, word, say, check_flag, say_if, char_at, say_bytes, load_modules, say_map, report,
  report_rest, find_modules,
}

-- A step that does not fail.
abbrev pub Runs : {A : Type 0} → Option A → Type 0
Runs {A} o = (a : A) × (o ≡ some a)

bind-Runs :
    {A B : Type 0} (o : Option A) (f : A → Option B)
    → Runs o
    → ((a : A) → Runs (f a))
    → Runs (o >>= f)
bind-Runs o f (a, e) h = rw e (h a)

-- The arguments of a call.
abbrev pub words_frame : Loader → List ℕ → Frame
words_frame b words = record {
  words = λ i. get_or words i 0;
  memory = b.memory;
  bound = b.bound;
  conv = b.conv;
}

words-lt : (words : List ℕ) → All (λ w. w < 2 ^ 32) words → (i : ℕ) → get_or words i 0 < 2 ^ 32
words-lt [] h i = omega arith
words-lt (w ∷ ws) h zero = h.0
words-lt (w ∷ ws) h (suc i) = words-lt ws h.1 i

module _ (b : Loader) where
  word-lt : (a : ℕ) → word b a < 2 ^ 32
  unfolding word
  word-lt a = omega arith

  char_at-lt : (a : ℕ) → char_at b a < 2 ^ 32
  unfolding char_at
  char_at-lt a = ground arith

  -- A format that describes a text is printed.
  pub say-Runs :
      (format words : List ℕ) (s : Screen)
      → All (λ w. w < 2 ^ 32) words
      → Runs (rendered (words_frame b words) plain format 0)
      → Runs (say b format words s)
  unfolding say
  say-Runs format words s small (text, e) = (
    (puts text s).1,
    rw (printf_lem (words_frame b words) format s (words-lt words small), e) refl,
  )

  say_if-Runs :
      (test : Bool) (format words : List ℕ) (s : Screen)
      → All (λ w. w < 2 ^ 32) words
      → (test ≡ true → Runs (rendered (words_frame b words) plain format 0))
      → Runs (say_if b test format words s)
  unfolding say_if
  say_if-Runs true format words s small h = say-Runs format words s small (h refl)
  say_if-Runs false format words s small h = (s, refl)

  say_bytes-Runs : (todo i start : ℕ) (s : Screen) → Runs (say_bytes b todo i start s)
  unfolding say_bytes rendered described
  say_bytes-Runs zero i start s = (s, refl)
  say_bytes-Runs (suc todo) i start s =
      bind-Runs (say b (bytes "0x%x ") (char_at b (start + i) ∷ []) s)
        (say_bytes b todo (i + 1) start)
        (say-Runs (bytes "0x%x ") (char_at b (start + i) ∷ []) s (char_at-lt (start + i), tt)
          (_, refl))
        (λ s'. say_bytes-Runs todo (i + 1) start s')

  load_modules-Runs :
      (todo mod_count at block : ℕ) (s : Screen)
      → mod_count + todo < 2 ^ 32
      → Runs (load_modules b todo mod_count at block s)
  unfolding load_modules rendered described
  load_modules-Runs zero mod_count at block s lt = ((block, s), refl)
  load_modules-Runs (suc todo) mod_count at block s lt =
      let small : mod_count < 2 ^ 32 = omega arith in
      let next : mod_count + 1 + todo < 2 ^ 32 = omega arith in
      bind-Runs _ _
        (say-Runs (bytes "Module %d loaded at address: 0x%#x\n") (mod_count ∷ word b at ∷ []) s
          (small, (word-lt at, tt)) (_, refl))
        λ s1.
          bind-Runs _ _
            (say-Runs (bytes "Module %d ends at address: 0x%#x\n")
              (mod_count ∷ word b (at + 4) ∷ []) s1 (small, (word-lt (at + 4), tt)) (_, refl))
            λ s2.
              bind-Runs _ _ (say-Runs (bytes "First few bytes of module:\n") [] s2 tt (_, refl))
                λ s3. bind-Runs _ _ (say_bytes-Runs 16 0 (word b at) s3) λ s4.
                  bind-Runs _ _ (say-Runs (bytes "\n") [] s4 tt (_, refl))
                    λ s5. load_modules-Runs todo (mod_count + 1) (at + 16) (word b at) s5 next

  -- The entries that the loop over the memory map comes to, up to a number of them: each ends, by its size,
  -- before 2 ^ 32.
  abbrev pub Entries : (todo mmap end : ℕ) → Type 0
  Entries zero mmap end = Unit
  Entries (suc todo) mmap end =
      (end ≤ mmap) ⊎ ((mmap + word b mmap + 4 < 2 ^ 32) × Entries todo (mmap + word b mmap + 4) end)

  say_map-Runs :
      (fuel mmap end : ℕ) (s : Screen)
      → Entries fuel mmap end
      → end - mmap < fuel
      → Runs (say_map b fuel mmap end s)
  unfolding say_map rendered described
  say_map-Runs zero mmap end s apart enough = absurd (omega arith)
  say_map-Runs (suc fuel) mmap end s (inl over) enough =
      let outside : ltb mmap end ≡ false = ground arith in rw outside (s, refl)
  say_map-Runs (suc fuel) mmap end s (inr (low, entries)) enough =
      elim (Bool-cases (ltb mmap end)) [
        | inl inside ↦
            let lt : mmap < end = ground arith in
            let same : (mmap + word b mmap + 4) % 2 ^ 32 ≡ mmap + word b mmap + 4 = omega arith in
            let next : end - (mmap + word b mmap + 4) % 2 ^ 32 < fuel = omega arith in
            rw inside (
              bind-Runs _ _
                (say-Runs
                  (bytes
                    "    size = 0x%x, base_addr = 0x%#x%#x\n    type = 0x%x,  length    = 0x%#x%#x\n")
                  (word b mmap
                    ∷ word b (mmap + 8)
                    ∷ word b (mmap + 4)
                    ∷ word b (mmap + 20)
                    ∷ word b (mmap + 16)
                    ∷ word b (mmap + 12)
                    ∷ [])
                  s (word-lt _, (word-lt _, (word-lt _, (word-lt _, (word-lt _, (word-lt _, tt))))))
                  (_, refl))
                (λ s1.
                  say_map-Runs fuel _ end s1 (subst (λ at. Entries fuel at end) (sym same) entries)
                    next))
        | inr outside ↦ rw outside (s, refl)
      ]

  command_line :
      (a : ℕ) (text : List ℕ)
      → text_at b.bound b.memory a ≡ some text
      → rendered (words_frame b (a ∷ [])) plain (bytes "cmdline = %s\n") 0
        ≡ some (bytes "cmdline = " ++ (text ++ bytes "\n"))
  unfolding rendered described
  command_line a text found = rw found refl

  -- The command line, when there is one, is a text.
  report-Runs :
      (addr : ℕ) (s : Screen)
      → (check_flag b (word b addr) 2 ≡ true → Runs (text_at b.bound b.memory (word b (addr + 16))))
      → Runs (report b addr s)
  unfolding report rendered described
  report-Runs addr s text =
      bind-Runs _ _
        (say-Runs (bytes "flags = 0x%#x\n") (word b addr ∷ []) s (word-lt _, tt) (_, refl))
        λ s1.
          bind-Runs _ _
            (say_if-Runs (check_flag b (word b addr) 0)
              (bytes "mem_lower = %uKB, mem_upper = %uKB\n")
              (word b (addr + 4) ∷ word b (addr + 8) ∷ []) s1 (word-lt _, (word-lt _, tt))
              (λ e. (_, refl)))
            λ s2.
              bind-Runs _ _
                (say_if-Runs (check_flag b (word b addr) 1) (bytes "boot_device = 0x%#x\n")
                  (word b (addr + 12) ∷ []) s2 (word-lt _, tt) (λ e. (_, refl)))
                λ s3.
                  say_if-Runs (check_flag b (word b addr) 2) (bytes "cmdline = %s\n")
                    (word b (addr + 16) ∷ []) s3 (word-lt _, tt)
                    (λ e. let (t, found) = text e in (_, command_line (word b (addr + 16)) t found))

  pub report_rest-Runs :
      (fuel addr : ℕ) (s : Screen)
      → (check_flag b (word b addr) 6 ≡ true
          → Entries fuel (word b (addr + 48)) ((word b (addr + 48) + word b (addr + 44)) % 2 ^ 32)
            × ((word b (addr + 48) + word b (addr + 44)) % 2 ^ 32 - word b (addr + 48) < fuel))
      → Runs (report_rest b fuel addr s)
  unfolding report_rest rendered described
  report_rest-Runs fuel addr s map =
      bind-Runs _ _
        (say_if-Runs (check_flag b (word b addr) 5)
          (bytes "elf_sec: num = %u, size = 0x%#x, addr = 0x%#x, shndx = 0x%#x\n")
          (word b (addr + 28) ∷ word b (addr + 32) ∷ word b (addr + 36) ∷ word b (addr + 40) ∷ []) s
          (word-lt _, (word-lt _, (word-lt _, (word-lt _, tt)))) (λ e. (_, refl)))
        λ s1.
          bind-Runs _ _
            (say_if-Runs (check_flag b (word b addr) 6)
              (bytes "mmap_addr = 0x%#x, mmap_length = 0x%x\n")
              (word b (addr + 48) ∷ word b (addr + 44) ∷ []) s1 (word-lt _, (word-lt _, tt))
              (λ e. (_, refl)))
            λ s2. elim (Bool-cases (check_flag b (word b addr) 6)) [
              | inl present ↦
                  let (apart, enough) = map present in
                  rw present (say_map-Runs fuel _ _ s2 apart enough)
              | inr absent ↦ rw absent (s2, refl)
            ]

  pub find_modules-Runs :
      (addr : ℕ) (s : Screen)
      → (check_flag b (word b addr) 2 ≡ true → Runs (text_at b.bound b.memory (word b (addr + 16))))
      → Runs (find_modules b addr s)
  unfolding find_modules
  find_modules-Runs addr s text = bind-Runs _ _ (report-Runs addr s text) λ s1.
      elim (Bool-cases (check_flag b (word b addr) 3)) [
        | inl present ↦ rw present (
            load_modules-Runs (word b (addr + 20)) 0 (word b (addr + 24)) 0 s1
              (let l = word-lt (addr + 20) in omega arith))
        | inr absent ↦ rw absent ((0, s1), refl)
      ]
