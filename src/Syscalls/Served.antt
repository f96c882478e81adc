-- ===== src/Syscalls/Served.antt =====
-- Every system call of a program: what each ending of it is, whatever the registers hold.
use cheet_os.Base.{
  ℕ, ◌^◌, ◌%◌, ◌<◌, ◌+◌, ◌≡◌, ◌≢◌, not, length, arith, Bool-cases, subst, refl, List, ◌∷◌, inl, inr,
  ◌==◌, Option-cases, true, false, Option, none, some, lt_signed, minus_one, ==_iff, if◌then◌else◌,
  Bool,
}
use cheet_os.Screen.{Screen}
use cheet_os.Terminal.{terminal_read, terminal_write}
use cheet_os.Paging.{Paging, vidmap}
use cheet_os.Strings.{store_dword}
use cheet_os.Files.{
  Process, Outcome, returns, waits, faults, read, write, close, open_file, file, Ops, no_ops,
  terminal_ops, file_ops, directory_ops, rtc_ops, from_terminal,
}
use cheet_os.Files.Table.{IsTable, open_file-Keeps}
use cheet_os.Files.Safe.{Good, Done, read-Good, write-Done, close-Done}
use cheet_os.Tasks.{
  Kernel, Frame, Ending, Return, getargs, pcb_address, current_pcb, num_max_processes, halt,
  execute,
}
use cheet_os.Tasks
use cheet_os.Tasks.Calls.{Balanced, execute-halt}
use cheet_os.Tasks.Chain.{After, execute-After}
use cheet_os.Tasks.Nested.{halts-Returns}
use cheet_os.Syscalls.State.{
  System, process_of, with_process, user_at, with_user, user_text, inside,
}
use cheet_os.Syscalls.{
  after_execute, store_start, Trap, Result, returned, read_uses, write_uses, read_room, read_null,
  write_null, open_named, open_text, run_command, after_getargs, after_file, call_read, call_write,
  call_close, call_open, call_execute, call_halt, call_getargs, call_vidmap, set_handler, sigreturn,
  system_call,
}
use cheet_os.Syscalls.Messages.{set_handler_lem, sigreturn_lem}
use cheet_os.Syscalls.Sound.{
  Live, kept-Live, with_process-Live, executes-Live, refuses-Live, halts-Live,
}
use cheet_os.Syscalls.Endings.{Strays, Served}

negated : (b : Bool) → not b ≡ false → b ≡ true
negated true e = refl
negated false e = absurd (ground (arith, e))

module _ (t : Trap) (s : System) (call : ℕ × Frame) (calls : List (ℕ × Frame))
    (live : Live s.kernel (call ∷ calls))
    (stack : current_pcb t.frame.esp ≡ pcb_address s.kernel.curr_process) where
  -- The table that the kernel's stack leads to.
  own-IsTable : IsTable (process_of t.frame.esp s).file_array
  unfolding process_of
  own-IsTable = rw stack live.tables.0

  back : (v : ℕ) (q : System) → q.kernel ≡ s.kernel → Served t s call calls (returned v q)
  back v q same = rw same (live, refl)

  chosen :
      (b : Bool) (x y : Result)
      → (b ≡ true → Served t s call calls x)
      → (b ≡ false → Served t s call calls y)
      → Served t s call calls (if b then x else y)
  chosen true x y yes_ no_ = yes_ refl
  chosen false x y yes_ no_ = no_ refl

  with_user-Served :
      (v at : ℕ) (b : ℕ → ℕ) (q : System)
      → Served t s call calls (returned v q)
      → Served t s call calls (returned v (with_user at b q))
  unfolding with_user
  with_user-Served v at b q (l, same) = (kept-Live (with_user at b q).kernel l refl refl refl, same)

  with_process-Served :
      (v : ℕ) (p : Process)
      → IsTable p.file_array
      → Served t s call calls (returned v (with_process t.frame.esp p s))
  with_process-Served v p table =
      (with_process-Live s t.frame.esp p live table, unfold with_process in refl)

  after_file-Served :
      (pointer : Option ℕ) (o : Outcome)
      → Good (process_of t.frame.esp s) o
      → (o ≡ waits → t.eax ≡ 3)
      → Served t s call calls (after_file t pointer s o)
  unfolding after_file
  after_file-Served pointer waits good why = why refl
  after_file-Served pointer faults good why = good
  after_file-Served none (returns v buf p) good why = with_process-Served v p good.table
  after_file-Served (some at) (returns v none p) good why = with_process-Served v p good.table
  after_file-Served (some at) (returns v (some b) p) good why =
      with_user-Served v at b (with_process t.frame.esp p s) (with_process-Served v p good.table)

  after-Done :
      (o : Outcome)
      → Done (process_of t.frame.esp s) o
      → Served t s call calls (after_file t none s o)
  unfolding after_file
  after-Done waits done = absurd done
  after-Done faults done = done
  after-Done (returns v buf p) done = with_process-Served v p done.table

  read_null-Served :
      (o : Ops) → Strays t s → Served t s call calls (read_null t o s (process_of t.frame.esp s))
  unfolding read_null after_file from_terminal terminal_read
  read_null-Served terminal_ops why =
      with_process-Served minus_one (process_of t.frame.esp s) own-IsTable
  read_null-Served no_ops why = why
  read_null-Served file_ops why = why
  read_null-Served directory_ops why = why
  read_null-Served rtc_ops why = why

  call_read-Served : t.eax ≡ 3 → t.ebx < 2 ^ 32 → Served t s call calls (call_read t s)
  unfolding call_read
  call_read-Served three word =
      let p = process_of t.frame.esp s in
      let driver = (file p t.ebx).file_ops_table_ptr in
      let done = read t.device t.events t.ebx (user_at s t.ecx) t.edx p in
      let good : Good p done =
        read-Good p own-IsTable t.device t.events t.ebx (user_at s t.ecx) t.edx word in
      chosen (not (read_uses t.ebx p)) _ _ (λ e. after_file-Served none done good (λ w. three))
        (λ uses.
          let used : read_uses t.ebx p ≡ true = negated (read_uses t.ebx p) uses in
          chosen (t.ecx == 0) _ _
            (λ e.
              let zero_out : inside t.ecx (read_room driver t.edx) ≡ false = ground (arith, e) in
              read_null-Served driver (inl (three, used, zero_out)))
            (λ ne.
              chosen (inside t.ecx (read_room driver t.edx)) _ _
                (λ e. after_file-Served (some t.ecx) done good (λ w. three))
                (λ out. inl (three, used, out))))

  write_null-Served : Served t s call calls (write_null t s (process_of t.frame.esp s))
  unfolding write_null terminal_write
  write_null-Served = with_process-Served minus_one (process_of t.frame.esp s) own-IsTable

  call_write-Served : t.eax ≡ 4 → t.ebx < 2 ^ 32 → Served t s call calls (call_write t s)
  unfolding call_write
  call_write-Served four word =
      let p = process_of t.frame.esp s in
      let done = write t.ebx (user_at s t.ecx) t.edx p in
      let served : Served t s call calls (after_file t none s done) =
        after-Done done (write-Done p own-IsTable t.ebx (user_at s t.ecx) t.edx word) in
      chosen (not (write_uses t.ebx p)) _ _ (λ e. served)
        (λ uses.
          let used : write_uses t.ebx p ≡ true = negated (write_uses t.ebx p) uses in
          chosen (t.ecx == 0) _ _ (λ e. write_null-Served)
            (λ ne.
              chosen (inside t.ecx t.edx) _ _ (λ e. served) (λ out. inr (inl (four, used, out)))))

  call_close-Served : t.ebx < 2 ^ 32 → Served t s call calls (call_close t s)
  unfolding call_close
  call_close-Served word =
      after-Done (close t.ebx (process_of t.frame.esp s))
        (close-Done (process_of t.frame.esp s) own-IsTable t.ebx word)

  open_named-Served : (name : Option (List ℕ)) → Served t s call calls (open_named t s name)
  unfolding open_named
  open_named-Served name =
      with_process-Served (open_file t.device name (process_of t.frame.esp s)).0
        (open_file t.device name (process_of t.frame.esp s)).1
        (open_file-Keeps t.device own-IsTable name).table

  call_open-Served : t.eax ≡ 5 → Served t s call calls (call_open t s)
  unfolding call_open open_text
  call_open-Served five =
      chosen (t.ebx == 0) _ _ (λ e. open_named-Served none)
        (λ ne. elim (Option-cases (user_text s t.ebx)) [
          | inl e ↦ rw e (inr (inr (inl (five, (λ z. ground (arith, ne, z)), e))))
          | inr (name, e) ↦ rw e (open_named-Served (some name))
        ])

  after_execute-Served :
      (o : Ending)
      → After t.frame s.kernel o
      → (o ≡ Tasks.overruns → Strays t s)
      → Served t s call calls (after_execute t s o)
  unfolding after_execute
  after_execute-Served (Tasks.refused v q) (kept, process, blocks) over =
      (refuses-Live live (kept, process, blocks), process)
  after_execute-Served (Tasks.enters e top q) made over = executes-Live t.frame live made
  after_execute-Served Tasks.waits none_of over = absurd none_of
  after_execute-Served Tasks.overruns none_of over = over refl

  call_execute-Served : t.eax ≡ 2 → Served t s call calls (call_execute t s)
  unfolding call_execute run_command
  call_execute-Served two = elim (Option-cases (user_text s t.ebx)) [
    | inl e ↦ rw e (inr (inr (inr (inl (two, e)))))
    | inr (command, e) ↦ rw e (
        after_execute-Served (execute t.frame command s.kernel)
          (execute-After t.frame s.kernel live.sound.size command)
          (λ over. inr (
            inr (
              inr (
                inr (
                  inl (
                    two,
                    (
                      command,
                      e,
                      subst (Balanced t.frame 0 s.kernel command) over
                          (execute-halt t.frame 0 s.kernel command),
                    ),
                  )))))))
  ]

  call_halt-Served : Served t s call calls (call_halt t s)
  unfolding call_halt
  call_halt-Served = (halts-Live (t.ebx % 256) live, halts-Returns (t.ebx % 256) live.sound)

  after_getargs-Served :
      t.eax ≡ 7 → t.ebx ≢ 0 → (r : ℕ × Option (ℕ → ℕ)) → Served t s call calls (after_getargs t s r)
  unfolding after_getargs
  after_getargs-Served seven ne (v, none) = back v s refl
  after_getargs-Served seven ne (v, some b) =
      chosen (not (v == 0)) _ _ (λ e. back v s refl)
        (λ ok.
          chosen (inside t.ebx (length (s.kernel.pcb (current_pcb t.frame.esp)).arg + 1)) _ _
            (λ e. with_user-Served v t.ebx b s (back v s refl))
            (λ out. inr (inr (inr (inr (inr (inl (seven, ne, out))))))))

  call_getargs-Served : t.eax ≡ 7 → Served t s call calls (call_getargs t s)
  unfolding call_getargs
  call_getargs-Served seven = elim (Bool-cases (t.ebx == 0)) [
    | inl null ↦ rw null (unfold getargs in unfold after_getargs in back minus_one s refl)
    | inr other ↦ rw other (
        after_getargs-Served seven (λ z. ground (arith, other, z))
          (getargs t.frame.esp (some (user_at s t.ebx)) t.ecx s.kernel))
  ]

  store_start-Served :
      t.eax ≡ 8
      → (r : ℕ × Option ℕ × Paging)
      → Served t s call calls
          (store_start t r.0 r.1 (record s { kernel = record s.kernel { paging = r.2 } }))
  unfolding store_start
  store_start-Served eight (v, none, paging) =
      (kept-Live (record s.kernel { paging = paging }) live refl refl refl, refl)
  store_start-Served eight (v, some start, paging) =
      let q : System = record s { kernel = record s.kernel { paging = paging } } in
      chosen (inside t.ebx 4) _ _
        (λ e.
          with_user-Served v t.ebx (store_dword (user_at q t.ebx) 0 start) q
            (kept-Live q.kernel live refl refl refl, refl))
        (λ out. inr (inr (inr (inr (inr (inr (eight, out)))))))

  call_vidmap-Served : t.eax ≡ 8 → Served t s call calls (call_vidmap t s)
  unfolding call_vidmap
  call_vidmap-Served eight = store_start-Served eight (vidmap t.ebx s.kernel.paging)

  shows :
      (screen : Screen)
      → Served t s call calls
          (returned minus_one (record s { kernel = record s.kernel { screen = screen } }))
  shows screen = (kept-Live (record s.kernel { screen = screen }) live refl refl refl, refl)

  set_handler-Served : t.ebx < 2 ^ 32 → t.ecx < 2 ^ 32 → Served t s call calls (set_handler t s)
  set_handler-Served b c = rw (set_handler_lem t s b c) (shows _)

  sigreturn-Served : Served t s call calls (sigreturn t s)
  sigreturn-Served = rw (sigreturn_lem t s) (shows _)

  -- Every trap of a program with words in its registers is served, whatever processes are running. The stack
  -- of the trap is the kernel stack of the process.
  pub system_call-Served : t.ebx < 2 ^ 32 → t.ecx < 2 ^ 32 → Served t s call calls (system_call t s)
  unfolding system_call
  system_call-Served b c =
      let fails : Served t s call calls (returned minus_one s) = back minus_one s refl in
      chosen (lt_signed t.eax 1) _ _ (λ e. fails)
        (λ e.
          chosen (lt_signed 10 t.eax) _ _ (λ e. fails)
            (λ e.
              chosen (t.eax == 1) _ _ (λ e. call_halt-Served)
                (λ e.
                  chosen (t.eax == 2) _ _ (λ e. call_execute-Served ((==_iff t.eax 2).0 e))
                    (λ e.
                      chosen (t.eax == 3) _ _ (λ e. call_read-Served ((==_iff t.eax 3).0 e) b)
                        (λ e.
                          chosen (t.eax == 4) _ _ (λ e. call_write-Served ((==_iff t.eax 4).0 e) b)
                            (λ e.
                              chosen (t.eax == 5) _ _ (λ e. call_open-Served ((==_iff t.eax 5).0 e))
                                (λ e.
                                  chosen (t.eax == 6) _ _ (λ e. call_close-Served b)
                                    (λ e.
                                      chosen (t.eax == 7) _ _
                                        (λ e. call_getargs-Served ((==_iff t.eax 7).0 e))
                                        (λ e.
                                          chosen (t.eax == 8) _ _
                                            (λ e. call_vidmap-Served ((==_iff t.eax 8).0 e))
                                            (λ e.
                                              chosen (t.eax == 9) _ _ (λ e. set_handler-Served b c)
                                                (λ e. sigreturn-Served)))))))))))
