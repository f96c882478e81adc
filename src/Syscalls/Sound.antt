-- ===== src/Syscalls/Sound.antt =====
-- What holds of the kernel between system calls, and that the parts of a call keep it.
use cheet_os.Base.{ℕ, ◌≡◌, refl, ◌≢◌, ap, List, ◌∷◌, inl, inr, ◌==◌, Bool-cases, arith}
use cheet_os.Files.{Process}
use cheet_os.Files.Table.{IsTable}
use cheet_os.Tasks.{Kernel, Frame, pcb_address, current_pcb, halt}
use cheet_os.Tasks.Chain.{link, Each, Each-map, Chain-apart, Spawns, Kept}
use cheet_os.Tasks.Nested.{Sound, executes-Sound, refuses-Sound, works-Sound, halts-Sound}
use cheet_os.Syscalls.State.{System, with_process}

abbrev pub Table : Kernel → ℕ → Type 0
Table k i = IsTable (k.pcb (pcb_address i)).file_array

-- The control blocks lead back along the calls of `execute` that have not returned, and the descriptors of
-- each of their processes are sound.
pub record Live (k : Kernel) (calls : List (ℕ × Frame)) : Type 0 where
  pub sound : Sound k calls
  pub tables : Each (Table k) k.curr_process calls

module _ {calls : List (ℕ × Frame)} where
  -- What changes neither slots, nor the current process, nor a control block.
  pub kept-Live :
      {k : Kernel} (q : Kernel)
      → Live k calls
      → q.curr_process ≡ k.curr_process
      → q.pid_array ≡ k.pid_array
      → q.pcb ≡ k.pcb
      → Live q calls
  kept-Live {k} q live process slots blocks = record {
    sound = works-Sound live.sound process slots (λ a. ap (λ b. link (b a)) blocks);
    tables = rw process (
        Each-map k (Table k) (Table k) (Table q) k.curr_process calls (λ i lt t _. rw blocks t)
          live.sound.chain live.tables live.tables);
  }

  -- What a call on descriptors has left of its process.
  pub with_process-Live :
      (s : System) (esp : ℕ) (p : Process)
      → Live s.kernel calls
      → IsTable p.file_array
      → Live (with_process esp p s).kernel calls
  unfolding with_process
  with_process-Live s esp p live t =
      let q = (with_process esp p s).kernel in
      record {
        sound = works-Sound live.sound refl refl (λ a. elim (Bool-cases (a == current_pcb esp)) [
          | inl e ↦ rw e refl
          | inr e ↦ rw e refl
        ]);
        tables =
            Each-map s.kernel (Table s.kernel) (Table s.kernel) (Table q) s.kernel.curr_process
              calls
              (λ i lt old _. elim (Bool-cases (pcb_address i == current_pcb esp)) [
                | inl e ↦ rw e t
                | inr e ↦ rw e old
              ])
              live.sound.chain live.tables live.tables;
      }

pub executes-Live :
    {k q : Kernel} {calls : List (ℕ × Frame)} (frame : Frame)
    → Live k calls
    → Spawns frame k q
    → Live q ((k.curr_process, frame) ∷ calls)
unfolding pcb_address
executes-Live {k} {q} {calls} frame live made = record {
  sound = executes-Sound frame live.sound made;
  tables = (
    made.table,
    Each-map k (λ i. q.curr_process ≢ i) (Table k) (Table q) k.curr_process calls
        (λ i lt away t.
          let same : q.pcb (pcb_address i) ≡ k.pcb (pcb_address i) =
            made.others (pcb_address i) (λ e. away (let l = made.lt in omega (arith, e, l, lt))) in
          rw same t)
        live.sound.chain
        (Chain-apart k q.curr_process k.curr_process calls made.free live.sound.chain) live.tables,
  );
}

pub refuses-Live :
    {k q : Kernel} {calls : List (ℕ × Frame)}
    → Live k calls
    → Kept k q × (q.curr_process ≡ k.curr_process) × (q.pcb ≡ k.pcb)
    → Live q calls
refuses-Live {k} {q} {calls} live (kept, process, blocks) = record {
  sound = refuses-Sound live.sound (kept, process, blocks);
  tables = rw process (
      Each-map k (Table k) (Table k) (Table q) k.curr_process calls (λ i lt t _. rw blocks t)
        live.sound.chain live.tables live.tables);
}

pub halts-Live :
    {k : Kernel} {p : ℕ} {f : Frame} {calls : List (ℕ × Frame)} (status : ℕ)
    → Live k ((p, f) ∷ calls)
    → Live (halt status k).1 calls
unfolding halt
halts-Live {k} {p} {f} {calls} status live =
    let parent : (k.pcb (pcb_address k.curr_process)).parent_num ≡ p =
      ap (λ (l : ℕ × ℕ × ℕ × ℕ). l.0) live.sound.chain.2 in
    record { sound = halts-Sound status live.sound; tables = rw parent live.tables.1 }
