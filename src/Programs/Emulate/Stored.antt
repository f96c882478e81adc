-- ===== src/Programs/Emulate/Stored.antt =====
-- What `getargs` stores, under the emulation and under the kernel.
use cheet_os.Base.{
  ℕ, suc, ◌+◌, ◌-◌, ◌^◌, ◌<◌, ◌≤◌, ◌≡◌, ◌≢◌, refl, ◌∙◌, sym, ap, fun_ext, ◌⊎◌, Option, some, List,
  [], ◌∷◌, ◌++◌, ◌==◌, Bool-cases, inl, inr, arith, All, length, length-append, false, ltb, get_or,
  minus_one, lt_signed, sub32,
}
use cheet_os.Screen.{store}
use cheet_os.Files.{store_bytes}
use cheet_os.Files.Sequence.{store_bytes_lem}
use cheet_os.Tasks.{Frame, Kernel, launch, stack_top, getargs}
use cheet_os.Tasks.Runs.{getargs-launch}
use cheet_os.Command.Words.{join}
use cheet_os.Programs.Emulate.{ece391_getargs}

-- A byte that is stored twice.
store_again : (m : ℕ → ℕ) (a v w : ℕ) → store (store m a v) a w ≡ store m a w
unfolding store
store_again m a v w =
    fun_ext
      (λ i. elim (Bool-cases (i == a)) [ inl here ↦ rw here refl | inr other ↦ rw other refl ])

store_bytes-append :
    (m : ℕ → ℕ) (start : ℕ) (xs ys : List ℕ)
    → store_bytes m start (xs ++ ys) ≡ store_bytes (store_bytes m start xs) (start + length xs) ys
unfolding store_bytes
store_bytes-append m start [] ys =
    ap (λ a. store_bytes m a ys) {x = start} {y = start + 0} (omega arith)
store_bytes-append m start (x ∷ xs) ys =
    store_bytes-append (store m start x) (start + 1) xs ys
    ∙ ap (λ a. store_bytes (store_bytes (store m start x) (start + 1) xs) a ys)
        {x = start + 1 + length xs} {y = start + suc (length xs)} (omega arith)

-- A text with its terminator.
abbrev pub stored : List ℕ → (m : ℕ → ℕ) → (buf : ℕ) → ℕ → ℕ
stored text m buf = store (store_bytes m buf text) (buf + length text) 0

-- A word, a space and a text behind it.
stored_behind :
    (arg text : List ℕ) (m : ℕ → ℕ) (buf : ℕ)
    → let at = buf + length arg in
      stored text (store (store (store_bytes m buf arg) at 0) at b' ') (at + 1)
      ≡ stored (arg ++ (b' ' ∷ text)) m buf
stored_behind arg text m buf =
    let at = buf + length arg in
    ap (λ q. stored text q (at + 1)) (store_again (store_bytes m buf arg) at 0 b' ')
    ∙ ap (λ q. store q (at + 1 + length text) 0)
        (sym (store_bytes-append m buf arg (b' ' ∷ text) ∙ unfold store_bytes in refl))
    ∙ ap (λ a. store (store_bytes m buf (arg ++ (b' ' ∷ text))) a 0) {x = at + 1 + length text}
        {y = buf + length (arg ++ (b' ' ∷ text))} (omega (arith, length-append arg (b' ' ∷ text)))

-- The emulated `getargs` with room for the words with one space between each two, and a terminator,
-- returns 0 and stores just these; without it returns -1.
ece391_getargs_lem :
    (args : List (List ℕ)) (m : ℕ → ℕ) (buf nbytes : ℕ)
    → nbytes < 2 ^ 31
    → All (λ arg. length arg < 2 ^ 31) args
    → ((length (join args) < nbytes)
        × (ece391_getargs args m buf nbytes ≡ (0, stored (join args) m buf)))
      ⊎ ((nbytes ≤ length (join args)) × ((ece391_getargs args m buf nbytes).0 ≡ minus_one))
unfolding ece391_getargs join store_bytes
ece391_getargs_lem [] m buf nbytes h shorts = elim (Bool-cases (lt_signed nbytes 1)) [
  | inl none_left ↦ rw none_left (inr (ground arith, refl))
  | inr some_left ↦
      rw some_left
        (inl (ground arith, ap (λ a. (0, store m a 0)) {x = buf} {y = buf + 0} (omega arith)))
]
ece391_getargs_lem (arg ∷ []) m buf nbytes h (short, _) =
    elim (Bool-cases (lt_signed nbytes (length arg))) [
      | inl long ↦ rw long (inr (ground (arith, short), refl))
      | inr fits ↦ elim (Bool-cases (lt_signed (sub32 nbytes (length arg)) 1)) [
        | inl full ↦ rw (fits, full) (inr (ground (arith, short), refl))
        | inr room ↦
            rw (fits, room)
              (inl (
                ground (arith, short),
                ap (λ q. (0, q)) (store_again (store_bytes m buf arg) (buf + length arg) 0 0),
              ))
      ]
    ]
ece391_getargs_lem (arg ∷ next ∷ args) m buf nbytes h (short, others) =
    let len = length arg in
    let rest = join (next ∷ args) in
    let small : length arg < 2 ^ 31 = short in
    let all : length (arg ++ (b' ' ∷ rest)) ≡ len + suc (length rest) =
      length-append arg (b' ' ∷ rest) in
    let m2 = store (store (store_bytes m buf arg) (buf + len) 0) (buf + len) b' ' in
    let left = sub32 (sub32 nbytes len) 1 in
    elim (Bool-cases (lt_signed nbytes len)) [
      | inl long ↦
          let over : nbytes < len = ground (arith, small, h) in
          rw long (inr (omega (arith, all, over), refl))
      | inr fits ↦
          let enough : len ≤ nbytes = ground (arith, small, h) in
          elim (Bool-cases (lt_signed (sub32 nbytes len) 1)) [
            | inl full ↦
                let over : nbytes ≤ len = ground (arith, small, h, enough) in
                rw (fits, full) (inr (omega (arith, all, over), refl))
            | inr room ↦
                let more : len < nbytes = ground (arith, small, h, enough) in
                let less : left ≡ nbytes - len - 1 = omega (arith, more, h) in
                rw (fits, room)
                  (elim (ece391_getargs_lem (next ∷ args) m2 (buf + len + 1) left
                    (omega (arith, less, h)) others) [
                      | inl (lt, ran) ↦ inl (
                        omega (arith, all, lt, less),
                        ran ∙ ap (λ q. (0, q)) (stored_behind arg rest m buf),
                      )
                      | inr (ge, failed) ↦ inr (omega (arith, all, ge, less, more), failed)
                    ])
          ]
    ]

-- The kernel's `getargs` with room for the arguments.
pub kernel_getargs :
    (frame : Frame) (k : Kernel) (n depth nbytes : ℕ) (text : List ℕ) (m : ℕ → ℕ)
    → n < 6
    → depth ≤ 0x1FFC
    → nbytes < 2 ^ 31
    → get_or text 0 0 ≢ 0
    → length text < 128
    → length text < nbytes
    → getargs (stack_top n - depth) (some m) nbytes (launch frame text n k)
      ≡ (0, some (stored text m 0))
kernel_getargs frame k n depth nbytes text m small deep h begins brief room =
    let fits : ltb nbytes (length text) ≡ false = ground arith in
    (getargs-launch frame k n depth nbytes text m small deep h begins brief).0
    ∙ rw fits (
        ap {B = ℕ × Option (ℕ → ℕ)} (λ a. (0, some (store (store_bytes m 0 text) a 0)))
          {x = length text} {y = 0 + length text} (omega arith))

pub emulated :
    (args : List (List ℕ)) (m : ℕ → ℕ) (buf nbytes : ℕ)
    → nbytes < 2 ^ 31
    → All (λ arg. length arg < 2 ^ 31) args
    → length (join args) < nbytes
    → ece391_getargs args m buf nbytes ≡ (0, stored (join args) m buf)
emulated args m buf nbytes h shorts room = elim (ece391_getargs_lem args m buf nbytes h shorts) [
  | inl (lt, ran) ↦ ran
  | inr (ge, failed) ↦ absurd (omega (arith, ge, room))
]

-- A text stored behind `buf` is, from there on, the text stored at 0.
pub stored_at :
    (text : List ℕ) (m : ℕ → ℕ) (buf i : ℕ)
    → stored text m buf (buf + i) ≡ stored text (λ j. m (buf + j)) 0 i
unfolding store
stored_at text m buf i =
    let back : buf + i - buf ≡ i = omega arith in
    let none_off : i - 0 ≡ i = omega arith in
    ground (
      arith,
      store_bytes_lem m buf text (buf + i),
      store_bytes_lem (λ j. m (buf + j)) 0 text i,
      ap (λ j. get_or text j 0) back,
      ap (λ j. get_or text j 0) none_off,
    )
