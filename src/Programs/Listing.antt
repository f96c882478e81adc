-- ===== src/Programs/Listing.antt =====
-- The names of the directory, and the lines that ls writes for them.
use cheet_os.Base.{
  ℕ, zero, suc, ◌+◌, ◌-◌, ◌<◌, ◌≤◌, ◌≡◌, refl, ◌≢◌, ◌∙◌, ap, ap₂, sym, false, List, [], ◌∷◌, ◌++◌,
  ◌==◌, get_or, get_or-append_left, get_or-append_right, arith, length, length-append, Bool-cases,
  inl, inr,
}
use cheet_os.Filesys.{Image, direntries, filename_len}
use cheet_os.Filesys.Directory.{text_from}
use cheet_os.Filesys.Directory
use cheet_os.Screen.{store}
use cheet_os.Terminal.Output.{text}
use cheet_os.Files.{store_bytes}
use cheet_os.Files.Sequence.{store_bytes_lem}

-- The name of an entry.
abbrev pub name_of : Image → ℕ → List ℕ
name_of im i = Directory.text filename_len (direntries im i).filename

-- The names of `n` entries from entry `i` on, each on a line of its own.
unfoldable pub listing : Image → (i n : ℕ) → List ℕ
listing im i zero = []
listing im i (suc n) = (name_of im i ++ (b'\n' ∷ [])) ++ listing im (i + 1) n

text_from-length : (s : List ℕ) (todo i : ℕ) → length (text_from s todo i) ≤ todo
unfolding text_from
text_from-length s zero i = omega arith
text_from-length s (suc todo) i = elim (Bool-cases (get_or s i 0 == 0)) [
  | inl end ↦ rw end (omega arith)
  | inr on ↦ rw on (let rest = text_from-length s todo (i + 1) in omega arith)
]

cons-real :
    (c : ℕ) (cs : List ℕ) (k : ℕ)
    → c ≢ 0
    → ((j : ℕ) → j < length cs → get_or cs j 0 ≢ 0)
    → k < length (c ∷ cs)
    → get_or (c ∷ cs) k 0 ≢ 0
cons-real c cs zero real rest lt = real
cons-real c cs (suc k) real rest lt = rest k (omega arith)

text_from-real :
    (s : List ℕ) (todo i k : ℕ)
    → k < length (text_from s todo i)
    → get_or (text_from s todo i) k 0 ≢ 0
unfolding text_from
text_from-real s zero i k = λ lt. absurd (omega arith)
text_from-real s (suc todo) i k = elim (Bool-cases (get_or s i 0 == 0)) [
  | inl end ↦ rw end (λ lt. absurd (omega arith))
  | inr on ↦
      let real : get_or s i 0 ≢ 0 = ground arith in
      rw on
        (cons-real (get_or s i 0) (text_from s todo (i + 1)) k real (text_from-real s todo (i + 1)))
]

pub name_of-real :
    (im : Image) (i k : ℕ) → k < length (name_of im i) → get_or (name_of im i) k 0 ≢ 0
unfolding Directory.text
name_of-real im i k = text_from-real (direntries im i).filename filename_len 0 k

pub name_of-length : (im : Image) (i : ℕ) → length (name_of im i) ≤ 32
unfolding Directory.text
name_of-length im i = text_from-length (direntries im i).filename filename_len 0

-- The text of a buffer that holds a list without zeros.
text-values :
    (cs : List ℕ) (buf : ℕ → ℕ) (idx : ℕ)
    → ((i : ℕ) → i < length cs → (buf (idx + i) ≡ get_or cs i 0) × (get_or cs i 0 ≢ 0))
    → text buf (length cs) idx ≡ cs
unfolding text
text-values [] buf idx each = refl
text-values (c ∷ cs) buf idx each =
    let (first, real) = each 0 (omega arith) in
    let here : buf idx ≡ c = ap buf {x = idx} {y = idx + 0} (omega arith) ∙ first in
    let on : (buf idx == 0) ≡ false = ground arith in
    rw on (
      ap₂ (λ x xs. x ∷ xs) here
        (text-values cs buf (idx + 1) (λ i lt.
          let (same, other) = each (suc i) (omega arith) in
          (ap buf {x = idx + 1 + i} {y = idx + suc i} (omega arith) ∙ same, other))))

-- The line that ls writes for a name.
abbrev pub line_of : (ℕ → ℕ) → List ℕ → ℕ → ℕ
line_of buf name = store (store (store_bytes buf 0 name) (length name) 0) (length name) b'\n'

pub line_of-text :
    (buf : ℕ → ℕ) (name : List ℕ)
    → ((i : ℕ) → i < length name → get_or name i 0 ≢ 0)
    → text (line_of buf name) (length name + 1) 0 ≡ name ++ (b'\n' ∷ [])
unfolding store
line_of-text buf name real =
    let grown : length (name ++ (b'\n' ∷ [])) ≡ length name + 1 = length-append name (b'\n' ∷ []) in
    ap (λ n. text (line_of buf name) n 0) (sym grown)
    ∙ text-values (name ++ (b'\n' ∷ [])) (line_of buf name) 0 (λ i lt.
      elim (Bool-cases (i == length name)) [
        | inl last ↦
            let e : i ≡ length name = ground arith in
            let value : get_or (name ++ (b'\n' ∷ [])) i 0 ≡ b'\n' =
              ap (λ k. get_or (name ++ (b'\n' ∷ [])) k 0) {y = length name + 0} (omega arith)
              ∙ get_or-append_right name (b'\n' ∷ []) 0 0 in
            (ground (arith, value, e), ground (arith, value))
        | inr before ↦
            let inside : i < length name = ground (arith, grown) in
            let value = get_or-append_left name (b'\n' ∷ []) i 0 inside in
            let chars = real i inside in
            (
              ground (
                arith,
                value,
                store_bytes_lem buf 0 name (0 + i),
                ap (λ k. get_or name k 0) {x = 0 + i - 0} {y = i} (omega arith),
              ),
              rw value chars,
            )
      ])
