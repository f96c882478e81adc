-- ===== src/Filesys/Directory.antt =====
-- The directory: names are compared as texts of at most 32 bytes, and a lookup finds the first
-- entry of the name that is asked for.
use cheet_os.Base.{
  ℕ, zero, suc, ◌+◌, ◌*◌, ◌≤◌, ◌<◌, ◌≡◌, refl, ◌≢◌, ◌↔◌, sym, false, inl, inr, Option, some, none,
  List, [], ◌∷◌, arith, leb, ◌==◌, ==_iff, Bool-cases, if◌then◌else◌, get_or, sub32,
}
use native.Mathlib.Decide.{dec_le}
use cheet_os.Filesys.{
  Image, Dentry, byte_at, bytes_at, direntries, widen, strncmp_from, strncmp, find_from,
  read_dentry_by_index, read_dentry_by_name, num_files, filename_len,
}

-- The text that an array of `todo` more bytes holds from index `i` on.
unfoldable pub text_from : List ℕ → (todo i : ℕ) → List ℕ
text_from s zero i = []
text_from s (suc todo) i =
    let c = get_or s i 0 in let rest = text_from s todo (i + 1) in if c == 0 then [] else c ∷ rest

-- The text of an array of `n` bytes: what stands before its first 0.
unfoldable pub text : ℕ → List ℕ → List ℕ
text n s = text_from s n 0

abbrev pub IsBytes : List ℕ → Type 0
IsBytes s = (i : ℕ) → get_or s i 0 < 256

widen-eq-zero : (a b : ℕ) → a < 256 → b < 256 → sub32 (widen a) (widen b) ≡ 0 → a ≡ b
widen-eq-zero a b ha hb h = ground arith

strncmp_from-eq :
    (s1 s2 : List ℕ) (todo i : ℕ)
    → IsBytes s1
    → IsBytes s2
    → strncmp_from s1 s2 todo i ≡ 0
    → text_from s1 todo i ≡ text_from s2 todo i
unfolding strncmp_from text_from
strncmp_from-eq s1 s2 zero i h1 h2 e = refl
strncmp_from-eq s1 s2 (suc todo) i h1 h2 e = ground (
  arith,
  h1 i,
  h2 i,
  widen-eq-zero (get_or s1 i 0) (get_or s2 i 0),
  strncmp_from-eq s1 s2 todo (i + 1) h1 h2,
)

strncmp_from-zero :
    (s1 s2 : List ℕ) (todo i : ℕ)
    → text_from s1 todo i ≡ text_from s2 todo i
    → strncmp_from s1 s2 todo i ≡ 0
unfolding strncmp_from text_from
strncmp_from-zero s1 s2 zero i e = refl
strncmp_from-zero s1 s2 (suc todo) i e = ground (arith, strncmp_from-zero s1 s2 todo (i + 1))

-- `strncmp` over `n` bytes returns 0 exactly when the two arrays of bytes hold the same text.
pub strncmp-text :
    (s1 s2 : List ℕ) (n : ℕ)
    → IsBytes s1
    → IsBytes s2
    → (strncmp s1 s2 n ≡ 0) ↔ (text n s1 ≡ text n s2)
unfolding strncmp text
strncmp-text s1 s2 n h1 h2 = (strncmp_from-eq s1 s2 n 0 h1 h2, strncmp_from-zero s1 s2 n 0)

-- `d` is the first of the entries `index .. index + todo - 1` that has the text of `name`.
pub record Found (im : Image) (name : List ℕ) (index todo : ℕ) (d : Dentry) : Type 0 where
  pub place : ℕ
  pub from : index ≤ place
  pub below : place < index + todo
  pub entry : d ≡ direntries im place
  pub matches : text filename_len d.filename ≡ text filename_len name
  pub first :
      (j : ℕ)
      → index ≤ j
      → j < place
      → text filename_len (direntries im j).filename ≢ text filename_len name

-- None of those entries has it.
abbrev pub Missing : Image → List ℕ → (index todo : ℕ) → Type 0
Missing im name index todo =
    (j : ℕ)
    → index ≤ j
    → j < index + todo
    → text filename_len (direntries im j).filename ≢ text filename_len name

abbrev pub Lookup : Image → List ℕ → (index todo : ℕ) → Option Dentry → Type 0
Lookup im name index todo none = Missing im name index todo
Lookup im name index todo (some d) = Found im name index todo d

bytes_at-IsBytes : (im : Image) (offset n : ℕ) → IsBytes (bytes_at im offset n)
unfolding bytes_at byte_at
bytes_at-IsBytes im offset zero i = omega arith
bytes_at-IsBytes im offset (suc n) zero = omega arith
bytes_at-IsBytes im offset (suc n) (suc i) = bytes_at-IsBytes im (offset + 1) n i

module _ (im : Image) (name : List ℕ) (bytes : IsBytes name) where
  -- The test of the loop at one entry.
  same_name :
      (j : ℕ)
      → (strncmp name (direntries im j).filename filename_len ≡ 0)
        ↔ (text filename_len name ≡ text filename_len (direntries im j).filename)
  same_name j =
      strncmp-text name (direntries im j).filename filename_len bytes
        (unfold direntries in bytes_at-IsBytes im (64 + 64 * j) 32)

  Missing-cons :
      (index todo : ℕ)
      → text filename_len (direntries im index).filename ≢ text filename_len name
      → Missing im name (index + 1) todo
      → Missing im name index (suc todo)
  Missing-cons index todo ne rest j lo hi e = elim (dec_le (index + 1) j) [
    | yes h ↦ rest j h (omega arith) e
    | no h ↦ let here : j ≡ index = omega arith in ne (rw here at e)
  ]

  Lookup-cons :
      (index todo : ℕ) (o : Option Dentry)
      → text filename_len (direntries im index).filename ≢ text filename_len name
      → Lookup im name (index + 1) todo o
      → Lookup im name index (suc todo) o
  Lookup-cons index todo none ne rest = Missing-cons index todo ne rest
  Lookup-cons index todo (some d) ne rest = record {
    place = rest.place;
    from = omega (arith, rest.from);
    below = omega (arith, rest.below);
    entry = rest.entry;
    matches = rest.matches;
    first = λ j lo hi e. elim (dec_le (index + 1) j) [
      | yes h ↦ rest.first j h hi e
      | no h ↦ let here : j ≡ index = omega arith in ne (rw here at e)
    ];
  }

  find_from-Lookup :
      (todo index : ℕ)
      → index + todo ≤ num_files
      → Lookup im name index todo (find_from im name todo index)
  unfolding find_from read_dentry_by_index
  find_from-Lookup zero index h = λ j lo hi e. omega arith
  find_from-Lookup (suc todo) index h =
      let in_range : leb num_files index ≡ false = ground arith in
      elim (Bool-cases (strncmp name (direntries im index).filename filename_len == 0)) [
        | inl hit ↦
            rw (hit, in_range)
              (record {
                place = index;
                from = omega arith;
                below = omega arith;
                entry = refl;
                matches = sym ((same_name index).0 ((==_iff _ _).0 hit));
                first = λ j lo hi e. omega arith;
              })
        | inr miss ↦ rw miss (
            Lookup-cons index todo _ (λ e. cc (miss, (==_iff _ _).1 ((same_name index).1 (sym e))))
              (find_from-Lookup todo (index + 1) (omega arith)))
      ]

  -- For a name of bytes that is not empty, `read_dentry_by_name` yields the first of the 63
  -- entries that has the name's text, and fails exactly if none of them has it.
  pub read_dentry_by_name_lem :
      get_or name 0 0 ≢ 0 → Lookup im name 0 num_files (read_dentry_by_name im (some name))
  unfolding read_dentry_by_name
  read_dentry_by_name_lem h =
      let full : (get_or name 0 0 == 0) ≡ false = ground arith in
      rw full (find_from-Lookup num_files 0 (omega arith))
