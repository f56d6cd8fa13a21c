-- ===== src/Remote/Lines.antt =====
-- The lines of crates/remote/src/ipc.rs: a text is the list of its code points, `read_line` is that
-- of a buffered reader, which gives a line with its newline, and `trim` that of `str`.
use vscfreedev.Base.{
  ℕ, ◌≡◌, refl, ap, ◌∙◌, inl, inr, Bool, false, ◌&&◌, ◌||◌, List, [], ◌∷◌, ◌++◌, arith, leb,
  if◌then◌else◌, nat_beq, nat_eq, string_eq, Bool-cases, is_empty, contains,
}

abbrev pub Text : Type 0
Text = List ℕ

-- A text with the newline that ends it.
abbrev pub line : Text → Text
line t = t ++ (10 ∷ [])

-- The first line, and what follows it; at the end of the text it is empty.
unfoldable pub read_line : Text → Text × Text
read_line [] = ([], [])
read_line (c ∷ cs) =
    let (first, rest) = read_line cs in if nat_beq c 10 then (c ∷ [], cs) else (c ∷ first, rest)

-- The white space of Unicode.
pub is_space : ℕ → Bool
is_space c =
    (leb 9 c && leb c 13)
    || contains c (32 ∷ 133 ∷ 160 ∷ 5760 ∷ 8232 ∷ 8233 ∷ 8239 ∷ 8287 ∷ 12288 ∷ [])
    || (leb 8192 c && leb c 8202)

trim_start : Text → Text
trim_start [] = []
trim_start (c ∷ cs) = let rest = trim_start cs in if is_space c then rest else c ∷ cs

trim_end : Text → Text
trim_end [] = []
trim_end (c ∷ cs) = let rest = trim_end cs in if is_empty rest && is_space c then [] else c ∷ rest

unfoldable pub trim : Text → Text
unfolding trim_start trim_end is_space
trim t = trim_start (trim_end t)

-- A text of one line without white space around it.
abbrev pub IsLine : Text → Type 0
IsLine t = (contains 10 t ≡ false) × (trim t ≡ t)

pub read_line-line :
    (t rest : Text) → contains 10 t ≡ false → read_line (line t ++ rest) ≡ (line t, rest)
unfolding read_line
read_line-line [] rest h = refl
read_line-line (c ∷ cs) rest h = elim (Bool-cases (nat_beq c 10)) [
  | inl yes' ↦ absurd (ground (arith, h, yes'))
  | inr no' ↦ rw (no', read_line-line cs rest (ground (arith, h, no'))) refl
]

trim_end-line : (t : Text) → trim_end (line t) ≡ trim_end t
unfolding trim_end is_space
trim_end-line [] = refl
trim_end-line (c ∷ cs) = rw (trim_end-line cs) refl

pub trim-line : (t : Text) → trim t ≡ t → trim (line t) ≡ t
unfolding trim
trim-line t h = ap trim_start (trim_end-line t) ∙ h
