-- ===== src/Scene/Document.antt =====
-- tscn-merge.ts: parseTscn and serializeTscn. A file is a preamble and sections, each a line that
-- begins with a bracket and the lines below it.
use vmcp.Base.{
  Bool, ◌&&◌, Option, none, some, List, [], ◌∷◌, ◌++◌, append_assoc, append-nil, Text, starts_with,
  ends_with, split, join, join-split, ◌==◌, if◌then◌else◌, ◌≡◌, refl, ◌∙◌, ap, Bool-cases, inl, inr,
}

pub record Section : Type 0 where
  pub header : Text
  pub lines : List Text

pub record Ast : Type 0 where
  pub preamble : List Text
  pub sections : List Section

-- `replace(/\r\n/g, '\n')`
unfoldable pub unix_lines : Text → Text
unix_lines [] = []
unix_lines (c ∷ s) =
    let rest = unix_lines s in if c == 13 && starts_with s (10 ∷ []) then rest else c ∷ rest

-- The section that is open at the end of a line, put behind those before it.
abbrev close : List Section → Option Section → List Section
close done none = done
close done (some current) = done ++ current ∷ []

abbrev begins_section : Text → Bool
begins_section line = starts_with line (b'[' ∷ [])

-- The preamble, the sections so far and the open one.
abbrev Progress : Type 0
Progress = List Text × List Section × Option Section

add_line : Text → Progress → Progress
add_line line (preamble, done, none) = (preamble ++ line ∷ [], done, none)
add_line line (preamble, done, some current) =
    (preamble, done, some (record current { lines = current.lines ++ line ∷ [] }))

read_line : Text → Progress → Progress
unfolding add_line
read_line line (preamble, done, current) =
    if begins_section line
    then (preamble, close done current, some (record { header = line; lines = [] }))
    else add_line line (preamble, done, current)

parse_lines : List Text → Progress → Ast
unfolding read_line
parse_lines [] (preamble, done, current) = record {
  preamble = preamble;
  sections = close done current;
}
parse_lines (line ∷ rest) st = parse_lines rest (read_line line st)

unfoldable pub parse_tscn : Text → Ast
unfolding unix_lines parse_lines
parse_tscn content = parse_lines (split 10 (unix_lines content)) ([], [], none)

pub section_lines : List Section → List Text
section_lines [] = []
section_lines (s ∷ rest) = s.header ∷ s.lines ++ section_lines rest

pub ensure_newline : Text → Text
ensure_newline text = if ends_with text (10 ∷ []) then text else text ++ 10 ∷ []

unfoldable pub serialize_tscn : Ast → Text
unfolding section_lines ensure_newline
serialize_tscn a = ensure_newline (join 10 (a.preamble ++ section_lines a.sections))

section_lines-append :
    (a b : List Section) → section_lines (a ++ b) ≡ section_lines a ++ section_lines b
unfolding section_lines
section_lines-append [] b = refl
section_lines-append (s ∷ a) b = simp (section_lines-append a b, append_assoc)

abbrev all_lines : Progress → List Text
all_lines (preamble, done, current) = preamble ++ section_lines (close done current)

-- No section is closed before the first is open.
abbrev Started : Progress → Type 0
Started (preamble, done, none) = done ≡ []
Started (preamble, done, some current) = Unit

Started-read_line : (line : Text) (st : Progress) → Started st → Started (read_line line st)
unfolding read_line
Started-read_line line (preamble, done, none) h = elim (Bool-cases (begins_section line)) [
  | inl b ↦ rw b tt
  | inr b ↦ rw b h
]
Started-read_line line (preamble, done, some current) h = elim (Bool-cases (begins_section line)) [
  | inl b ↦ rw b tt
  | inr b ↦ rw b tt
]

-- Every line stays where it is.
lines-read_line :
    (line : Text) (st : Progress)
    → Started st
    → all_lines (read_line line st) ≡ all_lines st ++ line ∷ []
unfolding read_line section_lines
lines-read_line line (preamble, done, none) h = elim (Bool-cases (begins_section line)) [
  | inl b ↦ rw (b, h) (simp append-nil)
  | inr b ↦ rw (b, h) (simp append-nil)
]
lines-read_line line (preamble, done, some current) h = elim (Bool-cases (begins_section line)) [
  | inl b ↦ rw b (simp (section_lines-append, append_assoc))
  | inr b ↦ rw b (simp (section_lines-append, append_assoc))
]

lines-parse_lines :
    (lines : List Text) (st : Progress)
    → Started st
    → (parse_lines lines st).preamble ++ section_lines (parse_lines lines st).sections
      ≡ all_lines st ++ lines
unfolding parse_lines
lines-parse_lines [] (preamble, done, current) h = rw append-nil refl
lines-parse_lines (line ∷ rest) st h =
    lines-parse_lines rest (read_line line st) (Started-read_line line st h)
    ∙ rw (lines-read_line line st h) (append_assoc (all_lines st) (line ∷ []) rest)

-- Reading a scene and writing it again changes nothing but the line ends: it gives the text with
-- `\n` for `\r\n`, and with a `\n` at its end.
pub serialize-parse_tscn :
    (content : Text)
    → serialize_tscn (parse_tscn content) ≡ (
        if ends_with (unix_lines content) (10 ∷ [])
        then unix_lines content
        else unix_lines content ++ 10 ∷ [])
unfolding serialize_tscn parse_tscn ensure_newline
serialize-parse_tscn content = ap ensure_newline (
    ap (join 10) (lines-parse_lines (split 10 (unix_lines content)) ([], [], none) refl)
    ∙ join-split 10 (unix_lines content))
