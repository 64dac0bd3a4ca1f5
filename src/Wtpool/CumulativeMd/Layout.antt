-- ===== src/Wtpool/CumulativeMd/Layout.antt =====
-- What `find_conflict_blocks` finds: the blocks tile the document, with plain lines between them.
use mcp_tools.Prelude.{
  ℕ, zero, suc, ◌+◌, ◌≤◌, ◌<◌, ◌≡◌, refl, ap, ◌∙◌, sym, true, false, List, [], ◌∷◌, ◌++◌, arith,
  Str, All, Bool-cases, length, length-append, append_assoc, inl, inr,
}
use mcp_tools.Prelude.Result.{ok, Result-cases}
use mcp_tools.Wtpool.CumulativeMd.{
  Block, opens, separates, closes, scan_theirs, scan_ours, block_at, find_blocks_within,
  find_conflict_blocks,
}

abbrev pub IsPlain : Str → Type 0
IsPlain line = opens line ≡ false

-- The lines of one conflict, from the opening to the closing marker.
pub record Conflict (ours theirs : List Str) : Type 0 where
  pub open_line : Str
  pub middle_line : Str
  pub close_line : Str
  pub is_open : opens open_line ≡ true
  pub is_middle : separates middle_line ≡ true
  pub is_close : closes close_line ≡ true
  pub ours_plain : All IsPlain ours
  pub theirs_plain : All IsPlain theirs

abbrev pub conflict_lines : {ours theirs : List Str} → Conflict ours theirs → List Str
conflict_lines {ours} {theirs} c =
    c.open_line ∷ (ours ++ (c.middle_line ∷ (theirs ++ c.close_line ∷ [])))

-- From line `i` on, the lines are plain text and the blocks in turn, at the places that they name.
abbrev pub Layout : ℕ → List Str → List Block → Type 0
Layout i lines [] = All IsPlain lines
Layout i lines (b ∷ bs) =
    (context : List Str) × (behind : List Str) × (c : Conflict b.ours b.theirs) × (lines
      ≡ context ++ (conflict_lines c ++ behind))
    × All IsPlain context
    × (b.start ≡ i + length context)
    × (b.end ≡ b.start + length (conflict_lines c))
    × Layout b.end behind bs

scan_theirs-ok :
    (lines theirs behind : List Str)
    → scan_theirs lines ≡ ok (theirs, behind)
    → (close_line : Str) × (closes close_line ≡ true)
      × All IsPlain theirs
      × (lines ≡ theirs ++ (close_line ∷ behind))
unfolding scan_theirs
scan_theirs-ok [] theirs behind h = absurd (ground arith)
scan_theirs-ok (line ∷ rest) theirs behind h = elim (Bool-cases (opens line)) [
  | inl nested ↦ absurd (ground arith)
  | inr plain ↦ elim (Bool-cases (closes line)) [
    | inl close ↦
        let none_left : theirs ≡ [] = ground arith in
        let same : behind ≡ rest = ground arith in
        (line, close, rw none_left tt, rw (none_left, same))
    | inr inner ↦ elim (Result-cases (scan_theirs rest)) [
      | inl (r, e) ↦
          let (close_line, close, plains, tile) = scan_theirs-ok rest r.0 r.1 e in
          let front : theirs ≡ line ∷ r.0 = ground arith in
          let same : behind ≡ r.1 = ground arith in
          (close_line, close, rw front (plain, plains), rw (front, same) (ap (◌∷◌ line) tile))
      | inr (k, e) ↦ absurd (ground arith)
    ]
  ]
]

scan_ours-ok :
    (lines ours theirs behind : List Str)
    → scan_ours lines ≡ ok (ours, theirs, behind)
    → (middle_line : Str) × (close_line : Str) × (separates middle_line ≡ true)
      × (closes close_line ≡ true)
      × All IsPlain ours
      × All IsPlain theirs
      × (lines ≡ ours ++ (middle_line ∷ (theirs ++ (close_line ∷ behind))))
unfolding scan_ours
scan_ours-ok [] ours theirs behind h = absurd (ground arith)
scan_ours-ok (line ∷ rest) ours theirs behind h = elim (Bool-cases (opens line)) [
  | inl nested ↦ absurd (ground arith)
  | inr plain ↦ elim (Bool-cases (separates line)) [
    | inl middle ↦ elim (Result-cases (scan_theirs rest)) [
      | inl (r, e) ↦
          let none_left : ours ≡ [] = ground arith in
          let same_theirs : theirs ≡ r.0 = ground arith in
          let same : behind ≡ r.1 = ground arith in
          let (close_line, close, plains, tile) = scan_theirs-ok rest r.0 r.1 e in
          (
            line,
            close_line,
            middle,
            close,
            rw none_left tt,
            rw same_theirs plains,
            rw (none_left, same_theirs, same) (ap (◌∷◌ line) tile),
          )
      | inr (k, e) ↦ absurd (ground arith)
    ]
    | inr inner ↦ elim (Bool-cases (closes line)) [
      | inl close ↦ absurd (ground arith)
      | inr between ↦ elim (Result-cases (scan_ours rest)) [
        | inl (r, e) ↦
            let front : ours ≡ line ∷ r.0 = ground arith in
            let same_theirs : theirs ≡ r.1 = ground arith in
            let same : behind ≡ r.2 = ground arith in
            let (middle_line, close_line, middle, close, plains, others, tile) =
              scan_ours-ok rest r.0 r.1 r.2 e in
            (
              middle_line,
              close_line,
              middle,
              close,
              rw front (plain, plains),
              rw same_theirs others,
              rw (front, same_theirs, same) (ap (◌∷◌ line) tile),
            )
        | inr (k, e) ↦ absurd (ground arith)
      ]
    ]
  ]
]

length-conflict_lines :
    {ours theirs : List Str} (c : Conflict ours theirs)
    → length (conflict_lines c) ≡ length ours + length theirs + 3
length-conflict_lines {ours} {theirs} c = omega (
  arith,
  length-append ours (c.middle_line ∷ (theirs ++ c.close_line ∷ [])),
  length-append theirs (c.close_line ∷ []),
)

conflict_lines-append :
    {ours theirs : List Str} (c : Conflict ours theirs) (behind : List Str)
    → conflict_lines c ++ behind
      ≡ c.open_line ∷ (ours ++ (c.middle_line ∷ (theirs ++ (c.close_line ∷ behind))))
conflict_lines-append {ours} {theirs} c behind = simp append_assoc

Layout-plain :
    (i : ℕ) (line : Str) (rest : List Str) (blocks : List Block)
    → IsPlain line
    → Layout (i + 1) rest blocks
    → Layout i (line ∷ rest) blocks
Layout-plain i line rest [] plain l = (plain, l)
Layout-plain i line rest (b ∷ bs) plain (context, behind, c, tile, plains, start, end, l) =
    (line ∷ context, behind, c, ap (◌∷◌ line) tile, (plain, plains), omega arith, end, l)

Layout-block :
    (i : ℕ) (line : Str) (rest ours theirs behind : List Str) (bs : List Block)
    → opens line ≡ true
    → scan_ours rest ≡ ok (ours, theirs, behind)
    → Layout (i + length ours + length theirs + 3) behind bs
    → Layout i (line ∷ rest) (block_at i ours theirs ∷ bs)
Layout-block i line rest ours theirs behind bs opened e l =
    let (middle_line, close_line, middle, close, plains, others, tile) =
      scan_ours-ok rest ours theirs behind e in
    let c : Conflict ours theirs = record {
      open_line = line;
      middle_line = middle_line;
      close_line = close_line;
      is_open = opened;
      is_middle = middle;
      is_close = close;
      ours_plain = plains;
      theirs_plain = others;
    } in
    (
      [],
      behind,
      c,
      ap (◌∷◌ line) tile ∙ sym (conflict_lines-append c behind),
      tt,
      omega arith,
      omega (arith, length-conflict_lines c),
      l,
    )

length-behind :
    (rest ours theirs behind : List Str)
    → scan_ours rest ≡ ok (ours, theirs, behind)
    → length behind < length rest
length-behind rest ours theirs behind e =
    let (middle_line, close_line, _, _, _, _, tile) = scan_ours-ok rest ours theirs behind e in
    omega (
      arith,
      ap length tile,
      length-append ours (middle_line ∷ (theirs ++ (close_line ∷ behind))),
      length-append theirs (close_line ∷ behind),
    )

find_blocks_within-Layout :
    (rounds i : ℕ) (lines : List Str) (blocks : List Block)
    → length lines ≤ rounds
    → find_blocks_within rounds i lines ≡ ok blocks
    → Layout i lines blocks
unfolding find_blocks_within
find_blocks_within-Layout rounds i [] blocks enough h =
    let none_left : blocks ≡ [] = ground arith in rw none_left tt
find_blocks_within-Layout zero i (line ∷ rest) blocks enough h = absurd (omega arith)
find_blocks_within-Layout (suc rounds) i (line ∷ rest) blocks enough h =
    elim (Bool-cases (opens line)) [
      | inr plain ↦
          Layout-plain i line rest blocks plain
            (find_blocks_within-Layout rounds (i + 1) rest blocks (omega arith) (ground arith))
      | inl opened ↦ elim (Result-cases (scan_ours rest)) [
        | inr (k, e) ↦ absurd (ground arith)
        | inl (r, e) ↦
            elim (Result-cases (find_blocks_within rounds (i + length r.0 + length r.1 + 3) r.2)) [
              | inr (k, e') ↦ absurd (ground arith)
              | inl (bs, e') ↦
                  let front : blocks ≡ block_at i r.0 r.1 ∷ bs = ground arith in
                  let shorter = length-behind rest r.0 r.1 r.2 e in
                  rw front (
                    Layout-block i line rest r.0 r.1 r.2 bs opened e (
                      find_blocks_within-Layout rounds (i + length r.0 + length r.1 + 3) r.2 bs
                        (omega arith) e'))
            ]
      ]
    ]

-- If no marker is malformed, the blocks that are found tile the document: each lies between an
-- opening and a closing marker with one separator in between, at the line numbers that it names, and
-- every line outside of the blocks and every line of their two sides is no opening marker.
pub find_conflict_blocks-Layout :
    (lines : List Str) (blocks : List Block)
    → find_conflict_blocks lines ≡ ok blocks
    → Layout 0 lines blocks
unfolding find_conflict_blocks
find_conflict_blocks-Layout lines blocks h =
    find_blocks_within-Layout (length lines) 0 lines blocks (omega arith) h

-- Rounds beyond the number of lines change nothing: with a round for each line the scan has looked at
-- the whole document.
pub find_blocks_within-rounds :
    (rounds more i : ℕ) (lines : List Str)
    → length lines ≤ rounds
    → length lines ≤ more
    → find_blocks_within rounds i lines ≡ find_blocks_within more i lines
unfolding find_blocks_within
find_blocks_within-rounds rounds more i [] h k = refl
find_blocks_within-rounds zero more i (line ∷ rest) h k = absurd (omega arith)
find_blocks_within-rounds (suc rounds) zero i (line ∷ rest) h k = absurd (omega arith)
find_blocks_within-rounds (suc rounds) (suc more) i (line ∷ rest) h k =
    elim (Bool-cases (opens line)) [
      | inr plain ↦
          rw plain (find_blocks_within-rounds rounds more (i + 1) rest (omega arith) (omega arith))
      | inl opened ↦ elim (Result-cases (scan_ours rest)) [
        | inr (e, failed) ↦ rw (opened, failed) refl
        | inl (r, e) ↦
            let shorter = length-behind rest r.0 r.1 r.2 e in
            let same =
              find_blocks_within-rounds rounds more (i + length r.0 + length r.1 + 3) r.2
                (omega arith) (omega arith) in
            rw (opened, e, same) refl
      ]
    ]
