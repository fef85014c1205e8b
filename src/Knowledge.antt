-- ===== src/Knowledge.antt =====
-- The chunks of a document (app/knowledge/chunker.py). A line is an identifier and a block is its list of
-- lines; the tokens of a line, its title if it is a heading, and whether a block is blank are parameters.
pub mod Chunks
mod Tests
use new_rag.Base.{
  ℕ, ◌+◌, ltb, ◌&&◌, not, Bool, true, false, Option, none, some, List, [], ◌∷◌, ◌++◌, Ident,
  if◌then◌else◌,
}

abbrev pub Block : Type 0
Block = List Ident

abbrev pub is_empty : Block → Bool
is_empty [] = true
is_empty (_ ∷ _) = false

-- `reversed`
unfoldable pub reversed : Block → Block
reversed [] = []
reversed (x ∷ xs) = reversed xs ++ x ∷ []

module _ (count_tokens : Ident → ℕ) (max_tokens overlap_tokens : ℕ) where
  -- The loop over the reversed lines: what is carried over, and its tokens.
  unfoldable pub carry_from : Block → Block → ℕ → Block × ℕ
  carry_from [] carry carry_tokens = (carry, carry_tokens)
  carry_from (prev ∷ before) carry carry_tokens =
      let rest = carry_from before (prev ∷ carry) (carry_tokens + count_tokens prev) in
      if ltb overlap_tokens (carry_tokens + count_tokens prev) then (carry, carry_tokens) else rest

  abbrev pub carried : Block → Block × ℕ
  carried cur = carry_from (reversed cur) [] 0

  -- The loop of `_chunk_lines` with its variables `cur` and `cur_tokens`.
  unfoldable pub chunk_from : Block → ℕ → List Ident → List Block
  chunk_from cur cur_tokens [] = if is_empty cur then [] else cur ∷ []
  chunk_from cur cur_tokens (line ∷ lines) =
      let (carry, carry_tokens) = carried cur in
      let cut = chunk_from (carry ++ line ∷ []) (carry_tokens + count_tokens line) lines in
      let more = chunk_from (cur ++ line ∷ []) (cur_tokens + count_tokens line) lines in
      if not (is_empty cur) && ltb max_tokens (cur_tokens + count_tokens line)
      then cur ∷ cut
      else more

  unfoldable pub chunk_lines : List Ident → List Block
  chunk_lines lines = chunk_from [] 0 lines

  module _ (heading : Ident → Option Ident) (is_blank : Block → Bool) where
    abbrev pub close_section : Ident → Block → List (Ident × Block) → List (Ident × Block)
    close_section title buf rest = if is_empty buf then rest else (title, buf) ∷ rest

    -- The sections of a document, with their titles; 0 is the empty title.
    unfoldable pub sections : Ident → Block → List Ident → List (Ident × Block)
    sections title buf [] = close_section title buf []
    sections title buf (line ∷ lines) = elim (heading line) [
      | none ↦ sections title (buf ++ line ∷ []) lines
      | some t ↦ close_section title buf (sections t [] lines)
    ]

    -- `ChunkPiece`
    pub record ChunkPiece : Type 0 where
      pub text : Block
      pub section : Ident
      pub seq : ℕ

    unfoldable pub number : Ident → ℕ → List Block → List ChunkPiece × ℕ
    number title seq [] = ([], seq)
    number title seq (block ∷ blocks) =
        let skipped = number title seq blocks in
        let (pieces, next) = number title (seq + 1) blocks in
        if is_blank block
        then skipped
        else (record { text = block; section = title; seq = seq } ∷ pieces, next)

    unfoldable pub pieces_of : ℕ → List (Ident × Block) → List ChunkPiece
    pieces_of seq [] = []
    pieces_of seq ((title, lines) ∷ rest) =
        let (pieces, next) = number title seq (chunk_lines lines) in pieces ++ pieces_of next rest

    unfoldable pub chunk_markdown : List Ident → List ChunkPiece
    chunk_markdown lines = pieces_of 0 (sections 0 [] lines)
