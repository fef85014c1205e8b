-- ===== src/Knowledge/Tests.antt =====
-- The chunks of a section of five lines of three tokens each.
use new_rag.Base.{arith, List, [], ◌∷◌, Ident}
use new_rag.Knowledge.{chunk_lines}
use new_rag.Knowledge.Chunks.{IsCut, chunk_lines-IsCut}

abbrev lines : List Ident
lines = 1 ∷ 2 ∷ 3 ∷ 4 ∷ 5 ∷ []

chunk_lines-IsCut_example : IsCut (λ _. 3) 9 3 [] (chunk_lines (λ _. 3) 9 3 lines) lines
chunk_lines-IsCut_example =
    chunk_lines-IsCut (λ _. 3) 9 3 lines
      (ground arith, (ground arith, (ground arith, (ground arith, (ground arith, tt)))))
