-- ===== src/Output/Examples.antt =====
-- Output of two streams, and the theorems about its capture at it.
use uv_agent.Common.{◌+◌, ◌≤◌, ◌≡◌, refl, false, List, [], ◌∷◌, ◌++◌, arith, ltb}
use uv_agent.Common.Text.{Text, lit, concat}
use uv_agent.Output.{Name, stdout, stderr, Bytes, Run, pump}
use uv_agent.Output.Budget.{total, transcript, text_of, pump-text_of, pump-truncated}

-- A decoder that takes each byte for a character and holds nothing back.
abbrev Decoder : Type 0
Decoder = Unit {0}

abbrev decode : Decoder → Bytes → Text × Decoder
decode d chunk = (chunk, d)

abbrev flush : Decoder → Text × Decoder
flush d = ([], d)

abbrev start : Run Decoder decode flush
start = record { sink = λ n. []; decoder = λ n. tt; byte_count = 0; truncated = false; log = [] }

abbrev chunks : List (Name × Bytes)
chunks = (stdout, lit "one") ∷ (stderr, lit "two") ∷ (stdout, lit "three") ∷ []

chunks-fit : start.byte_count + total chunks ≤ 11
unfolding total
chunks-fit = omega arith

pump-text_of_example :
    ((pump Decoder decode flush 11 chunks start).truncated ≡ false)
    × (concat ((pump Decoder decode flush 11 chunks start).sink stdout)
        ≡ concat (start.sink stdout) ++ text_of Decoder decode flush stdout chunks tt)
    × (transcript stdout (pump Decoder decode flush 11 chunks start).log
        ≡ transcript stdout start.log ++ text_of Decoder decode flush stdout chunks tt)
pump-text_of_example = pump-text_of Decoder decode flush 11 stdout chunks start refl chunks-fit

pump-truncated_example :
    (pump Decoder decode flush 5 chunks start).truncated ≡ ltb 5 (start.byte_count + total chunks)
pump-truncated_example = pump-truncated Decoder decode flush 5 chunks start refl (omega arith)
