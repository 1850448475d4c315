-- ===== src/Output/Budget.antt =====
-- What is captured while the output stays within its limit, and when it is cut.
use mathlib.Core.Path.{subst}
use uv_agent.Common.{
  ℕ, ◌+◌, ◌-◌, ◌≤◌, ◌<◌, ◌≡◌, refl, sym, ap, ◌∙◌, Bool, true, false, List, [], ◌∷◌, ◌++◌, arith,
  if◌then◌else◌, ltb, length, append-nil, append_assoc, Bool-cases, ltb→lt, inl, inr,
}
use uv_agent.Common.Text.{Text, concat}
use uv_agent.Output.{
  Name, stdout, stderr, Event, printed, output_truncated, Bytes, coalesce, set, Run, record_text,
  decoded, overrun, pump_chunk, pump,
}

concat-append : (xs ys : List Text) → concat (xs ++ ys) ≡ concat xs ++ concat ys
unfolding concat
concat-append [] ys = refl
concat-append (x ∷ xs) ys =
    ap (λ t. x ++ t) (concat-append xs ys) ∙ sym (append_assoc x (concat xs) (concat ys))

-- Joining the parts of a sink early does not change its text.
concat-coalesce : (sink : List Text) → concat (coalesce sink) ≡ concat sink
unfolding coalesce concat
concat-coalesce sink = go (ltb 256 (length sink))
  where
    go : (many : Bool) → concat (if many then concat sink ∷ [] else sink) ≡ concat sink
    go true = append-nil (concat sink)
    go false = refl

-- The bytes of some chunks.
unfoldable pub total : List (Name × Bytes) → ℕ
total [] = 0
total ((name, chunk) ∷ chunks) = length chunk + total chunks

-- The text that the log has of a stream.
unfoldable pub transcript : Name → List Event → Text
transcript name [] = []
transcript stdout (printed stdout text ∷ log) = text ++ transcript stdout log
transcript stderr (printed stderr text ∷ log) = text ++ transcript stderr log
transcript name (_ ∷ log) = transcript name log

module _ (Decoder : Type 0) (decode : Decoder → Bytes → Text × Decoder)
    (flush : Decoder → Text × Decoder) where
  -- The text of the chunks of one stream, decoded one after the other.
  unfoldable pub text_of : Name → List (Name × Bytes) → Decoder → Text
  text_of name [] d = []
  text_of stdout ((stdout, chunk) ∷ chunks) d =
      let (text, d') = decode d chunk in text ++ text_of stdout chunks d'
  text_of stderr ((stderr, chunk) ∷ chunks) d =
      let (text, d') = decode d chunk in text ++ text_of stderr chunks d'
  text_of name ((_, chunk) ∷ chunks) d = text_of name chunks d

  abbrev captured : Name → Run Decoder decode flush → Text
  captured name r = concat (r.sink name)

  -- What a text adds to a stream: itself to its own, nothing to the other.
  abbrev part : Name → Name → Text → Text
  part stdout stdout text = text
  part stderr stderr text = text
  part _ _ text = []

  abbrev at : Name → Name → Decoder → Decoder → Decoder
  at stdout stdout new old = new
  at stderr stderr new old = new
  at _ _ new old = old

  transcript-append :
      (n : Name) (xs ys : List Event) → transcript n (xs ++ ys) ≡ transcript n xs ++ transcript n ys
  unfolding transcript
  transcript-append n [] ys = refl
  transcript-append stdout (printed stdout t ∷ xs) ys =
      ap (λ l. t ++ l) (transcript-append stdout xs ys)
      ∙ sym (append_assoc t (transcript stdout xs) (transcript stdout ys))
  transcript-append stdout (printed stderr t ∷ xs) ys = transcript-append stdout xs ys
  transcript-append stderr (printed stdout t ∷ xs) ys = transcript-append stderr xs ys
  transcript-append stderr (printed stderr t ∷ xs) ys =
      ap (λ l. t ++ l) (transcript-append stderr xs ys)
      ∙ sym (append_assoc t (transcript stderr xs) (transcript stderr ys))
  transcript-append stdout (output_truncated ∷ xs) ys = transcript-append stdout xs ys
  transcript-append stderr (output_truncated ∷ xs) ys = transcript-append stderr xs ys

  transcript-one :
      (n name : Name) (text : Text) → transcript n (printed name text ∷ []) ≡ part n name text
  unfolding transcript
  transcript-one stdout stdout text = append-nil text
  transcript-one stdout stderr text = refl
  transcript-one stderr stdout text = refl
  transcript-one stderr stderr text = append-nil text

  text_of-cons :
      (n name : Name) (chunk : Bytes) (chunks : List (Name × Bytes)) (decs : Name → Decoder)
      → text_of n ((name, chunk) ∷ chunks) (decs n)
        ≡ part n name (decode (decs name) chunk).0
          ++ text_of n chunks (at n name (decode (decs name) chunk).1 (decs n))
  unfolding text_of
  text_of-cons stdout stdout chunk chunks decs = refl
  text_of-cons stdout stderr chunk chunks decs = refl
  text_of-cons stderr stdout chunk chunks decs = refl
  text_of-cons stderr stderr chunk chunks decs = refl

  sink-added :
      (sink : List Text) (text : Text) → concat (coalesce (sink ++ text ∷ [])) ≡ concat sink ++ text
  unfolding concat
  sink-added sink text =
      concat-coalesce (sink ++ text ∷ [])
      ∙ concat-append sink (text ∷ [])
      ∙ ap (λ t. concat sink ++ t) (append-nil text)

  -- What recording a text does to a stream and to the rest.
  record Recorded (n name : Name) (text : Text) (r r' : Run Decoder decode flush) : Type 0 where
    added : captured n r' ≡ captured n r ++ part n name text
    logged : transcript n r'.log ≡ transcript n r.log ++ part n name text
    count : r'.byte_count ≡ r.byte_count
    cut : r'.truncated ≡ r.truncated
    decoders : r'.decoder ≡ r.decoder

  part-nil : (n name : Name) → part n name [] ≡ []
  part-nil stdout stdout = refl
  part-nil stdout stderr = refl
  part-nil stderr stdout = refl
  part-nil stderr stderr = refl

  record_text-Recorded :
      (n name : Name) (text : Text) (r : Run Decoder decode flush)
      → Recorded n name text r (record_text Decoder decode flush name text r)
  unfolding record_text
  record_text-Recorded n name [] r = record {
    added = sym (ap (λ t. captured n r ++ t) (part-nil n name) ∙ append-nil (captured n r));
    logged =
        sym (ap (λ t. transcript n r.log ++ t) (part-nil n name) ∙ append-nil (transcript n r.log));
    count = refl;
    cut = refl;
    decoders = refl;
  }
  record_text-Recorded n name (c ∷ s) r = record {
    added = sinks n name;
    logged =
        transcript-append n r.log (printed name (c ∷ s) ∷ [])
        ∙ ap (λ t. transcript n r.log ++ t) (transcript-one n name (c ∷ s));
    count = refl;
    cut = refl;
    decoders = refl;
  }
    where
      sinks :
          (n name : Name)
          → concat (set name (coalesce (r.sink name ++ (c ∷ s) ∷ [])) r.sink n)
            ≡ concat (r.sink n) ++ part n name (c ∷ s)
      sinks stdout stdout = sink-added (r.sink stdout) (c ∷ s)
      sinks stdout stderr = sym (append-nil (concat (r.sink stdout)))
      sinks stderr stdout = sym (append-nil (concat (r.sink stderr)))
      sinks stderr stderr = sink-added (r.sink stderr) (c ∷ s)

  set-at : (n name : Name) (d : Decoder) (f : Name → Decoder) → set name d f n ≡ at n name d (f n)
  set-at stdout stdout d f = refl
  set-at stdout stderr d f = refl
  set-at stderr stdout d f = refl
  set-at stderr stderr d f = refl

  module _ (max_output_bytes : ℕ) where
    -- A chunk that fits is decoded whole.
    fits-eq :
        (name : Name) (chunk : Bytes) (r : Run Decoder decode flush)
        → r.truncated ≡ false
        → r.byte_count + length chunk ≤ max_output_bytes
        → pump_chunk Decoder decode flush max_output_bytes name chunk r
          ≡ decoded Decoder decode flush name
              (decode (r.decoder name) chunk)
              (record r { byte_count = r.byte_count + length chunk })
    unfolding pump_chunk
    fits-eq name chunk r whole le = rw (whole, fit) refl
      where
        fit : ltb (max_output_bytes - r.byte_count) (length chunk) ≡ false
        fit = ground (arith, le)

    record Pumped (n : Name) (chunks : List (Name × Bytes)) (r r' : Run Decoder decode flush)
        : Type 0 where
      whole : r'.truncated ≡ false
      count : r'.byte_count ≡ r.byte_count + total chunks
      added : captured n r' ≡ captured n r ++ text_of n chunks (r.decoder n)
      logged : transcript n r'.log ≡ transcript n r.log ++ text_of n chunks (r.decoder n)

    -- The same of one chunk.
    record Taken (n name : Name) (chunk : Bytes) (r r' : Run Decoder decode flush) : Type 0 where
      whole : r'.truncated ≡ false
      count : r'.byte_count ≡ r.byte_count + length chunk
      added : captured n r' ≡ captured n r ++ part n name (decode (r.decoder name) chunk).0
      logged :
          transcript n r'.log ≡ transcript n r.log ++ part n name (decode (r.decoder name) chunk).0
      decoders : r'.decoder n ≡ at n name (decode (r.decoder name) chunk).1 (r.decoder n)

    pump_chunk-Taken :
        (n name : Name) (chunk : Bytes) (r : Run Decoder decode flush)
        → r.truncated ≡ false
        → r.byte_count + length chunk ≤ max_output_bytes
        → Taken n name chunk r (pump_chunk Decoder decode flush max_output_bytes name chunk r)
    pump_chunk-Taken n name chunk r whole le =
        let made = decode (r.decoder name) chunk in
        let counted = record r {
          decoder = set name made.1 r.decoder;
          byte_count = r.byte_count + length chunk;
        } in
        let w = record_text-Recorded n name made.0 counted in
        subst (Taken n name chunk r) (sym (fits-eq name chunk r whole le)) (record {
          whole = w.cut ∙ whole;
          count = w.count;
          added = w.added;
          logged = w.logged;
          decoders = ap (λ f. f n) w.decoders ∙ set-at n name made.1 r.decoder;
        })

    further-Pumped :
        (n name : Name) (chunk : Bytes) (chunks : List (Name × Bytes))
        (r r' r'' : Run Decoder decode flush)
        → Taken n name chunk r r'
        → Pumped n chunks r' r''
        → Pumped n ((name, chunk) ∷ chunks) r r''
    unfolding total
    further-Pumped n name chunk chunks r r' r'' t p =
        let text = (decode (r.decoder name) chunk).0 in
        let rest : part n name text ++ text_of n chunks (r'.decoder n)
            ≡ text_of n ((name, chunk) ∷ chunks) (r.decoder n) =
          ap (λ d. part n name text ++ text_of n chunks d) t.decoders
          ∙ sym (text_of-cons n name chunk chunks r.decoder) in
        record {
          whole = p.whole;
          count = omega (arith, p.count, t.count);
          added =
              p.added
              ∙ ap (λ x. x ++ text_of n chunks (r'.decoder n)) t.added
              ∙ append_assoc (captured n r) (part n name text) (text_of n chunks (r'.decoder n))
              ∙ ap (λ x. captured n r ++ x) rest;
          logged =
              p.logged
              ∙ ap (λ x. x ++ text_of n chunks (r'.decoder n)) t.logged
              ∙ append_assoc (transcript n r.log) (part n name text)
                  (text_of n chunks (r'.decoder n))
              ∙ ap (λ x. transcript n r.log ++ x) rest;
        }

    pump-Pumped :
        (n : Name) (chunks : List (Name × Bytes)) (r : Run Decoder decode flush)
        → r.truncated ≡ false
        → r.byte_count + total chunks ≤ max_output_bytes
        → Pumped n chunks r (pump Decoder decode flush max_output_bytes chunks r)
    unfolding pump total text_of
    pump-Pumped n [] r whole le = record {
      whole = whole;
      count = omega arith;
      added = sym (append-nil (captured n r));
      logged = sym (append-nil (transcript n r.log));
    }
    pump-Pumped n ((name, chunk) ∷ chunks) r whole le =
        let t = pump_chunk-Taken n name chunk r whole (omega (arith, le)) in
        further-Pumped n name chunk chunks r _ _ t (
          pump-Pumped n chunks (pump_chunk Decoder decode flush max_output_bytes name chunk r)
            t.whole (omega (arith, le, t.count)))

    -- While the bytes of both streams stay within the limit, in whichever order their chunks come,
    -- nothing is cut, and to the sink of each stream and to its part of the log is added the text of
    -- all its chunks, decoded one after the other, and nothing of the other stream.
    pub pump-text_of :
        (n : Name) (chunks : List (Name × Bytes)) (r : Run Decoder decode flush)
        → r.truncated ≡ false
        → r.byte_count + total chunks ≤ max_output_bytes
        → ((pump Decoder decode flush max_output_bytes chunks r).truncated ≡ false)
          × (concat ((pump Decoder decode flush max_output_bytes chunks r).sink n)
              ≡ concat (r.sink n) ++ text_of n chunks (r.decoder n))
          × (transcript n (pump Decoder decode flush max_output_bytes chunks r).log
              ≡ transcript n r.log ++ text_of n chunks (r.decoder n))
    pump-text_of n chunks r whole le =
        let p = pump-Pumped n chunks r whole le in (p.whole, p.added, p.logged)

    if-cut :
        (cut : Bool) (r other : Run Decoder decode flush)
        → cut ≡ true
        → (if cut then r else other) ≡ r
    if-cut true r other h = refl
    if-cut false r other h = cc

    -- Once the output is cut, chunks change nothing.
    pump_chunk-cut :
        (name : Name) (chunk : Bytes) (r : Run Decoder decode flush)
        → r.truncated ≡ true
        → pump_chunk Decoder decode flush max_output_bytes name chunk r ≡ r
    unfolding pump_chunk
    pump_chunk-cut name chunk r cut = if-cut r.truncated r _ cut

    pump-cut :
        (chunks : List (Name × Bytes)) (r : Run Decoder decode flush)
        → r.truncated ≡ true
        → pump Decoder decode flush max_output_bytes chunks r ≡ r
    unfolding pump
    pump-cut [] r cut = refl
    pump-cut ((name, chunk) ∷ chunks) r cut =
        ap (pump Decoder decode flush max_output_bytes chunks) (pump_chunk-cut name chunk r cut)
        ∙ pump-cut chunks r cut

    overrun-truncated :
        (name : Name) (chunk : Bytes) (r : Run Decoder decode flush)
        → r.truncated ≡ false
        → max_output_bytes < r.byte_count + length chunk
        → r.byte_count ≤ max_output_bytes
        → (pump_chunk Decoder decode flush max_output_bytes name chunk r).truncated ≡ true
    unfolding pump_chunk overrun
    overrun-truncated name chunk r whole lt le = rw (whole, over) refl
      where
        over : ltb (max_output_bytes - r.byte_count) (length chunk) ≡ true
        over = ground (arith, lt, le)

    -- Output is cut exactly where the bytes of both streams together exceed the limit, in whichever
    -- order their chunks come.
    pub pump-truncated :
        (chunks : List (Name × Bytes)) (r : Run Decoder decode flush)
        → r.truncated ≡ false
        → r.byte_count ≤ max_output_bytes
        → (pump Decoder decode flush max_output_bytes chunks r).truncated
          ≡ ltb max_output_bytes (r.byte_count + total chunks)
    unfolding pump total
    pump-truncated [] r whole le = whole ∙ ground (arith, le)
    pump-truncated ((name, chunk) ∷ chunks) r whole le =
        elim (Bool-cases (ltb max_output_bytes (r.byte_count + length chunk)))
          as (λ _.
            (pump Decoder decode flush max_output_bytes chunks
              (pump_chunk Decoder decode flush max_output_bytes name chunk r)).truncated
            ≡ ltb max_output_bytes (r.byte_count + (length chunk + total chunks))) [
              | inl over ↦
                  let cut = overrun-truncated name chunk r whole (ltb→lt _ _ over) le in
                  ap (λ u. u.truncated) (pump-cut chunks _ cut) ∙ cut ∙ ground (arith, over)
              | inr fits ↦
                  let t = pump_chunk-Taken stdout name chunk r whole (ground (arith, fits)) in
                  pump-truncated chunks
                    (pump_chunk Decoder decode flush max_output_bytes name chunk r) t.whole
                    (ground (arith, t.count, fits))
                  ∙ ground (arith, t.count)
            ]
