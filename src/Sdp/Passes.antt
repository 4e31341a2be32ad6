-- ===== src/Sdp/Passes.antt =====
-- The two passes of src/sdp_rewriter.py with their line numbers, and the reference without them.
use pjsua_mcp.Prelude.{
  ℕ, ◌+◌, ◌≤◌, ◌<◌, Bool, not, ◌||◌, Option, none, some, List, [], ◌∷◌, ◌++◌, ◌≡◌, refl, ◌∙◌, ap,
  map, nat_eq, ◌==◌, keep, contains, length, arith, Option-cases, Bool-cases, inl, inr,
}
use pjsua_mcp.Text.{Text, text_eq, codes}
use pjsua_mcp.Text.Scan.{words}
use pjsua_mcp.Sdp.{
  MLine, Block, m_line, rtpmap, fmtp, scan, add_static, with_static, scan_audio_blocks, order_fmts,
  render, is_lost, pt_of, dangles, advance, emit_line, emit,
}
use pjsua_mcp.Sdp.Reference.{is_kept, lost_by, body_line, rewrite_lines}
use pjsua_mcp.Sdp.Blocks.{
  gather, stop_of, stop_of-ge, scan-open, contains-add_static, contains-gather,
}

-- Test and list say the same of every payload type.
abbrev Agrees : (Text → Bool) → List Text → Type 0
Agrees test kept = (pt : Text) → contains pt kept ≡ test pt

keep_ext : (p q : Text → Bool) (xs : List Text) → ((x : Text) → p x ≡ q x) → keep p xs ≡ keep q xs
keep_ext p q [] h = refl
keep_ext p q (x ∷ xs) h = ground (arith, h x, keep_ext p q xs h)

is_lost-Agrees :
    (test : Text → Bool) (kept : List Text) (pt : Option Text)
    → Agrees test kept
    → is_lost kept pt ≡ lost_by test pt
is_lost-Agrees test kept none h = refl
is_lost-Agrees test kept (some pt) h = ap not (h pt)

dangles-Agrees :
    (test : Text → Bool) (kept : List Text) (line : Text)
    → Agrees test kept
    → dangles kept line ≡ (lost_by test (pt_of (rtpmap line)) || lost_by test (fmtp line))
unfolding dangles
dangles-Agrees test kept line h = ground (
  arith,
  is_lost-Agrees test kept (pt_of (rtpmap line)) h,
  is_lost-Agrees test kept (fmtp line) h,
)

-- The blocks that are still to come start at line `i` or after it.
abbrev Later : ℕ → List Block → Type 0
Later i [] = Unit
Later i (b ∷ blocks) = (i ≤ b.start) × (i < b.stop)

Later-weaken : (i : ℕ) (blocks : List Block) → Later (i + 1) blocks → Later i blocks
Later-weaken i [] h = tt
Later-weaken i (b ∷ blocks) h = (omega arith, omega arith)

advance-Later : (i : ℕ) (blocks : List Block) → Later i blocks → advance i blocks ≡ blocks
unfolding advance
advance-Later i [] h = refl
advance-Later i (b ∷ blocks) h = ground arith

-- The blocks as `_emit` gets them, from line `i` on.
abbrev pub to_come : List Text → ℕ → ℕ → List Text → List Block
to_come allowed i n lines = map (with_static allowed) (scan allowed i n none lines)

to_come-Later :
    (allowed : List Text) (i n : ℕ) (lines : List Text)
    → i + length lines ≤ n
    → Later i (to_come allowed i n lines)
unfolding scan
to_come-Later allowed i n [] h = tt
to_come-Later allowed i n (line ∷ lines) h = elim (Option-cases (m_line line)) [
  | inl e ↦
      rw (e, scan)
        (Later-weaken i (to_come allowed (i + 1) n lines)
          (to_come-Later allowed (i + 1) n lines (omega arith)))
  | inr (m, e) ↦ elim (Bool-cases (m.media == codes "audio")) [
    | inr a ↦
        rw (e, scan, a)
          (Later-weaken i (to_come allowed (i + 1) n lines)
            (to_come-Later allowed (i + 1) n lines (omega arith)))
    | inl a ↦
        let b : Block = record { start = i; stop = n; fmts = words m.fmts; kept = [] } in
        rw (e, scan, a, scan-open allowed (i + 1) n b lines)
          (omega arith, omega (arith, stop_of-ge (i + 1) n lines))
  ]
]

emit_line-Later :
    (i : ℕ) (line : Text) (blocks : List Block)
    → Later (i + 1) blocks
    → emit_line i line blocks ≡ line ∷ []
emit_line-Later i line [] h = refl
emit_line-Later i line (b ∷ blocks) h = ground arith

-- A line before the next block.
emit-Later :
    (i : ℕ) (line : Text) (lines : List Text) (blocks : List Block)
    → Later (i + 1) blocks
    → emit i (line ∷ lines) blocks ≡ line ∷ emit (i + 1) lines blocks
unfolding emit
emit-Later i line lines blocks h =
    rw (advance-Later i blocks (Later-weaken i blocks h), emit_line-Later i line blocks h)

emit-skip :
    (i : ℕ) (line : Text) (lines : List Text) (b : Block) (blocks : List Block)
    → b.stop ≤ i
    → emit i (line ∷ lines) (b ∷ blocks) ≡ emit i (line ∷ lines) blocks
unfolding emit advance
emit-skip i line lines b blocks h = ground arith

emit-inside :
    (i : ℕ) (line : Text) (lines : List Text) (b : Block) (test : Text → Bool) (blocks : List Block)
    → m_line line ≡ none
    → b.start < i
    → i < b.stop
    → Agrees test b.kept
    → emit i (line ∷ lines) (b ∷ blocks)
      ≡ body_line (some test) line ++ emit (i + 1) lines (b ∷ blocks)
unfolding emit advance
emit-inside i line lines b test blocks e s h agrees =
    ground (arith, dangles-Agrees test b.kept line agrees)

-- An `m=` line ends the block before it.
rewrite_lines-m_line :
    (allowed : List Text) (test : Text → Bool) (line : Text) (lines : List Text) (m : MLine)
    → m_line line ≡ some m
    → rewrite_lines allowed none (line ∷ lines) ≡ rewrite_lines allowed (some test) (line ∷ lines)
unfolding rewrite_lines
rewrite_lines-m_line allowed test line lines m e = rw (e, rewrite_lines)

module _ (allowed : List Text) (n : ℕ) where
  abbrev Closed : ℕ → List Text → Type 0
  Closed i lines = emit i lines (to_come allowed i n lines) ≡ rewrite_lines allowed none lines

  abbrev Open : ℕ → List Text → Type 0
  Open i lines =
      (b : Block) (test : Text → Bool)
      → b.start < i
      → b.stop ≡ stop_of i n lines
      → Agrees test b.kept
      → emit i lines (b ∷ to_come allowed i n lines) ≡ rewrite_lines allowed (some test) lines

  -- The line of an audio block.
  emit-audio :
      (i : ℕ) (line : Text) (lines : List Text) (m : MLine) (b : Block)
      → m_line line ≡ some m
      → b.start ≡ i
      → i < b.stop
      → emit i (line ∷ lines) (b ∷ to_come allowed (i + 1) n lines)
        ≡ render m (order_fmts b.fmts b.kept)
          ∷ emit (i + 1) lines (b ∷ to_come allowed (i + 1) n lines)
  unfolding emit advance
  emit-audio i line lines m b e s h = ground arith

  audio_lines :
      (m : MLine) (b : Block) (test : Text → Bool) (fmts lines : List Text) {out : List Text}
      → b.fmts ≡ fmts
      → Agrees test b.kept
      → out ≡ rewrite_lines allowed (some test) lines
      → render m (order_fmts b.fmts b.kept) ∷ out
        ≡ render m (keep test fmts) ∷ rewrite_lines allowed (some test) lines
  audio_lines m b test fmts lines e h o = rw (e, o, keep_ext (λ f. contains f b.kept) test fmts h)

  Closed-step :
      (i : ℕ) (line : Text) (lines : List Text)
      → i + length (line ∷ lines) ≤ n
      → Closed (i + 1) lines
      → Open (i + 1) lines
      → Closed i (line ∷ lines)
  unfolding rewrite_lines scan m_line
  Closed-step i line lines h c o =
      let later = to_come-Later allowed (i + 1) n lines (omega arith) in
      let next = to_come allowed (i + 1) n lines in
      elim (Option-cases (m_line line)) [
        | inl e ↦
            rw (e, scan, rewrite_lines)
              (emit-Later i line lines next later ∙ ap (λ ls. line ∷ ls) c)
        | inr (m, e) ↦ elim (Bool-cases (m.media == codes "audio")) [
          | inr a ↦
              rw (e, scan, rewrite_lines, a)
                (emit-Later i line lines next later ∙ ap (λ ls. line ∷ ls) c)
          | inl a ↦
              let fmts = words m.fmts in
              let test = is_kept allowed fmts lines in
              let opened : Block = record { start = i; stop = n; fmts = fmts; kept = [] } in
              let gathered = gather allowed [] lines in
              let b : Block = record {
                start = i;
                stop = stop_of (i + 1) n lines;
                fmts = fmts;
                kept = add_static allowed fmts gathered;
              } in
              let agrees : Agrees test b.kept = λ pt. ground (
                arith,
                contains-add_static allowed fmts gathered pt,
                contains-gather allowed [] lines pt,
              ) in
              let ends = stop_of-ge (i + 1) n lines (omega arith) in
              rw (e, scan, rewrite_lines, a, scan-open allowed (i + 1) n opened lines)
                (emit-audio i line lines m b e refl (omega (arith, ends))
                  ∙ audio_lines m b test fmts lines refl agrees
                      (o b test (omega arith) refl agrees))
        ]
      ]

  Open-step :
      (i : ℕ) (line : Text) (lines : List Text)
      → i + length (line ∷ lines) ≤ n
      → Closed i (line ∷ lines)
      → Open (i + 1) lines
      → Open i (line ∷ lines)
  unfolding rewrite_lines scan m_line stop_of
  Open-step i line lines h here o b test before stops agrees = elim (Option-cases (m_line line)) [
    | inr (m, e) ↦
        let ended : b.stop ≡ i = rw (e, stop_of) at stops in
        emit-skip i line lines b (to_come allowed i n (line ∷ lines)) (omega arith)
        ∙ here
        ∙ rewrite_lines-m_line allowed test line lines m e
    | inl e ↦
        let goes_on : b.stop ≡ stop_of (i + 1) n lines = rw (e, stop_of) at stops in
        let ends = stop_of-ge (i + 1) n lines (omega arith) in
        rw (e, scan, rewrite_lines)
          (emit-inside i line lines b test (to_come allowed (i + 1) n lines) e before (omega arith)
              agrees
            ∙ ap (λ ls. body_line (some test) line ++ ls) (o b test (omega arith) goes_on agrees))
  ]

  both : (i : ℕ) (lines : List Text) → i + length lines ≤ n → Closed i lines × Open i lines
  unfolding emit scan rewrite_lines
  both i [] h = (refl, λ b test before stops agrees. refl)
  both i (line ∷ lines) h =
      let (c, o) = both (i + 1) lines (omega arith) in
      let here = Closed-step i line lines h c o in (here, Open-step i line lines h here o)

-- Where no audio block would lose all of its payload types, the two passes with their line numbers
-- give the lines that the reference gives.
pub emit-scan_audio_blocks :
    (allowed lines : List Text)
    → emit 0 lines (scan_audio_blocks lines allowed) ≡ rewrite_lines allowed none lines
unfolding scan_audio_blocks
emit-scan_audio_blocks allowed lines = (both allowed (length lines) 0 lines (omega arith)).0
