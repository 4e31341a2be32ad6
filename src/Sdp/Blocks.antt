-- ===== src/Sdp/Blocks.antt =====
-- What the first pass of src/sdp_rewriter.py gathers in its blocks.
use pjsua_mcp.Prelude.{
  ℕ, ◌+◌, ◌≤◌, Bool, true, false, not, ◌&&◌, ◌||◌, none, some, List, [], ◌∷◌, ◌≡◌, refl, map,
  nat_eq, ◌==◌, any, contains, length, arith, Option-cases, Bool-cases, inl, inr, if◌then◌else◌,
}
use pjsua_mcp.Text.{Text, text_eq, codes, lower}
use pjsua_mcp.Text.Scan.{words}
use pjsua_mcp.Sdp.{
  Block, m_line, rtpmap, is_static, note_rtpmap, scan, add_static, with_static, scan_audio_blocks,
  is_nil,
}
use pjsua_mcp.Sdp.Reference.{named, named_any, starves}

-- What the open block has gathered at its end, and where it ends.
pub gather : List Text → List Text → List Text → List Text
gather allowed kept [] = kept
gather allowed kept (line ∷ lines) = elim (m_line line) [
  | some m ↦ kept
  | none ↦
      elim (note_rtpmap allowed line
        (some (record { start = 0; stop = 0; fmts = []; kept = kept }))) [
          | none ↦ gather allowed kept lines
          | some b ↦ gather allowed b.kept lines
        ]
]

unfoldable pub stop_of : ℕ → ℕ → List Text → ℕ
stop_of i n [] = n
stop_of i n (line ∷ lines) = elim (m_line line) [ none ↦ stop_of (i + 1) n lines | some m ↦ i ]

pub stop_of-ge : (i n : ℕ) (lines : List Text) → i + length lines ≤ n → i ≤ stop_of i n lines
unfolding stop_of
stop_of-ge i n [] h = omega arith
stop_of-ge i n (line ∷ lines) h = ground (arith, stop_of-ge (i + 1) n lines)

pub scan-open :
    (allowed : List Text) (i n : ℕ) (b : Block) (lines : List Text)
    → scan allowed i n (some b) lines
      ≡ record b { stop = stop_of i b.stop lines; kept = gather allowed b.kept lines }
        ∷ scan allowed i n none lines
unfolding scan stop_of gather m_line rtpmap
scan-open allowed i n b [] = refl
scan-open allowed i n b (line ∷ lines) = elim (Option-cases (m_line line)) [
  | inr (m, e) ↦ rw e
  | inl e ↦ elim (Option-cases (rtpmap line)) [
    | inl r ↦ rw (e, r) (scan-open allowed (i + 1) n b lines)
    | inr ((pt, name), r) ↦ elim (Bool-cases (contains (lower name) allowed)) [
      | inl c ↦ rw (e, r, c) (scan-open allowed (i + 1) n (record b { kept = pt ∷ b.kept }) lines)
      | inr c ↦ rw (e, r, c) (scan-open allowed (i + 1) n b lines)
    ]
  ]
]

pub contains-add_static :
    (allowed fmts kept : List Text) (pt : Text)
    → contains pt (add_static allowed fmts kept)
      ≡ (contains pt kept || contains pt fmts && is_static allowed pt)
unfolding add_static
contains-add_static allowed [] kept pt = ground arith
contains-add_static allowed (f ∷ fmts) kept pt =
    let more = if not (contains f kept) && is_static allowed f then f ∷ kept else kept in
    ground (arith, contains-add_static allowed fmts more pt, text_eq.beq_iff f pt)

pub contains-gather :
    (allowed kept lines : List Text) (pt : Text)
    → contains pt (gather allowed kept lines) ≡ (contains pt kept || named allowed pt lines)
unfolding gather named
contains-gather allowed kept [] pt = ground arith
contains-gather allowed kept (line ∷ lines) pt = elim (Option-cases (m_line line)) [
  | inr (m, e) ↦ ground arith
  | inl e ↦ elim (Option-cases (rtpmap line)) [
    | inl r ↦ ground (arith, contains-gather allowed kept lines pt)
    | inr ((p, name), r) ↦
        ground (
          arith,
          contains-gather allowed (p ∷ kept) lines pt,
          contains-gather allowed kept lines pt,
        )
  ]
]

contains_some : (f : Text) (kept : List Text) → contains f kept ≡ true → is_nil kept ≡ false
contains_some f [] h = cc
contains_some f (k ∷ kept) h = refl

is_nil-add_static :
    (allowed fmts kept : List Text)
    → is_nil (add_static allowed fmts kept) ≡ (is_nil kept && not (any (is_static allowed) fmts))
unfolding add_static
is_nil-add_static allowed [] kept = ground arith
is_nil-add_static allowed (f ∷ fmts) kept = ground (
  arith,
  is_nil-add_static allowed fmts (f ∷ kept),
  is_nil-add_static allowed fmts kept,
  contains_some f kept,
)

is_nil-gather :
    (allowed kept lines : List Text)
    → is_nil (gather allowed kept lines) ≡ (is_nil kept && not (named_any allowed lines))
unfolding gather named_any
is_nil-gather allowed kept [] = ground arith
is_nil-gather allowed kept (line ∷ lines) = elim (Option-cases (m_line line)) [
  | inr (m, e) ↦ ground arith
  | inl e ↦ elim (Option-cases (rtpmap line)) [
    | inl r ↦ ground (arith, is_nil-gather allowed kept lines)
    | inr ((p, name), r) ↦
        ground (arith, is_nil-gather allowed (p ∷ kept) lines, is_nil-gather allowed kept lines)
  ]
]

-- A block that the second loop of `filter_audio_codecs` stops at.
abbrev pub starved : List Block → Bool
starved blocks = any (λ (b : Block). is_nil b.kept) blocks

starved-to_come :
    (allowed : List Text) (i n : ℕ) (lines : List Text)
    → starved (map (with_static allowed) (scan allowed i n none lines)) ≡ starves allowed lines
unfolding scan starves m_line
starved-to_come allowed i n [] = refl
starved-to_come allowed i n (line ∷ lines) = elim (Option-cases (m_line line)) [
  | inl e ↦ rw (e, scan, starves) (starved-to_come allowed (i + 1) n lines)
  | inr (m, e) ↦ elim (Bool-cases (m.media == codes "audio")) [
    | inr a ↦ rw (e, scan, starves, a) (starved-to_come allowed (i + 1) n lines)
    | inl a ↦
        let b : Block = record { start = i; stop = n; fmts = words m.fmts; kept = [] } in
        rw (e, scan, starves, a, scan-open allowed (i + 1) n b lines)
          (rw (
            is_nil-add_static allowed (words m.fmts) (gather allowed [] lines),
            is_nil-gather allowed [] lines,
            starved-to_come allowed (i + 1) n lines,
          ))
  ]
]

pub starved-scan_audio_blocks :
    (allowed lines : List Text) → starved (scan_audio_blocks lines allowed) ≡ starves allowed lines
unfolding scan_audio_blocks
starved-scan_audio_blocks allowed lines = starved-to_come allowed 0 (length lines) lines
