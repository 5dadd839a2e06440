-- ===== src/Session/ToolBatch/Progress.antt =====
-- The bounds on a Tool's progress reports (newToolProgress of gotato/toolbatch.go).
use gotato.Base.{
  ℕ, ◌+◌, ◌≤◌, ◌<◌, ◌||◌, ltb, leb, if_cases, List, [], ◌∷◌, ◌++◌, Bytes, All, length,
  length-append, u64, ◌≡◌, refl, arith,
}
use gotato.Session.ToolBatch.{
  ToolProgress, report, reports, max_tool_progress_bytes, max_tool_progress_updates,
}

abbrev pub total : List Bytes → ℕ
total [] = 0
total (t ∷ ts) = length t + total ts

total-snoc : (ts : List Bytes) (t : Bytes) → total (ts ++ t ∷ []) ≡ total ts + length t
total-snoc [] t = omega arith
total-snoc (x ∷ ts) t = omega (arith, total-snoc ts t)

record IsBounded (p : ToolProgress) : Type 0 where
  pub bytes_sent : p.byte_count ≡ total p.sent
  pub texts_sent : p.updates ≡ length p.sent
  pub few_bytes : p.byte_count ≤ max_tool_progress_bytes
  pub few_texts : p.updates ≤ max_tool_progress_updates

-- A Go string is shorter than 2^63 bytes.
abbrev pub IsText : Bytes → Type 0
IsText t = length t < 9223372036854775808

report-IsBounded : (t : Bytes) (p : ToolProgress) → IsText t → IsBounded p → IsBounded (report t p)
unfolding report
report-IsBounded t p short h =
    if_cases IsBounded
      (leb max_tool_progress_updates p.updates
        || ltb max_tool_progress_bytes (u64 (p.byte_count + length t)))
      _ _ (λ _. h)
      (λ room. record {
        bytes_sent = omega (arith, h.bytes_sent, h.few_bytes, short, total-snoc p.sent t);
        texts_sent = omega (arith, h.texts_sent, length-append p.sent (t ∷ []));
        few_bytes = ground (arith, room);
        few_texts = ground (arith, room);
      })

reports-IsBounded :
    (ts : List Bytes) (p : ToolProgress) → All IsText ts → IsBounded p → IsBounded (reports ts p)
unfolding reports
reports-IsBounded [] p s h = h
reports-IsBounded (t ∷ ts) p (a, s) h =
    reports-IsBounded ts (report t p) s (report-IsBounded t p a h)

-- Of any reports, each a text shorter than 2^63 bytes, a new progress function sends at most 1000, and at
-- most 2^20 bytes of text in all.
pub reports_lem :
    (ts : List Bytes)
    → All IsText ts
    → (length (reports ts (record { byte_count = 0; updates = 0; sent = [] })).sent
        ≤ max_tool_progress_updates)
      × (total (reports ts (record { byte_count = 0; updates = 0; sent = [] })).sent
          ≤ max_tool_progress_bytes)
reports_lem ts s =
    let h =
      reports-IsBounded ts (record { byte_count = 0; updates = 0; sent = [] }) s
        (record {
          bytes_sent = refl;
          texts_sent = refl;
          few_bytes = omega arith;
          few_texts = omega arith;
        }) in
    (omega (arith, h.texts_sent, h.few_texts), omega (arith, h.bytes_sent, h.few_bytes))
