-- ===== src/Session/History/Size.antt =====
-- The size that gotato/history.go keeps of a Transcript, and its limits.
use gotato.Base.{
  u64, ℕ, ◌+◌, ◌-◌, ◌<◌, ◌≤◌, Bool, true, false, Option, none, some, List, [], ◌∷◌, ◌++◌, length,
  Bytes, ◌≡◌, inl, inr, refl, sym, ap, subst, ◌∙◌, arith, Option-cases,
}
use gotato.Session.Types.{Message}
use gotato.Session.History.{
  CoreLimits, CommitError, TranscriptCalls, SessionHistory, with_id, candidate, commit,
  commit_encoded, elements, measure, u32,
}

-- One commit that a Session asks for.
pub record Commit : Type 0 where
  pub calls : TranscriptCalls
  pub fresh : Bytes
  pub enforce : Bool
  pub message : Message

abbrev pub no_history : SessionHistory
no_history = record { messages = []; size = 0 }

module _ (encode : Message → Option ℕ) where
  -- What a commit that succeeded did.
  pub record Committed (limits : CoreLimits) (c : Commit) (h next : SessionHistory) : Type 0 where
    pub bytes : ℕ
    pub encoded : encode (with_id c.fresh c.message) ≡ some bytes
    pub appended : next ≡ record {
      messages = h.messages ++ with_id c.fresh c.message ∷ [];
      size = candidate h bytes;
    }
    pub few : c.enforce ≡ true → u32 (length h.messages + 1) ≤ limits.max_messages
    pub small : c.enforce ≡ true → bytes ≤ limits.max_message_bytes
    pub fits : c.enforce ≡ true → u64 (candidate h bytes + 2) ≤ limits.max_transcript_bytes

  encoded-Committed :
      (limits : CoreLimits) (c : Commit) (h : SessionHistory) (bytes : ℕ)
      → encode (with_id c.fresh c.message) ≡ some bytes
      → (commit_encoded encode limits c.calls c.enforce (with_id c.fresh c.message) bytes h).1
        ≡ none
      → Committed limits c h
          (commit_encoded encode limits c.calls c.enforce (with_id c.fresh c.message) bytes h).0
  unfolding commit_encoded
  encoded-Committed limits c h bytes e q = record {
    bytes = bytes;
    encoded = e;
    appended = ground (arith, q);
    few = λ t. ground (arith, q, t);
    small = λ t. ground (arith, q, t);
    fits = λ t. ground (arith, q, t);
  }

  abbrev pub commit_of : CoreLimits → Commit → SessionHistory → SessionHistory × Option CommitError
  commit_of limits c h = commit encode limits c.calls c.fresh c.enforce c.message h

  pub commit-Committed :
      (limits : CoreLimits) (c : Commit) (h : SessionHistory)
      → (commit_of limits c h).1 ≡ none
      → Committed limits c h (commit_of limits c h).0
  unfolding commit
  commit-Committed limits c h q = elim (Option-cases (encode (with_id c.fresh c.message))) [
    | inl e ↦ absurd (ground (arith, q, e))
    | inr (b, e) ↦
        let same : commit_of limits c h
            ≡ commit_encoded encode limits c.calls c.enforce (with_id c.fresh c.message) b h =
          ground (arith, e) in
        subst (λ (x : SessionHistory × Option CommitError). Committed limits c h x.0) (sym same)
          (encoded-Committed limits c h b e
            (ap (λ (x : SessionHistory × Option CommitError). x.1) (sym same) ∙ q))
  ]

  pub commit_error_unchanged :
      (limits : CoreLimits) (c : Commit) (h : SessionHistory) (e : CommitError)
      → (commit_of limits c h).1 ≡ some e
      → (commit_of limits c h).0 ≡ h
  unfolding commit commit_encoded
  commit_error_unchanged limits c h e q = ground (arith, q)

  -- The bytes with one more Message at the end.
  abbrev joined : List Message → ℕ → ℕ → ℕ
  joined [] n b = n + b
  joined (m ∷ ms) n b = n + 1 + b

  elements_cons :
      (x y : Message) (ms : List Message) (c r : ℕ)
      → encode x ≡ some c
      → elements encode (y ∷ ms) ≡ some r
      → elements encode (x ∷ y ∷ ms) ≡ some (c + 1 + r)
  unfolding elements
  elements_cons x y ms c r q p = ground (arith, q, p)

  elements-append :
      (ms : List Message) (m : Message) (n b : ℕ)
      → elements encode ms ≡ some n
      → encode m ≡ some b
      → elements encode (ms ++ m ∷ []) ≡ some (joined ms n b)
  unfolding elements
  elements-append [] m n b h e = ground (arith, h, e)
  elements-append (x ∷ []) m n b h e = ground (arith, h, e)
  elements-append (x ∷ y ∷ ms) m n b h e = elim (Option-cases (encode x)) [
    | inl q ↦ absurd (ground (arith, h, q))
    | inr (c, q) ↦ elim (Option-cases (elements encode (y ∷ ms))) [
      | inl p ↦ absurd (ground (arith, h, q, p))
      | inr (r, p) ↦
          let total : n ≡ c + 1 + r = ground (arith, h, q, p) in
          elements_cons x y (ms ++ m ∷ []) c (r + 1 + b) q (elements-append (y ∷ ms) m r b p e)
          ∙ ap (λ (k : ℕ). some k) (omega (arith, total))
    ]
  ]

  abbrev pub byte_bound : ℕ
  byte_bound = 18446744073709551616

  -- The size is that of the Transcript in JSON without its brackets, and no number wraps around.
  pub record IsSized (h : SessionHistory) : Type 0 where
    pub is : elements encode h.messages ≡ some h.size
    pub bounded : h.size + 2 < byte_bound

  -- The JSON of the Transcript stays below 2^64 bytes with this Message.
  abbrev pub FitsIn : Commit → SessionHistory → Type 0
  FitsIn c h = (b : ℕ) → encode (with_id c.fresh c.message) ≡ some b → h.size + b + 3 < byte_bound

  candidate_exact :
      (h : SessionHistory) (b : ℕ)
      → h.size + b + 3 < byte_bound
      → candidate h b ≡ joined h.messages h.size b
  candidate_exact h b fits = exact h.messages h.size fits
    where
      exact :
          (ms : List Message) (n : ℕ)
          → n + b + 3 < byte_bound
          → candidate (record { messages = ms; size = n }) b ≡ joined ms n b
      exact [] n fits = omega arith
      exact (m ∷ ms) n fits = ground arith

  pub candidate_bounded :
      (h : SessionHistory) (b : ℕ) → h.size + b + 3 < byte_bound → candidate h b + 2 < byte_bound
  candidate_bounded h b fits = bounded h.messages
    where
      bounded :
          (ms : List Message)
          → candidate (record { messages = ms; size = h.size }) b + 2 < byte_bound
      bounded [] = omega arith
      bounded (m ∷ ms) = ground arith

  pub commit-IsSized :
      (limits : CoreLimits) (c : Commit) (h : SessionHistory)
      → FitsIn c h
      → IsSized h
      → IsSized (commit_of limits c h).0
  commit-IsSized limits c h fits s = elim (Option-cases (commit_of limits c h).1) [
    | inr (e, q) ↦ subst IsSized (sym (commit_error_unchanged limits c h e q)) s
    | inl q ↦
        let k = commit-Committed limits c h q in
        subst IsSized (sym k.appended) (record {
          is =
              elements-append h.messages (with_id c.fresh c.message) h.size k.bytes s.is k.encoded
              ∙ ap (λ (n : ℕ). some n) (sym (candidate_exact h k.bytes (fits k.bytes k.encoded)));
          bounded = candidate_bounded h k.bytes (fits k.bytes k.encoded);
        })
  ]

  unfoldable pub commits : CoreLimits → List Commit → SessionHistory → SessionHistory
  commits limits [] h = h
  commits limits (c ∷ cs) h = commits limits cs (commit_of limits c h).0

  abbrev pub AllFitIn : CoreLimits → List Commit → SessionHistory → Type 0
  AllFitIn limits [] h = Unit {0}
  AllFitIn limits (c ∷ cs) h = FitsIn c h × AllFitIn limits cs (commit_of limits c h).0

  pub no_history-IsSized : IsSized no_history
  unfolding elements
  no_history-IsSized = record { is = refl; bounded = omega arith }

  pub commits-IsSized :
      (limits : CoreLimits) (cs : List Commit) (h : SessionHistory)
      → AllFitIn limits cs h
      → IsSized h
      → IsSized (commits limits cs h)
  unfolding commits
  commits-IsSized limits [] h fits s = s
  commits-IsSized limits (c ∷ cs) h fits s =
      commits-IsSized limits cs (commit_of limits c h).0 fits.1 (commit-IsSized limits c h fits.0 s)

  no_bytes : (n : ℕ) → elements encode [] ≡ some n → n ≡ 0
  unfolding elements
  no_bytes n e = ground (arith, e)

  measure_sized : (h : SessionHistory) → IsSized h → measure encode false h ≡ (h, none)
  unfolding measure
  measure_sized h s = sized h.messages h.size s.is s.bounded
    where
      sized :
          (ms : List Message) (n : ℕ)
          → elements encode ms ≡ some n
          → n + 2 < byte_bound
          → measure encode false (record { messages = ms; size = n })
            ≡ (record { messages = ms; size = n }, none)
      sized [] n e b =
          ap (λ (k : ℕ). (record { messages = []; size = k }, none)) (sym (no_bytes n e))
      sized (m ∷ ms) n e b =
          let exact : u64 (n + 2) - 2 ≡ n = omega arith in ground (arith, e, exact)

  -- The size that is kept commit by commit is the size that a new measure finds, after any commits on
  -- a new history, with and without the limits and failures among them, as long as the JSON of the
  -- Transcript stays below 2^64 bytes.
  pub commits_measured :
      (limits : CoreLimits) (cs : List Commit)
      → AllFitIn limits cs no_history
      → measure encode false (commits limits cs no_history) ≡ (commits limits cs no_history, none)
  commits_measured limits cs fits =
      measure_sized (commits limits cs no_history)
        (commits-IsSized limits cs no_history fits no_history-IsSized)
