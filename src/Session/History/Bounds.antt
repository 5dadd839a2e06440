-- ===== src/Session/History/Bounds.antt =====
-- The limits of gotato/limits.go on the Transcript that gotato/history.go commits to.
use gotato.Base.{
  ℕ, ◌+◌, ◌<◌, ◌≤◌, true, Option, some, List, [], ◌∷◌, length, length-append, ◌≡◌, ◌⊎◌, inl, inr,
  refl, sym, subst, arith, All, All-append, Option-cases,
}
use gotato.Session.Types.{Message}
use gotato.Session.History.{CoreLimits, SessionHistory, with_id}
use gotato.Session.History.Size.{
  Commit, IsSized, FitsIn, AllFitIn, commit_of, commits, commit-Committed, commits-IsSized,
  commit_error_unchanged, no_history, no_history-IsSized, candidate_bounded,
}

module _ (encode : Message → Option ℕ) where
  abbrev IsWithin : CoreLimits → Message → Type 0
  IsWithin limits m = (b : ℕ) × (encode m ≡ some b) × (b ≤ limits.max_message_bytes)

  -- The Transcript with its brackets, and each Message of it, are within the limits.
  pub record Within (limits : CoreLimits) (h : SessionHistory) : Type 0 where
    pub few : length h.messages ≤ limits.max_messages
    pub small : All (IsWithin limits) h.messages
    pub fits : (h.messages ≡ []) ⊎ (h.size + 2 ≤ limits.max_transcript_bytes)

  abbrev Enforced : Commit → Type 0
  Enforced c = c.enforce ≡ true

  commit-Within :
      (limits : CoreLimits) (c : Commit) (h : SessionHistory)
      → limits.max_messages < 4294967295
      → Enforced c
      → FitsIn encode c h
      → Within limits h
      → Within limits (commit_of encode limits c h).0
  commit-Within limits c h top on fit w = elim (Option-cases (commit_of encode limits c h).1) [
    | inr (e, q) ↦ subst (Within limits) (sym (commit_error_unchanged encode limits c h e q)) w
    | inl q ↦
        let k = commit-Committed encode limits c h q in
        let bound = candidate_bounded encode h k.bytes (fit k.bytes k.encoded) in
        subst (Within limits) (sym k.appended) (record {
          few = omega (
            arith,
            length-append h.messages (with_id c.fresh c.message ∷ []),
            k.few on,
            w.few,
            top,
          );
          small =
              All-append (IsWithin limits) h.messages (with_id c.fresh c.message ∷ []) w.small
                ((k.bytes, k.encoded, k.small on), tt);
          fits = inr (omega (arith, k.fits on, bound));
        })
  ]

  no_history-Within : (limits : CoreLimits) → Within limits no_history
  no_history-Within limits = record { few = omega arith; small = tt; fits = inl refl }

  commits-Within :
      (limits : CoreLimits) (cs : List Commit) (h : SessionHistory)
      → limits.max_messages < 4294967295
      → All Enforced cs
      → AllFitIn encode limits cs h
      → Within limits h
      → Within limits (commits encode limits cs h)
  unfolding commits
  commits-Within limits [] h top on fit w = w
  commits-Within limits (c ∷ cs) h top on fit w =
      commits-Within limits cs (commit_of encode limits c h).0 top on.1 fit.1
        (commit-Within limits c h top on.0 fit.0 w)

  -- Commits with enforced limits on a new history, whatever fails among them, leave a Transcript of at
  -- most MaxMessages Messages, each of at most MaxMessageBytes, whose size, which is that of its JSON
  -- without the brackets, is with them at most MaxTranscriptBytes if it is not empty. MaxMessages is
  -- below 2^32 - 1, and the JSON of the Transcript stays below 2^64 bytes.
  pub history-Within :
      (limits : CoreLimits) (cs : List Commit)
      → limits.max_messages < 4294967295
      → All Enforced cs
      → AllFitIn encode limits cs no_history
      → Within limits (commits encode limits cs no_history)
        × IsSized encode (commits encode limits cs no_history)
  history-Within limits cs top on fit = (
    commits-Within limits cs no_history top on fit (no_history-Within limits),
    commits-IsSized encode limits cs no_history fit (no_history-IsSized encode),
  )
