-- ===== src/Session/History/Told.antt =====
-- What commitToolResult of gotato/history.go commits for a Tool Result.
use gotato.Base.{
  ℕ, ◌≤◌, ◌<◌, true, false, Option, none, some, [], ◌∷◌, ◌++◌, Bytes, ◌≡◌, ◌≢◌, ◌⊎◌, refl, sym, ap,
  subst, arith, inl, inr, Bool-cases, or_default, Option-cases,
}
use gotato.Session.Types.{Message, ToolResult, failed}
use gotato.Session.History.{
  CoreLimits, CommitError, message_bytes_exceeded, TranscriptCalls, SessionHistory, commit,
  commit_encoded, with_id, is_message_too_large,
}
use gotato.Session.History.Size.{Commit, commit-Committed, commit_error_unchanged}
use gotato.Session.History.Results.{oversized_result, commit_tool_result}

module _ (encode : Message → Option ℕ) (decimal : ℕ → Bytes) where
  -- The Message, with its id, has more bytes than one Message may have.
  abbrev pub IsTooLarge : CoreLimits → Bytes → Message → Type 0
  IsTooLarge limits fresh m =
      (b : ℕ) × (encode (with_id fresh m) ≡ some b) × (limits.max_message_bytes < b)

  -- What is told of a Tool Result r, whose Message is m, when its commit has been tried.
  pub record Told (limits : CoreLimits) (fresh : Bytes) (m : Message) (r : ToolResult)
      (h g : SessionHistory) (told : Message × ToolResult × Option CommitError) : Type 0 where
    -- As it is, and not refused for its bytes; or a failed one, since its Message is too large.
    pub which :
        ((told.0 ≡ m) × (told.1 ≡ r) × (told.2 ≢ some message_bytes_exceeded))
        ⊎ ((told.1.status ≡ failed) × IsTooLarge limits fresh m)
    pub executed : told.1.executed ≡ r.executed
    pub call : told.1.call_id ≡ r.call_id
    pub holds : told.0.result ≡ some told.1
    -- Without an error the Message told is the last of the Transcript, and within the limit.
    pub committed :
        told.2 ≡ none
        → (id : Bytes) × (b : ℕ) × (g.messages ≡ h.messages ++ with_id id told.0 ∷ [])
          × (encode (with_id id told.0) ≡ some b)
          × (b ≤ limits.max_message_bytes)
    pub refused : (e : CommitError) → told.2 ≡ some e → g ≡ h

  too_large :
      (e : Option CommitError) → is_message_too_large e ≡ true → e ≡ some message_bytes_exceeded
  too_large e h = ground (arith, h)

  not_too_large :
      (e : Option CommitError) → is_message_too_large e ≡ false → e ≢ some message_bytes_exceeded
  not_too_large e h q = ground (arith, h, q)

  commit-IsTooLarge :
      (limits : CoreLimits) (calls : TranscriptCalls) (fresh : Bytes) (m : Message)
      (h : SessionHistory)
      → (commit encode limits calls fresh true m h).1 ≡ some message_bytes_exceeded
      → IsTooLarge limits fresh m
  unfolding commit commit_encoded
  commit-IsTooLarge limits calls fresh m h q = elim (Option-cases (encode (with_id fresh m))) [
    | inl e ↦ absurd (ground (arith, q, e))
    | inr (b, e) ↦ (b, e, ground (arith, q, e))
  ]

  abbrev try_of : TranscriptCalls → Bytes → Message → Commit
  try_of calls fresh m = record { calls = calls; fresh = fresh; enforce = true; message = m }

  commit-Told :
      (limits : CoreLimits) (calls : TranscriptCalls) (first fresh : Bytes) (own m : Message)
      (r s : ToolResult) (h : SessionHistory)
      → ((m ≡ own)
          × (s ≡ r)
          × ((commit encode limits calls fresh true m h).1 ≢ some message_bytes_exceeded))
        ⊎ ((s.status ≡ failed) × IsTooLarge limits first own)
      → s.executed ≡ r.executed
      → s.call_id ≡ r.call_id
      → m.result ≡ some s
      → Told limits first own r h
          (commit encode limits calls fresh true m h).0
          (m, s, (commit encode limits calls fresh true m h).1)
  commit-Told limits calls first fresh own m r s h which ran same holds = record {
    which = which;
    executed = ran;
    call = same;
    holds = holds;
    committed = λ q.
        let k = commit-Committed encode limits (try_of calls fresh m) h q in
        (
          fresh,
          k.bytes,
          ap (λ (x : SessionHistory). x.messages) k.appended,
          k.encoded,
          k.small refl,
        );
    refused = λ e q. commit_error_unchanged encode limits (try_of calls fresh m) h e q;
  }

  -- A Tool Result is committed as it is, and then not refused for its bytes, or a failed one is
  -- committed in its place, and then its Message has more than MaxMessageBytes. In both cases the
  -- result told is the one that its Message holds, for the same call, with Executed as it was;
  -- without an error the Message stands last in the Transcript, within MaxMessageBytes, and with an
  -- error the Transcript is as it was.
  pub commit_tool_result_lem :
      (limits : CoreLimits) (first again : TranscriptCalls) (fresh renewed : Bytes) (m : Message)
      (r : ToolResult) (h : SessionHistory)
      → m.result ≡ some r
      → Told limits fresh m r h
          (commit_tool_result encode decimal limits first again fresh renewed m r h).0
          (commit_tool_result encode decimal limits first again fresh renewed m r h).1
  unfolding commit_tool_result oversized_result
  commit_tool_result_lem limits first again fresh renewed m r h e =
      let g = commit encode limits first fresh true m h in
      let s =
        oversized_result encode decimal r (or_default 0 (encode m)) limits.max_message_bytes in
      let n : Message = record m { parts = s.content; result = some s } in
      let k = commit encode limits again renewed true n g.0 in
      elim (Bool-cases (is_message_too_large g.1)) [
        | inl large ↦
            let is : commit_tool_result encode decimal limits first again fresh renewed m r h
                ≡ (k.0, (n, s, k.1)) =
              ground (arith, large) in
            let same =
              commit_error_unchanged encode limits (try_of first fresh m) h message_bytes_exceeded
                (too_large g.1 large) in
            let big = commit-IsTooLarge limits first fresh m h (too_large g.1 large) in
            let told =
              commit-Told limits again fresh renewed m n r s g.0 (inr (refl, big)) refl refl refl in
            subst
              (λ (x : SessionHistory × (Message × ToolResult × Option CommitError)).
                Told limits fresh m r h x.0 x.1)
              (sym is) (subst (λ x. Told limits fresh m r x k.0 (n, s, k.1)) same told)
        | inr other ↦
            let is : commit_tool_result encode decimal limits first again fresh renewed m r h
                ≡ (g.0, (m, r, g.1)) =
              ground (arith, other) in
            subst
              (λ (x : SessionHistory × (Message × ToolResult × Option CommitError)).
                Told limits fresh m r h x.0 x.1)
              (sym is)
              (commit-Told limits first fresh fresh m m r r h
                (inl (refl, refl, not_too_large g.1 other)) refl refl e)
      ]
