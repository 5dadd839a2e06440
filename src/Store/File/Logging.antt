-- ===== src/Store/File/Logging.antt =====
-- Log of store/file.go against that of store/memory.go.
use gotato.Base.{
  ℕ, suc, ◌+◌, ◌<◌, ◌≤◌, true, false, ◌&&◌, Option, none, some, List, [], ◌∷◌, ◌++◌, append-nil,
  append_assoc, Bytes, length, lookup, bytes_eq, select, select-append, ltb, leb, take, drop,
  take_all, zero, ◌≡◌, ◌⊎◌, inl, inr, refl, sym, ◌∙◌, ap, arith, ok, Bool-cases, Option-cases,
  subst,
}
use gotato.Record.Entry.{Entry}
use gotato.Store.Id.{StoreError, check_id}
use gotato.Store.File.{FileBatch, Files, Disk, Dir, FileStore, read_batch}
use gotato.Store.File.Name.{name_of}
use gotato.Store.File.Reading.{read_log, file_log, is_passed}
use gotato.Store.File.Chain.{IsChain, chain-Found, entries_of, firsts_of}
use gotato.Store.File.Shows.{Shows, Kept}
use gotato.Store.File.Agree.{IsShort, check_file_id-IsShort}
use gotato.Store.File.Backward.{Readable}
use gotato.Store.File.Loading.{
  Readable-of, Kept-Listed, batch_list-Kept, batch_list-gone, batch_list-refused,
}
use gotato.Store.Memory.{MemoryRecord, MemoryStore, log_after}
use gotato.Store.Memory.Invariant.{Numbered, IsLog, IsStored}
use gotato.Store.Memory.Reads.{page_of, page_after_lem}

abbrev later : ℕ → List Entry → List Entry
later after = select (λ e. ltb after e.seq)

later_all : (after n : ℕ) (es : List Entry) → Numbered n es → after ≤ n → later after es ≡ es
unfolding select
later_all after n [] h p = refl
later_all after n (e ∷ es) h p = ground (arith, h.0, later_all after (suc n) es h.1 (omega arith))

-- Of Entries numbered from n + 1 these are all those after a position.
later-drop :
    (k n after : ℕ) (es : List Entry) → Numbered n es → after ≡ k + n → later after es ≡ drop k es
unfolding select
later-drop zero n after es h q = later_all after n es h (omega arith)
later-drop (suc k) n after [] h q = refl
later-drop (suc k) n after (e ∷ es) h q =
    ground (arith, h.0, q, later-drop k (suc n) after es h.1 (omega arith))

later_none :
    (after n : ℕ) (es : List Entry) → Numbered n es → n + length es ≤ after → later after es ≡ []
unfolding select
later_none after n [] h p = refl
later_none after n (e ∷ es) h p = ground (arith, h.0, later_none after (suc n) es h.1 (omega arith))

take-append_le :
    {A : Type 0} (k : ℕ) (xs ys : List A) → k ≤ length xs → take k (xs ++ ys) ≡ take k xs
take-append_le zero xs ys h = refl
take-append_le (suc k) [] ys h = absurd (omega arith)
take-append_le (suc k) (x ∷ xs) ys h =
    ap (λ (t : List _). x ∷ t) (take-append_le k xs ys (omega arith))

passed_lem :
    (after n : ℕ) (b : FileBatch) (fs : Files)
    → IsChain (n + length b.entries) fs
    → is_passed after (firsts_of fs) ≡ true
    → n + length b.entries ≤ after
passed_lem after n b [] c h = cc
passed_lem after n b (f ∷ fs) c h = ground (arith, c.0, h)

-- The loop stops at the limit, or reads on with fewer Entries than it.
MayRead : ℕ → List Entry → Type 0
MayRead limit out = (limit ≡ 0) ⊎ (length out < limit)

whole_page :
    (limit : ℕ) (out : List Entry) → (limit ≡ 0) ⊎ (length out ≤ limit) → page_of limit out ≡ out
whole_page zero out h = refl
whole_page (suc n) out (inl h) = absurd (omega arith)
whole_page (suc n) out (inr h) = take_all (suc n) out h

may_hold : (limit : ℕ) (out : List Entry) → MayRead limit out → (limit ≡ 0) ⊎ (length out ≤ limit)
unfolding MayRead
may_hold limit out (inl h) = inl h
may_hold limit out (inr h) = inr (omega arith)

full_page :
    (limit : ℕ) (more rest : List Entry)
    → ltb 0 limit && leb limit (length more) ≡ true
    → take limit more ≡ page_of limit (more ++ rest)
full_page zero more rest h = cc
full_page (suc n) more rest h = sym (take-append_le (suc n) more rest (ground arith))

has_room :
    (limit : ℕ) (more : List Entry)
    → ltb 0 limit && leb limit (length more) ≡ false
    → MayRead limit more
unfolding MayRead
has_room zero more h = inl refl
has_room (suc n) more h = inr (ground arith)

read_full :
    (dir : Dir) (disk : Disk) (after limit : ℕ) (f : ℕ × FileBatch) (fs : Files) (out : List Entry)
    → is_passed after (firsts_of fs) ≡ false
    → read_batch dir f.0 disk ≡ some f.1
    → ltb 0 limit && leb limit (length (out ++ later after f.1.entries)) ≡ true
    → read_log dir disk after limit (firsts_of (f ∷ fs)) out
      ≡ ok (take limit (out ++ later after f.1.entries))
unfolding read_log
read_full dir disk after limit f fs out here r h = ground (arith, here, r, h)

read_on :
    (dir : Dir) (disk : Disk) (after limit : ℕ) (f : ℕ × FileBatch) (fs : Files) (out : List Entry)
    → is_passed after (firsts_of fs) ≡ false
    → read_batch dir f.0 disk ≡ some f.1
    → ltb 0 limit && leb limit (length (out ++ later after f.1.entries)) ≡ false
    → read_log dir disk after limit (firsts_of (f ∷ fs)) out
      ≡ read_log dir disk after limit (firsts_of fs) (out ++ later after f.1.entries)
unfolding read_log
read_on dir disk after limit f fs out here r h = ground (arith, here, r, h)

read_log_lem :
    (dir : Dir) (disk : Disk) (after limit n : ℕ) (fs : Files) (out : List Entry)
    → IsChain n fs
    → Readable dir disk fs
    → MayRead limit out
    → read_log dir disk after limit (firsts_of fs) out
      ≡ ok (page_of limit (out ++ later after (entries_of fs)))
unfolding read_log MayRead
read_log_lem dir disk after limit n [] out c r h =
    ap (λ (x : List Entry). ok x)
      (sym (ap (page_of limit) (append-nil out) ∙ whole_page limit out (may_hold limit out h)))
read_log_lem dir disk after limit n (f ∷ fs) out c r h =
    elim (Bool-cases (is_passed after (firsts_of fs))) [
      | inl passed ↦
          let none_here =
            later_none after n f.1.entries c.2 (passed_lem after n f.1 fs c.3 passed) in
          ground (
            arith,
            passed,
            read_log_lem dir disk after limit (n + length f.1.entries) fs out c.3 r.1 h,
            select-append (λ e. ltb after e.seq) f.1.entries (entries_of fs),
            none_here,
          )
      | inr here ↦
          let more = out ++ later after f.1.entries in
          let rest = later after (entries_of fs) in
          let joined : more ++ rest ≡ out ++ later after (entries_of (f ∷ fs)) =
            append_assoc out (later after f.1.entries) rest
            ∙ ap (λ (x : List Entry). out ++ x)
                (sym (select-append (λ e. ltb after e.seq) f.1.entries (entries_of fs))) in
          elim (Bool-cases (ltb 0 limit && leb limit (length more))) [
            | inl full ↦
                read_full dir disk after limit f fs out here r.0 full
                ∙ ap (λ (x : List Entry). ok x)
                    (full_page limit more rest full ∙ ap (page_of limit) joined)
            | inr room ↦
                read_on dir disk after limit f fs out here r.0 room
                ∙ read_log_lem dir disk after limit (n + length f.1.entries) fs more c.3 r.1
                    (has_room limit more room)
                ∙ ap (λ (x : List Entry). ok (page_of limit x)) joined
          ]
    ]

module _ (hash : Bytes → Bytes) where
  log-Kept :
      (id : Bytes) (after limit : ℕ) (f : FileStore) (m : MemoryStore) (r : MemoryRecord)
      (k : Kept hash f.disk id r)
      → check_id id ≡ none
      → IsShort id
      → IsLog r
      → lookup id m.records ≡ some r
      → file_log none id after limit f ≡ log_after none id after limit m
  unfolding file_log log_after MayRead
  log-Kept id after limit f m r k named short log there =
      let dir : Dir = (name_of id, hash r.header.epoch) in
      let l = Kept-Listed hash f.disk id r k in
      let readable =
        Readable-of dir f.disk k.files k.files l.here (chain-Found 0 k.files k.chain) in
      let numbered = subst (Numbered 0) (sym k.log) log.numbered in
      let page : later after (entries_of k.files) ≡ drop after r.entries =
        later-drop after 0 after (entries_of k.files) numbered (omega arith)
        ∙ ap (drop after) k.log in
      ground (
        arith,
        named,
        there,
        batch_list-Kept hash f.disk id r k (check_file_id-IsShort id short ∙ named),
        read_log_lem dir f.disk after limit 0 k.files [] k.chain readable (room limit),
        ap (page_of limit) page,
        page_after_lem after limit r.entries log.bounded,
      )
    where
      room : (limit : ℕ) → MayRead limit []
      room zero = inl refl
      room (suc n) = inr (omega arith)

  -- A Log through any handle returns the page that the MemoryStore's Log returns: the writes that it
  -- passes over hold no Entry after the position. The name of the id is short enough.
  pub log-Agree :
      (ctx : Option StoreError) (id : Bytes) (after limit : ℕ) (f : FileStore) (m : MemoryStore)
      → IsShort id
      → Shows hash f.disk m
      → IsStored m
      → file_log ctx id after limit f ≡ log_after ctx id after limit m
  unfolding file_log log_after
  log-Agree (some e) id after limit f m short s v = refl
  log-Agree none id after limit f m short s v = elim (Option-cases (check_id id)) [
    | inr (e, q) ↦
        ground (arith, q, batch_list-refused hash f.disk id e (check_file_id-IsShort id short ∙ q))
    | inl q ↦ elim (s id q) [
      | inl (gone, no_dir) ↦ ground (
        arith,
        q,
        gone,
        batch_list-gone hash f.disk id (check_file_id-IsShort id short ∙ q) no_dir,
      )
      | inr (r, there, k) ↦ log-Kept id after limit f m r k q short (v id r there) there
    ]
  ]
