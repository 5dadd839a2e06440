-- ===== src/Store/File/Chain.antt =====
-- The files of one epoch's directory in store/file.go: one write after another.
use gotato.Base.{
  ℕ, suc, ◌+◌, ◌<◌, ◌≤◌, none, some, List, [], ◌∷◌, ◌++◌, map, length, length-append, lookup,
  insert, nat_eq, ◌≡◌, ◌⊎◌, inl, inr, refl, arith, ap, All, ◌==◌, true, Bool-cases, is_some, ◌∙◌,
  sym, append_assoc, subst,
}
use native.Mathlib.Nat.{add-zero}
use gotato.Record.Entry.{Entry, Header}
use gotato.Store.File.{
  FileBatch, Files, last_entry_seq, first_entry_seq, sort_firsts, ordered_insert,
}
use gotato.Store.File.Reading.{concat, last_header}
use gotato.Store.File.Calls.{last_first}
use gotato.Store.Memory.Invariant.{Numbered}

abbrev pub batches : Files → List FileBatch
batches = map (λ f. f.1)

-- The log that the files hold.
abbrev pub entries_of : Files → List Entry
entries_of fs = concat (batches fs)

-- Each file is named by the position after the one before it, and holds Entries from there on.
abbrev pub IsChain : ℕ → Files → Type 0
IsChain n [] = Unit {0}
IsChain n ((k, b) ∷ fs) =
    (k ≡ suc n) × (0 < length b.entries) × Numbered n b.entries × IsChain (n + length b.entries) fs

pub Numbered-last :
    (n : ℕ) (es : List Entry) → 0 < length es → Numbered n es → last_entry_seq es ≡ n + length es
Numbered-last n [] p h = absurd (omega arith)
Numbered-last n (e ∷ []) p h = omega (arith, h.0)
Numbered-last n (e ∷ f ∷ es) p h = omega (arith, Numbered-last (suc n) (f ∷ es) (omega arith) h.1)

pub Numbered-first :
    (n : ℕ) (es : List Entry) → 0 < length es → Numbered n es → first_entry_seq es ≡ suc n
Numbered-first n [] p h = absurd (omega arith)
Numbered-first n (e ∷ es) p h = h.0

-- No file is named by a position up to where the chain begins, or after its end.
chain_before : (n k : ℕ) (fs : Files) → IsChain n fs → k ≤ n → lookup k fs ≡ none
unfolding lookup
chain_before n k [] h p = refl
chain_before n k ((j, b) ∷ fs) h p =
    ground (arith, h.0, chain_before (n + length b.entries) k fs h.3 (omega arith))

pub chain_after :
    (n k : ℕ) (fs : Files) → IsChain n fs → n + length (entries_of fs) < k → lookup k fs ≡ none
unfolding lookup
chain_after n k [] h p = refl
chain_after n k ((j, b) ∷ fs) h p =
    let l = length-append b.entries (entries_of fs) in
    ground (arith, h.0, h.1, chain_after (n + length b.entries) k fs h.3 (omega (arith, l)), l)

-- A write that is not the last has its next after it.
pub IsChain-append :
    (n k : ℕ) (fs : Files) (b : FileBatch)
    → IsChain n fs
    → k ≡ suc (n + length (entries_of fs))
    → 0 < length b.entries
    → Numbered (n + length (entries_of fs)) b.entries
    → IsChain n (fs ++ (k, b) ∷ [])
IsChain-append n k [] b h q p l =
    (omega (arith, q), p, subst (λ x. Numbered x b.entries) (add-zero n) l, tt)
IsChain-append n k ((j, c) ∷ fs) b h q p l =
    let grown = length-append c.entries (entries_of fs) in
    let m : n + length (c.entries ++ entries_of fs)
        ≡ n + length c.entries + length (entries_of fs) =
      omega (arith, grown) in
    (
      h.0,
      h.1,
      h.2,
      IsChain-append (n + length c.entries) k fs b h.3 (omega (arith, q, grown)) p
          (subst (λ x. Numbered x b.entries) m l),
    )

pub insert_new :
    (k : ℕ) (b : FileBatch) (fs : Files) → lookup k fs ≡ none → insert k b fs ≡ fs ++ (k, b) ∷ []
unfolding lookup insert
insert_new k b [] e = refl
insert_new k b ((j, c) ∷ fs) e = ground (arith, insert_new k b fs)

pub entries_of-append : (fs gs : Files) → entries_of (fs ++ gs) ≡ entries_of fs ++ entries_of gs
entries_of-append [] gs = refl
entries_of-append ((j, c) ∷ fs) gs =
    rw (entries_of-append fs gs) (sym (append_assoc c.entries (entries_of fs) (entries_of gs)))

-- The positions stand in order already, and each names the write that it leads to.
abbrev pub firsts_of : Files → List ℕ
firsts_of = map (λ f. f.0)

ordered_insert_first : (j k : ℕ) (ks : List ℕ) → j < k → ordered_insert j (k ∷ ks) ≡ j ∷ k ∷ ks
unfolding ordered_insert
ordered_insert_first j k ks h = ground arith

pub chain_sorted : (n : ℕ) (fs : Files) → IsChain n fs → sort_firsts (firsts_of fs) ≡ firsts_of fs
unfolding sort_firsts
chain_sorted n [] h = refl
chain_sorted n ((j, b) ∷ []) h = refl
chain_sorted n ((j, b) ∷ (k, c) ∷ fs) h =
    ap (ordered_insert j) (chain_sorted (n + length b.entries) ((k, c) ∷ fs) h.3)
    ∙ ordered_insert_first j k (firsts_of fs) (omega (arith, h.0, h.1, h.3.0))

unfoldable pub Found : Files → Files → Type 0
Found fs gs = All (λ f. lookup f.0 fs ≡ some f.1) gs

Found-weaken :
    (n j : ℕ) (b : FileBatch) (fs gs : Files)
    → j ≤ n
    → IsChain n gs
    → Found fs gs
    → Found ((j, b) ∷ fs) gs
unfolding Found lookup
Found-weaken n j b fs [] p h f = tt
Found-weaken n j b fs ((k, c) ∷ gs) p h f =
    (ground (arith, h.0, f.0), Found-weaken (n + length c.entries) j b fs gs (omega arith) h.3 f.1)

pub chain-Found : (n : ℕ) (fs : Files) → IsChain n fs → Found fs fs
unfolding Found lookup
chain-Found n [] h = tt
chain-Found n ((j, b) ∷ fs) h = (
  ground arith,
  Found-weaken (n + length b.entries) j b fs fs (omega (arith, h.0, h.1)) h.3
      (chain-Found (n + length b.entries) fs h.3),
)

pub record Ends (n : ℕ) (fs : Files) (b : FileBatch) : Type 0 where
  pub within : last_entry_seq b.entries ≤ n + length (entries_of fs)
  pub next :
      (last_entry_seq b.entries ≡ n + length (entries_of fs))
      ⊎ (is_some (lookup (suc (last_entry_seq b.entries)) fs) ≡ true)

pub chain-Ends :
    (n k : ℕ) (fs : Files) (b : FileBatch) → IsChain n fs → lookup k fs ≡ some b → Ends n fs b
unfolding lookup
chain-Ends n k [] b h e = cc
chain-Ends n k ((j, c) ∷ fs) b h e = elim (Bool-cases (j == k)) [
  | inl here ↦
      let same : c ≡ b = ground arith in
      let l = Numbered-last n c.entries h.1 h.2 in
      let grown = length-append c.entries (entries_of fs) in
      subst (λ x. Ends n ((j, c) ∷ fs) x) same
        (record {
          within = omega (arith, l, grown);
          next = after_head fs (n + length c.entries) refl h.3 l grown;
        })
  | inr there ↦
      let e' = chain-Ends (n + length c.entries) k fs b h.3 (ground arith) in
      let grown = length-append c.entries (entries_of fs) in
      record {
        within = omega (arith, e'.within, grown);
        next = elim e'.next [
          | inl last ↦ inl (omega (arith, last, grown))
          | inr more ↦ inr (ground (arith, more))
        ];
      }
]
  where
    after_head :
        (fs : Files) (m : ℕ)
        → m ≡ n + length c.entries
        → IsChain m fs
        → last_entry_seq c.entries ≡ m
        → length (c.entries ++ entries_of fs) ≡ length c.entries + length (entries_of fs)
        → (last_entry_seq c.entries ≡ n + length (c.entries ++ entries_of fs))
          ⊎ (is_some (lookup (suc (last_entry_seq c.entries)) ((j, c) ∷ fs)) ≡ true)
    after_head [] m q h l g = inl (omega (arith, q, l, g))
    after_head ((i, d) ∷ fs) m q h l g = inr (ground (arith, h.0, l))

later_found :
    (n k i : ℕ) (b c : FileBatch) (fs : Files)
    → k ≤ n
    → IsChain n fs
    → lookup i fs ≡ some c
    → lookup i ((k, b) ∷ fs) ≡ some c
unfolding lookup
later_found n k i b c fs p h e = ground (arith, chain_before n k fs h p)

-- The last write of a directory that has one.
pub record Newest (n : ℕ) (fs : Files) (h : Header) : Type 0 where
  pub first : ℕ
  pub batch : FileBatch
  pub named : last_first (firsts_of fs) ≡ some first
  pub found : lookup first fs ≡ some batch
  pub end : last_entry_seq batch.entries ≡ n + length (entries_of fs)
  pub header : batch.header ≡ h

pub chain-Newest :
    (n : ℕ) (fs : Files) (h : Header)
    → IsChain n fs
    → last_header (batches fs) ≡ some h
    → Newest n fs h
unfolding lookup
chain-Newest n [] h c e = cc
chain-Newest n ((k, b) ∷ []) h c e = record {
  first = k;
  batch = b;
  named = refl;
  found = ground arith;
  end = omega (arith, Numbered-last n b.entries c.1 c.2, length-append b.entries []);
  header = ground arith;
}
chain-Newest n ((k, b) ∷ (j, x) ∷ fs) h c e =
    let w = chain-Newest (n + length b.entries) ((j, x) ∷ fs) h c.3 e in
    record {
      first = w.first;
      batch = w.batch;
      named = w.named;
      found =
          later_found (n + length b.entries) k w.first b w.batch ((j, x) ∷ fs)
            (omega (arith, c.0, c.1)) c.3 w.found;
      end = omega (arith, w.end, length-append b.entries (entries_of ((j, x) ∷ fs)));
      header = w.header;
    }

pub last_header-append :
    (fs : Files) (k : ℕ) (b : FileBatch) → last_header (batches (fs ++ (k, b) ∷ [])) ≡ some b.header
last_header-append [] k b = refl
last_header-append (f ∷ []) k b = refl
last_header-append (f ∷ g ∷ fs) k b = last_header-append (g ∷ fs) k b
