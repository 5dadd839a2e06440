-- ===== src/Host/Warm/Keep.antt =====
-- The numbers of a cache's Entries over any history of calls.
use gotato.Base.{
  ℕ, ◌+◌, ◌<◌, Bool, true, false, if◌then◌else◌, Option, none, some, List, [], ◌∷◌, Bytes, bytes_eq,
  insert, delete, lookup, u64, ◌≡◌, inl, inr, refl, arith, Option-cases, ◌∙◌, sym,
}
use gotato.Host.Warm.{
  Entry, Cache, Plan, put, take, remove, close, entry_of, new_cache, drop_entry, is_current,
}
use gotato.Host.Warm.Evict.{In-insert, In-delete, Numbered}

module _ {V : Type 0} where
  Numbered-delete :
      (k : Bytes) (c : Cache V) → Numbered c → Numbered (record c { entries = delete k c.entries })
  Numbered-delete k c n = record {
    known = λ e h. n.known e (In-delete e k c.entries h);
    once = λ e f h i. n.once e f (In-delete e k c.entries h) (In-delete f k c.entries i);
  }

  Numbered-insert :
      (k : Bytes) (x : Entry V) (s : ℕ) (c : Cache V)
      → c.seq < s
      → x.seq ≡ s
      → Numbered c
      → Numbered (record c { seq = s; entries = insert k x c.entries })
  Numbered-insert k x s c above named n = record {
    known = λ e h. elim (In-insert e x k c.entries h) [
      | inl q ↦ ground arith
      | inr i ↦ omega (arith, n.known e i)
    ];
    once = λ e f h i same. elim (In-insert e x k c.entries h) [
      | inl q ↦ elim (In-insert f x k c.entries i) [
        | inl r ↦ sym q ∙ r
        | inr j ↦ absurd (ground (arith, n.known f j))
      ]
      | inr j ↦ elim (In-insert f x k c.entries i) [
        | inl r ↦ absurd (ground (arith, n.known e j))
        | inr j' ↦ n.once e f j j' same
      ]
    ];
  }

pub data Op (V : Type 0) : Type 0 where
  puts : ℕ → Bytes → Bytes → V → Plan → Op V
  takes : Bytes → Op V
  removes : Entry V → Op V
  closes : Op V

module _ {V : Type 0} where
  unfoldable pub apply : Op V → Cache V → Cache V
  apply (puts now id agent v plan) c = (put now id agent v plan c).0
  apply (takes id) c = (take id c).0
  apply (removes e) c = (remove e c).0
  apply closes c = close c

  unfoldable pub apply_all : List (Op V) → Cache V → Cache V
  apply_all [] c = c
  apply_all (o ∷ os) c = apply_all os (apply o c)

  -- The numbers stay below 2^64.
  abbrev pub Fits : Cache V → List (Op V) → Type 0
  Fits c [] = Unit {0}
  Fits c (o ∷ os) = (c.seq + 1 < 18446744073709551616) × Fits (apply o c) os

  put-Numbered_by :
      (shut : Bool) (s : ℕ) (k : Bytes) (x : Entry V) (c : Cache V)
      → c.seq < s
      → x.seq ≡ s
      → Numbered c
      → Numbered
          (if◌then◌else◌ {A = Cache V × Option (Entry V)} shut
            (c, none)
            (record c { seq = s; entries = insert k x c.entries }, some x)).0
  put-Numbered_by true s k x c above named n = n
  put-Numbered_by false s k x c above named n = Numbered-insert k x s c above named n

  take-Numbered : (id : Bytes) (c : Cache V) → Numbered c → Numbered (take id c).0
  unfolding take
  take-Numbered id c n = elim (Option-cases (lookup id c.entries)) [
    | inl e ↦ rw (e, take) n
    | inr (x, e) ↦ rw (e, take) (Numbered-delete x.id c n)
  ]

  remove-Numbered_by :
      (current : Bool) (x : Entry V) (c : Cache V)
      → Numbered c
      → Numbered
          (if◌then◌else◌ {A = Cache V × Bool} current ((drop_entry x c).0, true) (c, false)).0
  unfolding drop_entry
  remove-Numbered_by true x c n = Numbered-delete x.id c n
  remove-Numbered_by false x c n = n

  apply-Numbered :
      (o : Op V) (c : Cache V)
      → c.seq + 1 < 18446744073709551616
      → Numbered c
      → Numbered (apply o c)
  unfolding apply put remove close
  apply-Numbered (puts now id agent v plan) c b n =
      put-Numbered_by c.closed (u64 (c.seq + 1)) id (entry_of now id agent v plan (u64 (c.seq + 1)))
        c (omega arith) refl n
  apply-Numbered (takes id) c b n = take-Numbered id c n
  apply-Numbered (removes x) c b n =
      remove-Numbered_by (is_current (lookup x.id c.entries) x.seq) x c n
  apply-Numbered closes c b n = record { known = n.known; once = n.once }

  -- In every cache that calls make of a new one, fewer than 2^64 of them, the Entries have different
  -- numbers.
  pub apply_all-Numbered :
      (os : List (Op V)) (c : Cache V) → Fits c os → Numbered c → Numbered (apply_all os c)
  unfolding apply_all
  apply_all-Numbered [] c b n = n
  apply_all-Numbered (o ∷ os) c b n =
      apply_all-Numbered os (apply o c) b.1 (apply-Numbered o c b.0 n)

pub new-Numbered : (V : Type 0) → Numbered (new_cache {V = V})
new-Numbered V = record { known = λ e h. absurd h; once = λ e f h. absurd h }
