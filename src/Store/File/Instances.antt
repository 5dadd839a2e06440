-- ===== src/Store/File/Instances.antt =====
-- store/file_instance.go: the Liveness rows of a FileStore, one file for each Instance. A file that
-- does not parse, which a power cut may leave, is a row with no value. `ctx` and `now` are as in the
-- MemoryStore. A Beat replaces its file in one rename, so it is one step.
use gotato.Base.{
  ℕ, ◌+◌, false, ◌==◌, ltb, if◌then◌else◌, Option, none, some, List, [], ◌∷◌, Bytes, lookup, insert,
  delete, bytes_eq, bytes_beq_iff, ◌===◌, lookup-insert, lookup-delete, Result, ok, refuse, check,
  is_some, ◌≡◌, refl, sym, ap₂, subst, arith, inl, inr, Bool-cases, Option-cases, All,
}
use gotato.Store.Id.{StoreError, expired, check_id}
use gotato.Store.File.Name.{name_of, check_file_id}
use gotato.Store.File.Name.Valid.{other_name}
use gotato.Store.File.Agree.{IsShort, check_file_id-IsShort}
use gotato.Store.Memory.{
  InstanceRow, InstanceState, MemoryInstance, MemoryStore, beat, row_expired, instance_state,
}

-- The files of .instances, by their names.
abbrev pub RowFiles : Type 0
RowFiles = List (Bytes × Option MemoryInstance)

-- The row that a file holds, none where there is no file or it does not parse.
abbrev pub read_instance : Option (Option MemoryInstance) → Option MemoryInstance
read_instance none = none
read_instance (some r) = r

unfoldable pub file_beat :
    Option StoreError → InstanceRow → ℕ → ℕ → RowFiles → RowFiles × Option StoreError
unfolding row_expired
file_beat ctx row ttl now fs = refuse fs ctx (
    refuse fs (check_file_id row.id) (
      if ttl == 0
      then (delete (name_of row.id) fs, none)
      else if row_expired now (read_instance (lookup (name_of row.id) fs))
      then (fs, some expired)
      else (insert (name_of row.id) (some (record { row = row; expires = now + ttl })) fs, none)))

abbrev gone_state : Bytes → InstanceState
gone_state id = record { id = id; alive = false; draining = false; address = [] }

unfoldable pub file_instance :
    Option StoreError → Bytes → ℕ → RowFiles → Result StoreError InstanceState
file_instance ctx id now fs = check ctx (
    if is_some (check_file_id id)
    then ok (gone_state id)
    else elim (read_instance (lookup (name_of id) fs)) [
      | none ↦ ok (gone_state id)
      | some r ↦ ok (record {
        id = id;
        alive = ltb now r.expires;
        draining = r.row.draining;
        address = r.row.address;
      })
    ])

-- The files hold the rows of the MemoryStore, as far as they can be read.
abbrev pub ShowsRows : RowFiles → MemoryStore → Type 0
ShowsRows fs m =
    (id : Bytes)
    → check_id id ≡ none
    → read_instance (lookup (name_of id) fs) ≡ lookup id m.instances

removed-ShowsRows :
    (id : Bytes) (fs : RowFiles) (m : MemoryStore)
    → check_id id ≡ none
    → ShowsRows fs m
    → ShowsRows (delete (name_of id) fs) (record m { instances = delete id m.instances })
removed-ShowsRows id fs m h s k hk = elim (Bool-cases (id === k)) [
  | inl same ↦ ground (
    arith,
    bytes_beq_iff id k,
    bytes_beq_iff (name_of id) (name_of k),
    lookup-delete id k m.instances,
    lookup-delete (name_of id) (name_of k) fs,
  )
  | inr other ↦ ground (
    arith,
    s k hk,
    other_name id k h hk other,
    lookup-delete id k m.instances,
    lookup-delete (name_of id) (name_of k) fs,
  )
]

renewed-ShowsRows :
    (id : Bytes) (r : MemoryInstance) (fs : RowFiles) (m : MemoryStore)
    → check_id id ≡ none
    → ShowsRows fs m
    → ShowsRows (insert (name_of id) (some r) fs) (record m { instances = insert id r m.instances })
renewed-ShowsRows id r fs m h s k hk = elim (Bool-cases (id === k)) [
  | inl same ↦ ground (
    arith,
    bytes_beq_iff id k,
    bytes_beq_iff (name_of id) (name_of k),
    lookup-insert id k r m.instances,
    lookup-insert (name_of id) (name_of k) (some r) fs,
  )
  | inr other ↦ ground (
    arith,
    s k hk,
    other_name id k h hk other,
    lookup-insert id k r m.instances,
    lookup-insert (name_of id) (name_of k) (some r) fs,
  )
]

-- What one Beat does on both sides.
pub record SameBeat (files : RowFiles × Option StoreError)
    (memory : MemoryStore × Option StoreError) : Type 0 where
  pub result : files.1 ≡ memory.1
  pub shows : ShowsRows files.0 memory.0

beat_by :
    {F G : RowFiles × Option StoreError} {M N : MemoryStore × Option StoreError}
    → F ≡ G
    → M ≡ N
    → SameBeat G N
    → SameBeat F M
beat_by {G = G} {M = M} p q a =
    subst (λ x. SameBeat x M) (sym p) (subst (λ x. SameBeat G x) (sym q) a)

beat-SameBeat :
    (ctx : Option StoreError) (row : InstanceRow) (ttl now : ℕ) (fs : RowFiles) (m : MemoryStore)
    → IsShort row.id
    → ShowsRows fs m
    → SameBeat (file_beat ctx row ttl now fs) (beat ctx row ttl now m)
unfolding file_beat beat
beat-SameBeat (some e) row ttl now fs m short s = record { result = refl; shows = s }
beat-SameBeat none row ttl now fs m short s = elim (Option-cases (check_id row.id)) [
  | inr (e, q) ↦
      beat_by {G = (fs, some e)} {N = (m, some e)}
        (ground (arith, q, check_file_id-IsShort row.id short)) (ground (arith, q))
        (record { result = refl; shows = s })
  | inl q ↦ elim (Bool-cases (ttl == 0)) [
    | inl zero_ttl ↦
        beat_by {G = (delete (name_of row.id) fs, none)}
          {N = (record m { instances = delete row.id m.instances }, none)}
          (ground (arith, q, zero_ttl, check_file_id-IsShort row.id short))
          (ground (arith, q, zero_ttl))
          (record { result = refl; shows = removed-ShowsRows row.id fs m q s })
    | inr lives ↦ elim (Bool-cases (row_expired now (lookup row.id m.instances))) [
      | inl late ↦
          beat_by {G = (fs, some expired)} {N = (m, some expired)}
            (ground (arith, q, lives, late, s row.id q, check_file_id-IsShort row.id short))
            (ground (arith, q, lives, late)) (record { result = refl; shows = s })
      | inr in_time ↦
          let r : MemoryInstance = record { row = row; expires = now + ttl } in
          beat_by {G = (insert (name_of row.id) (some r) fs, none)}
            {N = (record m { instances = insert row.id r m.instances }, none)}
            (ground (arith, q, lives, in_time, s row.id q, check_file_id-IsShort row.id short))
            (ground (arith, q, lives, in_time))
            (record { result = refl; shows = renewed-ShowsRows row.id r fs m q s })
    ]
  ]
]

pub record Heartbeat : Type 0 where
  pub ctx : Option StoreError
  pub row : InstanceRow
  pub ttl : ℕ
  pub now : ℕ

unfoldable pub file_beats : List Heartbeat → RowFiles → RowFiles × List (Option StoreError)
file_beats [] fs = (fs, [])
file_beats (b ∷ bs) fs =
    let (gs, e) = file_beat b.ctx b.row b.ttl b.now fs in
    let (last, es) = file_beats bs gs in (last, e ∷ es)

unfoldable pub memory_beats : List Heartbeat → MemoryStore → MemoryStore × List (Option StoreError)
memory_beats [] m = (m, [])
memory_beats (b ∷ bs) m =
    let (n, e) = beat b.ctx b.row b.ttl b.now m in
    let (last, es) = memory_beats bs n in (last, e ∷ es)

abbrev AllShort : List Heartbeat → Type 0
AllShort = All (λ b. IsShort b.row.id)

beats_lem :
    (bs : List Heartbeat) (fs : RowFiles) (m : MemoryStore)
    → AllShort bs
    → ShowsRows fs m
    → ((file_beats bs fs).1 ≡ (memory_beats bs m).1)
      × ShowsRows (file_beats bs fs).0 (memory_beats bs m).0
unfolding file_beats memory_beats
beats_lem [] fs m h s = (refl, s)
beats_lem (b ∷ bs) fs m h s =
    let a = beat-SameBeat b.ctx b.row b.ttl b.now fs m h.0 s in
    let (es, t) =
      beats_lem bs (file_beat b.ctx b.row b.ttl b.now fs).0 (beat b.ctx b.row b.ttl b.now m).0 h.1
        a.shows in
    (ap₂ (λ (x : Option StoreError) (xs : List (Option StoreError)). x ∷ xs) a.result es, t)

instance-ShowsRows :
    (ctx : Option StoreError) (id : Bytes) (now : ℕ) (fs : RowFiles) (m : MemoryStore)
    → IsShort id
    → check_id id ≡ none
    → ShowsRows fs m
    → file_instance ctx id now fs ≡ instance_state ctx id now m
unfolding file_instance instance_state
instance-ShowsRows ctx id now fs m short h s =
    ground (arith, h, s id h, check_file_id-IsShort id short)

-- From files that hold the rows of a MemoryStore, files that do not parse among them counted as no row,
-- any Beats give the MemoryStore's results, and then Instance says of a well formed id what the
-- MemoryStore's says. The names of the ids are short enough.
pub beats_refine :
    (bs : List Heartbeat) (fs : RowFiles) (m : MemoryStore) (ctx : Option StoreError) (id : Bytes)
    (now : ℕ)
    → AllShort bs
    → ShowsRows fs m
    → IsShort id
    → check_id id ≡ none
    → ((file_beats bs fs).1 ≡ (memory_beats bs m).1)
      × (file_instance ctx id now (file_beats bs fs).0
          ≡ instance_state ctx id now (memory_beats bs m).0)
beats_refine bs fs m ctx id now h s short valid =
    let (es, t) = beats_lem bs fs m h s in
    (es, instance-ShowsRows ctx id now (file_beats bs fs).0 (memory_beats bs m).0 short valid t)
