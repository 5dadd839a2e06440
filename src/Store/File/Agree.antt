-- ===== src/Store/File/Agree.antt =====
-- How the calls of store/file.go agree with those of store/memory.go.
use gotato.Base.{
  ◌≤◌, Option, some, List, Bytes, length, lookup, insert, nat_eq, bytes_eq, ◌===◌, lookup-insert,
  ◌≡◌, ◌⊎◌, inl, inr, refl, arith, Bool-cases, subst, sym, ◌∙◌,
}
use gotato.Store.Id.{StoreError, check_id}
use gotato.Store.File.{Disk, FileHead, FileStore}
use gotato.Store.File.Name.{name_of, check_file_id, max_name_bytes}
use gotato.Store.File.Shows.{Shows, ShowsAt, Kept, Good, IsKnown}
use gotato.Store.Memory.{MemoryRecord, MemoryStore}

-- The file name of the id is within the FileStore's own bound.
abbrev pub IsShort : Bytes → Type 0
IsShort id = length (name_of id) ≤ max_name_bytes

pub check_file_id-IsShort : (id : Bytes) → IsShort id → check_file_id id ≡ check_id id
unfolding check_file_id
check_file_id-IsShort id h = ground arith

pub insert_head :
    (id k : Bytes) (new c : FileHead) (heads : List (Bytes × FileHead))
    → lookup k (insert id new heads) ≡ some c
    → (lookup k heads ≡ some c) ⊎ (new ≡ c)
insert_head id k new c heads e = elim (Bool-cases (id === k)) [
  | inl same ↦ inr (ground (arith, lookup-insert id k new heads))
  | inr other ↦ inl (ground (arith, lookup-insert id k new heads))
]

module _ (hash : Bytes → Bytes) where
  -- A call of the FileStore agrees with the same call of the MemoryStore: the result is the same,
  -- the files stand for the Records again, and what a head says of a write stays right.
  pub record Agree (used made : List Bytes) (f : FileStore) (after : FileStore × Option StoreError)
      (memory : MemoryStore × Option StoreError) : Type 0 where
    pub result : after.1 ≡ memory.1
    pub shows : Shows hash after.0.disk memory.0
    pub keeps : (c : FileHead) → IsKnown hash used c.dir → Good c f.disk → Good c after.0.disk
    pub caches :
        (k : Bytes) (c : FileHead)
        → lookup k after.0.heads ≡ some c
        → (lookup k f.heads ≡ some c) ⊎ (IsKnown hash made c.dir × Good c after.0.disk)

  pub Agree-by :
      {used made : List Bytes} {f : FileStore} {F G : FileStore × Option StoreError}
      {M N : MemoryStore × Option StoreError}
      → F ≡ G
      → M ≡ N
      → Agree used made f G N
      → Agree used made f F M
  Agree-by {used = used} {made = made} {f = f} {G = G} {M = M} p q a =
      subst (λ x. Agree used made f x M) (sym p) (subst (λ x. Agree used made f G x) (sym q) a)

  pub Agree-still :
      (used made : List Bytes) (f : FileStore) (m : MemoryStore) (e : Option StoreError)
      → Shows hash f.disk m
      → Agree used made f (f, e) (m, e)
  Agree-still used made f m e s = record {
    result = refl;
    shows = s;
    keeps = λ c known g. g;
    caches = λ k c h. inl h;
  }

  pub Kept-other :
      (disk disk' : Disk) (id : Bytes) (r : MemoryRecord)
      → lookup (name_of id) disk' ≡ lookup (name_of id) disk
      → Kept hash disk id r
      → Kept hash disk' id r
  Kept-other disk disk' id r e k = record {
    files = k.files;
    stored = e ∙ k.stored;
    chain = k.chain;
    log = k.log;
    newest = k.newest;
  }

  pub ShowsAt-other :
      (disk disk' : Disk) (m m' : MemoryStore) (k : Bytes)
      → lookup (name_of k) disk' ≡ lookup (name_of k) disk
      → lookup k m'.records ≡ lookup k m.records
      → ShowsAt hash disk m k
      → ShowsAt hash disk' m' k
  ShowsAt-other disk disk' m m' k p q (inl (a, b)) = inl (q ∙ a, p ∙ b)
  ShowsAt-other disk disk' m m' k p q (inr (r, a, b)) =
      inr (r, q ∙ a, Kept-other disk disk' k r p b)
