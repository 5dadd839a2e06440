-- ===== src/Store/Memory.antt =====
-- store/memory.go: the MemoryStore. Each method holds the store's lock for as long as it reads or
-- changes it, so it is one step here. `ctx` is the error of the caller's context, and `now` the
-- clock's reading. What cloneEntries and cloneHeader copy is a value here, shared with nobody.
pub mod Step
pub mod Invariant
pub mod Fence
pub mod Reads
pub mod Liveness
mod Tests
use gotato.Base.{
  ℕ, ◌+◌, Bool, true, false, not, ◌&&◌, ◌||◌, ◌==◌, ltb, leb, if◌then◌else◌, Option, none, some,
  List, [], ◌∷◌, ◌++◌, Bytes, length, take, drop, lookup, insert, delete, bytes_eq, ◌===◌, Result,
  ok, err, refuse, check, is_some,
}
use gotato.Record.Entry.{Entry, Header, Loaded}
use gotato.Store.Id.{StoreError, exists, conflict, expired, not_found, check_id}
use gotato.Store.Batch.{check_batch, loaded_from}
use gotato.Base.{u64}

pub record MemoryRecord : Type 0 where
  pub entries : List Entry
  pub header : Header

pub record InstanceRow : Type 0 where
  pub id : Bytes
  pub draining : Bool
  pub address : Bytes

pub record InstanceState : Type 0 where
  pub id : Bytes
  pub alive : Bool
  pub draining : Bool
  pub address : Bytes

pub record MemoryInstance : Type 0 where
  pub row : InstanceRow
  pub expires : ℕ

pub record MemoryStore : Type 0 where
  pub records : List (Bytes × MemoryRecord)
  pub instances : List (Bytes × MemoryInstance)

abbrev pub empty_store : MemoryStore
empty_store = record { records = []; instances = [] }

unfoldable pub create :
    Option StoreError → Bytes → List Entry → Header → MemoryStore → MemoryStore × Option StoreError
create ctx id entries h m = refuse m ctx (
    refuse m (check_id id) (
      refuse m (check_batch 0 entries h) (
        if is_some (lookup id m.records) then (m, some exists) else (
          record m { records = insert id (record { entries = entries; header = h }) m.records },
          none,
        ))))

-- The part of Append under the lock.
unfoldable pub append_locked :
    Bytes → ℕ → List Entry → Header → MemoryStore → MemoryStore × Option StoreError
append_locked id after entries h m = elim (lookup id m.records) [
  | none ↦ (m, some not_found)
  | some r ↦
      if not (r.header.epoch === h.epoch)
      then (m, some not_found)
      else if not (u64 (length r.entries) == after)
      then (m, some conflict)
      else (
        record m {
          records = insert id (record { entries = r.entries ++ entries; header = h }) m.records;
        },
        none,
      )
]

unfoldable pub append :
    Option StoreError
    → Bytes
    → ℕ
    → List Entry
    → Header
    → MemoryStore
    → MemoryStore × Option StoreError
unfolding append_locked
append ctx id after entries h m = refuse m ctx (
    refuse m (check_id id)
      (refuse m (check_batch after entries h) (append_locked id after entries h m)))

unfoldable pub load : Option StoreError → Bytes → MemoryStore → Result StoreError Loaded
load ctx id m = check ctx (
    check (check_id id) (elim (lookup id m.records) [
      | none ↦ err not_found
      | some r ↦ ok (record {
        entries = (loaded_from r.entries).0;
        segments = (loaded_from r.entries).1;
        seq = u64 (length r.entries);
        header = r.header;
      })
    ]))

-- A limit of 0 or less is no limit: 0 stands for both.
unfoldable pub page_after : ℕ → ℕ → List Entry → List Entry
page_after after limit entries =
    if leb (u64 (length entries)) after
    then []
    else let rest = drop after entries in
      if ltb 0 limit && ltb limit (length rest) then take limit rest else rest

unfoldable pub log_after :
    Option StoreError → Bytes → ℕ → ℕ → MemoryStore → Result StoreError (List Entry)
unfolding page_after
log_after ctx id after limit m = check ctx (
    check (check_id id) (elim (lookup id m.records) [
      | none ↦ err not_found
      | some r ↦ ok (page_after after limit r.entries)
    ]))

unfoldable pub delete_record :
    Option StoreError → Bytes → MemoryStore → MemoryStore × Option StoreError
delete_record ctx id m = refuse m ctx (
    refuse m (check_id id) (
      if is_some (lookup id m.records)
      then (record m { records = delete id m.records }, none)
      else (m, some not_found)))

-- `!now.Before(expires)` of the row that stands under the id, if one does.
unfoldable pub row_expired : ℕ → Option MemoryInstance → Bool
row_expired now none = false
row_expired now (some r) = leb r.expires now

-- A ttl of 0 or less removes the row: 0 stands for both.
unfoldable pub beat :
    Option StoreError → InstanceRow → ℕ → ℕ → MemoryStore → MemoryStore × Option StoreError
unfolding row_expired
beat ctx row ttl now m = refuse m ctx (
    refuse m (check_id row.id) (
      if ttl == 0
      then (record m { instances = delete row.id m.instances }, none)
      else if row_expired now (lookup row.id m.instances)
      then (m, some expired)
      else (
        record m {
          instances = insert row.id (record { row = row; expires = now + ttl }) m.instances;
        },
        none,
      )))

unfoldable pub instance_state :
    Option StoreError → Bytes → ℕ → MemoryStore → Result StoreError InstanceState
instance_state ctx id now m = check ctx (elim (lookup id m.instances) [
  | none ↦ ok (record { id = id; alive = false; draining = false; address = [] })
  | some r ↦ ok (record {
    id = id;
    alive = ltb now r.expires;
    draining = r.row.draining;
    address = r.row.address;
  })
])
