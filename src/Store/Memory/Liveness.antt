-- ===== src/Store/Memory/Liveness.antt =====
-- The Liveness rows of a MemoryStore: a row that expired never comes back.
use gotato.Base.{
  ℕ, ◌+◌, ◌≤◌, false, ◌&&◌, ◌==◌, none, some, List, [], ◌∷◌, Bytes, All, bytes_beq_iff, bytes_eq,
  ◌===◌, lookup, lookup-insert, lookup-delete, ◌≡◌, arith, ok,
}
use gotato.Store.Id.{expired, check_id}
use gotato.Store.Memory.{
  MemoryStore, MemoryInstance, InstanceRow, create, append, delete_record, beat, instance_state,
}
use gotato.Store.Memory.Step.{Call, creates, appends, deletes, beats, step, run}

-- A call at time t or later that does not remove the row of this id: a Beat with a ttl of 0 does.
abbrev pub Since : ℕ → Bytes → Call → Type 0
Since t id (beats ctx row ttl now) = (t ≤ now) × (row.id === id && ttl == 0 ≡ false)
Since t id _ = Unit {0}

instances-step :
    (t : ℕ) (id : Bytes) (r : MemoryInstance) (c : Call) (m : MemoryStore)
    → r.expires ≤ t
    → Since t id c
    → lookup id m.instances ≡ some r
    → lookup id (step c m).0.instances ≡ some r
unfolding step create append delete_record beat
instances-step t id r (creates ctx k entries h) m old s e = ground arith
instances-step t id r (appends ctx k after entries h) m old s e = ground arith
instances-step t id r (deletes ctx k) m old s e = ground arith
instances-step t id r (beats ctx row ttl now) m old s e = ground (
  arith,
  bytes_beq_iff row.id id,
  lookup-delete row.id id m.instances,
  lookup-insert row.id id (record { row = row; expires = now + ttl }) m.instances,
)

instances-run :
    (t : ℕ) (id : Bytes) (r : MemoryInstance) (cs : List Call) (m : MemoryStore)
    → r.expires ≤ t
    → All (Since t id) cs
    → lookup id m.instances ≡ some r
    → lookup id (run cs m).instances ≡ some r
unfolding run
instances-run t id r [] m old s e = e
instances-run t id r (c ∷ cs) m old s e =
    instances-run t id r cs (step c m).0 old s.1 (instances-step t id r c m old s.0 e)

beat_refused :
    (row : InstanceRow) (ttl now : ℕ) (m : MemoryStore) (r : MemoryInstance)
    → check_id row.id ≡ none
    → ttl == 0 ≡ false
    → r.expires ≤ now
    → lookup row.id m.instances ≡ some r
    → beat none row ttl now m ≡ (m, some expired)
unfolding beat
beat_refused row ttl now m r named kept old e = ground arith

not_alive :
    (id : Bytes) (now : ℕ) (m : MemoryStore) (r : MemoryInstance)
    → r.expires ≤ now
    → lookup id m.instances ≡ some r
    → instance_state none id now m
      ≡ ok (record { id = id; alive = false; draining = r.row.draining; address = r.row.address })
unfolding instance_state
not_alive id now m r old e = ground arith

-- Once a row has expired at time t, then after any later calls, none of which removes it, every
-- further Beat that would renew it is refused with expired and changes nothing, and its Instance is
-- reported as not alive.
pub expired_for_good :
    (t now ttl : ℕ) (row : InstanceRow) (r : MemoryInstance) (cs : List Call) (m : MemoryStore)
    → lookup row.id m.instances ≡ some r
    → r.expires ≤ t
    → All (Since t row.id) cs
    → check_id row.id ≡ none
    → ttl == 0 ≡ false
    → t ≤ now
    → (beat none row ttl now (run cs m) ≡ (run cs m, some expired))
      × (instance_state none row.id now (run cs m)
          ≡ ok (record {
            id = row.id;
            alive = false;
            draining = r.row.draining;
            address = r.row.address;
          }))
expired_for_good t now ttl row r cs m e old s named kept later =
    let e' = instances-run t row.id r cs m old s e in
    (
      beat_refused row ttl now (run cs m) r named kept (omega arith) e',
      not_alive row.id now (run cs m) r (omega arith) e',
    )
