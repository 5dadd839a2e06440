-- ===== src/Record/Writing.antt =====
-- How a Writer drives a Record: record/writing.go, TakePending and Stored of record/record_log.go, and
-- the numbers of record/events.go. `marshal` is the JSON of an Event, and none is its error. What a
-- Record holds beside its log is its Info here; the fold of Runs, notices and Tools, the window of
-- Events and the cache of spilled bodies are left out. `now` is the clock's reading.
use gotato.Base.{
  ℕ, ◌+◌, Bool, true, false, not, ◌||◌, ◌==◌, if◌then◌else◌, Option, none, some, List, [], ◌∷◌,
  ◌++◌, Bytes, bytes_eq, ◌===◌, Result, ok, err, max, u64,
}
use gotato.Record.Entry.{
  EventKind, session_claimed, session_released, Entry, Info, Header, stored_layers,
}

pub data ClaimWhy : Type 0 where
  new_session idle waited writer_gone : ClaimWhy

pub data Payload : Type 0 where
  -- Of session_claimed: the Instance, its Epoch, why, and the holder before it.
  claims : Bytes → ℕ → ClaimWhy → Bytes → Payload
  releases : Bytes → ℕ → Payload
  -- Of tool_result_spilled: its body after the other fields.
  spills : Bytes → Bytes → Payload
  fields : Bytes → Payload

pub record Event : Type 0 where
  pub number : ℕ  -- uint64
  pub session : Bytes
  pub at : ℕ
  pub kind : EventKind
  pub payload : Payload

abbrev pub with_number : Event → ℕ → Event
with_number e n = record e { number = n }

abbrev pub with_session : Event → Bytes → Event
with_session e id = if not (e.session === []) || id === [] then e else record e { session = id }

abbrev bodiless : Payload → Payload
bodiless (spills f body) = spills f []
bodiless p = p

abbrev pub without_body : Event → Event
without_body e = record e { payload = bodiless e.payload }

pub record Claim : Type 0 where
  pub instance_id : Bytes
  pub epoch : ℕ  -- uint64

pub record Record : Type 0 where
  pub id : Bytes
  pub epoch : Bytes
  pub info : Info
  pub instance_id : Bytes
  pub claim : Claim
  pub head : ℕ  -- uint64
  pub last : ℕ  -- uint64
  pub logging : Bool
  pub pending : List Event
  pub busy : Bool

abbrev pub touch : ℕ → Record → Record
touch now s = record s { info = record s.info { updated_at = now } }

unfoldable pub number : ℕ → Event → Record → Record × Event
number now e s =
    let n = u64 (s.last + 1) in
    let e' = with_number e n in
    (
      touch now
          (record s { last = n; pending = if s.logging then s.pending ++ e' ∷ [] else s.pending }),
      e',
    )

unfoldable pub emit : ℕ → Event → Record → Record
unfolding number
emit now e s = if not s.logging then s else (number now e s).0

unfoldable pub write_events : ℕ → List Event → Record → Record × List Event
unfolding number
write_events now [] s = (s, [])
write_events now (e ∷ es) s =
    let (s', e') = number now (with_session e s.id) s in
    let (s'', es') = write_events now es s' in (s'', e' ∷ es')

-- An Event of the Record's own.
abbrev pub own : ℕ → EventKind → Payload → Record → Event
own now kind p s = record { number = 0; session = s.id; at = now; kind = kind; payload = p }

unfoldable pub claim_for : ℕ → Bytes → ClaimWhy → Record → Record
unfolding emit
claim_for now instance_id why s =
    let from = s.claim.instance_id in
    let claim =
      if not (from === instance_id) || s.claim.epoch == 0
      then record { instance_id = instance_id; epoch = u64 (s.claim.epoch + 1) }
      else s.claim in
    let s' = touch now (record s { claim = claim; instance_id = instance_id }) in
    emit now (own now session_claimed (claims instance_id claim.epoch why from) s') s'

unfoldable pub number_all : ℕ → List Event → Record → Record
unfolding number
number_all now [] s = s
number_all now (e ∷ es) s = number_all now es (number now e s).0

-- `state` is the Event session_created that holds the Record's Messages, `segments` the closed ones
-- that its Context starts with, and `fresh` a random epoch.
unfoldable pub start_log : ℕ → Bytes → Event → List Event → Record → Record
unfolding number number_all
start_log now fresh state segments s =
    let s' = record s {
      logging = true;
      pending = [];
      last = 0;
      epoch = if s.epoch === [] then fresh else s.epoch;
    } in
    number_all now segments (number now state s').0

unfoldable pub release_claim : ℕ → Record → Record
unfolding emit
release_claim now s =
    let s' = record s { busy = false } in
    emit now (own now session_released (releases s.claim.instance_id s.claim.epoch) s') s'

unfoldable pub start_writing : ℕ → Bytes → Bool → Bytes → Event → List Event → Record → Record
unfolding start_log claim_for release_claim
start_writing now instance_id is_idle fresh state segments s =
    let s1 = record s {
      instance_id = instance_id;
      claim = record { instance_id = []; epoch = 0 };
    } in
    let s2 = claim_for now instance_id new_session (start_log now fresh state segments s1) in
    let s3 = record s2 { busy = true } in if is_idle then release_claim now s3 else s3

unfoldable pub reclaim : ℕ → Record → Record
unfolding claim_for
reclaim now s = claim_for now s.instance_id idle (record s { busy = true })

unfoldable pub release_record : ℕ → Record → Record
unfolding release_claim
release_record now s = if s.busy then release_claim now s else s

unfoldable pub stored : ℕ → Record → Record
stored seq s = record s { head = max s.head seq }

pub data TakeError : Type 0 where
  unencoded no_layer out_of_place : TakeError

pub record Batch : Type 0 where
  pub entries : List Entry
  pub events : List Event
  pub header : Header

module _ (marshal : Event → Option Bytes) where
  unfoldable pub event_entry : Event → Bytes → Result TakeError Entry
  event_entry e instance_id = elim (marshal e) [
    | none ↦ err unencoded
    | some json ↦ elim (stored_layers e.kind) [
      | none ↦ err no_layer
      | some layer ↦ ok (record {
        seq = e.number;
        kind = e.kind;
        layer = layer;
        at = e.at;
        instance_id = instance_id;
        payload = json;
      })
    ]
  ]

  -- The Entries of the pending Events from index i on.
  unfoldable pub entries_from : Bytes → ℕ → ℕ → List Event → Result TakeError (List Entry)
  unfolding event_entry
  entries_from instance_id head i [] = ok []
  entries_from instance_id head i (e ∷ es) =
      let rest = entries_from instance_id head (i + 1) es in
      elim (event_entry e instance_id) [
        | err x ↦ err x
        | ok entry ↦
            if not (entry.seq == u64 (head + i + 1))
            then err out_of_place
            else elim rest [ err x ↦ err x | ok entries ↦ ok (entry ∷ entries) ]
      ]

  -- The Record with nothing pending and the batch, which is none where nothing was.
  unfoldable pub take_pending : Record → Result TakeError (Record × Option Batch)
  unfolding entries_from
  take_pending s = elim s.pending [
    | [] ↦ ok (s, none)
    | e ∷ es ↦ elim (entries_from s.instance_id s.head 0 (e ∷ es)) [
      | err x ↦ err x
      | ok entries ↦ ok (
        record s { pending = [] },
        some (record {
          entries = entries;
          events = e ∷ es;
          header = record { epoch = s.epoch; info = s.info };
        }),
      )
    ]
  ]
