-- ===== src/Session/Control.antt =====
-- gotato/controlqueue.go: the messages that wait for a Run. Each method holds the queue's lock, so it
-- is one step here. A Go slice that the queue shares with nobody is a list.
pub mod Order
pub mod Desk
pub mod Ledger
pub mod Boundary
pub mod Limits
mod Tests
use gotato.Base.{
  ℕ, suc, ◌+◌, Bool, true, false, not, ◌&&◌, ◌||◌, ltb, leb, if◌then◌else◌, List, [], ◌∷◌, ◌++◌,
  length, drop, select,
}
use gotato.Base.Int.{ℤ, pos, succ, pred, reaches}
use gotato.Base.{u64}
use gotato.Session.Types.{Message, MessageSource, follow_up_source, notice_source, interrupt_source}

pub data ControlKind : Type 0 where
  steer follow_up notice_kind : ControlKind

unfoldable pub kind_of : MessageSource → ControlKind
kind_of follow_up_source = follow_up
kind_of notice_source = notice_kind
kind_of _ = steer

abbrev pub same_kind : ControlKind → ControlKind → Bool
same_kind steer steer = true
same_kind follow_up follow_up = true
same_kind notice_kind notice_kind = true
same_kind _ _ = false

abbrev pub is_interrupt : MessageSource → Bool
is_interrupt interrupt_source = true
is_interrupt _ = false

pub record Control : Type 0 where
  pub seq : ℕ  -- uint64
  pub message : Message
  pub source : MessageSource
  pub kind : ControlKind
  pub number : ℕ  -- uint64

-- An array with an entry for each kind.
pub record PerKind (A : Type 0) : Type 0 where
  pub of_steer : A
  pub of_follow_up : A
  pub of_notice : A

abbrev pub at : {A : Type 0} → PerKind A → ControlKind → A
at a steer = a.of_steer
at a follow_up = a.of_follow_up
at a notice_kind = a.of_notice

abbrev pub change : {A : Type 0} → ControlKind → (A → A) → PerKind A → PerKind A
change steer f a = record a { of_steer = f a.of_steer }
change follow_up f a = record a { of_follow_up = f a.of_follow_up }
change notice_kind f a = record a { of_notice = f a.of_notice }

pub record ControlQueue : Type 0 where
  pub items : List Control
  pub held : PerKind ℤ
  pub limit : PerKind ℕ
  pub sealed : Bool
  pub seq : ℕ  -- uint64

unfoldable pub new_control_queue : ℕ → ℕ → ℕ → ControlQueue
new_control_queue s f n = record {
  items = [];
  held = record { of_steer = pos 0; of_follow_up = pos 0; of_notice = pos 0 };
  limit = record { of_steer = s; of_follow_up = f; of_notice = n };
  sealed = false;
  seq = 0;
}

-- How many messages pass a test.
unfoldable pub count_if : (Control → Bool) → List Control → ℕ
count_if p [] = 0
count_if p (c ∷ cs) = (if p c then 1 else 0) + count_if p cs

unfoldable pub count : ControlKind → ControlQueue → ℕ
count k q = count_if (λ c. same_kind c.kind k) q.items

abbrev pub full : ControlKind → ControlQueue → Bool
full k q = reaches (count k q) (at q.held k) (at q.limit k)

unfoldable pub reserve : ControlKind → ControlQueue → ControlQueue × Bool
reserve k q = if full k q then (q, false) else (record q { held = change k succ q.held }, true)

unfoldable pub release : ControlKind → ControlQueue → ControlQueue
release k q = record q { held = change k pred q.held }

-- The message stamped with the next number, behind those that wait.
unfoldable pub put : Control → ControlQueue → ControlQueue
put c q = record q {
  seq = u64 (q.seq + 1);
  items = q.items ++ record c { seq = u64 (q.seq + 1) } ∷ [];
}

unfoldable pub fill : Control → ControlQueue → ControlQueue × Bool
unfolding release put
fill c q = let q' = release c.kind q in if q'.sealed then (q', false) else (put c q', true)

unfoldable pub add : Control → ControlQueue → ControlQueue × Bool
unfolding put
add c q = if q.sealed || full c.kind q then (q, false) else (put c q, true)

unfoldable pub interrupting : List Control → Bool
interrupting [] = false
interrupting (c ∷ cs) = is_interrupt c.source || interrupting cs

-- The messages that pick selects, and the queue without them.
unfoldable pub split : (Control → Bool) → ControlQueue → ControlQueue × List Control
unfolding select
split pick q = (record q { items = select (λ c. not (pick c)) q.items }, select pick q.items)

pub record Lease : Type 0 where
  pub items : List Control
  pub settled : ℕ

unfoldable pub lease : (Control → Bool) → ControlQueue → ControlQueue × Lease
unfolding split
lease pick q = let (q', taken) = split pick q in (q', record { items = taken; settled = 0 })

-- What a Run takes at a boundary whatever else waits.
abbrev pub wanted : Bool → ControlKind → Bool
wanted settling steer = true
wanted settling follow_up = settling
wanted settling notice_kind = false

abbrev pub is_notice : ControlKind → Bool
is_notice notice_kind = true
is_notice _ = false

-- The loop of take: does a message wait that the notices go with?
unfoldable pub any_wanted : Bool → List Control → Bool
any_wanted settling [] = false
any_wanted settling (c ∷ cs) = wanted settling c.kind || any_wanted settling cs

abbrev pub picks : Bool → Bool → Control → Bool
picks settling with_notices c = wanted settling c.kind || (with_notices && is_notice c.kind)

unfoldable pub take : Bool → ControlQueue → ControlQueue × Lease
unfolding lease any_wanted
take settling q = lease (picks settling (not settling || any_wanted settling q.items)) q

unfoldable pub take_notices : ControlQueue → ControlQueue × Lease
unfolding lease
take_notices q = lease (λ c. is_notice c.kind) q

unfoldable pub done : Lease → Lease
done l = record l { settled = suc l.settled }

-- slices.SortStableFunc by seq.
unfoldable pub place : Control → List Control → List Control
place c [] = c ∷ []
place c (d ∷ ds) = if leb c.seq d.seq then c ∷ d ∷ ds else d ∷ place c ds

unfoldable pub sort : List Control → List Control
unfolding place
sort [] = []
sort (c ∷ cs) = place c (sort cs)

unfoldable pub put_back : Lease → ControlQueue → ControlQueue × Lease
unfolding sort
put_back l q = elim (drop l.settled l.items) [
  | [] ↦ (q, l)
  | c ∷ cs ↦
      (record q { items = sort ((c ∷ cs) ++ q.items) }, record l { settled = length l.items })
]

unfoldable pub drain : Bool → ControlQueue → ControlQueue × List Control
unfolding split
drain with_notices q = split (λ c. with_notices || not (is_notice c.kind)) q

unfoldable pub seal : ControlQueue → ControlQueue × List Control
unfolding split
seal q = split (λ c. true) (record q { sealed = true })
