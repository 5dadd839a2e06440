-- ===== src/Host/Heartbeat/Guard.antt =====
-- The guard that a write asks (host/internal/heartbeat/heartbeat.go): what it says of the row that
-- the store keeps.
use gotato.Base.{
  ℕ, ◌+◌, ◌/◌, ◌≤◌, ◌<◌, Bool, true, false, ◌||◌, ◌==◌, none, List, [], ◌∷◌, Bytes, bytes_eq, ◌===◌,
  ◌≡◌, refl, arith, ◌∙◌, ap, Result, ok, err,
}
use gotato.Store.Id.{StoreError}
use gotato.Store.Memory.{MemoryStore, InstanceState, instance_state}
use gotato.Host.Heartbeat.{
  Config, World, Sent, new_row, renew, make_live, guard, mark_draining, close, enter_live, stale,
  is_nil,
}
use gotato.Host.Heartbeat.Event.{
  Event, ticks, lives, drains, closes, guards, others, start, happen, history,
}
use gotato.Host.Heartbeat.Fresh.{Fresh, Allowed, reached, happen-Fresh, renew-kept}

enter_live-cfg : (c : Sent) (w : World) → (enter_live c w).0.row.cfg ≡ w.row.cfg
unfolding enter_live
enter_live-cfg c w = ground arith

happen-cfg : (e : Event) (w : World) → (happen e w).row.cfg ≡ w.row.cfg
unfolding happen make_live mark_draining close guard
happen-cfg (ticks n) w = ground (arith, (renew-kept n w).0)
happen-cfg (lives n c) w = ground (arith, (renew-kept n w).0, enter_live-cfg c (renew n w).0)
happen-cfg (drains n) w =
    ground (arith, (renew-kept n (record w { row = record w.row { draining = true } })).0)
happen-cfg (closes c) w = ground arith
happen-cfg (guards now name) w = ground arith
happen-cfg (others c) w = refl

-- Events that are allowed each when its turn comes.
abbrev pub Course : ℕ → List Event → World → Type 0
Course t [] w = Unit {0}
Course t (e ∷ es) w = Allowed t e w × Course (reached t e) es (happen e w)

abbrev ending : ℕ → List Event → ℕ
ending t [] = t
ending t (e ∷ es) = ending (reached t e) es

history-Fresh :
    (t : ℕ) (es : List Event) (w : World)
    → w.row.cfg.ttl == 0 ≡ false
    → Course t es w
    → Fresh t w
    → Fresh (ending t es) (history es w) × ((history es w).row.cfg ≡ w.row.cfg)
unfolding history
history-Fresh t [] w kept c h = (h, refl)
history-Fresh t (e ∷ es) w kept c h =
    let k = happen-cfg e w in
    let (f, k') =
      history-Fresh (reached t e) es (happen e w) (ap (λ x. x.ttl == 0) k ∙ kept) c.1
        (happen-Fresh t e w kept c.0 h) in
    (f, k' ∙ k)

abbrev pub says_alive : Result StoreError InstanceState → Bool
says_alive (ok s) = s.alive
says_alive (err e) = false

accepts-alive :
    (t now at : ℕ) (name : Bytes) (w : World)
    → 5 ≤ w.row.cfg.ttl
    → Fresh t w
    → (guard now name w.row).1 ≡ none
    → at < now + w.row.cfg.ttl / 5
    → (is_nil name || name === w.row.instance_name ≡ true)
      × (says_alive (instance_state none w.row.instance_name at w.store) ≡ true)
unfolding guard stale instance_state
accepts-alive t now at name w long h g soon = (ground arith, ground arith)

-- When the guard lets a write through, then for a fifth of the ttl from there on the store reports
-- the Row's Instance as alive, and the write's name is the Row's or empty. This holds after any
-- history of a new Row, whatever the store held and whatever others did to it, as long as the ttl is
-- at least 5, the clock does not go back, no call reaches the store before it was sent, no other call
-- writes the row of this name, renewals do not overlap, and each name that is drawn differs from the
-- name before it.
pub guard_alive :
    (cfg : Config) (random : Bytes) (m : MemoryStore) (t : ℕ) (es : List Event) (now at : ℕ)
    (name : Bytes)
    → 5 ≤ cfg.ttl
    → Course t es (start cfg random m)
    → (guard now name (history es (start cfg random m)).row).1 ≡ none
    → at < now + cfg.ttl / 5
    → let w = history es (start cfg random m) in
      (is_nil name || name === w.row.instance_name ≡ true)
      × (says_alive (instance_state none w.row.instance_name at w.store) ≡ true)
unfolding new_row
guard_alive cfg random m t es now at name long c g soon =
    let (f, k) = history-Fresh t es (start cfg random m) (ground arith) c refl in
    accepts-alive (ending t es) now at name (history es (start cfg random m))
      (omega (arith, ap (λ x. x.ttl) k)) f g (omega (arith, ap (λ x. x.ttl / 5) k))
