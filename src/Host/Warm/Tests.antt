-- ===== src/Host/Warm/Tests.antt =====
-- The theorems about the warm copies at a cache of two.
use gotato.Base.{
  ℕ, true, false, none, some, List, [], ◌∷◌, ◌≡◌, ◌⊎◌, refl, arith, bytes_beq, insert,
}
use gotato.Base.Int.{pos}
use gotato.Host.Warm.{
  Entry, Cache, Plan, Life, put, entry_of, new_cache, victim, hold, begin_idle, victim_from,
  end_idle,
}
use gotato.Host.Warm.Evict.{In, Longest, Numbered, victim-Longest}
use gotato.Host.Warm.Keep.{Op, puts, apply, apply_all, apply_all-Numbered, new-Numbered}
use gotato.Host.Warm.Idle.{begins, ends, life_step, life_steps, OnlyCanceled, hold_excludes_idle}

abbrev hour : Plan
hour = record { ttl = 3600; on_expire = true; on_idle = true; idle_after = 60 }

abbrev two : List (Op ℕ)
two = puts 20 (b'a' ∷ []) (b'x' ∷ []) 7 hour ∷ puts 10 (b'b' ∷ []) (b'x' ∷ []) 8 hour ∷ []

abbrev copy_a : Entry ℕ
copy_a = entry_of 20 (b'a' ∷ []) (b'x' ∷ []) 7 hour 1

abbrev copy_b : Entry ℕ
copy_b = entry_of 10 (b'b' ∷ []) (b'x' ∷ []) 8 hour 2

abbrev pair_cache : Cache ℕ
pair_cache = record {
  entries = (b'a' ∷ [], copy_a) ∷ (b'b' ∷ [], copy_b) ∷ [];
  closed = false;
  seq = 2;
}

abbrev other_order : Cache ℕ
other_order = record pair_cache { entries = (b'b' ∷ [], copy_b) ∷ (b'a' ∷ [], copy_a) ∷ [] }

two_put : apply_all two (new_cache {V = ℕ}) ≡ pair_cache
unfolding apply_all apply put insert bytes_beq
two_put = refl

older_goes : victim (λ id. false) pair_cache ≡ some copy_b
unfolding victim victim_from
older_goes = refl

two-Numbered : Numbered (apply_all two (new_cache {V = ℕ}))
unfolding apply put
two-Numbered =
    apply_all-Numbered two (new_cache {V = ℕ}) (omega arith, (omega arith, tt)) (new-Numbered ℕ)

pair-Numbered : Numbered pair_cache
unfolding apply_all apply put insert bytes_beq
pair-Numbered = two-Numbered

victim-Longest_example :
    ((victim (λ id. false) pair_cache ≡ none)
      × ((e : Entry ℕ) → In e pair_cache.entries → false ≡ true))
    ⊎ ((v : Entry ℕ) × (victim (λ id. false) pair_cache ≡ some v)
        × Longest (λ id. false) pair_cache.entries v)
victim-Longest_example = victim-Longest (λ id. false) pair_cache

abbrev compacting : Life
compacting = record { holds = pos 0; idle = some (record { canceled = false }); dead = false }

hold_excludes_idle_example :
    OnlyCanceled (life_steps (begins ∷ ends ∷ begins ∷ []) (hold compacting)).idle
    × (compacting.idle ≡ none
        → (life_steps (begins ∷ ends ∷ begins ∷ []) (hold compacting)).idle ≡ none)
unfolding life_step hold begin_idle end_idle
hold_excludes_idle_example =
    hold_excludes_idle (begins ∷ ends ∷ begins ∷ []) compacting 0 refl (refl, (refl, (refl, tt)))
