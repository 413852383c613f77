-- ===== src/Dns/Stale.antt =====
-- The answers of lookups that a new lookup has replaced (dmmain/cwmpd_dns.c).
use tr069_manager.Base.{ℕ, ◌<◌, ◌≡◌, ◌⊎◌, true, false, not, ◌&&◌, List, [], ◌∷◌, ◌==◌}
use tr069_manager.Dns.Defs.{Resolver, Answer, Dns}

-- Every resolver of a list at an address is marked.
abbrev pub AllDirty : ℕ → List Resolver → Type 0
AllDirty id [] = Unit
AllDirty id (r ∷ rs) = (((r.id == id) && not r.dirty) ≡ false) × AllDirty id rs

-- A lookup that was started before is replaced.
abbrev pub IsStale : ℕ → Dns → Type 0
IsStale id s = (id < s.next_id) × AllDirty id s.resolvers

-- Two lists of resolvers that differ only at the address `id`, where the answer is no longer awaited
-- and the timer that deletes the resolver runs.
abbrev pub OnlyOwn : ℕ → List Resolver → List Resolver → Type 0
OnlyOwn id [] [] = Unit
OnlyOwn id (r ∷ rs) (r' ∷ rs') =
    ((r' ≡ r) ⊎ ((r.id ≡ id) × (r' ≡ record r { pending = false; clean_timer = true })))
    × OnlyOwn id rs rs'
OnlyOwn id [] (r' ∷ rs') = ⊥
OnlyOwn id (r ∷ rs) [] = ⊥
