-- ===== src/Sponsorship/Replay/Locks.antt =====
-- Who holds a lock of dike-services/src/sponsorship/replay.ts, and for how long.
use dike_monolith.Prelude.{ℕ, ◌+◌, ◌≤◌, ◌<◌, ◌≡◌, none, some, String, arith, string_eq, ==_refl}
use dike_monolith.Prelude.Dict.{lookup, insert, erase, lookup-insert}
use dike_monolith.Sponsorship.Types.{ok, transaction_replay, throw_retryable}
use dike_monolith.Sponsorship.Replay.{
  ReplayRecord, ReplayStore, terminal, lock_owner, acquire, complete, release,
}

module _ (hash token : String) (ttl now : ℕ) (s : ReplayStore) where
  pub acquire_free :
      lock_owner hash now s ≡ none
      → acquire ttl hash token now s
        ≡ (ok token, record s { locks = insert hash (token, now + ttl) s.locks })
  unfolding acquire
  acquire_free free = rw (free, acquire)

  pub lock_owner-insert :
      (later : ℕ)
      → later < now + ttl
      → lock_owner hash later (record s { locks = insert hash (token, now + ttl) s.locks })
        ≡ some token
  unfolding lock_owner
  lock_owner-insert later live =
      rw (lookup-insert hash hash (token, now + ttl) s.locks, ==_refl hash) (ground arith)

  -- A lock that is held is refused, and nothing changes.
  pub acquire_held :
      (owner : String)
      → lock_owner hash now s ≡ some owner
      → acquire ttl hash token now s
        ≡ (throw_retryable transaction_replay "This transaction is already being sponsored.", s)
  unfolding acquire
  acquire_held owner held = rw (held, acquire)

  -- The owner completes: the result is stored and the lock is gone.
  pub complete_held :
      (r : ReplayRecord)
      → lock_owner hash now s ≡ some token
      → complete ttl hash token r now s ≡ (
        ok tt,
        record { results = insert hash (r, now + ttl) s.results; locks = erase hash s.locks },
      )
  unfolding complete
  complete_held r held = rw held (ground (arith, ==_refl token))

pub release_results :
    (hash token : String) (now : ℕ) (s : ReplayStore)
    → (release hash token now s).results ≡ s.results
unfolding release
release_results hash token now s = ground arith

-- A stored result that is not seen has expired.
pub terminal_expired :
    (hash : String) (now : ℕ) (s : ReplayStore) (r : ReplayRecord) (expires : ℕ)
    → lookup hash s.results ≡ some (r, expires)
    → terminal hash now s ≡ none
    → expires ≤ now
unfolding terminal
terminal_expired hash now s r expires stored unseen = ground arith
