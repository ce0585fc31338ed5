-- ===== src/Sponsorship/Replay.antt =====
-- dike-services/src/sponsorship/replay.ts: the terminal results and the locks that Redis holds, one
-- of each for the hash of an inner transaction. An entry carries the second at which it expires; the
-- text of a record is not modelled, since `JSON.parse` gives back what `JSON.stringify` was given.
pub mod Locks
use dike_monolith.Prelude.{
  ℕ, ◌+◌, Bool, Option, none, some, List, String, if◌then◌else◌, ltb, ◌==◌, string_eq,
}
use dike_monolith.Prelude.Dict.{lookup, insert, erase}
use dike_monolith.Sponsorship.Types.{
  SponsorshipCode, SponsorshipError, Result, ok, transaction_replay, throw, throw_retryable,
}

-- `SponsorshipResult`, whose status is always `SUCCESS`.
pub record SponsorshipResult : Type 0 where
  pub inner_hash : String
  pub outer_hash : String
  pub return_value_xdr : Option String

pub data ReplayRecord : Type 0 where
  failure : SponsorshipCode → ReplayRecord
  success : SponsorshipResult → ReplayRecord

pub record ReplayStore : Type 0 where
  pub results : List (String × (ReplayRecord × ℕ))
  pub locks : List (String × (String × ℕ))

-- `GET` of a key that may have expired.
abbrev pub unexpired {ℓ} : {A : Type ℓ} → ℕ → Option (A × ℕ) → Option A
unexpired now none = none
unexpired now (some (a, expires)) = if ltb now expires then some a else none

unfoldable pub terminal : String → ℕ → ReplayStore → Option ReplayRecord
terminal hash now s = unexpired now (lookup hash s.results)

unfoldable pub lock_owner : String → ℕ → ReplayStore → Option String
lock_owner hash now s = unexpired now (lookup hash s.locks)

abbrev owns : String → Option String → Bool
owns token none = Bool.false
owns token (some t) = t == token

-- `SET … NX EX`, with the token that `randomUUID` made.
unfoldable pub acquire : ℕ → String → String → ℕ → ReplayStore → Result String × ReplayStore
acquire lock_ttl hash token now s = elim (lock_owner hash now s) [
  | none ↦ (ok token, record s { locks = insert hash (token, now + lock_ttl) s.locks })
  | some owner ↦
      (throw_retryable transaction_replay "This transaction is already being sponsored.", s)
]

unfoldable pub complete :
    ℕ → String → String → ReplayRecord → ℕ → ReplayStore → Result (Unit {0}) × ReplayStore
complete ttl hash token r now s =
    if owns token (lock_owner hash now s)
    then (
      ok tt,
      record { results = insert hash (r, now + ttl) s.results; locks = erase hash s.locks },
    )
    else (throw transaction_replay "The sponsorship lock is no longer owned.", s)

unfoldable pub release : String → String → ℕ → ReplayStore → ReplayStore
release hash token now s =
    if owns token (lock_owner hash now s) then record s { locks = erase hash s.locks } else s
