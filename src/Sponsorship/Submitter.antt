-- ===== src/Sponsorship/Submitter.antt =====
-- dike-services/src/sponsorship/submitter.ts. The RPC server and the clock are arguments: the n-th
-- answer to `getTransaction`, and the n-th reading of the clock.
use dike_monolith.Prelude.{
  ℕ, suc, ◌+◌, ◌*◌, ◌≤◌, ◌≡◌, ◌≢◌, Bool, true, false, ◌&&◌, Option, none, some, String, arith,
  if◌then◌else◌, ltb, Bool-cases, inl, inr, refl, Option-cases, sym, ap,
}
use dike_monolith.Sponsorship.Types.{
  Result, ok, err, other_error, rpc_rejected, transaction_failed, confirmation_timeout, throw,
  throw_retryable,
}
use dike_monolith.Sponsorship.Sdk.{FeeBumpTransaction}

-- `PENDING` or another status, with the hash if there is one.
pub record SendResponse : Type 0 where
  pub pending : Bool
  pub hash : Option String

-- The statuses of `getTransaction`; `success` has the text of the return value.
pub data TransactionStatus : Type 0 where
  not_found : TransactionStatus
  success : Option String → TransactionStatus
  failed : TransactionStatus
  other : TransactionStatus

-- `none` stands for an exception. Times are in milliseconds.
pub record SponsorshipRpc : Type 0 where
  pub send_transaction : FeeBumpTransaction → Option SendResponse
  pub get_transaction : String → ℕ → Option TransactionStatus
  pub now : ℕ → ℕ

pub record SubmittedSponsoredTransaction : Type 0 where
  pub outer_hash : String
  pub return_value_xdr : Option String

abbrev awaits : Option TransactionStatus → Bool
awaits (some not_found) = true
awaits _ = false

-- The `while` loop on fuel, from the answer to the poll before: `none` if the fuel runs out.
unfoldable pub poll :
    SponsorshipRpc
    → String
    → ℕ
    → ℕ
    → ℕ
    → Option TransactionStatus
    → Option (Option TransactionStatus)
poll rpc hash deadline ℕ.zero i response = none
poll rpc hash deadline (suc fuel) i response =
    let rest = poll rpc hash deadline fuel (i + 1) (rpc.get_transaction hash (i + 1)) in
    if awaits response && ltb (rpc.now (i + 1)) deadline then rest else some response

-- From the loop's end on.
confirmed : String → Option TransactionStatus → Result SubmittedSponsoredTransaction
confirmed hash none = err other_error
confirmed hash (some (success value)) = ok (record { outer_hash = hash; return_value_xdr = value })
confirmed hash (some failed) = throw transaction_failed "The sponsored transaction failed on-chain."
confirmed hash (some _) =
    throw_retryable confirmation_timeout "The sponsored transaction was not confirmed in time."

-- The hash of a transaction that is pending.
accepted : Option SendResponse → Result String
accepted none = err other_error
accepted (some r) = elim r.hash [
  | none ↦ throw_retryable rpc_rejected "Stellar RPC rejected the sponsored transaction."
  | some hash ↦
      if r.pending
      then ok hash
      else throw_retryable rpc_rejected "Stellar RPC rejected the sponsored transaction."
]

abbrev after_poll :
    String → Option (Option TransactionStatus) → Option (Result SubmittedSponsoredTransaction)
after_poll hash none = none
after_poll hash (some response) = some (confirmed hash response)

abbrev after_send :
    SponsorshipRpc → ℕ → ℕ → Result String → Option (Result SubmittedSponsoredTransaction)
after_send rpc timeout fuel (err e) = some (err e)
after_send rpc timeout fuel (ok hash) =
    after_poll hash (poll rpc hash (rpc.now 0 + timeout * 1000) fuel 0 (rpc.get_transaction hash 0))

-- `submit`, with the time-out in seconds, on fuel for the polls.
unfoldable pub submit :
    SponsorshipRpc → ℕ → ℕ → FeeBumpTransaction → Option (Result SubmittedSponsoredTransaction)
unfolding accepted confirmed
submit rpc timeout fuel bump = after_send rpc timeout fuel (accepted (rpc.send_transaction bump))

module _ (rpc : SponsorshipRpc) (hash : String) (deadline : ℕ) where
  -- With a clock that moves on between two polls, the loop ends by its test.
  poll_ends :
      (moves : (i : ℕ) → rpc.now 0 + i ≤ rpc.now i) (fuel i : ℕ) (r : Option TransactionStatus)
      → deadline ≤ rpc.now 0 + i + suc fuel
      → poll rpc hash deadline (suc fuel) i r ≢ none
  unfolding poll
  poll_ends moves ℕ.zero i r h = ground (arith, moves (i + 1))
  poll_ends moves (suc fuel) i r h =
      ground (arith, moves (i + 1), poll_ends moves fuel (i + 1) (rpc.get_transaction hash (i + 1)))

  -- What it ends with is the answer to one of the polls.
  poll_answer :
      (fuel i : ℕ) (r last : Option TransactionStatus)
      → r ≡ rpc.get_transaction hash i
      → poll rpc hash deadline fuel i r ≡ some last
      → (n : ℕ) × (last ≡ rpc.get_transaction hash n)
  unfolding poll
  poll_answer ℕ.zero i r last e h = cc
  poll_answer (suc fuel) i r last e h =
      elim (Bool-cases (awaits r && ltb (rpc.now (i + 1)) deadline)) [
        | inl more ↦
            poll_answer fuel (i + 1) (rpc.get_transaction hash (i + 1)) last refl (rw more at h)
        | inr done ↦ (i, ground arith)
      ]

accepted-eq_ok :
    (o : Option SendResponse) (hash : String)
    → accepted o ≡ ok hash
    → o ≡ some (record { pending = true; hash = some hash })
unfolding accepted
accepted-eq_ok none hash h = cc
accepted-eq_ok (some r) hash h = ground arith

confirmed-eq_ok :
    (hash : String) (o : Option TransactionStatus) (s : SubmittedSponsoredTransaction)
    → confirmed hash o ≡ ok s
    → (s.outer_hash ≡ hash) × (o ≡ some (success s.return_value_xdr))
unfolding confirmed
confirmed-eq_ok hash none s h = cc
confirmed-eq_ok hash (some (success v)) s h = ground arith
confirmed-eq_ok hash (some not_found) s h = cc
confirmed-eq_ok hash (some failed) s h = cc
confirmed-eq_ok hash (some other) s h = cc

module _ (rpc : SponsorshipRpc) (timeout fuel : ℕ) where
  after_send_total :
      (a : Result String)
      → ((i : ℕ) → rpc.now 0 + i ≤ rpc.now i)
      → timeout * 1000 ≤ fuel
      → (r : Result SubmittedSponsoredTransaction) × (after_send rpc timeout (suc fuel) a ≡ some r)
  after_send_total (err e) moves h = (err e, refl)
  after_send_total (ok hash) moves h =
      elim (Option-cases
        (poll rpc hash (rpc.now 0 + timeout * 1000) (suc fuel) 0 (rpc.get_transaction hash 0))) [
          | inl out ↦
              absurd
                (poll_ends rpc hash _ moves fuel 0 (rpc.get_transaction hash 0) (omega arith) out)
          | inr (last, e) ↦ (confirmed hash last, rw e)
        ]

  after_send_confirmed :
      (a : Result String) (s : SubmittedSponsoredTransaction)
      → after_send rpc timeout fuel a ≡ some (ok s)
      → (n : ℕ) × (a ≡ ok s.outer_hash)
        × (rpc.get_transaction s.outer_hash n ≡ some (success s.return_value_xdr))
  after_send_confirmed (err e) s h = cc
  after_send_confirmed (ok hash) s h =
      elim (Option-cases
        (poll rpc hash (rpc.now 0 + timeout * 1000) fuel 0 (rpc.get_transaction hash 0))) [
          | inl out ↦ absurd (ground arith)
          | inr (last, e) ↦
              let c = confirmed-eq_ok hash last s (ground arith) in
              let (n, same) =
                poll_answer rpc hash _ fuel 0 (rpc.get_transaction hash 0) last refl e in
              (n, ap ok (sym c.0), rw (c.0, ← same) c.1)
        ]

-- With a clock that moves on by at least a millisecond between two polls and fuel for each
-- millisecond of the time-out, `submit` returns or throws.
pub submit_total :
    (rpc : SponsorshipRpc) (timeout fuel : ℕ) (bump : FeeBumpTransaction)
    → ((i : ℕ) → rpc.now 0 + i ≤ rpc.now i)
    → timeout * 1000 ≤ fuel
    → (r : Result SubmittedSponsoredTransaction) × (submit rpc timeout (suc fuel) bump ≡ some r)
unfolding submit
submit_total rpc timeout fuel bump =
    after_send_total rpc timeout fuel (accepted (rpc.send_transaction bump))

-- A transaction that `submit` reports as confirmed was accepted as pending under its hash, and a
-- poll for that hash answered success with the same return value.
pub submit_confirmed :
    (rpc : SponsorshipRpc) (timeout fuel : ℕ) (bump : FeeBumpTransaction)
    (s : SubmittedSponsoredTransaction)
    → submit rpc timeout fuel bump ≡ some (ok s)
    → (n : ℕ) × (rpc.send_transaction bump
        ≡ some (record { pending = true; hash = some s.outer_hash }))
      × (rpc.get_transaction s.outer_hash n ≡ some (success s.return_value_xdr))
unfolding submit
submit_confirmed rpc timeout fuel bump s h =
    let (n, sent, polled) = after_send_confirmed rpc timeout fuel _ s h in
    (n, accepted-eq_ok _ s.outer_hash sent, polled)
