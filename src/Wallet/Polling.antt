-- ===== src/Wallet/Polling.antt =====
-- `submitAndPoll` and `simulateRead` of dike-web/lib/stellar/transaction.ts. The node's answers are parameters, by the
-- number of the call.
use Prim.Native.String.{◌++◌}
use dike_monolith.Prelude.{
  ℕ, zero, suc, ◌+◌, ◌≤◌, ◌≡◌, ap, ◌∙◌, arith, Bool, true, false, Option, String, or_else,
}
use dike_monolith.Task.{Ended, returned, threw}

-- The answers of `sendTransaction` and `getTransaction`.
pub data SendResponse : Type 0 where
  refused : String → SendResponse
  sent : String → SendResponse

pub data GetResponse : Type 0 where
  not_found : GetResponse
  success : Option String → GetResponse
  failed : Option String → GetResponse

abbrev pub timeout_message : String
timeout_message = "Transaction not confirmed after polling timeout."

-- What follows the loop.
unfoldable pub confirm : String → GetResponse → Ended (String × Option String)
confirm hash (GetResponse.success v) = returned (hash, v)
confirm hash (GetResponse.failed xdr) =
    threw ("Transaction failed on-chain: " ++ or_else xdr "unknown")
confirm hash GetResponse.not_found = threw timeout_message

unfoldable pub last_answer : String → Ended GetResponse → Ended (String × Option String)
last_answer hash (threw e) = threw e
last_answer hash (returned r) = confirm hash r

-- An answer before the last attempt, and what the loop comes to after it.
unfoldable pub answer :
    String → Ended GetResponse → Ended (String × Option String) → Ended (String × Option String)
answer hash (returned GetResponse.not_found) rest = rest
answer hash (returned (GetResponse.success v)) rest = confirm hash (GetResponse.success v)
answer hash (returned (GetResponse.failed x)) rest = confirm hash (GetResponse.failed x)
answer hash (threw e) rest = threw e

-- The loop with the number of attempts left, from the call of this number.
unfoldable pub poll : (ℕ → Ended GetResponse) → String → ℕ → ℕ → Ended (String × Option String)
poll get hash zero i = last_answer hash (get i)
poll get hash (suc n) i = answer hash (get i) (poll get hash n (suc i))

unfoldable pub submit_and_poll :
    Ended SendResponse → (ℕ → Ended GetResponse) → Ended (String × Option String)
submit_and_poll (threw e) get = threw e
submit_and_poll (returned (SendResponse.refused xdr)) get = threw ("Transaction rejected: " ++ xdr)
submit_and_poll (returned (SendResponse.sent hash)) get = poll get hash 60 0

-- `simulateRead`: a read that fails is tried again, and the last error is thrown.
unfoldable pub simulate_read : {A : Type 0} → (ℕ → Ended A) → Ended A
simulate_read once = elim (once 0) [
  | returned a ↦ returned a
  | threw e ↦ elim (once 1) [ returned a ↦ returned a | threw f ↦ once 2 ]
]

-- An answer that ends the loop.
unfoldable pub is_final : GetResponse → Bool
is_final GetResponse.not_found = false
is_final _ = true

module _ (get : ℕ → Ended GetResponse) (hash : String) where
  poll_last : (i : ℕ) (r : GetResponse) → get i ≡ returned r → poll get hash zero i ≡ confirm hash r
  unfolding poll last_answer
  poll_last i r h = ap (last_answer hash) h

  poll_final :
      (n i : ℕ) (r : GetResponse)
      → is_final r ≡ true
      → get i ≡ returned r
      → poll get hash (suc n) i ≡ confirm hash r
  unfolding poll is_final answer
  poll_final n i GetResponse.not_found f h = absurd (ground (arith, f))
  poll_final n i (GetResponse.success v) f h = ap (λ x. answer hash x (poll get hash n (suc i))) h
  poll_final n i (GetResponse.failed x) f h = ap (λ x. answer hash x (poll get hash n (suc i))) h

  poll_on :
      (n i : ℕ)
      → get i ≡ returned GetResponse.not_found
      → poll get hash (suc n) i ≡ poll get hash n (suc i)
  unfolding poll answer
  poll_on n i h = ap (λ x. answer hash x (poll get hash n (suc i))) h

  -- Every call before the k-th finds nothing.
  abbrev pub Missing : ℕ → ℕ → Type 0
  Missing zero i = Unit
  Missing (suc k) i = (get i ≡ returned GetResponse.not_found) × Missing k (suc i)

  poll_settles :
      (n k i : ℕ) (r : GetResponse)
      → Missing k i
      → get (i + k) ≡ returned r
      → is_final r ≡ true
      → k ≤ n
      → poll get hash n i ≡ confirm hash r
  poll_settles zero zero i r m h f le = poll_last i r (ap get (omega arith) ∙ h)
  poll_settles (suc n) zero i r m h f le = poll_final n i r f (ap get (omega arith) ∙ h)
  poll_settles zero (suc k) i r m h f le = absurd (omega (arith, le))
  poll_settles (suc n) (suc k) i r (x, m) h f le =
      poll_on n i x ∙ poll_settles n k (suc i) r m (ap get (omega arith) ∙ h) f (omega (arith, le))

  poll_gives_up : (n i : ℕ) → Missing (suc n) i → poll get hash n i ≡ threw timeout_message
  unfolding confirm
  poll_gives_up zero i (x, m) = poll_last i GetResponse.not_found x
  poll_gives_up (suc n) i (x, m) = poll_on n i x ∙ poll_gives_up n (suc i) m

  -- A transaction that is sent ends as the first of at most 61 reads says that does not miss it.
  pub submit_and_poll-settles :
      (k : ℕ) (r : GetResponse)
      → Missing k 0
      → get k ≡ returned r
      → is_final r ≡ true
      → k ≤ 60
      → submit_and_poll (returned (SendResponse.sent hash)) get ≡ confirm hash r
  unfolding submit_and_poll
  submit_and_poll-settles k r m h f le = poll_settles 60 k 0 r m (ap get (omega arith) ∙ h) f le

  -- Where 61 reads miss it, the wait ends with an error.
  pub submit_and_poll-gives_up :
      Missing 61 0 → submit_and_poll (returned (SendResponse.sent hash)) get ≡ threw timeout_message
  unfolding submit_and_poll
  submit_and_poll-gives_up m = poll_gives_up 60 0 m
