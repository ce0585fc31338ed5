-- ===== src/Wallet/Execute.antt =====
-- `executeTransaction` of dike-web/lib/stellar/execute.ts. The builder, the signer, the sponsoring service and the
-- decoding of its answer are parameters, as the node is.
use dike_monolith.Prelude.{
  ℕ, Bool, true, false, not, ◌&&◌, Option, none, some, List, ◌∷◌, String, ◌==◌, string_eq,
  if◌then◌else◌,
}
use dike_monolith.Task.{Ended, returned, threw}
use dike_monolith.Wallet.Polling.{SendResponse, GetResponse, submit_and_poll}

pub data TransactionFeeMode : Type 0 where
  direct sponsored : TransactionFeeMode

pub data TxStatus : Type 0 where
  idle building simulating awaiting_signature sponsoring submitting pending success failed :
      TxStatus

pub record TxState : Type 0 where
  pub status : TxStatus
  pub hash : Option String
  pub error : Option String

pub record SponsorshipStatus : Type 0 where
  pub enabled : Bool
  pub available : Bool
  pub reason : Option String

-- The hash of the outer transaction and its value, of `SponsoredTransactionResult`.
pub record Sponsored : Type 0 where
  pub outer_hash : String
  pub return_value_xdr : Option String

pub record Outside : Type 0 where
  pub get_sponsorship_status : Ended SponsorshipStatus
  pub build : TransactionFeeMode → Ended String
  pub sign : String → Bool → Ended String
  pub submit_sponsored_transaction : String → Ended Sponsored
  pub decode_sponsored_return_value : Option String → Ended (Option String)
  pub send : String → Ended SendResponse
  pub get : String → ℕ → Ended GetResponse
  pub parse_error : String → String

pub record Executed : Type 0 where
  pub hash : String
  pub return_value : Option String
  pub by_sponsor : Bool

-- What the call has done: the states that it reported, the transactions that it gave to the sponsor and those that
-- it sent to the node, each newest first.
pub record Done : Type 0 where
  pub states : List TxState
  pub to_sponsor : List String
  pub to_node : List String

abbrev unavailable : String
unavailable = "Fee sponsorship is temporarily unavailable. Try again later."

unfoldable pub is_disabled : Option String → Bool
is_disabled none = false
is_disabled (some reason) = reason == "disabled"

unfoldable pub mode_of : SponsorshipStatus → Ended TransactionFeeMode
mode_of s =
    if s.available
    then returned sponsored
    else if not s.enabled && is_disabled s.reason
    then returned direct
    else threw unavailable

unfoldable pub select_mode : Ended SponsorshipStatus → Ended TransactionFeeMode
select_mode (threw e) = threw e
select_mode (returned s) = mode_of s

unfoldable pub report : TxStatus → Option String → Option String → Done → Done
report status hash error d = record d {
  states = (record { status = status; hash = hash; error = error }) ∷ d.states;
}

unfoldable pub is_sponsored : TransactionFeeMode → Bool
is_sponsored direct = false
is_sponsored sponsored = true

abbrev pub Result : Type 0
Result = Ended Executed × Done

module _ (o : Outside) where
  unfoldable pub decoded : String → Ended (Option String) → Done → Result
  decoded hash (threw e) d = (threw e, d)
  decoded hash (returned v) d =
      (returned (record { hash = hash; return_value = v; by_sponsor = true }), d)

  unfoldable pub sponsored_result : Ended Sponsored → Done → Result
  sponsored_result (threw e) d = (threw e, d)
  sponsored_result (returned r) d =
      decoded r.outer_hash (o.decode_sponsored_return_value r.return_value_xdr)
        (report pending (some r.outer_hash) none d)

  unfoldable pub direct_result : Ended (String × Option String) → Done → Result
  direct_result (threw e) d = (threw e, d)
  direct_result (returned (hash, v)) d = (
    returned (record { hash = hash; return_value = v; by_sponsor = false }),
    report pending (some hash) none d,
  )

  -- `submitAndPoll` asks for the transaction under the hash that the node answers.
  unfoldable pub submit : String → Ended (String × Option String)
  submit xdr = elim (o.send xdr) [
    | threw e ↦ threw e
    | returned (SendResponse.refused r) ↦
        submit_and_poll (returned (SendResponse.refused r)) (o.get "")
    | returned (SendResponse.sent hash) ↦
        submit_and_poll (returned (SendResponse.sent hash)) (o.get hash)
  ]

  unfoldable pub send_signed : TransactionFeeMode → Ended String → Done → Result
  send_signed mode (threw e) d = (threw e, d)
  send_signed sponsored (returned xdr) d =
      sponsored_result (o.submit_sponsored_transaction xdr)
        (record (report sponsoring none none d) { to_sponsor = xdr ∷ d.to_sponsor })
  send_signed direct (returned xdr) d =
      direct_result (submit xdr)
        (record (report submitting none none d) { to_node = xdr ∷ d.to_node })

  unfoldable pub sign_built : TransactionFeeMode → Ended String → Done → Result
  sign_built mode (threw e) d = (threw e, d)
  sign_built mode (returned xdr) d =
      send_signed mode (o.sign xdr (is_sponsored mode)) (report awaiting_signature none none d)

  unfoldable pub run : Ended TransactionFeeMode → Done → Result
  run (threw e) d = (threw e, d)
  run (returned mode) d = sign_built mode (o.build mode) (report building none none d)

  -- The `catch` block.
  unfoldable pub caught : Result → Result
  caught (threw e, d) = (threw e, report failed none (some (o.parse_error e)) d)
  caught (returned r, d) = (returned r, d)

  unfoldable pub execute_transaction : Done → Result
  execute_transaction d = caught (run (select_mode o.get_sponsorship_status) d)
