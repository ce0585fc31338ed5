-- ===== src/Wallet/Tests.antt =====
-- The sending of a transaction with a sponsor, and a poll that finds it at the third read.
use dike_monolith.Prelude.{ℕ, zero, suc, ◌≡◌, refl, arith, true, none, some, [], nat_eq, string_eq}
use dike_monolith.Task.{Ended, returned, threw}
use dike_monolith.Wallet.Errors.{
  after_prefix, span, closed, code_here, first_match, contract_error, parse_dike_error,
}
use dike_monolith.Api.Validation.{is_digit, decimal}
use dike_monolith.Prelude.Dict.{lookup}
use dike_monolith.Wallet.Polling.{
  SendResponse, GetResponse, is_final, confirm, submit_and_poll, submit_and_poll-settles,
}
use dike_monolith.Wallet.Execute.{Outside, Done, select_mode, execute_transaction}
use dike_monolith.Wallet.Sends.{SentIn, LastFits, execute_transaction-SentIn}

abbrev get : ℕ → Ended GetResponse
get zero = returned GetResponse.not_found
get (suc zero) = returned GetResponse.not_found
get (suc (suc n)) = returned (GetResponse.success (some "value"))

polled_example :
    submit_and_poll (returned (SendResponse.sent "hash")) get
    ≡ confirm "hash" (GetResponse.success (some "value"))
unfolding is_final
polled_example =
    submit_and_poll-settles get "hash" 2 (GetResponse.success (some "value")) (refl, (refl, tt))
      refl refl (omega arith)

abbrev outside : Outside
outside = record {
  get_sponsorship_status = returned (record { enabled = true; available = true; reason = none });
  build = λ mode. returned "xdr";
  sign = λ xdr by_sponsor. returned "signed";
  submit_sponsored_transaction =
      λ xdr. returned (record { outer_hash = "outer"; return_value_xdr = none });
  decode_sponsored_return_value = λ v. returned none;
  send = λ xdr. threw "offline";
  get = λ hash i. threw "offline";
  parse_error = λ e. e;
}

abbrev nothing_done : Done
nothing_done = record { states = []; to_sponsor = []; to_node = [] }

executed_example :
    SentIn
      (select_mode outside.get_sponsorship_status)
      nothing_done
      (execute_transaction outside nothing_done).1
    × LastFits (execute_transaction outside nothing_done)
executed_example = execute_transaction-SentIn outside nothing_done

slippage :
    parse_dike_error (λ n. "n") (λ x. none) "HostError: Error(Contract, #17)" ≡ "SlippageExceeded"
unfolding parse_dike_error first_match code_here after_prefix span closed is_digit decimal
    contract_error lookup
slippage = refl
