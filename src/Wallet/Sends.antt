-- ===== src/Wallet/Sends.antt =====
-- What `executeTransaction` of dike-web/lib/stellar/execute.ts sends, and what it reports last.
use dike_monolith.Prelude.{◌≡◌, ◌⊎◌, inl, inr, refl, Option, none, some, List, ◌∷◌, String}
use dike_monolith.Task.{Ended, returned, threw}
use dike_monolith.Wallet.Execute.{
  TransactionFeeMode, direct, sponsored, pending, failed, TxState, Outside, Done, Sponsored,
  select_mode, report, is_sponsored, Result, decoded, sponsored_result, direct_result, submit,
  send_signed, sign_built, run, caught, execute_transaction,
}

-- One list is the other, or has one entry more in front.
abbrev pub AtMostOneMore : List String → List String → Type 0
AtMostOneMore after before = (after ≡ before) ⊎ ((x : String) × (after ≡ x ∷ before))

-- What is sent in a mode: nothing to the other side, and at most one transaction.
abbrev pub SentIn : Ended TransactionFeeMode → Done → Done → Type 0
SentIn (threw e) d after = (after.to_sponsor ≡ d.to_sponsor) × (after.to_node ≡ d.to_node)
SentIn (returned sponsored) d after =
    AtMostOneMore after.to_sponsor d.to_sponsor × (after.to_node ≡ d.to_node)
SentIn (returned direct) d after =
    (after.to_sponsor ≡ d.to_sponsor) × AtMostOneMore after.to_node d.to_node

-- The state that is reported last fits the end.
abbrev pub LastFits : Result → Type 0
LastFits (returned r, d) =
    (rest : List TxState) × (d.states
      ≡ (record { status = pending; hash = some r.hash; error = none }) ∷ rest)
LastFits (threw e, d) =
    (message : String) × (rest : List TxState) × (d.states
      ≡ (record { status = failed; hash = none; error = some message }) ∷ rest)

module _ (o : Outside) where
  sent_decoded :
      (hash : String) (r : Ended (Option String)) (d : Done)
      → ((decoded o hash r d).1.to_sponsor ≡ d.to_sponsor)
        × ((decoded o hash r d).1.to_node ≡ d.to_node)
  unfolding decoded
  sent_decoded hash (threw e) d = (refl, refl)
  sent_decoded hash (returned v) d = (refl, refl)

  sent_sponsored :
      (r : Ended Sponsored) (d : Done)
      → ((sponsored_result o r d).1.to_sponsor ≡ d.to_sponsor)
        × ((sponsored_result o r d).1.to_node ≡ d.to_node)
  unfolding sponsored_result report
  sent_sponsored (threw e) d = (refl, refl)
  sent_sponsored (returned r) d = sent_decoded r.outer_hash _ _

  sent_direct :
      (r : Ended (String × Option String)) (d : Done)
      → ((direct_result o r d).1.to_sponsor ≡ d.to_sponsor)
        × ((direct_result o r d).1.to_node ≡ d.to_node)
  unfolding direct_result report
  sent_direct (threw e) d = (refl, refl)
  sent_direct (returned (hash, v)) d = (refl, refl)

  sent_signed :
      (mode : TransactionFeeMode) (signed : Ended String) (d : Done)
      → SentIn (returned mode) d (send_signed o mode signed d).1
  unfolding send_signed report
  sent_signed sponsored (threw e) d = (inl refl, refl)
  sent_signed direct (threw e) d = (refl, inl refl)
  sent_signed sponsored (returned xdr) d =
      let s = sent_sponsored (o.submit_sponsored_transaction xdr) _ in (inr (xdr, s.0), s.1)
  sent_signed direct (returned xdr) d =
      let s = sent_direct (submit o xdr) _ in (s.0, inr (xdr, s.1))

  sent_built :
      (mode : TransactionFeeMode) (built : Ended String) (d : Done)
      → SentIn (returned mode) d (sign_built o mode built d).1
  unfolding sign_built report
  sent_built sponsored (threw e) d = (inl refl, refl)
  sent_built direct (threw e) d = (refl, inl refl)
  sent_built sponsored (returned xdr) d =
      sent_signed sponsored (o.sign xdr (is_sponsored sponsored)) _
  sent_built direct (returned xdr) d = sent_signed direct (o.sign xdr (is_sponsored direct)) _

  sent_run : (mode : Ended TransactionFeeMode) (d : Done) → SentIn mode d (run o mode d).1
  unfolding run report
  sent_run (threw e) d = (refl, refl)
  sent_run (returned sponsored) d = sent_built sponsored (o.build sponsored) _
  sent_run (returned direct) d = sent_built direct (o.build direct) _

  sent_caught :
      (mode : Ended TransactionFeeMode) (d : Done) (r : Result)
      → SentIn mode d r.1
      → SentIn mode d (caught o r).1
  unfolding caught report
  sent_caught (threw e) d (threw f, after) h = h
  sent_caught (threw e) d (returned r, after) h = h
  sent_caught (returned sponsored) d (threw f, after) h = h
  sent_caught (returned sponsored) d (returned r, after) h = h
  sent_caught (returned direct) d (threw f, after) h = h
  sent_caught (returned direct) d (returned r, after) h = h

  -- A result that is returned has been reported.
  abbrev Reported : Result → Type 0
  Reported (threw e, d) = Unit
  Reported (returned r, d) =
      (rest : List TxState) × (d.states
        ≡ (record { status = pending; hash = some r.hash; error = none }) ∷ rest)

  Reported-decoded :
      (hash : String) (r : Ended (Option String)) (d : Done)
      → Reported (decoded o hash r (report pending (some hash) none d))
  unfolding decoded report
  Reported-decoded hash (threw e) d = tt
  Reported-decoded hash (returned v) d = (d.states, refl)

  Reported-sponsored : (r : Ended Sponsored) (d : Done) → Reported (sponsored_result o r d)
  unfolding sponsored_result report
  Reported-sponsored (threw e) d = tt
  Reported-sponsored (returned r) d =
      Reported-decoded r.outer_hash (o.decode_sponsored_return_value r.return_value_xdr) d

  Reported-direct : (r : Ended (String × Option String)) (d : Done) → Reported (direct_result o r d)
  unfolding direct_result report
  Reported-direct (threw e) d = tt
  Reported-direct (returned (hash, v)) d = (d.states, refl)

  Reported-signed :
      (mode : TransactionFeeMode) (signed : Ended String) (d : Done)
      → Reported (send_signed o mode signed d)
  unfolding send_signed
  Reported-signed sponsored (threw e) d = tt
  Reported-signed direct (threw e) d = tt
  Reported-signed sponsored (returned xdr) d =
      Reported-sponsored (o.submit_sponsored_transaction xdr) _
  Reported-signed direct (returned xdr) d = Reported-direct (submit o xdr) _

  Reported-built :
      (mode : TransactionFeeMode) (built : Ended String) (d : Done)
      → Reported (sign_built o mode built d)
  unfolding sign_built
  Reported-built mode (threw e) d = tt
  Reported-built mode (returned xdr) d = Reported-signed mode (o.sign xdr (is_sponsored mode)) _

  Reported-run : (mode : Ended TransactionFeeMode) (d : Done) → Reported (run o mode d)
  unfolding run
  Reported-run (threw e) d = tt
  Reported-run (returned mode) d = Reported-built mode (o.build mode) _

  Reported-caught : (r : Result) → Reported r → LastFits (caught o r)
  unfolding caught report
  Reported-caught (threw e, d) h = (o.parse_error e, d.states, refl)
  Reported-caught (returned r, d) h = h

  -- A transaction goes to one side only, and at most once: to the sponsor where sponsorship is available, to the node
  -- where it is disabled, and nowhere where its status cannot be read or it is unavailable for another reason.
  -- The state that is reported last is pending with the hash that is returned, or failed where the call throws.
  pub execute_transaction-SentIn :
      (d : Done)
      → SentIn (select_mode o.get_sponsorship_status) d (execute_transaction o d).1
        × LastFits (execute_transaction o d)
  unfolding execute_transaction
  execute_transaction-SentIn d =
      let mode = select_mode o.get_sponsorship_status in
      (
        sent_caught mode d (run o mode d) (sent_run mode d),
        Reported-caught (run o mode d) (Reported-run mode d),
      )
