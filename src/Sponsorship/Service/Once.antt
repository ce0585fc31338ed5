-- ===== src/Sponsorship/Service/Once.antt =====
-- No transaction is sponsored twice by dike-services/src/sponsorship/service.ts: calls one after the
-- other, with the results that expire.
use dike_monolith.Prelude.{
  ℕ, ◌+◌, ◌≤◌, ◌<◌, ◌≡◌, refl, ◌≢◌, inl, inr, some, List, [], ◌∷◌, String, string_eq, arith, ap,
  sym, subst, All, All-map, ◌==◌, Bool-cases, ◌∙◌,
}
use dike_monolith.Prelude.Dict.{lookup, lookup-insert, lookup-insert_same}
use dike_monolith.Sponsorship.Types.{
  Result, ok, Ensures, returns, >>=-Ensures, result-Ensures, Ensures-ok,
}
use dike_monolith.Sponsorship.Sdk.{Transaction, Envelope, FeeBumpTransaction}
use dike_monolith.Sponsorship.Request.{parse_sponsorship_request}
use dike_monolith.Sponsorship.Validator.{
  ParsedSponsorshipTransaction, IsSponsorable, sponsorable, max_validity_seconds,
}
use dike_monolith.Sponsorship.Signature.{verify_inner_source_signature}
use dike_monolith.Sponsorship.Allowlist.{assert_allowed_contract_call}
use dike_monolith.Sponsorship.Fees.{quote_sponsored_fee}
use dike_monolith.Sponsorship.Validator.Accepts.{parse_sound}
use dike_monolith.Sponsorship.FeeBump.{BuiltFeeBump, build_and_sign_fee_bump, build-Ensures}
use dike_monolith.Sponsorship.Replay.{SponsorshipResult, ReplayRecord, ReplayStore}
use dike_monolith.Sponsorship.Replay.Locks.{terminal_expired}
use dike_monolith.Sponsorship.Service.{
  Options, Call, World, Prepared, start_s, end_s, prepare, sponsor,
}
use dike_monolith.Sponsorship.Service.Effects.{Keeps, Sends, final_of}
use dike_monolith.Sponsorship.Service.Calls.{Admits, sponsor-Effect}

-- What is relied on of the SDK and the signer: a fee bump, signed or not, holds the transaction that
-- it was built from, and two decoded transactions of one hash have one time bound.
pub record IsReliable (o : Options) : Type 0 where
  pub bumps :
      (key : String) (fee : _) (t : Transaction) (bump : FeeBumpTransaction)
      → o.sdk.build_fee_bump key fee t o.network_passphrase ≡ some bump
      → bump.inner ≡ t
  pub signs : (bump : FeeBumpTransaction) → (o.signer.sign bump).inner ≡ bump.inner
  pub hashes :
      (x y : String) (t u : Transaction)
      → o.sdk.from_xdr x o.network_passphrase ≡ some (Envelope.transaction t)
      → o.sdk.from_xdr y o.network_passphrase ≡ some (Envelope.transaction u)
      → t.hash ≡ u.hash
      → t.max_time ≡ u.max_time
  -- A result is kept for as long as a transaction may be valid.
  pub keeps : max_validity_seconds ≤ o.replay_ttl_seconds

module _ (o : Options) where
  -- What the checks tell of the time bound of a transaction.
  pub record Window (c : Call) (p : ParsedSponsorshipTransaction) : Type 0 where
    pub text : String
    pub max_time : ℕ
    pub decoded :
        o.sdk.from_xdr text o.network_passphrase ≡ some (Envelope.transaction p.transaction)
    pub bound : p.transaction.max_time ≡ some max_time
    pub hashed : p.hash ≡ p.transaction.hash
    pub open_now : start_s c < max_time
    pub not_long : max_time ≤ start_s c + max_validity_seconds

  window :
      (c : Call) (text : String) {p : ParsedSponsorshipTransaction}
      → IsSponsorable o.sdk text o.network_passphrase (start_s c) max_validity_seconds p
      → Window c p
  window c text (sponsorable t id method m fee decoded _ _ bounded after before _ _ _ _) = record {
    text = text;
    max_time = m;
    decoded = decoded;
    bound = bounded;
    hashed = refl;
    open_now = after;
    not_long = before;
  }

  prepare-Window : (c : Call) → Ensures (λ p. Window c p.parsed) (prepare o c)
  unfolding prepare
  prepare-Window c =
      >>=-Ensures (result-Ensures (parse_sponsorship_request o.decoded_length c.body)) λ text _.
        >>=-Ensures (parse_sound o.sdk text o.network_passphrase (start_s c) max_validity_seconds)
          λ parsed valid.
            >>=-Ensures (result-Ensures (verify_inner_source_signature o.sdk parsed)) λ _ _.
              >>=-Ensures
                (result-Ensures
                  (assert_allowed_contract_call parsed.contract_id parsed.method o.contracts))
                λ _ _.
                  >>=-Ensures
                    (result-Ensures (
                      quote_sponsored_fee o.sdk.base_fee parsed.inner_fee parsed.resource_fee
                        o.fee_policy))
                    λ quote _. returns (window c text valid)

  -- The transaction in a fee bump that was built.
  built-inner :
      IsReliable o
      → (p : ParsedSponsorshipTransaction) (b : BuiltFeeBump)
      → build_and_sign_fee_bump o.sdk p o.fee_policy o.signer o.network_passphrase ≡ ok b
      → b.transaction.inner ≡ p.transaction
  built-inner h p b e =
      let (bump, built, signed, _, _) =
        Ensures-ok (build-Ensures o.sdk p o.fee_policy o.signer o.network_passphrase) e in
      rw (signed, h.signs bump) (h.bumps _ _ _ bump built)

  -- A submission whose result is stored for at least as long as it is valid.
  pub record IsRecorded (s : ReplayStore) (b : FeeBumpTransaction) : Type 0 where
    pub text : String
    pub max_time : ℕ
    pub decoded : o.sdk.from_xdr text o.network_passphrase ≡ some (Envelope.transaction b.inner)
    pub bound : b.inner.max_time ≡ some max_time
    pub final : ReplayRecord
    pub expires : ℕ
    pub stored : lookup b.inner.hash s.results ≡ some (final, expires)
    pub long : max_time ≤ expires

  abbrev pub Differs : String → FeeBumpTransaction → Type 0
  Differs hash b = b.inner.hash ≢ hash

  -- No two submissions are of one inner transaction.
  abbrev pub Distinct : List FeeBumpTransaction → Type 0
  Distinct [] = Unit {0}
  Distinct (b ∷ bs) = All (Differs b.inner.hash) bs × Distinct bs

  module _ (h : IsReliable o) (c : Call) (w : World) (p : Prepared) where
    module _ (adm : Admits o c w p) (out : Result SponsorshipResult × World)
        (s : Sends o c p.parsed p.quote w out) (later : start_s c ≤ end_s c) where
      opened : Window c p.parsed
      opened = Ensures-ok (prepare-Window c) adm.prepared

      inner : s.built.transaction.inner ≡ p.parsed.transaction
      inner = built-inner h p.parsed s.built s.builds

      -- The new submission is recorded.
      new-IsRecorded : IsRecorded out.1.replay s.built.transaction
      new-IsRecorded = record {
        text = opened.text;
        max_time = opened.max_time;
        decoded =
            subst
              (λ t. o.sdk.from_xdr opened.text o.network_passphrase ≡ some (Envelope.transaction t))
              (sym inner) opened.decoded;
        bound = subst (λ t. t.max_time ≡ some opened.max_time) (sym inner) opened.bound;
        final = final_of p.parsed.hash (o.submit s.built.transaction);
        expires = end_s c + o.replay_ttl_seconds;
        stored =
            ap (λ k. lookup k out.1.replay.results) (ap (λ t. t.hash) inner ∙ sym opened.hashed)
            ∙ ap (lookup p.parsed.hash) s.results
            ∙ lookup-insert_same p.parsed.hash _ w.replay.results;
        long = omega (arith, opened.not_long, h.keeps);
      }

      same_time :
          (b : FeeBumpTransaction) (r : IsRecorded w.replay b)
          → p.parsed.hash ≡ b.inner.hash
          → opened.max_time ≡ r.max_time
      same_time b r e = cc (
          sym opened.bound
          ∙ h.hashes opened.text r.text p.parsed.transaction b.inner opened.decoded r.decoded
              (sym opened.hashed ∙ e)
          ∙ r.bound)

      -- One that was recorded still is.
      old-IsRecorded : (b : FeeBumpTransaction) → IsRecorded w.replay b → IsRecorded out.1.replay b
      old-IsRecorded b r = elim (Bool-cases (p.parsed.hash == b.inner.hash)) [
        | inl same ↦ record {
          text = r.text;
          max_time = r.max_time;
          decoded = r.decoded;
          bound = r.bound;
          final = final_of p.parsed.hash (o.submit s.built.transaction);
          expires = end_s c + o.replay_ttl_seconds;
          stored =
              rw (s.results, lookup-insert p.parsed.hash b.inner.hash _ w.replay.results, same)
                refl;
          long =
              omega
                (arith, same_time b r ((string_eq.beq_iff _ _).0 same), opened.not_long, h.keeps);
        }
        | inr other ↦ record {
          text = r.text;
          max_time = r.max_time;
          decoded = r.decoded;
          bound = r.bound;
          final = r.final;
          expires = r.expires;
          stored =
              rw (s.results, lookup-insert p.parsed.hash b.inner.hash _ w.replay.results, other)
                r.stored;
          long = r.long;
        }
      ]

      -- And it is of another transaction, since its result has not expired.
      old-Differs :
          (b : FeeBumpTransaction)
          → IsRecorded w.replay b
          → Differs s.built.transaction.inner.hash b
      old-Differs b r same =
          let hash : p.parsed.hash ≡ b.inner.hash =
            opened.hashed ∙ ap (λ t. t.hash) (sym inner) ∙ sym same in
          let expired =
            terminal_expired b.inner.hash (start_s c) w.replay r.final r.expires r.stored
              (rw (← hash) adm.fresh) in
          omega (arith, same_time b r hash, opened.open_now, r.long, expired)

  -- The submissions so far: each is recorded, and no two are of one transaction.
  pub record IsOnce (w : World) : Type 0 where
    pub recorded : All (IsRecorded w.replay) w.submitted
    pub distinct : Distinct w.submitted

  Keeps-IsOnce : {w w' : World} → Keeps w w' → IsOnce w → IsOnce w'
  Keeps-IsOnce {w} {w'} k i = record {
    recorded =
        rw k.submissions
          (All-map (λ b (r : IsRecorded w.replay b). carry b r) w.submitted i.recorded);
    distinct = rw k.submissions i.distinct;
  }
    where
      carry : (b : FeeBumpTransaction) → IsRecorded w.replay b → IsRecorded w'.replay b
      carry b r = record {
        text = r.text;
        max_time = r.max_time;
        decoded = r.decoded;
        bound = r.bound;
        final = r.final;
        expires = r.expires;
        stored = rw k.results r.stored;
        long = r.long;
      }

  Sends-IsOnce :
      (h : IsReliable o) (c : Call) {w : World} (out : Result SponsorshipResult × World)
      (p : Prepared)
      → Admits o c w p
      → Sends o c p.parsed p.quote w out
      → start_s c ≤ end_s c
      → IsOnce w
      → IsOnce out.1
  Sends-IsOnce h c {w} out p adm s later i = record {
    recorded = rw s.submissions (
      new-IsRecorded h c w p adm out s later,
      All-map (old-IsRecorded h c w p adm out s later) w.submitted i.recorded,
    );
    distinct =
        rw s.submissions
          (All-map (old-Differs h c w p adm out s later) w.submitted i.recorded, i.distinct);
  }

  -- Calls one after the other, from a world where nothing was submitted, each over before its lock
  -- expires.
  pub data Run : World → Type 0 where
    start : (w : World) → w.submitted ≡ [] → Run w
    call :
        {w : World} (c : Call)
        → Run w
        → start_s c ≤ end_s c
        → end_s c < start_s c + o.lock_ttl_seconds
        → Run (sponsor o c w).1

  Run-IsOnce : IsReliable o → {w : World} → Run w → IsOnce w
  Run-IsOnce h (start w e) = record { recorded = rw e tt; distinct = rw e tt }
  Run-IsOnce h (call {w} c r later live) = elim (sponsor-Effect o c w live) [
    | inl k ↦ Keeps-IsOnce k (Run-IsOnce h r)
    | inr (p, adm, s) ↦ Sends-IsOnce h c (sponsor o c w) p adm s later (Run-IsOnce h r)
  ]

  -- From a world with no submissions, whatever calls are made one after the other, each over before its
  -- lock expires, no two of the transactions handed to the submitter are fee bumps of inner transactions
  -- of one hash, though the stored results expire. That rests on the SDK and on a time to live of the
  -- results that is no shorter than the longest validity of a transaction.
  pub never_twice : IsReliable o → {w : World} → Run w → Distinct w.submitted
  never_twice h r = (Run-IsOnce h r).distinct
