-- ===== src/Sponsorship/Tests.antt =====
-- The theorems of the fee sponsorship at concrete inputs: one transaction that buys from the AMM, and
-- the calls that send it.
use dike_monolith.Prelude.{
  ℕ, ◌+◌, ◌*◌, ◌/◌, ◌≤◌, ◌≡◌, ◌↔◌, inl, refl, ap, sym, ◌∙◌, true, none, some, some_inj, [], ◌∷◌,
  String, arith, ◌==◌, string_eq, if◌then◌else◌, length,
}
use dike_monolith.Prelude.Int.{pos, int_laws, ◌≤ℤ◌, ◌-ℤ◌, ◌+ℤ◌}
use dike_monolith.Sponsorship.Types.{ok, Result}
use dike_monolith.Sponsorship.Sdk.{
  Sdk, Transaction, Envelope, Operation, HostFunction, Address, FeeBumpTransaction,
}
use dike_monolith.Sponsorship.Fees.{
  FeePolicy, FeeQuote, IsWithinPolicy, quote_sponsored_fee, quote_iff,
}
use dike_monolith.Sponsorship.Allowlist.{
  ContractModule, DikeManifestContracts, contract_modules, find_module, includes, sponsored_methods,
  assert_allowed_contract_call, allowed_iff,
}
use dike_monolith.Sponsorship.Validator.{
  ParsedSponsorshipTransaction, IsSponsorable, sponsorable, parse_sponsored_inner_transaction,
}
use dike_monolith.Sponsorship.Validator.Accepts.{parse_iff}
use dike_monolith.Sponsorship.Signature.{
  IsSigned, key_hint, verify_inner_source_signature, verify_iff,
}
use dike_monolith.Sponsorship.Quota.{QuotaPolicy, verdict_result, reserve, reserve_script}
use dike_monolith.Sponsorship.Quota.Redis.{
  source_minute, ip_minute, daily_budget, count_of, count_of-nil, quota_key_eq,
}
use dike_monolith.Sponsorship.Quota.Scripts.{
  is_granted, reserve_script_counts, reserve_script_verdict,
}
use dike_monolith.Sponsorship.Quota.Limits.{reserves}
use dike_monolith.Sponsorship.Quota.History.{IsBalanced, Reach, start, next, Reach-IsBalanced}
use dike_monolith.Sponsorship.Request.{
  parse_sponsorship_request, request_iff, codes, IsBase64Char, IsBase64, group, empty,
  length-IsBase64, IsXdrText,
}
use dike_monolith.Sponsorship.Submitter.{
  SponsorshipRpc, TransactionStatus, SubmittedSponsoredTransaction, poll, submit, submit_total,
  submit_confirmed,
}
use dike_monolith.Sponsorship.Service.{Options, Call, World, Prepared, prepare, sponsor}
use dike_monolith.Sponsorship.Service.Calls.{Effect, sponsor-Effect}
use dike_monolith.Sponsorship.Service.Once.{IsReliable, Run, Distinct, never_twice}
use dike_monolith.Observability.Metrics.{new_metrics}

abbrev policy : FeePolicy
policy = record {
  base_fee_stroops = pos 100;
  max_total_fee_stroops = pos 10000;
  max_resource_fee_stroops = pos 5000;
}

within : IsWithinPolicy (pos 100) (pos 1100) (pos 1000) policy
within = record {
  base_high = omega int_laws;
  inclusion_high = omega int_laws;
  inclusion_low = omega int_laws;
  resource_high = omega int_laws;
  resource_low = omega int_laws;
  total_low = omega int_laws;
}

base_fee_high : pos 0 ≤ℤ pos 100
base_fee_high = omega int_laws

abbrev quoted : FeeQuote
quoted = record { inner_inclusion_fee = pos 100; outer_fee = pos 1200; resource_fee = pos 1000 }

quote_example :
    (quote_sponsored_fee (pos 100) (pos 1100) (pos 1000) policy ≡ ok quoted)
    ↔ (IsWithinPolicy (pos 100) (pos 1100) (pos 1000) policy × (quoted ≡ quoted))
unfolding ◌-ℤ◌ ◌+ℤ◌
quote_example = quote_iff (pos 100) (pos 1100) (pos 1000) policy quoted base_fee_high

is_quoted : quote_sponsored_fee (pos 100) (pos 1100) (pos 1000) policy ≡ ok quoted
unfolding ◌-ℤ◌ ◌+ℤ◌
is_quoted = (quote_iff (pos 100) (pos 1100) (pos 1000) policy quoted base_fee_high).1 (within, refl)

abbrev contracts : DikeManifestContracts
contracts ContractModule.mock_usdc = "mock_usdc"
contracts ContractModule.dike_timelock = "dike_timelock"
contracts ContractModule.dike_governance = "dike_governance"
contracts ContractModule.market_registry = "market_registry"
contracts ContractModule.conditional_tokens = "conditional_tokens"
contracts ContractModule.collateral_vault = "collateral_vault"
contracts ContractModule.amm = "amm"
contracts ContractModule.fee_manager = "fee_manager"
contracts ContractModule.cod_oracle = "cod_oracle"
contracts ContractModule.council_of_dike = "council_of_dike"
contracts ContractModule.market_factory = "market_factory"

is_found : (m : ContractModule) → find_module contracts (contracts m) contract_modules ≡ some m
unfolding find_module
is_found ContractModule.mock_usdc = refl
is_found ContractModule.dike_timelock = refl
is_found ContractModule.dike_governance = refl
is_found ContractModule.market_registry = refl
is_found ContractModule.conditional_tokens = refl
is_found ContractModule.collateral_vault = refl
is_found ContractModule.amm = refl
is_found ContractModule.fee_manager = refl
is_found ContractModule.cod_oracle = refl
is_found ContractModule.council_of_dike = refl
is_found ContractModule.market_factory = refl

contracts_differ : (m n : ContractModule) → contracts m ≡ contracts n → m ≡ n
contracts_differ m n e =
    some_inj (sym (is_found m) ∙ ap (λ a. find_module contracts a contract_modules) e ∙ is_found n)

allowed_example : assert_allowed_contract_call "amm" "buy_yes" contracts ≡ ok tt
unfolding sponsored_methods includes
allowed_example =
    (allowed_iff "amm" "buy_yes" contracts contracts_differ).1 (ContractModule.amm, refl, refl)

abbrev bought : Transaction
bought = record {
  source = "GA";
  signatures = record { hint = 3 ∷ 4 ∷ 5 ∷ 6 ∷ []; signature = 9 ∷ [] } ∷ [];
  max_time = some 1500;
  operations =
      Operation.invoke_host_function
        (HostFunction.invoke_contract (Address.contract (7 ∷ [])) "buy_yes")
      ∷ [];
  fee = pos 1100;
  soroban_fee = some (pos 1000);
  hash = "h1";
}

abbrev sdk : Sdk
sdk = record {
  base_fee = pos 100;
  from_xdr = λ x p. if x == "AAAA" then some (Envelope.transaction bought) else none;
  is_valid_public_key = λ k. true;
  decode_public_key = λ k. some (1 ∷ 2 ∷ 3 ∷ 4 ∷ 5 ∷ 6 ∷ []);
  encode_contract = λ id. "amm";
  verify = λ k h s. some true;
  build_fee_bump =
      λ key fee t p. some (record { inner = t; fee_source = key; fee = pos 1200; hash = "outer" });
}

abbrev parsed : ParsedSponsorshipTransaction
parsed = record {
  xdr = "AAAA";
  transaction = bought;
  source = "GA";
  hash = "h1";
  contract_id = "amm";
  method = "buy_yes";
  inner_fee = pos 1100;
  resource_fee = pos 1000;
}

sponsored : IsSponsorable sdk "AAAA" "testnet" 1000 900 parsed
sponsored =
    sponsorable bought (7 ∷ []) "buy_yes" 1500 (pos 1000) refl refl refl refl (omega arith)
      (omega arith) refl refl (omega int_laws) (omega int_laws)

parse_example : parse_sponsored_inner_transaction sdk "AAAA" "testnet" 1000 900 ≡ ok parsed
parse_example = (parse_iff sdk "AAAA" "testnet" 1000 900 parsed).1 sponsored

signed : IsSigned sdk parsed
unfolding key_hint
signed = record {
  key = 1 ∷ 2 ∷ 3 ∷ 4 ∷ 5 ∷ 6 ∷ [];
  signature = record { hint = 3 ∷ 4 ∷ 5 ∷ 6 ∷ []; signature = 9 ∷ [] };
  decoded = refl;
  single = refl;
  hinted = refl;
  verified = refl;
}

verify_example : verify_inner_source_signature sdk parsed ≡ ok tt
verify_example = (verify_iff sdk parsed).1 signed

abbrev quota : QuotaPolicy
quota = record {
  max_per_minute = 2;
  max_per_ip_minute = 3;
  daily_budget_stroops = 5000;
  ttl_seconds = 60;
}

counts_example :
    count_of
      (daily_budget 7)
      (reserve_script quota (source_minute "GA" 1) (ip_minute "ip" 1) (daily_budget 7) 1200 []).1
    ≡ (if is_granted
          (reserve_script quota
            (source_minute "GA" 1)
            (ip_minute "ip" 1)
            (daily_budget 7)
            1200
            []).0
        then count_of (daily_budget 7) []
          + ((if source_minute "GA" 1 == daily_budget 7 then 1 else 0)
              + (if ip_minute "ip" 1 == daily_budget 7 then 1 else 0)
              + (if daily_budget 7 == daily_budget 7 then 1200 else 0))
        else count_of (daily_budget 7) [])
counts_example =
    reserve_script_counts quota (source_minute "GA" 1) (ip_minute "ip" 1) (daily_budget 7) 1200
      (daily_budget 7) []

abbrev key_part : String → String
key_part s = s

granted_first :
    (reserve key_part quota "GA" "ip" (pos 1200) 60000 []).0
    ≡ ok (record { daily_key = daily_budget 0; amount = pos 1200 })
unfolding reserve verdict_result quota_key_eq
granted_first =
    rw
      (
        reserve_script_verdict quota (source_minute "GA" 1) (ip_minute "ip" 1) (daily_budget 0) 1200
            [] refl refl refl,
        count_of-nil (source_minute "GA" 1),
        count_of-nil (ip_minute "ip" 1),
        count_of-nil (daily_budget 0),
      )
      refl

-- A reservation from empty counters.
one_reserved : Reach key_part quota (record {
  counters = (reserve key_part quota "GA" "ip" (pos 1200) 60000 []).1;
  outstanding = record { daily_key = daily_budget 0; amount = pos 1200 } ∷ [];
})
one_reserved = next start (reserves _ "GA" "ip" (pos 1200) 60000 _ granted_first)

history_example : IsBalanced key_part quota (record {
  counters = (reserve key_part quota "GA" "ip" (pos 1200) 60000 []).1;
  outstanding = record { daily_key = daily_budget 0; amount = pos 1200 } ∷ [];
})
history_example = Reach-IsBalanced key_part quota one_reserved

-- Four characters decode to three bytes here, as each group of four may.
abbrev decoded_length : String → ℕ
decoded_length t = length (codes t) / 4 * 3

groups :
    (t : String)
    → IsBase64 (codes t)
    → 1 ≤ length (codes t)
    → (1 ≤ decoded_length t) × (decoded_length t ≤ length (codes t) / 4 * 3)
groups t h k = omega (arith, length-IsBase64 (codes t) h, k)

is_letter : IsBase64Char b'A'
is_letter = inl (omega arith, omega arith)

is_text : IsBase64 (codes "AAAA")
is_text = group is_letter is_letter is_letter is_letter empty

abbrev xdr : String
xdr = "AAAA"

request_example :
    (parse_sponsorship_request decoded_length (some "AAAA") ≡ ok "AAAA")
    ↔ (IsXdrText xdr × (xdr ≡ xdr))
request_example = request_iff decoded_length "AAAA" "AAAA" groups

is_parsed : parse_sponsorship_request decoded_length (some "AAAA") ≡ ok "AAAA"
is_parsed =
    (request_iff decoded_length "AAAA" "AAAA" groups).1 ((omega arith, omega arith, is_text), refl)

abbrev rpc : SponsorshipRpc
rpc = record {
  send_transaction = λ b. some (record { pending = true; hash = some "outer" });
  get_transaction = λ h i. some (TransactionStatus.success (some "AA"));
  now = λ i. i;
}

abbrev bump : FeeBumpTransaction
bump = record { inner = bought; fee_source = "SPONSOR"; fee = pos 1200; hash = "outer" }

submit_total_example : (r : Result SubmittedSponsoredTransaction) × (submit rpc 0 1 bump ≡ some r)
submit_total_example = submit_total rpc 0 0 bump (λ i. omega arith) (omega arith)

abbrev sent : Result SubmittedSponsoredTransaction
sent = ok (record { outer_hash = "outer"; return_value_xdr = some "AA" })

submitted : submit rpc 0 1 bump ≡ some sent
unfolding submit poll
submitted = refl

submit_confirmed_example :
    (n : ℕ) × (rpc.send_transaction bump ≡ some (record { pending = true; hash = some "outer" }))
    × (rpc.get_transaction "outer" n ≡ some (TransactionStatus.success (some "AA")))
submit_confirmed_example =
    submit_confirmed rpc 0 1 bump (record { outer_hash = "outer"; return_value_xdr = some "AA" })
      submitted

abbrev options : Options
options = record {
  enabled = true;
  network_passphrase = "testnet";
  contracts = contracts;
  fee_policy = policy;
  signer = record { public_key = "SPONSOR"; sign = λ b. b };
  quota = quota;
  replay_ttl_seconds = 900;
  lock_ttl_seconds = 60;
  sdk = sdk;
  decoded_length = decoded_length;
  key_part = key_part;
  submit = λ b. sent;
}

abbrev first_call : Call
first_call = record {
  body = some "AAAA";
  ip = "ip";
  start_ms = 1000000;
  end_ms = 1010000;
  token = "first";
}

abbrev second_call : Call
second_call = record {
  body = some "AAAA";
  ip = "ip";
  start_ms = 1020000;
  end_ms = 1021000;
  token = "second";
}

abbrev empty_world : World
empty_world = record {
  counters = [];
  replay = record { results = []; locks = [] };
  metrics = new_metrics;
  submitted = [];
}

sends_example : Effect options first_call empty_world (sponsor options first_call empty_world)
sends_example = sponsor-Effect options first_call empty_world (omega arith)

is_bought :
    (x : String) (t : Transaction)
    → sdk.from_xdr x "testnet" ≡ some (Envelope.transaction t)
    → t ≡ bought
is_bought x t a = ground (arith, a)

reliable : IsReliable options
reliable = record {
  bumps = λ key fee t b e. sym (ap (λ x. x.inner) (some_inj e));
  signs = λ b. refl;
  hashes = λ x y t u a b e. ap (λ v. v.max_time) (is_bought x t a ∙ sym (is_bought y u b));
  keeps = omega arith;
}

-- The same transaction is sent by one call and asked for again.
never_twice_example :
    Distinct options
      (sponsor options second_call (sponsor options first_call empty_world).1).1.submitted
never_twice_example = never_twice options reliable (
    Run.call second_call
      (Run.call first_call (Run.start empty_world refl) (omega arith) (omega arith)) (omega arith)
      (omega arith))

abbrev prepared : Prepared
prepared = record {
  parsed = parsed;
  quote = record { inner_inclusion_fee = pos 100; outer_fee = pos 1200; resource_fee = pos 1000 };
}

is_prepared : prepare options first_call ≡ ok prepared
unfolding prepare includes sponsored_methods ◌-ℤ◌ ◌+ℤ◌
is_prepared =
    rw
      (
        is_parsed,
        (parse_iff sdk "AAAA" "testnet" 1000 900 parsed).1 sponsored,
        (verify_iff sdk parsed).1 signed,
        (allowed_iff "amm" "buy_yes" contracts contracts_differ).1 (ContractModule.amm, refl, refl),
        is_quoted,
      )
      refl
