-- ===== src/Sponsorship/Fees.antt =====
-- dike-services/src/sponsorship/fees.ts. Fees are `bigint`, so integers without a bound; the
-- policy holds the integers that `BigInt` makes of the configured texts.
use dike_monolith.Prelude.{◌≡◌, ◌↔◌, ◌||◌, sym, ap, ◌∙◌}
use dike_monolith.Prelude.Int.{ℤ, pos, ◌+ℤ◌, ◌-ℤ◌, ◌≤ℤ◌, ltb_ℤ, ltb_ℤ-eq_false, int_laws}
use dike_monolith.Sponsorship.Types.{Result, ok, fee_limit_exceeded, ◌>>◌, throw_if}

pub record FeePolicy : Type 0 where
  pub base_fee_stroops : ℤ
  pub max_total_fee_stroops : ℤ
  pub max_resource_fee_stroops : ℤ

pub record FeeQuote : Type 0 where
  pub inner_inclusion_fee : ℤ
  pub outer_fee : ℤ
  pub resource_fee : ℤ

-- The first argument is the `BASE_FEE` of the SDK.
unfoldable pub quote_sponsored_fee : ℤ → ℤ → ℤ → FeePolicy → Result FeeQuote
quote_sponsored_fee sdk_base inner_fee resource_fee policy = do
  let base_fee = policy.base_fee_stroops
  let inclusion = inner_fee -ℤ resource_fee
  throw_if (ltb_ℤ base_fee sdk_base || (ltb_ℤ inclusion sdk_base || ltb_ℤ base_fee inclusion))
      fee_limit_exceeded "The inner inclusion fee is outside the sponsor policy."
  throw_if (ltb_ℤ resource_fee (pos 0) || ltb_ℤ policy.max_resource_fee_stroops resource_fee)
      fee_limit_exceeded "The Soroban resource fee exceeds the sponsor policy."
  let outer_fee = base_fee +ℤ base_fee +ℤ resource_fee
  throw_if (ltb_ℤ outer_fee inner_fee || ltb_ℤ policy.max_total_fee_stroops outer_fee)
      fee_limit_exceeded "The sponsored fee exceeds the sponsor policy."
  ok (record {
    inner_inclusion_fee = inclusion;
    outer_fee = outer_fee;
    resource_fee = resource_fee;
  })

-- What the policy promises of a fee, with no order of tests.
pub record IsWithinPolicy (sdk_base inner_fee resource_fee : ℤ) (p : FeePolicy) : Type 0 where
  pub base_high : sdk_base ≤ℤ p.base_fee_stroops
  pub inclusion_high : sdk_base +ℤ resource_fee ≤ℤ inner_fee
  pub inclusion_low : inner_fee ≤ℤ p.base_fee_stroops +ℤ resource_fee
  pub resource_high : pos 0 ≤ℤ resource_fee
  pub resource_low : resource_fee ≤ℤ p.max_resource_fee_stroops
  pub total_low :
      p.base_fee_stroops +ℤ p.base_fee_stroops +ℤ resource_fee ≤ℤ p.max_total_fee_stroops

accepted :
    (sdk_base inner_fee resource_fee : ℤ) (p : FeePolicy)
    → pos 0 ≤ℤ sdk_base
    → IsWithinPolicy sdk_base inner_fee resource_fee p
    → quote_sponsored_fee sdk_base inner_fee resource_fee p
      ≡ ok (record {
        inner_inclusion_fee = inner_fee -ℤ resource_fee;
        outer_fee = p.base_fee_stroops +ℤ p.base_fee_stroops +ℤ resource_fee;
        resource_fee = resource_fee;
      })
unfolding quote_sponsored_fee
accepted sdk_base inner_fee resource_fee p h w = rw (
  ltb_ℤ-eq_false p.base_fee_stroops sdk_base w.base_high,
  ltb_ℤ-eq_false (inner_fee -ℤ resource_fee) sdk_base (omega int_laws),
  ltb_ℤ-eq_false p.base_fee_stroops (inner_fee -ℤ resource_fee) (omega int_laws),
  ltb_ℤ-eq_false resource_fee (pos 0) w.resource_high,
  ltb_ℤ-eq_false p.max_resource_fee_stroops resource_fee w.resource_low,
  ltb_ℤ-eq_false (p.base_fee_stroops +ℤ p.base_fee_stroops +ℤ resource_fee) inner_fee
      (omega int_laws),
  ltb_ℤ-eq_false p.max_total_fee_stroops _ w.total_low,
)

-- What is not within the policy is refused.
quoted :
    (sdk_base inner_fee resource_fee : ℤ) (p : FeePolicy) (q : FeeQuote)
    → pos 0 ≤ℤ sdk_base
    → quote_sponsored_fee sdk_base inner_fee resource_fee p ≡ ok q
    → IsWithinPolicy sdk_base inner_fee resource_fee p
unfolding quote_sponsored_fee
quoted sdk_base inner_fee resource_fee p q h e = grind int_laws

-- With a base fee of the SDK that is not negative, a quote is given exactly for the fees within
-- the policy, and an error for all others; the quote is the inclusion fee of the inner transaction,
-- twice the base fee with the resource fee, and the resource fee. So the test of the outer fee against
-- the inner one never rejects a fee that the others let pass.
pub quote_iff :
    (sdk_base inner_fee resource_fee : ℤ) (p : FeePolicy) (q : FeeQuote)
    → pos 0 ≤ℤ sdk_base
    → (quote_sponsored_fee sdk_base inner_fee resource_fee p ≡ ok q) ↔ (
        IsWithinPolicy sdk_base inner_fee resource_fee p
        × (q ≡ record {
          inner_inclusion_fee = inner_fee -ℤ resource_fee;
          outer_fee = p.base_fee_stroops +ℤ p.base_fee_stroops +ℤ resource_fee;
          resource_fee = resource_fee;
        }))
quote_iff sdk_base inner_fee resource_fee p q h = (
  λ e.
      let within = quoted sdk_base inner_fee resource_fee p q h e in
      let same = sym e ∙ accepted sdk_base inner_fee resource_fee p h within in (within, cc),
  λ (w, same). accepted sdk_base inner_fee resource_fee p h w ∙ ap ok (sym same),
)
