-- ===== src/Straddle/Tests.antt =====
-- The selections on a chain of five options.
use option_chain_based_strat.Common.{◌<◌, ℕ, ◌≤◌, ◌≡◌, refl, ◌⊎◌, Bool, true, false, some, [], ◌∷◌}
use option_chain_based_strat.Common.Dict.{lookup}
use option_chain_based_strat.Common.Round.{round_div}
use option_chain_based_strat.Straddle.Theta.{leg_entry_value-time_value}
use option_chain_based_strat.Straddle.Chain.{
  by_theta, time_value, intrinsic_value, ce, pe, key_eq, Quote, Chain, by_ltp, nearest_strike,
  UnlessRaised, leg_entry_value, strip_intrinsic,
}
use option_chain_based_strat.Straddle.Best.{best_of}
use option_chain_based_strat.Straddle.Select.{
  Roll, Terms, rollable, partner_at, select_partner_for, under_anchor, strikes, strikes_from,
  balance, select_balanced_pair,
}
use option_chain_based_strat.Straddle.Partner.{Partner, select_partner_for-Partner}
use option_chain_based_strat.Straddle.Balance.{Selection, select_balanced_pair-Selection}

abbrev at_price : ℕ → Quote
at_price p = record { ltp = p; atp = p }

abbrev five : Chain
five =
    ((100, ce), at_price 30)
    ∷ ((100, pe), at_price 24)
    ∷ ((110, ce), at_price 22)
    ∷ ((120, ce), at_price 15)
    ∷ ((90, pe), at_price 19)
    ∷ []

abbrev any_rule : ℕ → ℕ → Bool
any_rule c p = true

abbrev roll : Roll
roll = record {
  roll_side = ce;
  kept_strike = 100;
  kept_ltp = 24;
  spot = 102;
  step = 10;
  offset = 2;
  ltp_target = 10;
  max_itm_steps = some 1;
}

abbrev terms : Terms
terms = record {
  spot = 102;
  step = 10;
  offset = 2;
  ltp_target = 10;
  entry_basis = by_ltp;
  theta_target = 0;
}

select_partner_for-five :
    select_partner_for any_rule roll five ≡ some (some (record { strike = 110; ltp = 22 }))
unfolding select_partner_for partner_at rollable best_of round_div
select_partner_for-five = refl

select_partner_for-Partner_example :
    UnlessRaised false (Partner any_rule roll five) (select_partner_for any_rule roll five)
select_partner_for-Partner_example = select_partner_for-Partner any_rule roll five

select_balanced_pair-five :
    select_balanced_pair five terms
    ≡ some (some (record { ce_strike = 110; pe_strike = 100; ce_ltp = 22; pe_ltp = 24 }))
unfolding select_balanced_pair balance under_anchor strikes strikes_from best_of leg_entry_value
    strip_intrinsic round_div
select_balanced_pair-five = refl

select_balanced_pair-Selection_example :
    UnlessRaised false
      (Selection five terms
        (nearest_strike 102 10)
        (lookup (nearest_strike 102 10, ce) five)
        (lookup (nearest_strike 102 10, pe) five))
      (select_balanced_pair five terms)
select_balanced_pair-Selection_example = select_balanced_pair-Selection five terms

leg_entry_value-time_value_example :
    (leg_entry_value ce 100 30 102 by_theta ≤ time_value ce 100 102 30)
    × ((30 < intrinsic_value ce 100 102)
        ⊎ (leg_entry_value ce 100 30 102 by_theta ≡ time_value ce 100 102 30))
leg_entry_value-time_value_example = leg_entry_value-time_value ce 100 30 102
