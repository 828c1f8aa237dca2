-- ===== src/Xcm/Tests.antt =====
-- Messages at the barrier, and the theorems at concrete messages. The opaque parts are numbers; the
-- allow filters here let in what has credit left, and spend it.
use mathlib.Core.Bool.{false≢true}
use evm_parachain.Base.{ℕ, ◌-◌, ◌≡◌, refl, ok, err, [], ◌∷◌, ltb, if◌then◌else◌}
use evm_parachain.Xcm.{
  Opaque, deposit_reserve_asset, reserve_asset_deposited, other_instruction, Pending, ShouldExecute,
  Allows, relay_location, self_location, barrier, allows, deny_then_try, unexpected_deposit,
  is_reserve_transfer_to_relay, deny_reserve_transfer_to_relay_chain,
}
use evm_parachain.Xcm.Reserve.{Reaches, Reaches-any, first, later, deposits}
use evm_parachain.Xcm.Barrier.{barrier-Reaches}

abbrev pub numbers : Opaque
numbers = record {
  AccountId = ℕ;
  OtherNetwork = ℕ;
  OtherBody = ℕ;
  BodyPart = ℕ;
  OtherJunction = ℕ;
  OtherInterior = ℕ;
  Fields = ℕ;
  OtherInstruction = ℕ;
}

abbrev pub spend : ShouldExecute numbers
spend origin max_weight p =
    if ltb p.weight_credit max_weight
    then record { verdict = err tt; pending = p; warnings = [] }
    else record {
      verdict = ok tt;
      pending = record p { weight_credit = p.weight_credit - max_weight };
      warnings = [];
    }

abbrev filters : Allows numbers
filters = record {
  take_weight_credit = spend;
  allow_top_level_paid_execution_from = λ from. spend;
  allow_unpaid_execution_from = λ from. spend;
  tuple = λ a b c. a;
}

-- A deposit from the relay chain, with or without a way back to it.
abbrev pub deposit : Pending numbers
deposit = record {
  message = reserve_asset_deposited 1 ∷ other_instruction 2 ∷ [];
  weight_credit = 10;
}

abbrev and_back : Pending numbers
and_back = record {
  message = reserve_asset_deposited 1 ∷ deposit_reserve_asset relay_location 5 ∷ [];
  weight_credit = 10;
}

barrier_test : barrier filters relay_location 3 deposit ≡ record {
  verdict = ok tt;
  pending = record deposit { weight_credit = 7 };
  warnings = unexpected_deposit ∷ [];
}
unfolding barrier deny_then_try deny_reserve_transfer_to_relay_chain allows
barrier_test = refl

pub not_back : ¬ Reaches deposit.message
unfolding is_reserve_transfer_to_relay
not_back r = false≢true (Reaches-any r)

and_back-Reaches : Reaches and_back.message
and_back-Reaches = later (first (deposits 5))

barrier-Reaches_example :
    barrier filters self_location 3 and_back
    ≡ record { verdict = err tt; pending = and_back; warnings = [] }
barrier-Reaches_example = barrier-Reaches filters self_location 3 and_back and_back-Reaches
