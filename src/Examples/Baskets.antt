-- ===== src/Examples/Baskets.antt =====
-- A basket of two tokens that is rebalanced under a cap.
use cyppie_backend.Common.{◌≡◌, refl, ◌≤◌, ℕ, [], ◌∷◌, List, All, Option, some}
use cyppie_backend.Common.Text.{Text, text, to_lower, text_eq}
use cyppie_backend.Common.Dict.{get, set}
use cyppie_backend.Common.Result.{ok}
use cyppie_backend.StrategyRebalance.{
  Position, Target, total_value, weights_onto, drifts, max_drift, overs_of, unders_of, sort_desc,
  insert_desc, legs_of_drift, compute_rebalance_legs, compute_rebalance_legs-IsCapped,
}
use cyppie_backend.StrategyRebalance.Legs.{RebalanceLeg, Under, sell_over, sell_overs}
use cyppie_backend.StrategyRebalance.Clamp.{IsCapped, sum_in, sum_need, sell_overs_sums}

abbrev get_address : Text → Option Text
get_address a = some a

abbrev positions : List Position
positions =
    record { token = text "0xaa"; value = 100 } ∷ record { token = text "0xbb"; value = 0 } ∷ []

abbrev targets : List Target
targets =
    record { token = text "0xAA"; weight_bps = 5000 }
    ∷ record { token = text "0xBB"; weight_bps = 5000 }
    ∷ []

abbrev cap_of : Text → Option ℕ
cap_of t = some 30

abbrev legs : List RebalanceLeg
legs = record { token_in = text "0xaa"; token_out = text "0xbb"; amount_in = 30 } ∷ []

computed : compute_rebalance_legs get_address positions targets 100 cap_of ≡ ok legs
unfolding compute_rebalance_legs total_value weights_onto drifts legs_of_drift max_drift overs_of
    unders_of sort_desc insert_desc sell_overs sell_over get set text_eq to_lower
computed = refl

compute_rebalance_legs-IsCapped_example : All (IsCapped cap_of) legs
compute_rebalance_legs-IsCapped_example =
    compute_rebalance_legs-IsCapped get_address positions targets 100 cap_of legs computed

abbrev over_tokens : List Under
over_tokens = record { token = text "0xaa"; need = 50 } ∷ []

abbrev under_tokens : List Under
under_tokens =
    record { token = text "0xbb"; need = 20 } ∷ record { token = text "0xcc"; need = 25 } ∷ []

sell_overs_sums_example :
    (sum_in (sell_overs cap_of over_tokens under_tokens) ≤ sum_need over_tokens)
    × (sum_in (sell_overs cap_of over_tokens under_tokens) ≤ sum_need under_tokens)
sell_overs_sums_example = sell_overs_sums cap_of over_tokens under_tokens
