-- ===== src/Tests/Balancers.antt =====
-- Runs about the balancer: Common/RegisterCenter/ServiceBalancer.go.
use mathlib.Core.List.{Memᴰ}
use algogateway.Common.{
  same, insert, Bytes, ℕ, text, none, some, List, [], ◌∷◌, lookup, ◌≡◌, ◌≢◌, ◌<◌, ◌⊎◌, inr, refl,
}
use algogateway.RegisterCenter.Options.{
  Context, Address, VirtualNode, param_pick_type, param_pick_param, pick_type_rand_weight,
  pick_type_specify_addr, get_ctx_filter,
}
use algogateway.RegisterCenter.Balancer.{
  build_from, TdPicker, build, picker, picked, pick, no_sub_conn, new_picker, add_ready,
}
use algogateway.RegisterCenter.Balancer.Building.{IsBuilt, ReadyAt, ServesAddr}
use algogateway.RegisterCenter.Balancer.Serving.{build_total, build-IsBuilt}
use algogateway.RegisterCenter.Balancer.Choice.{pick_finds, pick_addr}
use algogateway.Tests.Fixtures.{ring, node}

abbrev address : Address
address = record { addr = text "a:0"; info = some (record { key = text "a:0"; rn = node }) }

abbrev pub ready : List (ℕ × Address)
ready = (5, address) ∷ []

abbrev pub made : TdPicker ring ℕ
made = add_ready ring ℕ 5 (record { key = text "a:0"; rn = node }) (new_picker ring ℕ)

pub made_built : build ring ℕ ready ≡ picker made
unfolding build add_ready build_from insert
made_built = refl

abbrev random : Context
random = record { filter = some ((param_pick_type, pick_type_rand_weight) ∷ []); timeout = none }

abbrev elsewhere : Context
elsewhere = record {
  filter = some ((param_pick_type, pick_type_specify_addr) ∷ (param_pick_param, text "c") ∷ []);
  timeout = none;
}

build_total_example :
    ((ready ≡ []) × (build ring ℕ ready ≡ no_sub_conn))
    ⊎ ((ready ≢ []) × ((p : TdPicker ring ℕ) × (build ring ℕ ready ≡ picker p)))
build_total_example = build_total ring ℕ ready ((_, refl), tt)

build-IsBuilt_example :
    ((keys : List Bytes) × IsBuilt ring ℕ ready keys made)
    × (made.k2conn ≢ [])
    × ((c : ℕ) (a : Address) (vn : VirtualNode)
        → Memᴰ (c, a) ready
        → a.info ≡ some vn
        → lookup vn.rn.addr made.addr2conn ≢ none)
build-IsBuilt_example = build-IsBuilt ring ℕ ready made made_built

asks_random : lookup param_pick_type (get_ctx_filter random) ≡ some pick_type_rand_weight
unfolding lookup get_ctx_filter text same
asks_random = refl

asks_elsewhere : lookup param_pick_type (get_ctx_filter elsewhere) ≡ some pick_type_specify_addr
unfolding lookup get_ctx_filter text same
asks_elsewhere = refl

addr_elsewhere : lookup param_pick_param (get_ctx_filter elsewhere) ≡ some (text "c")
unfolding lookup get_ctx_filter text same
addr_elsewhere = refl

pub first_stays_below : (n : ℕ) → 0 < n → 0 < n
first_stays_below n h = h

pick_finds_example :
    (k : Bytes) × (c : ℕ) × (pick ring ℕ (λ n. 0) random made ≡ picked (some c))
    × ReadyAt ring ℕ ready k c
pick_finds_example =
    pick_finds ring ℕ ready (λ n. 0) random made made_built first_stays_below (inr asks_random)

pick_addr_example :
    ((c : ℕ) × (pick ring ℕ (λ n. 0) elsewhere made ≡ picked (some c))
      × ServesAddr ring ℕ ready (text "c") c)
    ⊎ ((pick ring ℕ (λ n. 0) elsewhere made ≡ picked none)
        × ((c : ℕ) → ¬ (ServesAddr ring ℕ ready (text "c") c)))
pick_addr_example =
    pick_addr ring ℕ ready (λ n. 0) elsewhere made made_built (text "c") asks_elsewhere
      addr_elsewhere
