-- ===== src/CopyWebhook/Allowlist.antt =====
-- aa-trigger/src/copyWebhook.ts: the allowlists of routers and of tokens to buy, per chain. The
-- tables are values here; the hooks of the end-to-end tests return the extended table.
use cyppie_backend.Common.{ℕ, ◌≡◌, Bool, true, false, List, [], ◌∷◌, ◌==◌, if◌then◌else◌}
use cyppie_backend.Common.Text.{Text, text, to_lower}
use cyppie_backend.Common.Dict.{has, add}
use cyppie_backend.Common.Result.{Result, ok, err, fault, test_only}

abbrev pub Allowlist : Type 0
Allowlist = List (ℕ × List Text)

-- `ROUTER_ALLOWLIST`
abbrev pub router_allowlist : Allowlist
router_allowlist =
    (1, text "0x66a9893cc07d91d95644aedd05d03f95e1dba8af" ∷ [])
    ∷ (8453, text "0x6ff5693b99212da76ad316178a184ab56d299b43" ∷ [])
    ∷ []

-- `TOKENOUT_ALLOWLIST`
abbrev pub token_out_allowlist : Allowlist
token_out_allowlist =
    (
      1,
      text "0xc02aaa39b223fe8d0a0e5c4f27ead9083c756cc2"
          ∷ text "0xa0b86991c6218b36c1d19d4a2e9eb0ce3606eb48"
          ∷ text "0xdac17f958d2ee523a2206206994597c13d831ec7"
          ∷ text "0x6b175474e89094c44da98b954eedeac495271d0f"
          ∷ text "0x2260fac5e5542a773aa44fbcfedf7c193bc2c599"
          ∷ [],
    )
    ∷ (
      8453,
      text "0x4200000000000000000000000000000000000006"
          ∷ text "0x833589fcd6edb6e08f4c7c32d4f71b54bda02913"
          ∷ text "0x50c5725949a6f0c72e6c4a641f24049a917db0cb"
          ∷ text "0xcbb7c0000ab88b473b1f5afd9ef808440eed33bf"
          ∷ text "0x2ae3f1ec7f1f5012cfeab0185bfc7aa3cf0dec22"
          ∷ [],
    )
    ∷ []

unfoldable pub listed : ℕ → Allowlist → List Text
listed chain_id [] = []
listed chain_id ((c, xs) ∷ l) = let rest = listed chain_id l in if c == chain_id then xs else rest

-- `isAllowlistedRouter` and `isAllowlistedTokenOut`, over their tables.
unfoldable pub is_allowlisted : Allowlist → ℕ → Text → Bool
unfolding listed
is_allowlisted l chain_id address = has (to_lower address) (listed chain_id l)

extend : ℕ → Text → Allowlist → Allowlist
extend chain_id t [] = (chain_id, t ∷ []) ∷ []
extend chain_id t ((c, xs) ∷ l) =
    let rest = extend chain_id t l in if c == chain_id then (c, add t xs) ∷ l else (c, xs) ∷ rest

-- `__allowTestRouter` and `__allowTestTokenOut`; the flag is `COPY_TEST_HOOKS === "1"`.
unfoldable pub allow_test : Bool → ℕ → Text → Allowlist → Result Allowlist
unfolding extend
allow_test false chain_id address l = err (fault test_only)
allow_test true chain_id address l = ok (extend chain_id (to_lower address) l)

-- The spelling of an address does not matter.
pub is_allowlisted-same :
    (l : Allowlist) (chain_id : ℕ) (a b : Text)
    → to_lower a ≡ to_lower b
    → is_allowlisted l chain_id a ≡ is_allowlisted l chain_id b
unfolding is_allowlisted
is_allowlisted-same l chain_id a b h = rw h
