-- ===== src/Tokens/Examples.antt =====
-- The token theorems at a token of which "alice" holds all.
use qbit_network.Common.{true, [], ◌∷◌, refl}
use qbit_network.Common.Int.{pos, ◌+ℤ◌}
use qbit_network.Common.Dict.{lookup, string_eq}
use qbit_network.Config.{TxType}
use qbit_network.Transaction.{Transaction, Value}
use qbit_network.Tokens.{Tokens, mint_token, transfer_token}
use qbit_network.Tokens.Backing.{IsBacked, mint_token-IsBacked, transfer_token-IsBacked}

abbrev tokens : Tokens
tokens = record {
  registry =
      (
        "t0",
        record {
          issuer = "alice";
          name = "Gold";
          symbol = "GLD";
          decimals = pos 2;
          max_supply = pos 100;
          total_minted = pos 40;
          transferable = true;
          created_block = 1;
          created_tx = "tx0";
        },
      )
      ∷ [];
  balances = (("t0", "alice"), pos 40) ∷ [];
  by_symbol = ("GLD", "t0") ∷ [];
  holders_by_token = ("t0", "alice" ∷ []) ∷ [];
  tokens_by_address = ("alice", "t0" ∷ []) ∷ [];
}

abbrev mint : Transaction
mint = record {
  tx_type = TxType.mint_token;
  sender = "alice";
  recipient = "bob";
  timestamp = pos 1;
  payload =
      ("token_id", Value.text "t0")
      ∷ ("amount", Value.int (pos 60))
      ∷ ("symbol", Value.text "SLV")
      ∷ [];
  signature = [];
  sender_pubkey = [];
  nonce = pos 0;
  chain_id = "qbit";
  max_fee_per_weight = 0;
  max_priority_fee = 0;
  tx_id = "mint";
}

abbrev over_balance : Transaction
over_balance = record mint { tx_type = TxType.transfer_token }

abbrev under_balance : Transaction
under_balance = record over_balance {
  payload = ("token_id", Value.text "t0") ∷ ("amount", Value.int (pos 40)) ∷ [];
}

backed : IsBacked "t0" tokens
unfolding lookup ◌+ℤ◌
backed = refl

mint_token-IsBacked_example : IsBacked "t0" (mint_token 2 mint tokens).1
mint_token-IsBacked_example = mint_token-IsBacked "t0" 2 mint tokens backed

transfer_token-IsBacked_example : IsBacked "t0" (transfer_token 2 under_balance tokens).1
transfer_token-IsBacked_example = transfer_token-IsBacked "t0" 2 under_balance tokens backed
