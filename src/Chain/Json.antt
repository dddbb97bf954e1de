-- ===== src/Chain/Json.antt =====
-- MarshalJSON and UnmarshalJSON of blockchain/block.go and Serialize of blockchain/blockchain.go.
-- encoding/json itself is a record that the definitions take. json.Marshal uses MarshalJSON, which
-- has a pointer receiver, on a *Block; Serialize gives it a Block, which it writes field by field.
use hybridblockchain.Common.{
  ℕ, not, ◌&&◌, Option, none, some, List, [], Text, text_eq, ltb, length, if◌then◌else◌, Crypto,
}
use hybridblockchain.Tx.{Transaction}
use hybridblockchain.Trie.{root, insert_batch, get_all, generate_root_hash}
use hybridblockchain.Chain.{Block, BlockHeader, TxReceipt}

-- The local type SimplifiedBlock of both functions.
pub record SimplifiedBlock (F : Type 0) : Type 0 where
  pub hash : Text
  pub original_hash : Text
  pub header : BlockHeader
  pub root_hash : Text
  pub tx_list : List (Transaction F)
  pub receipts : List TxReceipt
  pub cumulative_difficulty : ℕ

-- json.Marshal of a SimplifiedBlock and of a Block value, and json.Unmarshal into a SimplifiedBlock.
-- Marshalling fails where a float is NaN or infinite.
pub record BlockJson (F : Type 0) : Type 0 where
  pub marshal_simplified : SimplifiedBlock F → Option Text
  pub marshal_struct : Block F → Option Text
  pub unmarshal_simplified : Text → Option (SimplifiedBlock F)

module _ {F : Type 0} where
  -- MarshalJSON, up to the text
  unfoldable pub simplified : Block F → SimplifiedBlock F
  simplified b = record {
    hash = b.hash;
    original_hash = b.original_hash;
    header = b.header;
    root_hash = b.header.merkle_root;
    tx_list = get_all b.transactions;
    receipts = b.receipts;
    cumulative_difficulty = b.cumulative_difficulty;
  }

module _ {F : Type 0} (crypto : Crypto F) where
  -- UnmarshalJSON after json.Unmarshal: the trie is built anew, and its root replaces the header's
  -- where the two differ and there are transactions.
  unfoldable pub rebuild : SimplifiedBlock F → Block F
  rebuild s =
      let called = generate_root_hash crypto (insert_batch crypto s.tx_list root) in
      let differs =
        not (text_eq s.header.merkle_root [])
        && (not (text_eq called.0 s.header.merkle_root) && ltb 0 (length s.tx_list)) in
      record {
        header = if differs then record s.header { merkle_root = called.0 } else s.header;
        transactions = called.1;
        receipts = s.receipts;
        hash = if text_eq s.hash [] then s.original_hash else s.hash;
        original_hash = s.original_hash;
        cumulative_difficulty = s.cumulative_difficulty;
      }

  module _ (js : BlockJson F) where
    -- UnmarshalJSON
    unfoldable pub unmarshal_block : Text → Option (Block F)
    unfolding rebuild
    unmarshal_block t = elim (js.unmarshal_simplified t) [ none ↦ none | some s ↦ some (rebuild s) ]

module _ {F : Type 0} (js : BlockJson F) where
  -- json.Marshal of a *Block
  unfoldable pub marshal_block : Block F → Option Text
  unfolding simplified
  marshal_block b = js.marshal_simplified (simplified b)

  -- Serialize
  unfoldable pub serialize : Block F → Option Text
  serialize b = js.marshal_struct b
