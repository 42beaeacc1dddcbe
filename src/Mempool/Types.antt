-- ===== src/Mempool/Types.antt =====
-- pkg/core/mempool/mem_pool.go: the data of the pool, the order of its items, and what it reads of a
-- transaction (pkg/core/transaction/transaction.go).
use Prim.Native.Nat.{Ordering, compare}
use epicchain_go.Common.{
  ℕ, ◌/◌, Bool, true, false, not, ◌&&◌, ◌||◌, Option, none, some, List, [], ◌∷◌, ◌++◌, Map, ◌==◌,
  if◌then◌else◌,
}

pub data Attribute : Type 0 where
  high_priority reserved : Attribute
  oracle_response not_valid_before notary_assisted conflicts : ℕ → Attribute

-- A transaction as the pool sees it. Hashes and accounts are numbers; fees are non-negative int64, as
-- transaction.isValid demands, and the size of a serialised transaction is positive.
pub record Transaction : Type 0 where
  pub hash : ℕ
  pub system_fee : ℕ
  pub network_fee : ℕ
  pub size : ℕ
  pub signers : List ℕ
  pub attributes : List Attribute

unfoldable pub tx_fee_per_byte : Transaction → ℕ
tx_fee_per_byte t = t.network_fee / t.size

abbrev pub is_high : Attribute → Bool
is_high high_priority = true
is_high _ = false

abbrev pub any_high : List Attribute → Bool
any_high [] = false
any_high (a ∷ as') = is_high a || any_high as'

-- HasAttribute(HighPriority)
unfoldable pub has_high_priority : Transaction → Bool
has_high_priority t = any_high t.attributes

abbrev pub conflicts_in : List Attribute → List ℕ
conflicts_in [] = []
conflicts_in (conflicts h ∷ as') = h ∷ conflicts_in as'
conflicts_in (_ ∷ as') = conflicts_in as'

-- GetAttributes(ConflictsT), by the hashes that the attributes hold
unfoldable pub conflict_hashes : Transaction → List ℕ
conflict_hashes t = conflicts_in t.attributes

abbrev pub oracle_in : List Attribute → Option ℕ
oracle_in [] = none
oracle_in (oracle_response id ∷ as') = some id
oracle_in (_ ∷ as') = oracle_in as'

-- The ID of the first of GetAttributes(OracleResponseT)
unfoldable pub oracle_id : Transaction → Option ℕ
oracle_id t = oracle_in t.attributes

abbrev pub contains_account : ℕ → List ℕ → Bool
contains_account a [] = false
contains_account a (s ∷ rest) = (s == a) || contains_account a rest

unfoldable pub has_signer : Transaction → ℕ → Bool
has_signer t a = contains_account a t.signers

-- The `data` of an item is opaque: `none` is nil.
pub record Item : Type 0 where
  pub txn : Transaction
  pub block_stamp : ℕ
  pub extra : Option ℕ

-- The comparison on priority flag, fee per byte and network fee; the sign of the difference.
unfoldable pub compare_priority : Bool → ℕ → ℕ → Bool → ℕ → ℕ → Ordering
compare_priority p_high per_byte fee other_high other_per_byte other_fee =
    if p_high && not other_high
    then Ordering.gt
    else if not p_high && other_high
    then Ordering.lt
    else elim (compare per_byte other_per_byte) [ Ordering.eq ↦ compare fee other_fee | ret ↦ ret ]

-- CompareTo
unfoldable pub compare_to : Item → Item → Ordering
unfolding compare_priority tx_fee_per_byte has_high_priority
compare_to p other =
    compare_priority (has_high_priority p.txn) (tx_fee_per_byte p.txn) p.txn.network_fee
      (has_high_priority other.txn) (tx_fee_per_byte other.txn) other.txn.network_fee

pub record UtilityBalanceAndFees : Type 0 where
  pub balance : ℕ
  pub fee_sum : ℕ

-- What the pool sends to its subscribers, its metrics callback and its resend function, in order.
pub data Signal : Type 0 where
  removed added : Transaction → Option ℕ → Signal
  metrics : ℕ → Signal
  resent : List Item → Signal

pub record Pool : Type 0 where
  pub verified_map : Map ℕ Transaction
  pub verified_txes : List Item
  pub fees : Map ℕ UtilityBalanceAndFees
  pub conflicts_map : Map ℕ (List ℕ)
  pub oracle_resp : Map ℕ ℕ
  pub capacity : ℕ
  pub fee_per_byte : ℕ
  pub payer_index : ℕ
  pub resend_threshold : ℕ
  pub has_metrics : Bool
  pub subscriptions_on : Bool
  pub signals : List Signal

-- New, with the flag `has_metrics` for a callback that is not nil
unfoldable pub new : ℕ → ℕ → Bool → Pool
new capacity payer_index has_metrics = record {
  verified_map = [];
  verified_txes = [];
  fees = [];
  conflicts_map = [];
  oracle_resp = [];
  capacity = capacity;
  fee_per_byte = 0;
  payer_index = payer_index;
  resend_threshold = 0;
  has_metrics = has_metrics;
  subscriptions_on = false;
  signals = [];
}

-- feer.go: what the pool asks of the ledger
pub record Feer : Type 0 where
  pub policy_fee_per_byte : ℕ
  pub utility_token_balance : ℕ → ℕ
  pub block_height : ℕ

pub data PoolError : Type 0 where
  insufficient_funds conflict dup oom conflicts_attribute oracle_conflict : PoolError

pub data Outcome (A : Type 0) : Type 0 where
  ok : A → Outcome A
  err : PoolError → Outcome A

-- mp.events <- …, if there are subscriptions
unfoldable pub notify : Signal → Pool → Pool
notify e p = if p.subscriptions_on then record p { signals = p.signals ++ (e ∷ []) } else p

unfoldable pub update_metrics : ℕ → Pool → Pool
update_metrics n p =
    if p.has_metrics then record p { signals = p.signals ++ (metrics n ∷ []) } else p
