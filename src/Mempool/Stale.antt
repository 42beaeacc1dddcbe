-- ===== src/Mempool/Stale.antt =====
-- pkg/core/mempool/mem_pool.go: RemoveStale and the policy of fees (loadPolicy, checkPolicy).
use epicchain_go.Common.{
  ◌>>=◌, ℕ, zero, suc, ◌+◌, ◌-◌, ◌/◌, ◌%◌, ◌^◌, Bool, true, false, not, ◌&&◌, ◌||◌, Option, some,
  List, [], ◌∷◌, ◌++◌, nat_eq, delete, ltb, leb, ◌==◌, if◌then◌else◌,
}
use epicchain_go.Mempool.Types.{
  Transaction, Item, Pool, Feer, conflict_hashes, tx_fee_per_byte, removed, resent, notify,
}
use epicchain_go.Mempool.Fees.{try_add_senders_fee}
use epicchain_go.Mempool.Remove.{remove_oracle_of}
use epicchain_go.Mempool.Add.{add_conflicts}

unfoldable pub load_policy : Feer → Pool → Bool × Pool
load_policy feer p =
    if ltb p.fee_per_byte feer.policy_fee_per_byte
    then (true, record p { fee_per_byte = feer.policy_fee_per_byte })
    else (false, p)

unfoldable pub check_policy : Transaction → Bool → Pool → Bool
unfolding tx_fee_per_byte
check_policy t policy_changed p = not policy_changed || leb p.fee_per_byte (tx_fee_per_byte t)

-- bits.OnesCount32, on the bits from the lowest
unfoldable pub ones_count : ℕ → ℕ → ℕ
ones_count zero v = 0
ones_count (suc bits) v = v % 2 + ones_count bits (v / 2)

-- An item is resent after 1, 2, 4, … times the threshold. The difference of heights is a uint32.
unfoldable pub is_stale : ℕ → ℕ → Item → Bool
unfolding ones_count
is_stale threshold height itm =
    let diff = (height + 2 ^ 32 - itm.block_stamp) % 2 ^ 32 in
    not (threshold == 0) && ((diff % threshold == 0) && (ones_count 32 (diff / threshold) == 1))

-- What the loop carries: the items kept and those to be resent, both in order.
pub record Sweep : Type 0 where
  pub kept : List Item
  pub stale : List Item

abbrev pub drop_item : Item → Pool → Pool
drop_item itm p =
    let p1 = record p { verified_map = delete itm.txn.hash p.verified_map } in
    notify (removed itm.txn itm.extra) (remove_oracle_of itm.txn p1)

abbrev pub keep_item : ℕ → Item → Sweep → Pool → Sweep × Pool
keep_item height itm s p = (
  record {
    kept = s.kept ++ (itm ∷ []);
    stale = if is_stale p.resend_threshold height itm then s.stale ++ (itm ∷ []) else s.stale;
  },
  add_conflicts itm.txn.hash (conflict_hashes itm.txn) p,
)

abbrev pub keep_or_drop : ℕ → Item → Sweep → Bool × Pool → Sweep × Pool
keep_or_drop height itm s (true, p) = keep_item height itm s p
keep_or_drop height itm s (false, p) = (s, drop_item itm p)

module _ (is_ok : Transaction → Bool) (feer : Feer) (policy_changed : Bool) where
  -- The condition of the loop; the fee is taken only if the first two tests pass.
  abbrev pub still_valid : Item → Pool → Option (Bool × Pool)
  still_valid itm p =
      if is_ok itm.txn && check_policy itm.txn policy_changed p
      then try_add_senders_fee itm.txn feer true p
      else some (false, p)

  unfoldable pub sweep : List Item → Sweep → Pool → Option (Sweep × Pool)
  sweep [] s p = some (s, p)
  sweep (itm ∷ rest) s p = do
    valid ← still_valid itm p
    let (s', p') = keep_or_drop feer.block_height itm s valid
    sweep rest s' p'

abbrev pub resend_stale_items : List Item → Pool → Pool
resend_stale_items [] p = p
resend_stale_items (i ∷ is) p = record p { signals = p.signals ++ (resent (i ∷ is) ∷ []) }

abbrev pub finish_sweep : Sweep → Pool → Pool
finish_sweep s p = record (resend_stale_items s.stale p) { verified_txes = s.kept }

unfoldable pub remove_stale : (Transaction → Bool) → Feer → Pool → Option Pool
remove_stale is_ok feer p = do
  let (policy_changed, p1) = load_policy feer p
  let p2 = record p1 { fees = []; conflicts_map = [] }
  (s, p3) ← sweep is_ok feer policy_changed p.verified_txes (record { kept = []; stale = [] }) p2
  some (finish_sweep s p3)
