-- ===== src/Mempool/Fees.antt =====
-- pkg/core/mempool/mem_pool.go: what senders owe, and the check of a transaction against the pool
-- (checkBalance, tryAddSendersFee, checkTxConflicts, Verify, HasConflicts).
use epicchain_go.Common.{
  ◌>>=◌, ℕ, ◌+◌, ◌-◌, ◌%◌, ◌^◌, Bool, true, false, not, ◌&&◌, ◌||◌, Option, none, some, List, [],
  ◌∷◌, ◌++◌, nat_eq, lookup, insert, ltb, leb, ◌==◌, if◌then◌else◌, get_elem?,
}
use epicchain_go.Mempool.Types.{
  Transaction, conflict_hashes, contains_account, has_signer, UtilityBalanceAndFees, Pool, Feer,
  insufficient_funds, conflict, conflicts_attribute, Outcome, ok, err,
}

-- tx.Signers[i].Account
unfoldable pub account_at : Transaction → ℕ → Option ℕ
account_at t i = get_elem? t.signers i

-- uint64(tx.SystemFee + tx.NetworkFee)
unfoldable pub total_fee : Transaction → ℕ
total_fee t = (t.system_fee + t.network_fee) % 2 ^ 64

-- Add and AddUint64, SubUint64 of uint256.Int
abbrev pub add256 : ℕ → ℕ → ℕ
add256 a b = (a + b) % 2 ^ 256

abbrev pub sub256 : ℕ → ℕ → ℕ
sub256 a b = (a + 2 ^ 256 - b) % 2 ^ 256

unfoldable pub check_balance : Transaction → UtilityBalanceAndFees → Outcome ℕ
unfolding total_fee
check_balance t b =
    if ltb b.balance (total_fee t)
    then err insufficient_funds
    else (let tx_fee = add256 (total_fee t) b.fee_sum in
        if ltb b.balance tx_fee then err conflict else ok tx_fee)

-- The entry of `payer`, or a new one with the balance that the ledger gives (SetFromBig).
abbrev pub sender_entry : Feer → ℕ → Option UtilityBalanceAndFees → UtilityBalanceAndFees
sender_entry feer payer (some f) = f
sender_entry feer payer none = record {
  balance = feer.utility_token_balance payer % 2 ^ 256;
  fee_sum = 0;
}

abbrev pub with_entry : ℕ → UtilityBalanceAndFees → Option UtilityBalanceAndFees → Pool → Pool
with_entry payer f (some _) p = p
with_entry payer f none p = record p { fees = insert payer f p.fees }

abbrev pub add_checked : ℕ → UtilityBalanceAndFees → Pool → Outcome ℕ → Bool × Pool
add_checked payer f p (err e) = (false, p)
add_checked payer f p (ok sum) =
    (true, record p { fees = insert payer (record f { fee_sum = sum }) p.fees })

unfoldable pub try_add_senders_fee : Transaction → Feer → Bool → Pool → Option (Bool × Pool)
try_add_senders_fee t feer need_check p = do
  payer ← account_at t p.payer_index
  let known = lookup payer p.fees
  let f = sender_entry feer payer known
  let p' = with_entry payer f known p
  let unchecked = ok (add256 f.fee_sum (total_fee t))
  some (add_checked payer f p' (if need_check then check_balance t f else unchecked))

-- The conflicting fee is an int64, kept as its bit pattern, and the transactions to be removed.
abbrev pub Conflicting : Type 0
Conflicting = ℕ × List Transaction

abbrev pub add_int64 : ℕ → ℕ → ℕ
add_int64 a b = (a + b) % 2 ^ 64

-- a <= b on the bit patterns of int64
abbrev pub leb_int64 : ℕ → ℕ → Bool
leb_int64 a b = leb ((a + 2 ^ 63) % 2 ^ 64) ((b + 2 ^ 63) % 2 ^ 64)

-- Step 1: the pooled transactions that name `tx`.
unfoldable pub pooled_against : Pool → ℕ → List ℕ → Conflicting → Option Conflicting
unfolding has_signer
pooled_against p payer [] acc = some acc
pooled_against p payer (h ∷ hashes) (fee, txs) = do
  existing ← lookup h p.verified_map
  let fee' = if has_signer existing payer then add_int64 fee existing.network_fee else fee
  pooled_against p payer hashes (fee', txs ++ (existing ∷ []))

-- `signerOK`: a signer of the pooled transaction signs `tx` too.
abbrev pub shares_signer : List ℕ → List ℕ → Bool
shares_signer [] tx_signers = false
shares_signer (s ∷ rest) tx_signers = contains_account s tx_signers || shares_signer rest tx_signers

-- Step 2: the pooled transactions that `tx` names; all must share a signer with it.
unfoldable pub named_by : Pool → Transaction → List ℕ → Conflicting → Outcome Conflicting
named_by p t [] acc = ok acc
named_by p t (h ∷ hashes) (fee, txs) = elim (lookup h p.verified_map) [
  | none ↦ named_by p t hashes (fee, txs)
  | some existing ↦
      let rest = named_by p t hashes (add_int64 fee existing.network_fee, txs ++ (existing ∷ [])) in
      if shares_signer existing.signers t.signers then rest else err conflicts_attribute
]

-- Step 3: the sender's fees without those of its transactions that go.
unfoldable pub without_removed : Pool → ℕ → List Transaction → ℕ → Option ℕ
unfolding account_at total_fee
without_removed p payer [] sum = some sum
without_removed p payer (c ∷ cs) sum = do
  account ← account_at c p.payer_index
  without_removed p payer cs (if account == payer then sub256 sum (total_fee c) else sum)

abbrev pub or_nil : Option (List ℕ) → List ℕ
or_nil none = []
or_nil (some l) = l

abbrev pub affordable : List Transaction → Outcome ℕ → Outcome (List Transaction)
affordable txs (ok _) = ok txs
affordable txs (err e) = err e

abbrev pub with_conflicting :
    Pool → Transaction → Feer → ℕ → Outcome Conflicting → Option (Outcome (List Transaction))
with_conflicting p t feer payer (err e) = some (err e)
with_conflicting p t feer payer (ok (fee, txs)) =
    if not (fee == 0) && leb_int64 t.network_fee fee then some (err conflicts_attribute) else do
      let actual = sender_entry feer payer (lookup payer p.fees)
      sum ← without_removed p payer txs actual.fee_sum
      some (affordable txs (check_balance t (record actual { fee_sum = sum })))

unfoldable pub check_tx_conflicts : Transaction → Feer → Pool → Option (Outcome (List Transaction))
check_tx_conflicts t feer p = do
  payer ← account_at t p.payer_index
  against ← pooled_against p payer (or_nil (lookup t.hash p.conflicts_map)) (0, [])
  with_conflicting p t feer payer (named_by p t (conflict_hashes t) against)

abbrev pub is_ok : {A : Type 0} → Outcome A → Bool
is_ok (ok a) = true
is_ok (err e) = false

unfoldable pub verify : Transaction → Feer → Pool → Option Bool
verify t feer p = do r ← check_tx_conflicts t feer p; some (is_ok r)

abbrev pub is_some : {A : Type 0} → Option A → Bool
is_some none = false
is_some (some a) = true

unfoldable pub contains_key : ℕ → Pool → Bool
contains_key hash p = is_some (lookup hash p.verified_map)

abbrev pub contains_any : List ℕ → Pool → Bool
contains_any [] p = false
contains_any (h ∷ hs) p = contains_key h p || contains_any hs p

unfoldable pub has_conflicts : Transaction → Pool → Bool
has_conflicts t p =
    if contains_key t.hash p
    then true
    else if is_some (lookup t.hash p.conflicts_map)
    then true
    else contains_any (conflict_hashes t) p
