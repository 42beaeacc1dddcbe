-- ===== src/Extpool/Pool.antt =====
-- pkg/network/extpool/pool.go: Pool and its operations. An element of a sender's list is its payload, which
-- is what the map of verified payloads points to.
use epicchain_go.Common.{
  ℕ, zero, suc, Bool, true, false, not, ◌||◌, ◌==◌, ltb, leb, Option, none, some, List, [], ◌∷◌,
  ◌++◌, Map, nat_eq, lookup, insert, delete, length, if◌then◌else◌,
}

pub record Extensible : Type 0 where
  pub hash : ℕ
  pub sender : ℕ
  pub valid_block_start : ℕ
  pub valid_block_end : ℕ

-- What the pool asks the chain; `verify_witness` is that there is no error.
pub record Ledger : Type 0 where
  pub block_height : ℕ
  pub is_extensible_allowed : ℕ → Bool
  pub verify_witness : Extensible → Bool

pub record Pool : Type 0 where
  pub verified : Map ℕ Extensible
  pub senders : Map ℕ (List Extensible)
  pub single_cap : ℕ

pub data AddError : Type 0 where
  bad_witness disallowed_sender invalid_height : AddError

-- New; it panics on a capacity that is not positive.
unfoldable pub new : ℕ → Option Pool
new zero = none
new (suc n) = some (record { verified = []; senders = []; single_cap = suc n })

-- verify: whether to go on, and the error.
unfoldable pub verify : Extensible → Ledger → Bool × Option AddError
verify e chain =
    let h = chain.block_height in
    if not (chain.verify_witness e)
    then (false, some bad_witness)
    else if ltb h e.valid_block_start || leb e.valid_block_end h
    then (if e.valid_block_end == h then (false, none) else (false, some invalid_height))
    else if not (chain.is_extensible_allowed e.sender)
    then (false, some disallowed_sender)
    else (true, none)

-- lst.Remove(lst.Front()), and the payload leaves the map; an empty list has no front, which panics.
abbrev pub drop_front : Extensible → List Extensible → Pool → Option Pool
drop_front e [] p = none
drop_front e (value ∷ lst) p =
    some (record p {
      verified = delete value.hash p.verified;
      senders = insert e.sender lst p.senders;
    })

-- Room in the sender's list, which is made if there is none.
abbrev pub make_room : Extensible → Option (List Extensible) → Pool → Option Pool
make_room e none p = some (record p { senders = insert e.sender [] p.senders })
make_room e (some lst) p =
    let full = drop_front e lst p in if leb p.single_cap (length lst) then full else some p

abbrev pub or_nil : Option (List Extensible) → List Extensible
or_nil none = []
or_nil (some l) = l

-- p.verified[h] = lst.PushBack(e)
abbrev pub push_back : Extensible → Pool → Pool
push_back e p = record p {
  verified = insert e.hash e p.verified;
  senders = insert e.sender (or_nil (lookup e.sender p.senders) ++ (e ∷ [])) p.senders;
}

-- A panic, or whether the payload was new, with the pool.
abbrev pub pushed : Extensible → Option Pool → Option (Bool × Pool)
pushed e none = none
pushed e (some p) = some (true, push_back e p)

abbrev pub add_new : Extensible → Option Extensible → Pool → Option (Bool × Pool)
add_new e (some known) p = some (false, p)
add_new e none p = pushed e (make_room e (lookup e.sender p.senders) p)

abbrev pub with_error :
    Option AddError → Option (Bool × Pool) → Option ((Bool × Option AddError) × Pool)
with_error err none = none
with_error err (some (ok, p)) = some ((ok, err), p)

-- Add: `none` is a panic.
unfoldable pub add : Extensible → Ledger → Pool → Option ((Bool × Option AddError) × Pool)
add e chain p =
    let (ok, err) = verify e chain in
    let fresh = with_error none (add_new e (lookup e.hash p.verified) p) in
    if ok then fresh else some ((ok, err), p)

unfoldable pub get : ℕ → Pool → Option Extensible
get h p = lookup h p.verified

-- The two tests of RemoveStale.
abbrev pub is_stale : ℕ → Ledger → Extensible → Bool
is_stale index chain e =
    (leb e.valid_block_end index || not (chain.is_extensible_allowed e.sender))
    || not (chain.verify_witness e)

-- The loop over a sender's list: what is left of it, and of the map.
unfoldable pub sweep_list :
    ℕ → Ledger → List Extensible → Map ℕ Extensible → List Extensible × Map ℕ Extensible
sweep_list index chain [] verified = ([], verified)
sweep_list index chain (e ∷ lst) verified =
    let stale = is_stale index chain e in
    let (kept, verified') =
      sweep_list index chain lst (if stale then delete e.hash verified else verified) in
    (if stale then kept else e ∷ kept, verified')

-- The loop over the senders; one whose list is empty goes.
unfoldable pub sweep_senders :
    ℕ
    → Ledger
    → Map ℕ (List Extensible)
    → Map ℕ Extensible
    → Map ℕ (List Extensible) × Map ℕ Extensible
sweep_senders index chain [] verified = ([], verified)
sweep_senders index chain ((s, lst) ∷ senders) verified =
    let (kept, verified1) = sweep_list index chain lst verified in
    let (senders', verified2) = sweep_senders index chain senders verified1 in
    (if length kept == 0 then senders' else (s, kept) ∷ senders', verified2)

unfoldable pub remove_stale : ℕ → Ledger → Pool → Pool
remove_stale index chain p =
    let (senders, verified) = sweep_senders index chain p.senders p.verified in
    record p { senders = senders; verified = verified }
