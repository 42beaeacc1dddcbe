-- ===== src/Mpt/Batch.antt =====
-- pkg/core/mpt/batch.go: PutBatch. The keys of a batch are paths in strictly ascending order.
use epicchain_go.Common.{
  ℕ, zero, suc, ◌+◌, ◌*◌, Bool, true, false, List, [], ◌∷◌, ◌++◌, map, length, take, drop, ltb,
  ◌==◌, if◌then◌else◌, Option, none, some,
}
use epicchain_go.Mpt.Node.{
  Node, leaf, branch, extension, hash, lost, empty, children_count, last_child, put_child,
  no_children,
}
use epicchain_go.Mpt.Get.{TrieError, not_in_store}
use epicchain_go.Mpt.Put.{Ref, added, removed, lcp, new_sub_trie}
use epicchain_go.Mpt.Delete.{tally}

-- A nil value is `none`.
pub record KeyValue : Type 0 where
  pub key : List ℕ
  pub value : Option (List ℕ)

-- What the functions answer: the node, the number of elements, and the error.
pub record BatchResult : Type 0 where
  pub refs : List Ref
  pub node : Node
  pub count : ℕ
  pub err : Option TrieError

-- mergeExtension: the calls made, the node, and the error.
pub record Merged : Type 0 where
  pub refs : List Ref
  pub node : Node
  pub err : Option TrieError

abbrev pub wrap_merged : List ℕ → Node → Merged
wrap_merged [] sub = record { refs = []; node = sub; err = none }
wrap_merged (x ∷ prefix) sub =
    let e = extension (x ∷ prefix) sub in record { refs = added e ∷ []; node = e; err = none }

abbrev pub merge_extension : List ℕ → Node → Merged
merge_extension prefix (extension k n) =
    let e = extension (prefix ++ k) n in
    record { refs = removed (extension k n) ∷ added e ∷ []; node = e; err = none }
merge_extension prefix empty = record { refs = []; node = empty; err = none }
merge_extension prefix (hash h n) = merge_extension prefix n
merge_extension prefix (lost h) = record { refs = []; node = lost h; err = some not_in_store }
merge_extension prefix (leaf v) = wrap_merged prefix (leaf v)
merge_extension prefix (branch cs) = wrap_merged prefix (branch cs)

-- `if err == nil { sub, err = t.mergeExtension(prefix, sub) }`
abbrev pub then_merge : Merged → BatchResult → Option TrieError → BatchResult
then_merge merged r (some e) = r
then_merge merged r none = record {
  refs = r.refs ++ merged.refs;
  node = merged.node;
  count = r.count;
  err = merged.err;
}

abbrev pub merge_result : List ℕ → BatchResult → BatchResult
merge_result prefix r = then_merge (merge_extension prefix r.node) r r.err

-- stripBranch; its loop is that of deleteFromBranch.
abbrev pub strip_branch : (ℕ → Node) → Merged
strip_branch cs =
    let (n, last_index) = tally children_count cs in
    let merged = merge_extension (last_index ∷ []) (cs last_index) in
    if n == 0
    then record { refs = []; node = empty; err = none }
    else if n == 1
    then (if last_index == last_child
        then record { refs = []; node = cs last_index; err = none }
        else merged)
    else record { refs = added (branch cs) ∷ []; node = branch cs; err = none }

abbrev pub strip_key : ℕ → KeyValue → KeyValue
strip_key n kv = record kv { key = drop n kv.key }

-- stripPrefix
abbrev pub strip_keys : ℕ → List KeyValue → List KeyValue
strip_keys n kv = map (strip_key n) kv

-- The loop of lcpMany from the third key on.
abbrev pub lcp_rest : List ℕ → List KeyValue → List ℕ
lcp_rest p [] = p
lcp_rest p (x ∷ kv) = lcp_rest (lcp p x.key) kv

-- lcpMany; kv[0] of an empty slice panics, but no caller has one.
unfoldable pub lcp_many : List KeyValue → List ℕ
lcp_many [] = []
lcp_many (x ∷ []) = x.key
lcp_many (x ∷ (y ∷ kv)) = let p = lcp x.key y.key in if length p == 0 then p else lcp_rest p kv

abbrev pub starts_with : ℕ → List ℕ → Bool
starts_with c [] = false
starts_with c (x ∷ key) = x == c

-- The loop of getLastIndex: the elements that follow whose keys begin alike. An empty key, of which
-- key[0] would panic, can only come first.
unfoldable pub run_length : ℕ → List KeyValue → ℕ
run_length c [] = 0
run_length c (x ∷ kv) = let more = run_length c kv in if starts_with c x.key then suc more else 0

-- getLastIndex of a slice with the given first key.
abbrev pub last_index : List ℕ → List KeyValue → ℕ × ℕ
last_index [] kv = (last_child, 1)
last_index (c ∷ key) kv = (c, suc (run_length c kv))

-- The state of iterateBatch: the children, the calls made, the number of elements and the error.
pub record Iterated : Type 0 where
  pub children : ℕ → Node
  pub refs : List Ref
  pub count : ℕ
  pub err : Option TrieError

-- What follows the group that `r` is the answer for.
abbrev pub iterate_on : ℕ → BatchResult → (ℕ → Node) → Iterated → Option TrieError → Iterated
iterate_on c r cs rest (some e) = record {
  children = put_child c r.node cs;
  refs = r.refs;
  count = r.count;
  err = some e;
}
iterate_on c r cs rest none = record {
  children = rest.children;
  refs = r.refs ++ rest.refs;
  count = r.count + rest.count;
  err = rest.err;
}

abbrev pub first_error : Option TrieError → Option TrieError → Option TrieError
first_error none e = e
first_error (some e) e' = some e

-- stripBranch after iterateBatch; the first error is answered.
abbrev pub stripped : List Ref → Iterated → Merged → BatchResult
stripped refs it nd = record {
  refs = refs ++ (it.refs ++ nd.refs);
  node = nd.node;
  count = it.count;
  err = first_error it.err nd.err;
}

-- A branch with a value of its own.
abbrev pub value_children : Option (List ℕ) → ℕ → Node
value_children none = no_children
value_children (some v) = put_child last_child (leaf v) no_children

abbrev pub value_refs : Option (List ℕ) → List Ref
value_refs none = []
value_refs (some v) = added (leaf v) ∷ []

abbrev pub more_refs : List Ref → ℕ → BatchResult → BatchResult
more_refs refs n r = record r { refs = refs ++ r.refs; count = r.count + n }

abbrev pub single_leaf : List ℕ → List ℕ → BatchResult
single_leaf prefix v =
    let (refs, r) = new_sub_trie prefix (leaf v) true in
    record { refs = refs; node = r; count = 1; err = none }

abbrev pub deleted_first : List KeyValue → BatchResult → BatchResult
deleted_first [] next = record { refs = []; node = empty; count = 1; err = none }
deleted_first (y ∷ kv) next = more_refs [] 1 next

abbrev pub after_removed : Node → BatchResult → BatchResult
after_removed n r = more_refs (removed n ∷ []) 0 r

-- `put` is putBatchIntoNode.
module _ (put : Node → List KeyValue → BatchResult) where
  -- iterateBatch, with the function that addToBranch gives it; its fuel bounds the length of `kv`.
  unfoldable pub iterate_batch : ℕ → (ℕ → Node) → List KeyValue → Iterated
  iterate_batch zero cs kv = record { children = cs; refs = []; count = 0; err = none }
  iterate_batch (suc fuel) cs [] = record { children = cs; refs = []; count = 0; err = none }
  iterate_batch (suc fuel) cs (x ∷ kv) =
      let (c, i) = last_index x.key kv in
      let group = take i (x ∷ kv) in
      let r = put (cs c) (if c == last_child then group else strip_keys 1 group) in
      iterate_on c r cs (iterate_batch fuel (put_child c r.node cs) (drop i (x ∷ kv))) r.err

  abbrev pub add_to_branch : (ℕ → Node) → List KeyValue → Bool → BatchResult
  add_to_branch cs kv in_trie =
      let it = iterate_batch (length kv) cs kv in
      stripped (if in_trie then removed (branch cs) ∷ [] else []) it (strip_branch it.children)

  -- The second half of newSubTrieMany.
  abbrev pub sub_branch : List ℕ → List KeyValue → Option (List ℕ) → BatchResult
  sub_branch prefix kv value =
      more_refs (value_refs value) 0
        (merge_result prefix (add_to_branch (value_children value) kv false))

  abbrev pub valued_first : List ℕ → List ℕ → KeyValue → List KeyValue → BatchResult
  valued_first prefix v x [] = single_leaf prefix v
  valued_first prefix v x (y ∷ kv) = sub_branch prefix (x ∷ (y ∷ kv)) (some v)

  -- The body of newSubTrieMany by kv[0].key and kv[0].value; `next` is its own call for kv[1:].
  abbrev pub by_first :
      List ℕ
      → KeyValue
      → List KeyValue
      → Option (List ℕ)
      → BatchResult
      → List ℕ
      → Option (List ℕ)
      → BatchResult
  by_first prefix x kv value next [] none = deleted_first kv next
  by_first prefix x kv value next [] (some v) = valued_first prefix v x kv
  by_first prefix x kv value next (c ∷ key) v = sub_branch prefix (x ∷ kv) value

  -- newSubTrieMany; kv[0] of an empty slice panics, but no caller has one.
  unfoldable pub new_sub_trie_many : List ℕ → List KeyValue → Option (List ℕ) → BatchResult
  new_sub_trie_many prefix [] value = record { refs = []; node = empty; count = 0; err = none }
  new_sub_trie_many prefix (x ∷ kv) value =
      by_first prefix x kv value (new_sub_trie_many prefix kv none) x.key x.value

  -- putBatchIntoExtensionNoPrefix; key[0] of an empty key panics, but no caller has one.
  abbrev pub put_batch_no_prefix : List ℕ → Node → List KeyValue → BatchResult
  put_batch_no_prefix [] next kv = record { refs = []; node = next; count = 0; err = none }
  put_batch_no_prefix (c ∷ key) next kv =
      let (refs, r) = new_sub_trie key next false in
      more_refs refs 0 (add_to_branch (put_child c r no_children) kv false)

  -- putBatchIntoExtension, by what the key shares with those of the batch.
  abbrev pub put_batch_into_extension : List ℕ → List ℕ → Node → List KeyValue → BatchResult
  put_batch_into_extension pref key next kv =
      let n = length pref in
      let whole = merge_result pref (put next (strip_keys (length key) kv)) in
      let part = merge_result pref (put_batch_no_prefix (drop n key) next (strip_keys n kv)) in
      let apart = put_batch_no_prefix key next kv in
      if n == length key then whole else (if n == 0 then apart else part)

-- putBatchIntoNode; its cases are putBatchIntoLeaf, putBatchIntoBranch, putBatchIntoExtension,
-- putBatchIntoHash and putBatchIntoEmpty. Without fuel nothing is done.
unfoldable pub put_batch_into_node : ℕ → Node → List KeyValue → BatchResult
put_batch_into_node zero n kv = record { refs = []; node = n; count = 0; err = none }
put_batch_into_node (suc fuel) (leaf v) kv =
    let put : Node → List KeyValue → BatchResult = λ n kv. put_batch_into_node fuel n kv in
    after_removed (leaf v) (new_sub_trie_many put [] kv (some v))
put_batch_into_node (suc fuel) (branch cs) kv =
    add_to_branch (λ n kv. put_batch_into_node fuel n kv) cs kv true
put_batch_into_node (suc fuel) (extension key next) kv =
    let put : Node → List KeyValue → BatchResult = λ n kv. put_batch_into_node fuel n kv in
    after_removed (extension key next)
      (put_batch_into_extension put (lcp (lcp_many kv) key) key next kv)
put_batch_into_node (suc fuel) (hash h n) kv = put_batch_into_node fuel n kv
put_batch_into_node (suc fuel) (lost h) kv = record {
  refs = [];
  node = lost h;
  count = 0;
  err = some not_in_store;
}
put_batch_into_node (suc fuel) empty kv =
    let common = lcp_many kv in
    new_sub_trie_many (λ n kv. put_batch_into_node fuel n kv) common (strip_keys (length common) kv)
      none

-- The length of the longest key.
unfoldable pub longest : List KeyValue → ℕ
longest [] = 0
longest (x ∷ kv) = let rest = longest kv in if ltb rest (length x.key) then length x.key else rest

-- PutBatch; every call goes one step down the keys or from a hash node to its node.
unfoldable pub put_batch : List KeyValue → Node → BatchResult
put_batch [] root = record { refs = []; node = root; count = 0; err = none }
put_batch (x ∷ kv) root = put_batch_into_node (2 * longest (x ∷ kv) + 4) root (x ∷ kv)
