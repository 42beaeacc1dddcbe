-- ===== src/Mpt/Lost.antt =====
-- pkg/core/mpt/trie.go: Put and Delete where a node is not in the store.
use epicchain_go.Common.{
  ℕ, ◌<◌, ◌≤◌, true, false, List, [], ◌∷◌, ◌++◌, map, length, ltb, ◌==◌, ◌≡◌, ◌≢◌, refl, ap, sym,
  ◌∙◌, inl, inr, Option, none, some, arith, Bool-cases, Option-cases, ==_iff,
}
use epicchain_go.Mpt.Node.{
  Node, leaf, branch, extension, hash, lost, empty, children_count, last_child, put_child, is_empty,
  split_path,
}
use epicchain_go.Mpt.Get.{strip_prefix, max_key_length, to_nibbles, not_in_store, done, failed}
use epicchain_go.Mpt.Put.{
  Ref, removed, Put, replaced, put_into_leaf, under_shared, fork, put_into_node,
}
use epicchain_go.Mpt.Delete.{becomes, stuck, tally, shrink, delete_from_node, delete}
use epicchain_go.Mpt.View.{value_at}
use epicchain_go.Mpt.Paths.{strip_prefix-Parts}
use epicchain_go.Mpt.Views.{put_child_hit, put_child_other}
use epicchain_go.Mpt.Shrink.{Tallied, nobody, only, several, tally-Tallied}

abbrev above : Node → Option (List Node) → Option (List Node)
above n none = none
above n (some l) = some (n ∷ l)

abbrev spine_next : (List ℕ → Option (List Node)) → Option (List ℕ) → Option (List Node)
spine_next below none = none
spine_next below (some rest) = below rest

-- The nodes on a path above the first one that is not in the store.
unfoldable pub spine : Node → List ℕ → Option (List Node)
spine (leaf v) path = none
spine (branch cs) path = let (i, rest) = split_path path in above (branch cs) (spine (cs i) rest)
spine (extension key next) path =
    spine_next (λ rest. above (extension key next) (spine next rest)) (strip_prefix key path)
spine (hash h n) path = spine n path
spine (lost h) path = some []
spine empty path = none

-- How putIntoNode ends.
pub data PutInto : Option (List Node) → Put → Type 0 where
  blocked : (l : List Node) → PutInto (some l) (map removed l, failed not_in_store)
  through : (refs : List Ref) (r : Node) → PutInto none (refs, done r)

replaced-PutInto :
    (old : Node) (wrap : Node → Node) (o : Option (List Node)) (res : Put)
    → PutInto o res
    → PutInto (above old o) (replaced old wrap res)
replaced-PutInto old wrap (some _) _ (blocked l) = blocked (old ∷ l)
replaced-PutInto old wrap none _ (through refs r) = through (removed old ∷ refs ++ _) (wrap r)

put_into_leaf-PutInto : (w path v : List ℕ) → PutInto none (put_into_leaf w path v)
unfolding put_into_leaf
put_into_leaf-PutInto w [] v = through _ _
put_into_leaf-PutInto w (x ∷ path) v = through _ _

under_shared-PutInto :
    (old : Node) (pref : List ℕ) (b : Node) (refs : List Ref)
    → PutInto none (removed old ∷ (under_shared pref b refs).0, (under_shared pref b refs).1)
under_shared-PutInto old [] b refs = through _ _
under_shared-PutInto old (x ∷ pref) b refs = through _ _

fork-PutInto :
    (old : Node) (pref : List ℕ) (x : ℕ) (key_tail path_tail v : List ℕ) (next : Node)
    → PutInto none (
      removed old ∷ (fork pref (x ∷ key_tail) path_tail next v).0,
      (fork pref (x ∷ key_tail) path_tail next v).1,
    )
fork-PutInto old pref x key_tail path_tail v next = under_shared-PutInto old pref _ _

-- putIntoNode fails just where the path leads to a node that is not in the store; the tree is as before
-- then, but every node above that one has been given to removeRef. It never panics.
pub put_into_node-PutInto :
    (n : Node) (path v : List ℕ) → PutInto (spine n path) (put_into_node n path v)
unfolding spine put_into_node
put_into_node-PutInto (leaf w) path v = put_into_leaf-PutInto w path v
put_into_node-PutInto (branch cs) path v =
    replaced-PutInto (branch cs) (λ r. branch (put_child (split_path path).0 r cs))
      (spine (cs (split_path path).0) (split_path path).1)
      (put_into_node (cs (split_path path).0) (split_path path).1 v)
      (put_into_node-PutInto (cs (split_path path).0) (split_path path).1 v)
put_into_node-PutInto (extension key next) path v = elim (Option-cases (strip_prefix key path)) [
  | inl parts ↦
      let p = strip_prefix-Parts key path parts in
      rw (parts, p.key_drop, p.path_drop, p.lcp_eq)
        (fork-PutInto (extension key next) p.shared p.turn p.key_tail p.path_tail v next)
  | inr (rest, e) ↦ rw e (
      replaced-PutInto (extension key next) (extension key) (spine next rest)
        (put_into_node next rest v) (put_into_node-PutInto next rest v))
]
put_into_node-PutInto (hash h n) path v = put_into_node-PutInto n path v
put_into_node-PutInto (lost h) path v = blocked []
put_into_node-PutInto empty path v = through _ _

-- A branch of which one child is left, which is not in the store.
shrink-stuck :
    (cs : ℕ → Node) (j : ℕ) (h : List ℕ)
    → j < last_child
    → cs j ≡ lost h
    → ((k : ℕ) → j ≢ k → cs k ≡ empty)
    → shrink cs ≡ ([], stuck (branch cs))
shrink-stuck cs j h lt at rest =
    counted (tally children_count cs) refl (tally-Tallied children_count cs)
  where
    counted :
        (t : ℕ × ℕ)
        → tally children_count cs ≡ t
        → Tallied children_count cs t
        → shrink cs ≡ ([], stuck (branch cs))
    counted t e (nobody f) =
        let gone : is_empty (lost h) ≡ true = ap is_empty (sym at ∙ f j (omega (arith, lt))) in cc
    counted t e (only i li some_one f) = elim (Bool-cases (j == i)) [
      | inl same ↦
          let here : i ≡ j = sym ((==_iff j i).0 same) in
          let inner : (i == last_child) ≡ false = ground (arith, lt, here) in
          rw (e, inner, here, at) refl
      | inr differ ↦
          let gone : is_empty (cs i) ≡ true = ap is_empty (rest i (λ x. ground (arith, differ))) in
          cc
    ]
    counted t e (several count i li some_one two) =
        let first = found two.first two.filled1 in
        let second = found two.second two.filled2 in absurd (two.apart (sym first ∙ second))
      where
        found : (k : ℕ) → is_empty (cs k) ≡ false → j ≡ k
        found k filled = elim (Bool-cases (j == k)) [
          | inl same ↦ (==_iff j k).0 same
          | inr differ ↦
              let gone : is_empty (cs k) ≡ true =
                ap is_empty (rest k (λ x. ground (arith, differ))) in
              cc
        ]

-- Delete of the only key below one child of a branch, the only other child of which is not in the store,
-- answers an error, but the key is gone from the tree, and its node and the branch from the counts.
pub delete_stuck :
    (key : List ℕ) (cs : ℕ → Node) (i j : ℕ) (rest h : List ℕ) (refs : List Ref)
    → length key ≤ max_key_length
    → to_nibbles key ≡ i ∷ rest
    → j < last_child
    → i ≢ j
    → cs j ≡ lost h
    → ((k : ℕ) → i ≢ k → j ≢ k → cs k ≡ empty)
    → delete_from_node (cs i) rest ≡ (refs, becomes empty)
    → (delete key (branch cs)
        ≡ (refs ++ (removed (branch cs) ∷ []), (some not_in_store, branch (put_child i empty cs))))
      × (value_at (branch (put_child i empty cs)) (to_nibbles key) ≡ none)
unfolding delete delete_from_node value_at
delete_stuck key cs i j rest h refs le path lt ne at others gone =
    let short : ltb max_key_length (length key) ≡ false = ground (arith, le) in
    let left = put_child i empty cs in
    let stays : shrink left ≡ ([], stuck (branch left)) =
      shrink-stuck left j h lt (put_child_other i j empty cs ne ∙ at) alone in
    (
      rw (path, short, gone, stays) refl,
      rw path (ap (λ n. value_at n rest) (put_child_hit i i empty cs (ground arith))),
    )
  where
    alone : (k : ℕ) → j ≢ k → put_child i empty cs k ≡ empty
    alone k jk = elim (Bool-cases (i == k)) [
      | inl same ↦ put_child_hit i k empty cs same
      | inr differ ↦
          let ik : i ≢ k = λ x. ground (arith, differ) in
          put_child_other i k empty cs ik ∙ others k ik jk
    ]
