-- ===== src/Mpt/BatchRoot.antt =====
-- pkg/core/mpt/batch.go: PutBatch against single calls of Put and Delete.
use epicchain_go.Common.{
  ◌⊎◌, ℕ, ◌<◌, List, [], ◌∷◌, length, ◌≡◌, refl, sym, ◌∙◌, Option, none, some, All,
}
use epicchain_go.Mpt.Node.{Node}
use epicchain_go.Mpt.Put.{put_into_node, root_after}
use epicchain_go.Mpt.Delete.{delete_from_node, delete_result, state_root}
use epicchain_go.Mpt.View.{value_at, update, IsPath, IsTrie}
use epicchain_go.Mpt.Paths.{Same}
use epicchain_go.Mpt.PutLaw.{put_into_node-Written}
use epicchain_go.Mpt.DeleteLaw.{delete_from_node-Removed}
use epicchain_go.Mpt.Canonical.{state_root_unique}
use epicchain_go.Mpt.Roots.{Changed, root_after-Changed, delete_result-Changed}
use epicchain_go.Mpt.Batch.{KeyValue, put_batch}
use epicchain_go.Mpt.BatchPaths.{apply_batch, apply_batch-Same}
use epicchain_go.Mpt.BatchNode.{put_batch-BatchedTo}

-- bytes.Compare(a, b) < 0
abbrev pub Less : List ℕ → List ℕ → Type 0
Less [] [] = ⊥
Less [] (y ∷ b) = Unit
Less (x ∷ a) [] = ⊥
Less (x ∷ a) (y ∷ b) = (x < y) ⊎ ((x ≡ y) × Less a b)

-- What MapToMPTBatch makes.
abbrev pub IsAscending : List KeyValue → Type 0
IsAscending [] = Unit
IsAscending (x ∷ []) = Unit
IsAscending (x ∷ (y ∷ kv)) = Less x.key y.key × IsAscending (y ∷ kv)

-- The root after one change by the functions of Put and Delete, and after one change after the other.
abbrev pub change_root : List ℕ → Option (List ℕ) → Node → Node
change_root path none root = (delete_result (delete_from_node root path).1).1
change_root path (some v) root = root_after root (put_into_node root path v)

unfoldable pub change_each : List KeyValue → Node → Node
change_each [] root = root
change_each (x ∷ kv) root = change_each kv (change_root x.key x.value root)

module _ (sha : List ℕ → List ℕ) where
  change_root-Changed :
      (path : List ℕ) (v : Option (List ℕ)) (root : Node)
      → IsTrie sha root
      → IsPath path
      → Changed sha path v root (change_root path v root)
  change_root-Changed path none root t ip =
      delete_result-Changed sha path root (delete_from_node root path)
        (delete_from_node-Removed sha root path t ip)
  change_root-Changed path (some v) root t ip =
      root_after-Changed sha path v root (put_into_node root path v)
        (put_into_node-Written sha root path v t ip)

  change_each_view :
      (kv : List KeyValue) (root : Node)
      → IsTrie sha root
      → All (λ x. IsPath x.key) kv
      → IsTrie sha (change_each kv root)
        × Same (value_at (change_each kv root)) (apply_batch kv (value_at root))
  unfolding change_each apply_batch
  change_each_view [] root t a = (t, λ q iq. refl)
  change_each_view (x ∷ kv) root t a =
      let c = change_root-Changed x.key x.value root t a.0 in
      let r = change_root x.key x.value root in
      let (u, s) = change_each_view kv r c.trie a.1 in
      (
        u,
        λ q iq.
            s q iq
            ∙ apply_batch-Same kv (value_at r) (update x.key x.value (value_at root)) c.same q iq,
      )

  -- PutBatch of an ascending batch of paths on a trie whose nodes are all in the store ends without an
  -- error, with all elements processed and in a trie, the state root of which is that after the same
  -- changes one by one.
  pub put_batch_lem :
      (kv : List KeyValue) (root : Node)
      → IsTrie sha root
      → All (λ x. IsPath x.key) kv
      → IsAscending kv
      → ((put_batch kv root).err ≡ none)
        × ((put_batch kv root).count ≡ length kv)
        × IsTrie sha (put_batch kv root).node
        × (state_root sha (put_batch kv root).node ≡ state_root sha (change_each kv root))
  put_batch_lem kv root t a _ =
      let b = put_batch-BatchedTo sha kv root t a in
      let (u, s) = change_each_view kv root t a in
      (
        b.ok,
        b.counted,
        b.trie,
        state_root_unique sha (put_batch kv root).node (change_each kv root) b.trie u
            (λ q iq. b.same q iq ∙ sym (s q iq)),
      )
