-- ===== src/Mpt/Roots.antt =====
-- pkg/core/mpt/trie.go: the state root after several calls.
use epicchain_go.Common.{
  ℕ, ◌<◌, ◌≤◌, true, false, List, length, ltb, ◌==◌, ◌≡◌, ◌≢◌, refl, ap, sym, subst, ◌∙◌, inl, inr,
  ◌⊎◌, Option, none, some, arith, Bool-cases, bytes_beq, bytes_beq_iff,
}
use epicchain_go.Mpt.Node.{Node}
use epicchain_go.Mpt.Get.{max_key_length, to_nibbles}
use epicchain_go.Mpt.Put.{Put, max_value_length, put_into_node, put, root_after, put_root}
use epicchain_go.Mpt.Delete.{
  Delete, delete_result, delete_from_node, delete, delete_root, state_root,
}
use epicchain_go.Mpt.View.{View, value_at, update, IsTrie}
use epicchain_go.Mpt.Paths.{Same}
use epicchain_go.Mpt.PutLaw.{put_into_node-Written}
use epicchain_go.Mpt.PutFork.{Written}
use epicchain_go.Mpt.DeleteLaw.{Removed, delete_from_node-Removed}
use epicchain_go.Mpt.Joined.{update-none}
use epicchain_go.Mpt.Canonical.{state_root_unique}
use epicchain_go.Mpt.Contents.{contents}
use epicchain_go.Mpt.Keys.{IsBytes, to_nibbles-IsPath, to_nibbles-injective}

-- Whether Put goes on to the trie does not depend on the trie.
put_cases :
    (key v : List ℕ)
    → ((root : Node) → put_root key v root ≡ root)
      ⊎ ((length key ≤ max_key_length)
          × ((root : Node)
              → put_root key v root ≡ root_after root (put_into_node root (to_nibbles key) v)))
unfolding put
put_cases key v = elim (Bool-cases (length key == 0)) [
  | inl no_bytes ↦ inl (λ root. rw no_bytes refl)
  | inr some_bytes ↦ elim (Bool-cases (ltb max_key_length (length key))) [
    | inl long ↦ inl (λ root. rw (some_bytes, long) refl)
    | inr short ↦ elim (Bool-cases (ltb max_value_length (length v))) [
      | inl big ↦ inl (λ root. rw (some_bytes, short, big) refl)
      | inr small ↦ inr (ground (arith, short), λ root. rw (some_bytes, short, small) refl)
    ]
  ]
]

update_twice :
    (p : List ℕ) (v : Option (List ℕ)) (f : View) (q : List ℕ)
    → f p ≡ none
    → update p none (update p v f) q ≡ f q
unfolding update
update_twice p v f q e = elim (Bool-cases (bytes_beq p q)) [
  | inl same ↦ rw same (sym (ap f (sym ((bytes_beq_iff p q).0 same)) ∙ e))
  | inr differ ↦ rw differ refl
]

update_comm :
    (p r : List ℕ) (v w : Option (List ℕ)) (f : View) (q : List ℕ)
    → p ≢ r
    → update p v (update r w f) q ≡ update r w (update p v f) q
unfolding update
update_comm p r v w f q e = elim (Bool-cases (bytes_beq p q)) [
  | inr differ ↦ rw differ refl
  | inl same ↦
      let other : bytes_beq r q ≡ false = elim (Bool-cases (bytes_beq r q)) [
        | inl same2 ↦ absurd (e ((bytes_beq_iff p q).0 same ∙ sym ((bytes_beq_iff r q).0 same2)))
        | inr differ ↦ differ
      ] in
      rw (same, other) refl
]

update-Same :
    (p : List ℕ) (v : Option (List ℕ)) (f g : View) → Same f g → Same (update p v f) (update p v g)
unfolding update
update-Same p v f g s q iq = rw (s q iq) refl

delete-long :
    (key : List ℕ) (root : Node)
    → ltb max_key_length (length key) ≡ true
    → delete_root key root ≡ root
unfolding delete
delete-long key root e = rw (delete_root, e) refl

delete-short :
    (key : List ℕ) (root : Node)
    → ltb max_key_length (length key) ≡ false
    → delete_root key root ≡ (delete_result (delete_from_node root (to_nibbles key)).1).1
unfolding delete
delete-short key root e = rw (delete_root, e) refl

module _ (sha : List ℕ → List ℕ) where
  -- A trie after a call that changed the value of one path, or none.
  pub record Changed (p : List ℕ) (v : Option (List ℕ)) (n r : Node) : Type 0 where
    pub trie : IsTrie sha r
    pub same : Same (value_at r) (update p v (value_at n))

  pub root_after-Changed :
      (p v : List ℕ) (n : Node) (res : Put)
      → Written sha n p v res
      → Changed p (some v) n (root_after n res)
  root_after-Changed p v n (refs, res) w = rw w.is_done (record { trie = w.trie; same = w.view })

  put_root-Changed :
      (key v : List ℕ)
      → IsBytes key
      → ((root : Node) → put_root key v root ≡ root)
        ⊎ ((length key ≤ max_key_length)
            × ((root : Node)
                → IsTrie sha root
                → Changed (to_nibbles key) (some v) root (put_root key v root)))
  put_root-Changed key v b = elim (put_cases key v) [
    | inl same ↦ inl same
    | inr (le, runs) ↦ inr (
      le,
      λ root t. subst (Changed (to_nibbles key) (some v) root) (sym (runs root)) (
          root_after-Changed (to_nibbles key) v root (put_into_node root (to_nibbles key) v)
            (put_into_node-Written sha root (to_nibbles key) v t (to_nibbles-IsPath key b))),
    )
  ]

  pub delete_result-Changed :
      (p : List ℕ) (n : Node) (res : Delete)
      → Removed sha n p res
      → Changed p none n (delete_result res.1).1
  delete_result-Changed p n (refs, res) d =
      rw d.holds.is_done (record { trie = d.holds.trie; same = d.holds.same })

  delete_root-Changed :
      (key : List ℕ) (root : Node)
      → IsBytes key
      → IsTrie sha root
      → ((max_key_length < length key) × (delete_root key root ≡ root))
        ⊎ Changed (to_nibbles key) none root (delete_root key root)
  delete_root-Changed key root b t = elim (Bool-cases (ltb max_key_length (length key))) [
    | inl long ↦ inl (ground (arith, long), delete-long key root long)
    | inr short ↦ inr (
        subst (Changed (to_nibbles key) none root) (sym (delete-short key root short)) (
          delete_result-Changed (to_nibbles key) root (delete_from_node root (to_nibbles key))
            (delete_from_node-Removed sha root (to_nibbles key) t (to_nibbles-IsPath key b))))
  ]

  -- On a trie whose nodes are all in the store, two calls of Put with different keys give the same state
  -- root in either order.
  pub put_root_comm :
      (k l v w : List ℕ) (root : Node)
      → IsTrie sha root
      → IsBytes k
      → IsBytes l
      → k ≢ l
      → state_root sha (put_root l w (put_root k v root))
        ≡ state_root sha (put_root k v (put_root l w root))
  put_root_comm k l v w root t bk bl ne = elim (put_root-Changed k v bk) [
    | inl idle ↦ rw (idle root, idle (put_root l w root)) refl
    | inr (le, at_k) ↦ elim (put_root-Changed l w bl) [
      | inl idle ↦ rw (idle root, idle (put_root k v root)) refl
      | inr (_, at_l) ↦
          let a = at_k root t in
          let b = at_l root t in
          let c = at_l (put_root k v root) a.trie in
          let d = at_k (put_root l w root) b.trie in
          state_root_unique sha (put_root l w (put_root k v root))
            (put_root k v (put_root l w root)) c.trie d.trie
            (λ q iq.
              c.same q iq
              ∙ update-Same (to_nibbles l) (some w) (value_at (put_root k v root))
                  (update (to_nibbles k) (some v) (value_at root)) a.same q iq
              ∙ update_comm (to_nibbles l) (to_nibbles k) (some w) (some v) (value_at root) q
                  (λ e. ne (to_nibbles-injective k l bk bl (sym e)))
              ∙ sym (
                  update-Same (to_nibbles k) (some v) (value_at (put_root l w root))
                    (update (to_nibbles l) (some w) (value_at root)) b.same q iq)
              ∙ sym (d.same q iq))
    ]
  ]

  -- On a trie whose nodes are all in the store, a call of Put with a key that has no value, and then one of
  -- Delete with the key, give the state root from before.
  pub delete_root-put_root :
      (k v : List ℕ) (root : Node)
      → IsTrie sha root
      → IsBytes k
      → contents root k ≡ none
      → state_root sha (delete_root k (put_root k v root)) ≡ state_root sha root
  delete_root-put_root k v root t b fresh = elim (put_root-Changed k v b) [
    | inl idle ↦ rw (idle root) (elim (delete_root-Changed k root b t) [
      | inl (_, same) ↦ ap (state_root sha) same
      | inr d ↦
          state_root_unique sha (delete_root k root) root d.trie t
            (λ q iq. d.same q iq ∙ sym (update-none (to_nibbles k) (value_at root) fresh q))
    ])
    | inr (le, at_k) ↦
        let a = at_k root t in
        elim (delete_root-Changed k (put_root k v root) b a.trie) [
          | inl (long, _) ↦ absurd (omega (arith, le, long))
          | inr d ↦ state_root_unique sha (delete_root k (put_root k v root)) root d.trie t (λ q iq.
              d.same q iq
              ∙ update-Same (to_nibbles k) none (value_at (put_root k v root))
                  (update (to_nibbles k) (some v) (value_at root)) a.same q iq
              ∙ update_twice (to_nibbles k) (some v) (value_at root) q fresh)
        ]
  ]
