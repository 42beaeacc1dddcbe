-- ===== src/Mpt/Canonical.antt =====
-- pkg/core/mpt: tries with the same values have the same hash.
use epicchain_go.Common.{
  ℕ, zero, suc, false, List, [], ◌∷◌, ◌++◌, ltb, ◌==◌, ◌≡◌, ◌≢◌, refl, ap, sym, ◌∙◌, inl, inr, none,
  some, arith, Bool-cases, ==_iff, ==-refl, ltb→lt,
}
use epicchain_go.Mpt.Node.{
  Node, leaf, branch, extension, hash, lost, empty, children_count, last_child, is_empty, as_child,
  join_below, hash_of,
}
use epicchain_go.Mpt.Delete.{state_root}
use epicchain_go.Mpt.View.{View, under, value_at, IsNibble, IsPath, IsTrie}
use epicchain_go.Mpt.Paths.{Same, IsOther}
use epicchain_go.Mpt.Branches.{==-other, IsStored-filled}
use epicchain_go.Mpt.Shrink.{value_at-IsEnd}
use epicchain_go.Mpt.Joined.{All-append}
use epicchain_go.Mpt.Fans.{Fan, trie-Valued, head-Fan, under-at, filled-le}

some_eq : {A : Type 0} {a b : A} → some a ≡ some b → a ≡ b
some_eq e = cc

-- A view below a key has no value at a path that begins otherwise.
under-other :
    (x : ℕ) (key : List ℕ) (f : View) (q : List ℕ) → IsOther x q → under (x ∷ key) f q ≡ none
unfolding under
under-other x key f [] o = refl
under-other x key f (y ∷ q) o = rw (==-other x y o) refl

under-next :
    (x : ℕ) (key : List ℕ) (f : View) (q : List ℕ) → under (x ∷ key) f (x ∷ q) ≡ under key f q
unfolding under
under-next x key f q = rw (==-refl x) refl

abbrev Fanned : View → Type 0
Fanned f = (y : ℕ) → Fan y f

-- What begins two extensions with the same values is the same.
key_head :
    (x y : ℕ) (k l : List ℕ) (f g : View)
    → IsPath (x ∷ k)
    → Fanned f
    → Same (under (x ∷ k) f) (under (y ∷ l) g)
    → x ≡ y
key_head x y k l f g ik fan s = elim (Bool-cases (y == x)) [
  | inl same ↦ sym ((==_iff y x).0 same)
  | inr differ ↦
      let v = (fan 0).valued in
      let p = (x ∷ k) ++ v.path in
      let gone : under (y ∷ l) g p ≡ none = under-other y l g p (λ e. ground (arith, differ)) in
      cc (
        s p (All-append IsNibble (x ∷ k) v.path ik v.on_path),
        under-at (x ∷ k) f v.path,
        v.at,
        gone,
      )
]

keys_eq :
    (k l : List ℕ) (f g : View)
    → IsPath k
    → IsPath l
    → Fanned f
    → Fanned g
    → Same (under k f) (under l g)
    → (k ≡ l) × Same f g
keys_eq [] [] f g ik il ff fg s = unfold under in (refl, s)
keys_eq [] (y ∷ l) f g ik il ff fg s =
    let v = (ff y).valued in
    let gone : under (y ∷ l) g v.path ≡ none = under-other y l g v.path (ff y).other in
    let here : under [] f v.path ≡ some v.value = unfold under in v.at in
    cc (s v.path v.on_path, here, gone)
keys_eq (x ∷ k) [] f g ik il ff fg s =
    let v = (fg x).valued in
    let gone : under (x ∷ k) f v.path ≡ none = under-other x k f v.path (fg x).other in
    let here : under [] g v.path ≡ some v.value = unfold under in v.at in
    cc (s v.path v.on_path, here, gone)
keys_eq (x ∷ k) (y ∷ l) f g ik il ff fg s =
    let e = key_head x y k l f g ik ff s in
    let rest = keys_eq k l f g ik.1 il.1 ff fg (λ q iq.
      sym (under-next x k f q)
      ∙ s (x ∷ q) (ik.0, iq)
      ∙ ap (λ j. under (y ∷ l) g (j ∷ q)) e
      ∙ under-next y l g q) in
    (ap (λ j. j ∷ k) e ∙ ap (λ t. y ∷ t) rest.0, rest.1)

pub join_below-same :
    (n : ℕ) (f g : ℕ → List ℕ) → ((i : ℕ) → f i ≡ g i) → join_below n f ≡ join_below n g
join_below-same zero f g e = refl
join_below-same (suc n) f g e = rw (join_below-same n f g e, e n) refl

module _ (sha : List ℕ → List ℕ) where
  -- The same for the node above.
  pub record Alike (a b : Node) : Type 0 where
    pub hash_eq : hash_of sha a ≡ hash_of sha b
    pub empty_eq : is_empty a ≡ is_empty b

  abbrev Agree : Node → Node → Type 0
  Agree a b = Same (value_at a) (value_at b)

  branch-Fan : (cs : ℕ → Node) (y : ℕ) → IsTrie sha (branch cs) → Fan y (value_at (branch cs))
  branch-Fan cs y t = head-Fan sha (branch cs) y tt t

  -- A trie with a value is not an empty one.
  not_empty : (n : Node) → IsTrie sha n → is_empty n ≡ false → Agree n empty → ⊥
  unfolding value_at
  not_empty n t e s = let v = trie-Valued sha n t e in cc (s v.path v.on_path, v.at)

  extension_fan :
      (k : List ℕ) (n : Node) (cs : ℕ → Node)
      → IsTrie sha (extension k n)
      → IsTrie sha (branch cs)
      → Agree (branch cs) (extension k n)
      → ⊥
  unfolding value_at
  extension_fan [] n cs t u s = absurd (t.0.1 refl)
  extension_fan (x ∷ k) n cs t u s =
      let f = branch-Fan cs x u in
      let gone : under (x ∷ k) (value_at n) f.valued.path ≡ none =
        under-other x k (value_at n) f.valued.path f.other in
      cc (s f.valued.path f.valued.on_path, f.valued.at, gone)

  leaf_extension :
      (v k : List ℕ) (n : Node) → IsTrie sha (extension k n) → Agree (leaf v) (extension k n) → ⊥
  unfolding value_at under
  leaf_extension v [] n t s = absurd (t.0.1 refl)
  leaf_extension v (x ∷ k) n t s = cc (s [] tt)

  leaf_branch :
      (v : List ℕ) (cs : ℕ → Node) → IsTrie sha (branch cs) → Agree (leaf v) (branch cs) → ⊥
  unfolding value_at
  leaf_branch v cs t s = elim (Bool-cases (t.0.two.first == last_child)) [
    | inl same ↦
        long t.0.two.second t.0.two.filled2
          (λ e. t.0.two.apart ((==_iff t.0.two.first last_child).0 same ∙ sym e))
    | inr differ ↦ long t.0.two.first t.0.two.filled1 (λ e. ground (arith, differ))
  ]
    where
      long : (k : ℕ) → is_empty (cs k) ≡ false → k ≢ last_child → ⊥
      long k filled ne =
          let w = trie-Valued sha (cs k) (t.1 k) filled in
          cc (s (k ∷ w.path) (ground (arith, filled-le sha cs k t filled, ne), w.on_path), w.at)

  children-Agree :
      (ls rs : ℕ → Node)
      → IsTrie sha (branch ls)
      → IsTrie sha (branch rs)
      → Agree (branch ls) (branch rs)
      → (i : ℕ) → Agree (ls i) (rs i)
  unfolding value_at
  children-Agree ls rs t u s i = elim (Bool-cases (ltb i last_child)) [
    | inl below ↦ λ q iq. s (i ∷ q) (ltb→lt i last_child below, iq)
    | inr above ↦ elim (Bool-cases (i == last_child)) [
      | inl same ↦ at_end ((==_iff i last_child).0 same)
      | inr differ ↦ λ q iq.
          ap (λ n. value_at n q) (t.0.beyond i (ground (arith, above, differ)))
          ∙ sym (ap (λ n. value_at n q) (u.0.beyond i (ground (arith, above, differ))))
    ]
  ]
    where
      at_end : i ≡ last_child → (q : List ℕ) → IsPath q → value_at (ls i) q ≡ value_at (rs i) q
      at_end e [] iq = rw e (s [] tt)
      at_end e (y ∷ q) iq = rw e (
          value_at-IsEnd (ls last_child) y q t.0.end
          ∙ sym (value_at-IsEnd (rs last_child) y q u.0.end))

  leaves-Alike : (v w : List ℕ) → Agree (leaf v) (leaf w) → Alike (leaf v) (leaf w)
  unfolding value_at
  leaves-Alike v w s = record {
    hash_eq = ap (λ x. hash_of sha (leaf x)) (some_eq (s [] tt));
    empty_eq = refl;
  }

  branches-Alike :
      (ls rs : ℕ → Node) → ((i : ℕ) → Alike (ls i) (rs i)) → Alike (branch ls) (branch rs)
  unfolding hash_of
  branches-Alike ls rs all = record {
    hash_eq =
        ap (λ t. sha (0 ∷ t))
          (join_below-same children_count (λ i. as_child (is_empty (ls i)) (hash_of sha (ls i)))
            (λ i. as_child (is_empty (rs i)) (hash_of sha (rs i)))
            (λ i. rw ((all i).empty_eq, (all i).hash_eq) refl));
    empty_eq = refl;
  }

  extensions-Alike :
      (k l : List ℕ) (a b : Node) → k ≡ l → Alike a b → Alike (extension k a) (extension l b)
  unfolding hash_of
  extensions-Alike k l a b e w = record {
    hash_eq = rw (e, w.empty_eq, w.hash_eq) refl;
    empty_eq = refl;
  }

  extension-Agree :
      (k l : List ℕ) (a b : Node)
      → IsTrie sha (extension k a)
      → IsTrie sha (extension l b)
      → Agree (extension k a) (extension l b)
      → (k ≡ l) × Agree a b
  unfolding value_at
  extension-Agree k l a b t u s =
      keys_eq k l (value_at a) (value_at b) t.0.0 u.0.0 (λ y. head-Fan sha a y t.1.0 t.1.1)
        (λ y. head-Fan sha b y u.1.0 u.1.1) s

  hash-Alike : (h : List ℕ) (n b : Node) → IsTrie sha (hash h n) → Alike n b → Alike (hash h n) b
  unfolding hash_of
  hash-Alike h n b t w = record {
    hash_eq = t.0.1 ∙ w.hash_eq;
    empty_eq = sym (IsStored-filled n t.0.0) ∙ w.empty_eq;
  }

  Alike-sym : (a b : Node) → Alike a b → Alike b a
  Alike-sym a b w = record { hash_eq = sym w.hash_eq; empty_eq = sym w.empty_eq }

  Agree-sym : (a b : Node) → Agree a b → Agree b a
  Agree-sym a b s q iq = sym (s q iq)

  stored-Agree : (h : List ℕ) (n b : Node) → Agree (hash h n) b → Agree n b
  unfolding value_at
  stored-Agree h n b s = s

  Agree-Alike : (a b : Node) → IsTrie sha a → IsTrie sha b → Agree a b → Alike a b
  Agree-Alike (hash h n) b t u s = hash-Alike h n b t (Agree-Alike n b t.1 u (stored-Agree h n b s))
  Agree-Alike (lost h) b t u s = absurd t
  Agree-Alike a (hash h n) t u s = Alike-sym (hash h n) a (
      hash-Alike h n a u (
        Alike-sym a n
          (Agree-Alike a n t u.1 (Agree-sym n a (stored-Agree h n a (Agree-sym a (hash h n) s))))))
  Agree-Alike a (lost h) t u s = absurd u
  Agree-Alike (leaf v) (leaf w) t u s = leaves-Alike v w s
  Agree-Alike (leaf v) (branch rs) t u s = absurd (leaf_branch v rs u s)
  Agree-Alike (leaf v) (extension l b) t u s = absurd (leaf_extension v l b u s)
  Agree-Alike (leaf v) empty t u s = absurd (not_empty (leaf v) t refl s)
  Agree-Alike (branch ls) (leaf w) t u s =
      absurd (leaf_branch w ls t (Agree-sym (branch ls) (leaf w) s))
  Agree-Alike (branch ls) (branch rs) t u s =
      branches-Alike ls rs
        (λ i. Agree-Alike (ls i) (rs i) (t.1 i) (u.1 i) (children-Agree ls rs t u s i))
  Agree-Alike (branch ls) (extension l b) t u s = absurd (extension_fan l b ls u t s)
  Agree-Alike (branch ls) empty t u s = absurd (not_empty (branch ls) t refl s)
  Agree-Alike (extension k a) (leaf w) t u s =
      absurd (leaf_extension w k a t (Agree-sym (extension k a) (leaf w) s))
  Agree-Alike (extension k a) (branch rs) t u s =
      absurd (extension_fan k a rs t u (Agree-sym (extension k a) (branch rs) s))
  Agree-Alike (extension k a) (extension l b) t u s =
      let (e, r) = extension-Agree k l a b t u s in
      extensions-Alike k l a b e (Agree-Alike a b t.1.1 u.1.1 r)
  Agree-Alike (extension k a) empty t u s = absurd (not_empty (extension k a) t refl s)
  Agree-Alike empty (leaf w) t u s = absurd (not_empty (leaf w) u refl (Agree-sym empty (leaf w) s))
  Agree-Alike empty (branch rs) t u s =
      absurd (not_empty (branch rs) u refl (Agree-sym empty (branch rs) s))
  Agree-Alike empty (extension l b) t u s =
      absurd (not_empty (extension l b) u refl (Agree-sym empty (extension l b) s))
  Agree-Alike empty empty t u s = record { hash_eq = refl; empty_eq = refl }

  -- The state root depends on the values only, not on the order of the calls that stored them nor on
  -- which nodes are in memory: two tries with the same value at every path have the same.
  pub state_root_unique :
      (a b : Node)
      → IsTrie sha a
      → IsTrie sha b
      → ((q : List ℕ) → IsPath q → value_at a q ≡ value_at b q)
      → state_root sha a ≡ state_root sha b
  unfolding state_root
  state_root_unique a b t u s = let w = Agree-Alike a b t u s in rw (w.empty_eq, w.hash_eq) refl
