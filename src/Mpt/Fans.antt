-- ===== src/Mpt/Fans.antt =====
-- pkg/core/mpt: the paths that a trie has values at.
use epicchain_go.Common.{
  ℕ, ◌≤◌, true, false, List, [], ◌∷◌, ◌++◌, ltb, ◌==◌, ◌≡◌, ◌≢◌, refl, ap, sym, ◌∙◌, inl, inr, none,
  some, arith, Bool-cases, ==_iff, ==-refl, ltb→lt, ltb-false→le,
}
use epicchain_go.Mpt.Node.{Node, leaf, branch, extension, hash, lost, empty, last_child, is_empty}
use epicchain_go.Mpt.View.{View, under, value_at, IsNibble, IsPath, IsHead, IsTrie}
use epicchain_go.Mpt.Paths.{IsOther}
use epicchain_go.Mpt.Branches.{IsHead-filled, IsStored-filled}
use epicchain_go.Mpt.Joined.{All-append}
use epicchain_go.Mpt.Shrink.{value_at-IsEnd}

-- A path with a value.
pub record Valued (f : View) : Type 0 where
  pub path : List ℕ
  pub value : List ℕ
  pub on_path : IsPath path
  pub at : f path ≡ some value

-- One that does not begin with a given nibble.
pub record Fan (y : ℕ) (f : View) : Type 0 where
  pub valued : Valued f
  pub other : IsOther y valued.path

pub under-at : (key : List ℕ) (f : View) (q : List ℕ) → under key f (key ++ q) ≡ f q
unfolding under
under-at [] f q = refl
under-at (x ∷ key) f q = rw (==-refl x) (under-at key f q)

under-Valued : (key : List ℕ) (f : View) → IsPath key → Valued f → Valued (under key f)
under-Valued key f ik v = record {
  path = key ++ v.path;
  value = v.value;
  on_path = All-append IsNibble key v.path ik v.on_path;
  at = under-at key f v.path ∙ v.at;
}

module _ (sha : List ℕ → List ℕ) where
  pub filled-le :
      (cs : ℕ → Node) (k : ℕ) → IsTrie sha (branch cs) → is_empty (cs k) ≡ false → k ≤ last_child
  filled-le cs k t filled = elim (Bool-cases (ltb last_child k)) [
    | inl out ↦
        let gone : is_empty (cs k) ≡ true = ap is_empty (t.0.beyond k (ltb→lt last_child k out)) in
        cc
    | inr within ↦ ltb-false→le last_child k within
  ]

  -- A value in a child is one in the branch.
  child-Fan :
      (cs : ℕ → Node) (k y : ℕ)
      → IsTrie sha (branch cs)
      → is_empty (cs k) ≡ false
      → y ≢ k
      → Valued (value_at (cs k))
      → Fan y (value_at (branch cs))
  unfolding value_at
  child-Fan cs k y t filled ne v = elim (Bool-cases (k == last_child)) [
    | inr differ ↦ record {
      valued = record {
        path = k ∷ v.path;
        value = v.value;
        on_path = (ground (arith, filled-le cs k t filled, differ), v.on_path);
        at = v.at;
      };
      other = ne;
    }
    | inl same ↦ record {
      valued = record {
        path = [];
        value = v.value;
        on_path = tt;
        at = at_end v.path ((==_iff k last_child).0 same) v.at;
      };
      other = tt;
    }
  ]
    where
      at_end :
          (p : List ℕ)
          → k ≡ last_child
          → value_at (cs k) p ≡ some v.value
          → value_at (cs last_child) [] ≡ some v.value
      at_end [] e at = ap (λ j. value_at (cs j) []) (sym e) ∙ at
      at_end (z ∷ p) e at =
          let gone : value_at (cs k) (z ∷ p) ≡ none =
            ap (λ j. value_at (cs j) (z ∷ p)) e ∙ value_at-IsEnd (cs last_child) z p t.0.end in
          cc

  -- A trie that is not empty has a value.
  pub trie-Valued : (n : Node) → IsTrie sha n → is_empty n ≡ false → Valued (value_at n)
  unfolding value_at
  trie-Valued (leaf v) t e = record { path = []; value = v; on_path = tt; at = refl }
  trie-Valued (branch cs) t e =
      let v = trie-Valued (cs t.0.two.first) (t.1 t.0.two.first) t.0.two.filled1 in
      (child-Fan cs t.0.two.first t.0.two.second t t.0.two.filled1 (λ x. t.0.two.apart (sym x))
        v).valued
  trie-Valued (extension k n) t e =
      under-Valued k (value_at n) t.0.0 (trie-Valued n t.1.1 (IsHead-filled n t.1.0))
  trie-Valued (hash h n) t e = trie-Valued n t.1 (IsStored-filled n t.0.0)
  trie-Valued (lost h) t e = absurd t
  trie-Valued empty t e = cc

  -- What an extension leads to has a value whose path does not begin with the given nibble.
  pub head-Fan : (n : Node) (y : ℕ) → IsHead n → IsTrie sha n → Fan y (value_at n)
  unfolding value_at
  head-Fan (leaf v) y h t = record {
    valued = record { path = []; value = v; on_path = tt; at = refl };
    other = tt;
  }
  head-Fan (branch cs) y h t = elim (Bool-cases (y == t.0.two.first)) [
    | inl same ↦
        child-Fan cs t.0.two.second y t t.0.two.filled2
          (λ e. t.0.two.apart (sym ((==_iff y t.0.two.first).0 same) ∙ e))
          (trie-Valued (cs t.0.two.second) (t.1 t.0.two.second) t.0.two.filled2)
    | inr differ ↦
        child-Fan cs t.0.two.first y t t.0.two.filled1 (λ e. ground (arith, differ))
          (trie-Valued (cs t.0.two.first) (t.1 t.0.two.first) t.0.two.filled1)
  ]
  head-Fan (extension k n) y h t = absurd h
  head-Fan (hash k n) y h t = head-Fan n y h t.1
  head-Fan (lost k) y h t = absurd h
  head-Fan empty y h t = absurd h
