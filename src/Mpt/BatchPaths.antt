-- ===== src/Mpt/BatchPaths.antt =====
-- pkg/core/mpt/batch.go: batches as changes of a view.
use epicchain_go.Common.{
  length-append, ◌⊎◌, ℕ, suc, ◌+◌, ◌<◌, ◌≤◌, true, List, [], ◌∷◌, ◌++◌, length, take, drop, ◌==◌,
  ◌≡◌, ◌≢◌, refl, ap, sym, subst, ◌∙◌, inl, inr, All, arith, Bool-cases, ==_iff, ==-refl,
  drop-append_length,
}
use epicchain_go.Mpt.View.{View, under, update, IsNibble, IsPath}
use epicchain_go.Mpt.Paths.{Same, under-update}
use epicchain_go.Mpt.Branches.{==-other}
use epicchain_go.Mpt.Views.{All-append_right}
use epicchain_go.Mpt.Put.{lcp}
use epicchain_go.Mpt.Batch.{
  lcp_rest, lcp_many, KeyValue, strip_key, strip_keys, starts_with, run_length,
}

-- The view after the changes of a batch, one after the other.
unfoldable pub apply_batch : List KeyValue → View → View
apply_batch [] f q = f q
apply_batch (x ∷ kv) f q = apply_batch kv (update x.key x.value f) q

pub apply_batch-Same :
    (kv : List KeyValue) (f g : View) → Same f g → Same (apply_batch kv f) (apply_batch kv g)
unfolding apply_batch update
apply_batch-Same [] f g s q iq = s q iq
apply_batch-Same (x ∷ kv) f g s q iq =
    apply_batch-Same kv (update x.key x.value f) (update x.key x.value g) (λ t it. rw (s t it) refl)
      q iq

pub apply_batch-append :
    (a b : List KeyValue) (f : View) (q : List ℕ)
    → apply_batch (a ++ b) f q ≡ apply_batch b (apply_batch a f) q
unfolding apply_batch
apply_batch-append [] b f q = refl
apply_batch-append (x ∷ a) b f q = apply_batch-append a b (update x.key x.value f) q

-- The key has the prefix.
abbrev pub Begins : List ℕ → KeyValue → Type 0
Begins p x = (rest : List ℕ) × (x.key ≡ p ++ rest)

pub apply_batch-under :
    (p : List ℕ) (kv : List KeyValue) (f : View)
    → All (Begins p) kv
    → Same (apply_batch kv (under p f)) (under p (apply_batch (strip_keys (length p) kv) f))
unfolding apply_batch
apply_batch-under p [] f a q iq = refl
apply_batch-under p (x ∷ kv) f a q iq =
    let (rest, e) = a.0 in
    let key : drop (length p) x.key ≡ rest = ap (drop (length p)) e ∙ drop-append_length p rest in
    apply_batch-Same kv (update x.key x.value (under p f))
      (under p (update (drop (length p) x.key) x.value f))
      (λ t it. rw (e, drop-append_length p rest) (sym (under-update p rest x.value f t))) q iq
    ∙ apply_batch-under p kv (update (drop (length p) x.key) x.value f) a.1 q iq

-- A group of elements whose keys begin with `c`.
pub group_nil :
    (c : ℕ) (kv : List KeyValue) (f : View) → All (Begins (c ∷ [])) kv → apply_batch kv f [] ≡ f []
unfolding apply_batch update
group_nil c [] f a = refl
group_nil c (x ∷ kv) f a =
    let (rest, e) = a.0 in group_nil c kv (update x.key x.value f) a.1 ∙ rw e refl

pub group_other :
    (c y : ℕ) (q : List ℕ) (kv : List KeyValue) (f : View)
    → c ≢ y
    → All (Begins (c ∷ [])) kv
    → apply_batch kv f (y ∷ q) ≡ f (y ∷ q)
unfolding apply_batch update
group_other c y q [] f ne a = refl
group_other c y q (x ∷ kv) f ne a =
    let (rest, e) = a.0 in
    group_other c y q kv (update x.key x.value f) ne a.1 ∙ rw (e, ==-other c y ne) refl

pub group_same :
    (c : ℕ) (kv : List KeyValue) (f g : View)
    → All (Begins (c ∷ [])) kv
    → Same (λ t. f (c ∷ t)) g
    → (q : List ℕ) → IsPath q
    → apply_batch kv f (c ∷ q) ≡ apply_batch (strip_keys 1 kv) g q
unfolding apply_batch update
group_same c [] f g a s q iq = s q iq
group_same c (x ∷ kv) f g a s q iq =
    let (rest, e) = a.0 in
    group_same c kv (update x.key x.value f) (update (drop 1 x.key) x.value g) a.1
      (λ t it. rw (e, ==-refl c, s t it) refl) q iq

-- Keys that are paths and shorter than `m`.
abbrev pub Fits : ℕ → KeyValue → Type 0
Fits m x = IsPath x.key × (length x.key < m)

pub run-Begins : (c : ℕ) (kv : List KeyValue) → All (Begins (c ∷ [])) (take (run_length c kv) kv)
unfolding run_length
run-Begins c [] = tt
run-Begins c (x ∷ kv) = elim (Bool-cases (starts_with c x.key)) [
  | inl same ↦ rw same (begin x.key refl same, run-Begins c kv)
  | inr differ ↦ rw differ tt
]
  where
    begin : (k : List ℕ) → x.key ≡ k → starts_with c k ≡ true → Begins (c ∷ []) x
    begin [] e s = cc
    begin (y ∷ k) e s = (k, e ∙ ap (λ z. z ∷ k) ((==_iff y c).0 s))

pub strip_keys-Fits :
    (p : List ℕ) (m l : ℕ) (kv : List KeyValue)
    → l ≤ length p + m
    → All (Begins p) kv
    → All (Fits l) kv
    → All (Fits m) (strip_keys (length p) kv)
strip_keys-Fits p m l [] le b a = tt
strip_keys-Fits p m l (x ∷ kv) le b a = (fit b.0.0 b.0.1, strip_keys-Fits p m l kv le b.1 a.1)
  where
    fit : (rest : List ℕ) → x.key ≡ p ++ rest → Fits m (strip_key (length p) x)
    fit rest e =
        let key : drop (length p) x.key ≡ rest =
          ap (drop (length p)) e ∙ drop-append_length p rest in
        rw key (
          All-append_right IsNibble p rest (subst IsPath e a.0.0),
          omega (arith, ap length e, length-append p rest, a.0.1, le),
        )

pub length-strip_keys : (n : ℕ) (kv : List KeyValue) → length (strip_keys n kv) ≡ length kv
length-strip_keys n [] = refl
length-strip_keys n (x ∷ kv) = ap suc (length-strip_keys n kv)

pub List-cases : (l : List ℕ) → (l ≡ []) ⊎ ((x : ℕ) × (k : List ℕ) × (l ≡ x ∷ k))
List-cases [] = inl refl
List-cases (x ∷ k) = inr (x, k, refl)

-- What lcp answers begins both paths.
abbrev pub Extends : List ℕ → List ℕ → Type 0
Extends p k = (rest : List ℕ) × (k ≡ p ++ rest)

pub append_assoc : (a b c : List ℕ) → (a ++ b) ++ c ≡ a ++ (b ++ c)
append_assoc [] b c = refl
append_assoc (x ∷ a) b c = ap (λ t. x ∷ t) (append_assoc a b c)

pub append_nil : (a : List ℕ) → a ++ [] ≡ a
append_nil [] = refl
append_nil (x ∷ a) = ap (λ t. x ∷ t) (append_nil a)

pub Extends-trans : (p q k : List ℕ) → Extends p q → Extends q k → Extends p k
Extends-trans p q k (r, e) (s, f) = (r ++ s, f ∙ ap (λ t. t ++ s) e ∙ append_assoc p r s)

pub lcp_left : (a b : List ℕ) → Extends (lcp a b) a
unfolding lcp
lcp_left [] b = ([], refl)
lcp_left (x ∷ a) [] = (x ∷ a, refl)
lcp_left (x ∷ a) (y ∷ b) = elim (Bool-cases (x == y)) [
  | inl same ↦ rw same (let (r, e) = lcp_left a b in (r, ap (λ t. x ∷ t) e))
  | inr differ ↦ rw differ (x ∷ a, refl)
]

pub lcp_right : (a b : List ℕ) → Extends (lcp a b) b
unfolding lcp
lcp_right [] b = (b, refl)
lcp_right (x ∷ a) [] = ([], refl)
lcp_right (x ∷ a) (y ∷ b) = elim (Bool-cases (x == y)) [
  | inl same ↦ rw (same, (==_iff x y).0 same) (let (r, e) = lcp_right a b in (r, ap (λ t. y ∷ t) e))
  | inr differ ↦ rw differ (y ∷ b, refl)
]

pub All-Begins :
    (p q : List ℕ) (kv : List KeyValue) → Extends p q → All (Begins q) kv → All (Begins p) kv
All-Begins p q [] e a = tt
All-Begins p q (x ∷ kv) e a = (Extends-trans p q x.key e a.0, All-Begins p q kv e a.1)

lcp_rest-Begins :
    (p : List ℕ) (kv : List KeyValue) → Extends (lcp_rest p kv) p × All (Begins (lcp_rest p kv)) kv
lcp_rest-Begins p [] = (([], sym (append_nil p)), tt)
lcp_rest-Begins p (x ∷ kv) =
    let (e, a) = lcp_rest-Begins (lcp p x.key) kv in
    let q = lcp_rest (lcp p x.key) kv in
    (
      Extends-trans q (lcp p x.key) p e (lcp_left p x.key),
      (Extends-trans q (lcp p x.key) x.key e (lcp_right p x.key), a),
    )

All-Begins_nil : (kv : List KeyValue) → All (Begins []) kv
All-Begins_nil [] = tt
All-Begins_nil (x ∷ kv) = ((x.key, refl), All-Begins_nil kv)

-- What lcpMany answers begins all keys.
pub lcp_many-Begins :
    (x : KeyValue) (kv : List KeyValue) → All (Begins (lcp_many (x ∷ kv))) (x ∷ kv)
unfolding lcp_many
lcp_many-Begins x [] = (([], sym (append_nil x.key)), tt)
lcp_many-Begins x (y ∷ kv) = elim (Bool-cases (length (lcp x.key y.key) == 0)) [
  | inl none_shared ↦
      let e : lcp_many (x ∷ (y ∷ kv)) ≡ [] =
        rw none_shared (length_zero (lcp x.key y.key) none_shared) in
      subst (λ p. All (Begins p) (x ∷ (y ∷ kv))) (sym e) (All-Begins_nil (x ∷ (y ∷ kv)))
  | inr some_shared ↦
      let p = lcp x.key y.key in
      let (e, a) = lcp_rest-Begins p kv in
      let q = lcp_rest p kv in
      let is : lcp_many (x ∷ (y ∷ kv)) ≡ q = rw some_shared refl in
      subst (λ t. All (Begins t) (x ∷ (y ∷ kv))) (sym is)
        (
          Extends-trans q p x.key e (lcp_left x.key y.key),
          (Extends-trans q p y.key e (lcp_right x.key y.key), a),
        )
]
  where
    length_zero : (l : List ℕ) → (length l == 0) ≡ true → l ≡ []
    length_zero [] e = refl
    length_zero (z ∷ l) e = absurd (ground (arith, e))
