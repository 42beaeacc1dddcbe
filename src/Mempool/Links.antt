-- ===== src/Mempool/Links.antt =====
-- pkg/core/mempool/mem_pool.go: the two side tables of the pool. `conflicts` lists, under a hash, the pooled
-- transactions that name it, and `oracleResp` gives the pooled response to a request.
use epicchain_go.Common.{
  ap, ℕ, suc, ◌+◌, ◌-◌, ◌≤◌, ◌<◌, ◌≡◌, refl, sym, ◌∙◌, false, Option, none, some, List, [], ◌∷◌,
  ◌++◌, arith, nat_eq, Map, lookup, insert, lookup-insert, lookup-delete, length, ◌==◌,
  if◌then◌else◌, ==_iff, inl, inr, Bool-cases, Option-cases,
}
use epicchain_go.Mempool.Types.{
  Transaction, Pool, Signal, conflict_hashes, oracle_id, notify, update_metrics,
}
use epicchain_go.Mempool.Remove.{
  remove_hash, drop_conflict, remove_conflicts, remove_conflicts_of, delete_oracle,
  remove_oracle_of, release_fee,
}
use epicchain_go.Mempool.Add.{add_conflicts, or_nil}

-- How often `x` stands in a list.
unfoldable pub count : ℕ → List ℕ → ℕ
count x [] = 0
count x (y ∷ ys) = (if y == x then 1 else 0) + count x ys

-- What is pooled, by hash.
abbrev pub View : Type 0
View = ℕ → Option Transaction

abbrev pub without : ℕ → View → View
without h v = λ j. if h == j then none else v j

abbrev pub with_tx : Transaction → View → View
with_tx t v = λ j. if t.hash == j then some t else v j

-- How often a transaction names `h`; nothing is named by what is not pooled.
abbrev pub names : ℕ → Option Transaction → ℕ
names h none = 0
names h (some t) = count h (conflict_hashes t)

abbrev pub listed : Map ℕ (List ℕ) → ℕ → ℕ → ℕ
listed m h x = count x (or_nil (lookup h m))

-- Each pooled transaction is listed under `h` as often as it names `h`, and nothing else is listed.
abbrev pub ConflictsOk : View → Map ℕ (List ℕ) → Type 0
ConflictsOk v m = (h x : ℕ) → listed m h x ≡ names h (v x)

-- A response that is noted is pooled, and answers that request; and every pooled response is noted under
-- the request that it answers.
pub record OracleOk (v : View) (m : Map ℕ ℕ) : Type 0 where
  pub pooled_too :
      (id h : ℕ)
      → lookup id m ≡ some h
      → (t : Transaction) × (v h ≡ some t) × (oracle_id t ≡ some id)
  pub noted_too :
      (id h : ℕ) (t : Transaction) → v h ≡ some t → oracle_id t ≡ some id → lookup id m ≡ some h

pub OracleOk-view : (v w : View) (m : Map ℕ ℕ) → ((j : ℕ) → w j ≡ v j) → OracleOk v m → OracleOk w m
OracleOk-view v w m same o = record {
  pooled_too = λ id h e. rw (same h) (o.pooled_too id h e);
  noted_too = λ id h t at answers. o.noted_too id h t (sym (same h) ∙ at) answers;
}

count-remove_hash :
    (h x : ℕ) (l : List ℕ)
    → count x (remove_hash h l) ≡ (if h == x then count x l - 1 else count x l)
unfolding count remove_hash
count-remove_hash h x [] = ground arith
count-remove_hash h x (y ∷ l) = ground (arith, count-remove_hash h x l)

count-append :
    (x y : ℕ) (l : List ℕ) → count x (l ++ (y ∷ [])) ≡ count x l + (if y == x then 1 else 0)
unfolding count
count-append x y [] = ground arith
count-append x y (z ∷ l) = ground (arith, count-append x y l)

-- One round of removeConflictsOf takes one occurrence of `hash` from the list under `ch`.
abbrev taken : ℕ → ℕ → ℕ → ℕ → ℕ
taken ch hash h x = if ch == h then (if hash == x then 1 else 0) else 0

drop_conflict-some :
    (ch hash : ℕ) (l : List ℕ) (p : Pool) (h x : ℕ)
    → lookup ch p.conflicts_map ≡ some l
    → 0 < count hash l
    → listed (drop_conflict ch hash (some l) p).conflicts_map h x
      ≡ listed p.conflicts_map h x - taken ch hash h x
unfolding count
drop_conflict-some ch hash [] p h x e pos = absurd (omega arith)
drop_conflict-some ch hash (y ∷ []) p h x e pos =
    rw (lookup-delete ch h p.conflicts_map) (ground (arith, e))
drop_conflict-some ch hash (y ∷ (z ∷ l)) p h x e pos =
    let long : (suc (suc (length l)) == 1) ≡ false = ground arith in
    rw (long, lookup-insert ch h (remove_hash hash (y ∷ (z ∷ l))) p.conflicts_map)
      (elim (Bool-cases (ch == h)) [
        | inl same ↦
            rw (same, ← (==_iff ch h).0 same, e)
              (count-remove_hash hash x (y ∷ (z ∷ l)) ∙ ground arith)
        | inr other ↦ rw other (omega arith)
      ])

listed-drop_conflict :
    (ch hash : ℕ) (p : Pool) (h x : ℕ)
    → 0 < listed p.conflicts_map ch hash
    → listed (drop_conflict ch hash (lookup ch p.conflicts_map) p).conflicts_map h x
      ≡ listed p.conflicts_map h x - taken ch hash h x
listed-drop_conflict ch hash p h x pos = elim (Option-cases (lookup ch p.conflicts_map)) [
  | inl e ↦ absurd (unfold count in (let pos' : 0 < count hash [] = (rw e at pos) in omega arith))
  | inr (l, e) ↦ rw e (drop_conflict-some ch hash l p h x e (rw e at pos))
]

-- removeConflictsOf takes `hash` from the lists as often as `hs` asks.
listed-remove_conflicts :
    (hash : ℕ) (hs : List ℕ) (p : Pool)
    → ((h : ℕ) → count h hs ≤ listed p.conflicts_map h hash)
    → (h x : ℕ)
    → listed (remove_conflicts hash hs p).conflicts_map h x
      ≡ listed p.conflicts_map h x - (if hash == x then count h hs else 0)
unfolding remove_conflicts
listed-remove_conflicts hash [] p enough h x = unfold count in ground arith
listed-remove_conflicts hash (ch ∷ hs) p enough h x =
    let p' = drop_conflict ch hash (lookup ch p.conflicts_map) p in
    let pos : 0 < listed p.conflicts_map ch hash = unfold count in ground (arith, enough ch) in
    let step : (h x : ℕ)
        → listed p'.conflicts_map h x ≡ listed p.conflicts_map h x - taken ch hash h x =
      λ h x. listed-drop_conflict ch hash p h x pos in
    listed-remove_conflicts hash hs p' (λ j. unfold count in ground (arith, step j hash, enough j))
      h x
    ∙ unfold count in ground (arith, step h x, enough h)

-- The tables fit what is pooled. While a response is on its way into the pool, the second view has it
-- already.
pub record IsLinked (v w : View) (p : Pool) : Type 0 where
  pub conflicts_ok : ConflictsOk v p.conflicts_map
  pub oracle_ok : OracleOk w p.oracle_resp

-- Two pools with the same tables.
pub record SameLinks (p q : Pool) : Type 0 where
  pub conflicts_map : q.conflicts_map ≡ p.conflicts_map
  pub oracle_resp : q.oracle_resp ≡ p.oracle_resp

pub SameLinks-trans : {p q r : Pool} → SameLinks p q → SameLinks q r → SameLinks p r
SameLinks-trans a b = record {
  conflicts_map = b.conflicts_map ∙ a.conflicts_map;
  oracle_resp = b.oracle_resp ∙ a.oracle_resp;
}

pub IsLinked-SameLinks : (v w : View) {p q : Pool} → SameLinks p q → IsLinked v w p → IsLinked v w q
IsLinked-SameLinks v w s l = record {
  conflicts_ok = rw s.conflicts_map l.conflicts_ok;
  oracle_ok = rw s.oracle_resp l.oracle_ok;
}

pub IsLinked-view :
    (v w v' w' : View) (p : Pool)
    → ((j : ℕ) → v' j ≡ v j)
    → ((j : ℕ) → w' j ≡ w j)
    → IsLinked v w p
    → IsLinked v' w' p
IsLinked-view v w v' w' p same same' l = record {
  conflicts_ok = λ h x. rw (same x) (l.conflicts_ok h x);
  oracle_ok = OracleOk-view w w' p.oracle_resp same' l.oracle_ok;
}

pub notify-SameLinks : (e : Signal) (p : Pool) → SameLinks p (notify e p)
unfolding notify
notify-SameLinks e p = ground arith

pub update_metrics-SameLinks : (n : ℕ) (p : Pool) → SameLinks p (update_metrics n p)
unfolding update_metrics
update_metrics-SameLinks n p = ground arith

pub release_fee-SameLinks : (a : ℕ) (t : Transaction) (p : Pool) → SameLinks p (release_fee a t p)
unfolding release_fee
release_fee-SameLinks a t p = ground arith

drop_conflict_oracle :
    (ch hash : ℕ) (o : Option (List ℕ)) (p : Pool)
    → (drop_conflict ch hash o p).oracle_resp ≡ p.oracle_resp
drop_conflict_oracle ch hash none p = refl
drop_conflict_oracle ch hash (some l) p = ground arith

remove_conflicts_oracle :
    (hash : ℕ) (hs : List ℕ) (p : Pool) → (remove_conflicts hash hs p).oracle_resp ≡ p.oracle_resp
unfolding remove_conflicts
remove_conflicts_oracle hash [] p = refl
remove_conflicts_oracle hash (h ∷ hs) p =
    remove_conflicts_oracle hash hs _ ∙ drop_conflict_oracle h hash (lookup h p.conflicts_map) p

delete_oracle_conflicts :
    (o : Option ℕ) (p : Pool) → (delete_oracle o p).conflicts_map ≡ p.conflicts_map
delete_oracle_conflicts none p = refl
delete_oracle_conflicts (some id) p = refl

OracleOk-delete :
    (v : View) (t : Transaction) (o : Option ℕ) (p : Pool)
    → v t.hash ≡ some t
    → oracle_id t ≡ o
    → OracleOk v p.oracle_resp
    → OracleOk (without t.hash v) (delete_oracle o p).oracle_resp
OracleOk-delete v t none p there e ok = record {
  pooled_too =
      λ id h noted. let (t', at, answers) = ok.pooled_too id h noted in (t', ground arith, answers);
  noted_too = λ id h u at answers. ok.noted_too id h u (ground arith) answers;
}
OracleOk-delete v t (some i) p there e ok = record {
  pooled_too = λ id h noted.
      let kept : (i == id) ≡ false = ground (arith, lookup-delete i id p.oracle_resp) in
      let (t', at, answers) =
        ok.pooled_too id h (sym (lookup-delete i id p.oracle_resp ∙ rw kept refl) ∙ noted) in
      (t', ground arith, answers);
  noted_too = λ id h u at answers.
      let there_before : v h ≡ some u = ground arith in
      let noted = ok.noted_too id h u there_before answers in
      let mine = ok.noted_too i t.hash t there e in
      lookup-delete i id p.oracle_resp ∙ elim (Bool-cases (i == id)) [
        | inl same ↦
            absurd (ground (arith, ap (λ x. lookup x p.oracle_resp) ((==_iff i id).0 same)))
        | inr other ↦ rw other noted
      ];
}

-- A pooled transaction that is taken out of both tables leaves them fit for the view without it.
pub IsLinked-remove :
    (v w : View) (t : Transaction) (p : Pool)
    → v t.hash ≡ some t
    → w t.hash ≡ some t
    → IsLinked v w p
    → IsLinked (without t.hash v) (without t.hash w) (remove_oracle_of t (remove_conflicts_of t p))
unfolding remove_oracle_of remove_conflicts_of
IsLinked-remove v w t p there there' l =
    let hs = conflict_hashes t in
    let p' = remove_conflicts t.hash hs p in
    let counts =
      listed-remove_conflicts t.hash hs p (λ h. ground (arith, l.conflicts_ok h t.hash)) in
    record {
      conflicts_ok = λ h x.
          rw (delete_oracle_conflicts (oracle_id t) p')
            (counts h x ∙ rw (l.conflicts_ok h x) (ground arith));
      oracle_ok =
          OracleOk-delete w t (oracle_id t) p' there' refl
            (rw (remove_conflicts_oracle t.hash hs p) l.oracle_ok);
    }

-- A transaction that no list names is taken out of the responses alone.
pub IsLinked-forget :
    (v w : View) (t : Transaction) (p : Pool)
    → w t.hash ≡ some t
    → IsLinked v w p
    → IsLinked v (without t.hash w) (remove_oracle_of t p)
unfolding remove_oracle_of
IsLinked-forget v w t p there l = record {
  conflicts_ok = rw (delete_oracle_conflicts (oracle_id t) p) l.conflicts_ok;
  oracle_ok = OracleOk-delete w t (oracle_id t) p there refl l.oracle_ok;
}

listed-add_conflicts :
    (hash : ℕ) (hs : List ℕ) (p : Pool) (h x : ℕ)
    → listed (add_conflicts hash hs p).conflicts_map h x
      ≡ listed p.conflicts_map h x + (if hash == x then count h hs else 0)
unfolding add_conflicts
listed-add_conflicts hash [] p h x = unfold count in ground arith
listed-add_conflicts hash (ch ∷ hs) p h x =
    let l = or_nil (lookup ch p.conflicts_map) in
    listed-add_conflicts hash hs
      (record p { conflicts_map = insert ch (l ++ (hash ∷ [])) p.conflicts_map }) h x
    ∙ rw (lookup-insert ch h (l ++ (hash ∷ [])) p.conflicts_map) (elim (Bool-cases (ch == h)) [
      | inl same ↦
          rw (same, ← (==_iff ch h).0 same)
            (unfold count in ground (arith, count-append x hash l, ==_iff ch h))
      | inr other ↦ rw other (unfold count in rw other (ground arith))
    ])

add_conflicts_oracle :
    (hash : ℕ) (hs : List ℕ) (p : Pool) → (add_conflicts hash hs p).oracle_resp ≡ p.oracle_resp
unfolding add_conflicts
add_conflicts_oracle hash [] p = refl
add_conflicts_oracle hash (h ∷ hs) p = add_conflicts_oracle hash hs _

-- A transaction that is new to the lists is entered into them.
pub IsLinked-add :
    (v w : View) (t : Transaction) (p : Pool)
    → v t.hash ≡ none
    → IsLinked v w p
    → IsLinked (with_tx t v) w (add_conflicts t.hash (conflict_hashes t) p)
IsLinked-add v w t p fresh l = record {
  conflicts_ok = λ h x.
      listed-add_conflicts t.hash (conflict_hashes t) p h x ∙ ground (arith, l.conflicts_ok h x);
  oracle_ok = rw (add_conflicts_oracle t.hash (conflict_hashes t) p) l.oracle_ok;
}
