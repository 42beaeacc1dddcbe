-- ===== src/Extpool/Sound.antt =====
-- pkg/network/extpool/pool.go: the map and the senders' lists together, through Add.
use epicchain_go.Common.{
  ℕ, suc, ◌≤◌, ◌<◌, ◌≡◌, refl, ap, ◌∙◌, inl, inr, Option, none, some, List, [], ◌∷◌, ◌++◌, arith,
  nat_eq, lookup, insert, delete, lookup-insert, lookup-delete, length, length-append, ◌==◌, ==_iff,
  Bool-cases, if◌then◌else◌,
}
use epicchain_go.Extpool.Pool.{Extensible, Pool, or_nil, push_back}

-- The payload with a hash in a list.
unfoldable pub find : ℕ → List Extensible → Option Extensible
find h [] = none
find h (x ∷ xs) = if x.hash == h then some x else find h xs

abbrev pub IsDistinct : List Extensible → Type 0
IsDistinct [] = Unit
IsDistinct (x ∷ xs) = (find x.hash xs ≡ none) × IsDistinct xs

abbrev pub queue_of : Pool → ℕ → List Extensible
queue_of p s = or_nil (lookup s p.senders)

-- A payload, if it is the sender's.
abbrev pub owned : ℕ → Option Extensible → Option Extensible
owned s none = none
owned s (some e) = if e.sender == s then some e else none

-- Each sender's list has its verified payloads, once each, and no more than the capacity.
pub record IsSound (p : Pool) : Type 0 where
  pub positive : 0 < p.single_cap
  pub capped : (s : ℕ) → length (queue_of p s) ≤ p.single_cap
  pub distinct : (s : ℕ) → IsDistinct (queue_of p s)
  pub agree : (s h : ℕ) → find h (queue_of p s) ≡ owned s (lookup h p.verified)

find-push_back :
    (h : ℕ) (l : List Extensible) (e : Extensible)
    → find e.hash l ≡ none
    → find h (l ++ (e ∷ [])) ≡ (if e.hash == h then some e else find h l)
unfolding find
find-push_back h [] e f = refl
find-push_back h (x ∷ l) e f = ground (arith, find-push_back h l e)

IsDistinct-push_back :
    (l : List Extensible) (e : Extensible)
    → find e.hash l ≡ none
    → IsDistinct l
    → IsDistinct (l ++ (e ∷ []))
unfolding find
IsDistinct-push_back [] e f d = (refl, tt)
IsDistinct-push_back (x ∷ l) e f d = (
  find-push_back x.hash l e (ground arith) ∙ ground (arith, d.0),
  IsDistinct-push_back l e (ground arith) d.1,
)

-- A pool in which there is room for a payload that it has not.
pub record HasRoom (e : Extensible) (p : Pool) : Type 0 where
  pub sound : IsSound p
  pub room : length (queue_of p e.sender) < p.single_cap
  pub fresh : lookup e.hash p.verified ≡ none

pub push_back-IsSound : (e : Extensible) (p : Pool) → HasRoom e p → IsSound (push_back e p)
push_back-IsSound e p r =
    let q = queue_of p e.sender in
    let new_here : find e.hash q ≡ none = r.sound.agree e.sender e.hash ∙ rw r.fresh refl in
    record {
      positive = r.sound.positive;
      capped = λ s.
          rw (lookup-insert e.sender s (q ++ (e ∷ [])) p.senders)
            (elim (Bool-cases (e.sender == s)) [
              | inl same ↦ rw same (omega (arith, length-append q (e ∷ []), r.room))
              | inr other ↦ rw other (r.sound.capped s)
            ]);
      distinct = λ s.
          rw (lookup-insert e.sender s (q ++ (e ∷ [])) p.senders)
            (elim (Bool-cases (e.sender == s)) [
              | inl same ↦ rw same (IsDistinct-push_back q e new_here (r.sound.distinct e.sender))
              | inr other ↦ rw other (r.sound.distinct s)
            ]);
      agree = λ s h.
          rw
            (
              lookup-insert e.sender s (q ++ (e ∷ [])) p.senders,
              lookup-insert e.hash h e p.verified,
            )
            (elim (Bool-cases (e.sender == s)) [
              | inl same ↦ rw same (
                  find-push_back h q e new_here ∙ elim (Bool-cases (e.hash == h)) [
                    | inl this ↦ rw (this, same) refl
                    | inr that ↦ rw that (
                        r.sound.agree e.sender h
                        ∙ ap (λ n. owned n (lookup h p.verified)) ((==_iff e.sender s).0 same))
                  ])
              | inr other ↦ rw other (
                  r.sound.agree s h ∙ elim (Bool-cases (e.hash == h)) [
                    | inl this ↦ rw (this, other, ← (==_iff e.hash h).0 this, r.fresh) refl
                    | inr that ↦ rw that refl
                  ])
            ]);
    }

find-tail :
    (h : ℕ) (x : Extensible) (l : List Extensible)
    → find x.hash l ≡ none
    → find h l ≡ (if x.hash == h then none else find h (x ∷ l))
unfolding find
find-tail h x l d = ground (arith, d)

pub drop_front-IsSound :
    (e x : Extensible) (l : List Extensible) (p : Pool)
    → lookup e.sender p.senders ≡ some (x ∷ l)
    → IsSound p
    → IsSound
        (record p { verified = delete x.hash p.verified; senders = insert e.sender l p.senders })
drop_front-IsSound e x l p at s =
    let here : IsDistinct (x ∷ l) = rw at at (s.distinct e.sender) in
    let fits : suc (length l) ≤ p.single_cap = rw at at (s.capped e.sender) in
    let mine : find x.hash (x ∷ l) ≡ owned e.sender (lookup x.hash p.verified) =
      rw at at (s.agree e.sender x.hash) in
    record {
      positive = s.positive;
      capped = λ t. rw (lookup-insert e.sender t l p.senders) (elim (Bool-cases (e.sender == t)) [
        | inl same ↦ rw same (omega arith)
        | inr other ↦ rw other (s.capped t)
      ]);
      distinct = λ t. rw (lookup-insert e.sender t l p.senders) (elim (Bool-cases (e.sender == t)) [
        | inl same ↦ rw same here.1
        | inr other ↦ rw other (s.distinct t)
      ]);
      agree = λ t h.
          rw (lookup-insert e.sender t l p.senders, lookup-delete x.hash h p.verified)
            (elim (Bool-cases (e.sender == t)) [
              | inl same ↦ rw same (
                  find-tail h x l here.0 ∙ elim (Bool-cases (x.hash == h)) [
                    | inl this ↦ rw this refl
                    | inr that ↦ rw that (
                        let k : find h (x ∷ l) ≡ owned e.sender (lookup h p.verified) =
                          rw at at (s.agree e.sender h) in
                        k ∙ ap (λ n. owned n (lookup h p.verified)) ((==_iff e.sender t).0 same))
                  ])
              | inr other ↦ rw other (
                  s.agree t h ∙ elim (Bool-cases (x.hash == h)) [
                    | inl this ↦
                        rw (this, ← (==_iff x.hash h).0 this) (unfold find in ground (arith, mine))
                    | inr that ↦ rw that refl
                  ])
            ]);
    }
