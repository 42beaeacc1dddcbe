-- ===== src/Bqueue/Delivered.antt =====
-- pkg/network/bqueue/queue.go: blocks that are put in any order, and the run after them.
use epicchain_go.Common.{
  subst, ℕ, zero, suc, ◌+◌, ◌%◌, ◌^◌, ◌≤◌, ◌<◌, ◌≡◌, refl, sym, ap, ◌∙◌, inl, inr, true, false,
  ◌&&◌, ◌||◌, ◌==◌, ltb, leb, Bool, Option, some, List, [], ◌∷◌, arith, get_elem?, ◌≢◌, Bool-cases,
  Option-cases, ==-refl, if◌then◌else◌, All,
}
use epicchain_go.Bqueue.Queue.{Block, Queue, new, slot, is_newer, put_block, enqueue}
use epicchain_go.Bqueue.Placed.{slot-some, get_elem?-replicate}
use epicchain_go.Bqueue.Moves.{Reach, fresh, next, puts, Reach-IsRing, put_block_lem}
use epicchain_go.Bqueue.Serve.{Blockqueuer, Served, run}
use epicchain_go.Bqueue.CatchUp.{IsForward, IsAhead, run-IsAhead}

-- PutBlock of one block after another, at the same height.
unfoldable pub put_blocks : ℕ → List Block → Queue → Queue
put_blocks h [] bq = bq
put_blocks h (b ∷ bs) bq = put_blocks h bs (put_block h b bq)

module _ (Good : Block → Type 0) (h m : ℕ) where
  -- A good block for one of the m next heights.
  abbrev pub IsNext : Block → Type 0
  IsNext b = (h < b.index) × ((b.index ≤ h + m) × Good b)

  -- A queue that is in use, with such blocks only.
  record IsFilling (bq : Queue) : Type 0 where
    reach : Reach bq
    live : bq.discarded ≡ false
    within : (j : ℕ) (c : Block) → slot (get_elem? bq.queue j) ≡ some c → IsNext c

  -- The block with the index is in its place.
  Has : ℕ → List (Option Block) → Type 0
  Has x l = (c : Block) × ((slot (get_elem? l (x % 2000)) ≡ some c) × ((c.index ≡ x) × Good c))

  same_index :
      (x y : ℕ) → m ≤ 2000 → h < x → x ≤ h + m → h < y → y ≤ h + m → x % 2000 ≡ y % 2000 → x ≡ y
  same_index x y le a b c d e = omega arith

  abbrev replaced : Block → ℕ → Queue → Bool
  replaced b j bq = (b.index % 2000 == j) && is_newer b (slot (get_elem? bq.queue j))

  slot-put_block :
      (bq : Queue) (b : Block)
      → IsFilling bq
      → m ≤ 2000
      → h + 2000 < 2 ^ 32
      → IsNext b
      → (j : ℕ)
      → slot (get_elem? (put_block h b bq).queue j)
        ≡ (if replaced b j bq then some b else slot (get_elem? bq.queue j))
  slot-put_block bq b f le small n j =
      let (above, (below, _)) = n in
      let moved = put_block_lem bq h b f.reach f.live above (omega arith) small j in
      elim (Bool-cases (replaced b j bq)) [
        | inl put_now ↦ ap slot moved ∙ rw put_now refl
        | inr stays ↦ ap slot moved ∙ rw stays refl
      ]

  put_block-discarded : (b : Block) (bq : Queue) → (put_block h b bq).discarded ≡ bq.discarded
  unfolding put_block enqueue
  put_block-discarded b bq = ground arith

  put_block-IsFilling :
      (bq : Queue) (b : Block)
      → IsFilling bq
      → m ≤ 2000
      → h + 2000 < 2 ^ 32
      → IsNext b
      → IsFilling (put_block h b bq)
  put_block-IsFilling bq b f le small n = record {
    reach = next f.reach (puts h b);
    live = put_block-discarded b bq ∙ f.live;
    within = λ j c e. elim (Bool-cases (replaced b j bq)) [
      | inl put_now ↦
          let same : some b ≡ some c =
            sym (slot-put_block bq b f le small n j ∙ rw put_now refl) ∙ e in
          subst IsNext (cc same) n
      | inr stays ↦ f.within j c (sym (slot-put_block bq b f le small n j ∙ rw stays refl) ∙ e)
    ];
  }

  Has-put_block_other :
      (bq : Queue) (b : Block) (x : ℕ)
      → IsFilling bq
      → m ≤ 2000
      → h + 2000 < 2 ^ 32
      → IsNext b
      → Has x bq.queue
      → Has x (put_block h b bq).queue
  unfolding Has
  Has-put_block_other bq b x f le small n (c, (at, (ix, good))) =
      let (above, (below, _)) = f.within (x % 2000) c at in
      elim (Bool-cases (replaced b (x % 2000) bq)) [
        | inl put_now ↦
            let moved : slot (get_elem? (put_block h b bq).queue (x % 2000)) ≡ some b =
              slot-put_block bq b f le small n (x % 2000) ∙ rw put_now refl in
            let position : b.index % 2000 ≡ x % 2000 = ground arith in
            let ix_b = same_index b.index x le n.0 n.1.0 (omega arith) (omega arith) position in
            (b, (moved, (ix_b, n.1.1)))
        | inr stays ↦ (c, (slot-put_block bq b f le small n (x % 2000) ∙ rw stays at, (ix, good)))
      ]

  Has-put_block :
      (bq : Queue) (b : Block)
      → IsFilling bq
      → m ≤ 2000
      → h + 2000 < 2 ^ 32
      → IsNext b
      → Has b.index (put_block h b bq).queue
  unfolding Has
  Has-put_block bq b f le small n =
      let p = b.index % 2000 in
      let moved = slot-put_block bq b f le small n p in
      elim (Option-cases (slot (get_elem? bq.queue p))) [
        | inl free ↦ (b, (moved ∙ rw (free, ==-refl p) refl, (refl, n.1.1)))
        | inr (c, at) ↦
            let (above, (below, good)) = f.within p c at in
            elim (Bool-cases (replaced b p bq)) [
              | inl put_now ↦ (b, (moved ∙ rw put_now refl, (refl, n.1.1)))
              | inr stays ↦
                  let at_c =
                    (Reach-IsRing f.reach).placed p c (slot-some (get_elem? bq.queue p) c at) in
                  (
                    c,
                    (
                      moved ∙ rw stays at,
                      (same_index c.index b.index le above below n.0 n.1.0 at_c, good),
                    ),
                  )
            ]
      ]

  put_block-signalled :
      (b : Block) (bq : Queue)
      → bq.discarded ≡ false
      → h + 2000 < 2 ^ 32
      → m ≤ 2000
      → IsNext b
      → (put_block h b bq).signalled ≡ true
  unfolding put_block
  put_block-signalled b bq live small le n =
      let (above, (below, _)) = n in
      let accepted : (bq.discarded || (leb b.index h || ltb ((h + 2000) % 2 ^ 32) b.index))
          ≡ false =
        ground arith in
      rw accepted refl

  module _ (le : m ≤ 2000) (small : h + 2000 < 2 ^ 32) where
    put_blocks-IsFilling :
        (bs : List Block) (bq : Queue)
        → IsFilling bq
        → All IsNext bs
        → IsFilling (put_blocks h bs bq)
    unfolding put_blocks
    put_blocks-IsFilling [] bq f ns = f
    put_blocks-IsFilling (b ∷ bs) bq f (n, ns) =
        put_blocks-IsFilling bs (put_block h b bq) (put_block-IsFilling bq b f le small n) ns

    put_blocks-signalled :
        (bs : List Block) (bq : Queue)
        → IsFilling bq
        → All IsNext bs
        → bq.signalled ≡ true
        → (put_blocks h bs bq).signalled ≡ true
    unfolding put_blocks
    put_blocks-signalled [] bq f ns e = e
    put_blocks-signalled (b ∷ bs) bq f (n, ns) e =
        put_blocks-signalled bs (put_block h b bq) (put_block-IsFilling bq b f le small n) ns
          (put_block-signalled b bq f.live small le n)

    Has-put_blocks_other :
        (bs : List Block) (bq : Queue) (x : ℕ)
        → IsFilling bq
        → All IsNext bs
        → Has x bq.queue
        → Has x (put_blocks h bs bq).queue
    unfolding put_blocks
    Has-put_blocks_other [] bq x f ns has = has
    Has-put_blocks_other (b ∷ bs) bq x f (n, ns) has =
        Has-put_blocks_other bs (put_block h b bq) x (put_block-IsFilling bq b f le small n) ns
          (Has-put_block_other bq b x f le small n has)

    Has-put_blocks :
        (bs : List Block) (bq : Queue) (k : ℕ) (b : Block)
        → IsFilling bq
        → All IsNext bs
        → get_elem? bs k ≡ some b
        → Has b.index (put_blocks h bs bq).queue
    unfolding put_blocks
    Has-put_blocks [] bq k b f ns e = absurd (cc e)
    Has-put_blocks (c ∷ bs) bq zero b f (n, ns) e =
        let same : c ≡ b = cc e in
        subst (λ x. Has x.index (put_blocks h bs (put_block h c bq)).queue) same
          (Has-put_blocks_other bs (put_block h c bq) c.index
            (put_block-IsFilling bq c f le small n) ns (Has-put_block bq c f le small n))
    Has-put_blocks (c ∷ bs) bq (suc k) b f (n, ns) e =
        Has-put_blocks bs (put_block h c bq) k b (put_block-IsFilling bq c f le small n) ns e

  new-IsFilling : IsFilling new
  new-IsFilling = record { reach = fresh; live = refl; within = λ j c e. absurd (new_slot j c e) }
    where
      new_slot : (j : ℕ) (c : Block) → slot (get_elem? new.queue j) ≢ some c
      new_slot j c e = get_elem?-replicate 2000 j c (slot-some (get_elem? new.queue j) c e)

-- A block of the list for the index.
abbrev pub Delivers : ℕ → List Block → Type 0
Delivers x bs = (k : ℕ) × ((b : Block) × ((get_elem? bs k ≡ some b) × (b.index ≡ x)))

-- Good blocks for the m heights after the chain's, m at most 2000, come to a new queue in any order and any
-- number of times, each height's at least once. Then the next run of the loop ends, after 2001 rounds at
-- most, and takes the chain m blocks further or more, if the chain never goes back, has heights of 32 bits
-- and accepts a good block for its next height.
pub run-put_blocks :
    {C : Type 0} (api : Blockqueuer C) (relays : Bool) (Good : Block → Type 0)
    → IsForward api Good
    → (n m k : ℕ) (c : C) (b : Block) (bs : List Block)
    → All (IsNext Good (api.block_height c) m) (b ∷ bs)
    → ((i : ℕ) → i < m → Delivers (api.block_height c + 1 + i) (b ∷ bs))
    → m ≤ 2000
    → api.block_height c + 2000 < 2 ^ 32
    → k < 2 ^ 32
    → 2000 < n
    → (r : Served C) × ((run api relays n k c (put_blocks (api.block_height c) (b ∷ bs) new)
          ≡ some r)
        × IsAhead api (api.block_height c + m) r)
unfolding Has put_blocks
run-put_blocks api relays Good fw n m k c b bs ns covers le small sk lt =
    let h = api.block_height c in
    let start = new-IsFilling Good h m in
    let filling = put_blocks-IsFilling Good h m le small (b ∷ bs) new start ns in
    let first = put_block-IsFilling Good h m new b start le small ns.0 in
    let woken =
      put_blocks-signalled Good h m le small bs (put_block h b new) first ns.1
        (put_block-signalled Good h m b new refl small le ns.0) in
    run-IsAhead api relays Good fw n m k c (put_blocks h (b ∷ bs) new) filling.reach woken sk le
      (omega arith)
      (λ i lt.
        let (j, (d, (e, ix))) = covers i lt in
        let (a, (at, (ix_a, good))) =
          Has-put_blocks Good h m le small (b ∷ bs) new j d start ns e in
        let position : d.index % 2000 ≡ (h + 1 + i) % 2000 = ap (λ x. x % 2000) ix in
        (a, (rw (← position) at, (ix_a ∙ ix, good))))
      lt
