-- ===== src/FullNode/CoinStore/Rollback.antt =====
-- Rolling back to a height succeeds and keeps the agreement of the cache and the table.
use mathlib.Core.Option
use tad_blockchain.Base.{
  ◌≡◌, refl, sym, ap, ◌∙◌, Bool, true, false, not, Option, none, some, [], ◌∷◌, arith, ◌==◌, ==_iff,
  if◌then◌else◌, Bool-cases, Option-cases, inl, inr,
}
use tad_blockchain.Base.Dict.{
  Dict, Distinct, lookup, contains, lookup-erase, erase-Distinct, AllEntries, found-AllEntries,
}
use tad_blockchain.Base.Int.{ℤ, pos, ltb_ℤ}
use tad_blockchain.Base.Result.{Returns, Returns-bind, Returns-mono}
use tad_blockchain.Base.Table.{lookup-map_rows, lookup-rows_where, kept}
use tad_blockchain.FullNode.CoinStore.{
  CoinStore, is_after, unspent_after, delete_after, unspend_after, unspend_cached, delete_queue,
  remove_all, rollback_to_block,
}
use tad_blockchain.FullNode.CoinStore.Coherent.{IsStore}
use tad_blockchain.FullNode.CoinStore.Updates.{map_rows-IsTable, rows_where-IsTable}
use tad_blockchain.Types.Bytes.{Bytes32}
use tad_blockchain.Types.Conditions.{CoinRecord}
use tad_blockchain.Types.Primitives.{Primitives, name}
use tad_blockchain.Util.LruCache.{LruCache, put, remove}
use tad_blockchain.Util.LruCache.Lookups.{put-capacity, put_present}
use tad_blockchain.Util.LruCache.Recency.{IsLru, put-IsLru, length-erase-le}

-- An entry that takes the place of what a key had, or none.
abbrev over : Option CoinRecord → Option CoinRecord → Option CoinRecord
over none held = held
over (some r) held = some r

-- What is left of a key whose entry was confirmed after the height.
abbrev dropped : ℤ → Option CoinRecord → Option CoinRecord → Option CoinRecord
dropped block_index none held = held
dropped block_index (some r) held = if is_after block_index r then none else held

module _ (primitives : Primitives) (block_index : ℤ) where
  -- The entry is in the cache, under its coin's name.
  abbrev Held : LruCache CoinRecord → Bytes32 → CoinRecord → Type 0
  Held c k r = (lookup k c.cache ≡ some r) × (name primitives r.coin ≡ k)

  -- One round of the first loop.
  abbrev unspend_one : LruCache CoinRecord → CoinRecord → LruCache CoinRecord
  unspend_one c r =
      if ltb_ℤ block_index (pos r.spent_block_index)
      then put c (name primitives r.coin) (unspent_after block_index r)
      else c

  -- An entry in place of itself.
  unchanged :
      (c : LruCache CoinRecord) (key : Bytes32) (r : CoinRecord)
      → lookup key c.cache ≡ some r
      → (k : Bytes32) → lookup k c.cache ≡ (if key == k then some r else lookup k c.cache)
  unchanged c key r held k = elim (Bool-cases (key == k)) [
    | inl same ↦ rw same (ap (λ j. lookup j c.cache) (sym ((==_iff key k).0 same)) ∙ held)
    | inr other ↦ rw other refl
  ]

  unspend_one_lem :
      (c : LruCache CoinRecord) (key : Bytes32) (r : CoinRecord)
      → IsLru c
      → Held c key r
      → IsLru (unspend_one c r)
        × ((unspend_one c r).capacity ≡ c.capacity)
        × ((k : Bytes32)
            → lookup k (unspend_one c r).cache
              ≡ (if key == k then some (unspent_after block_index r) else lookup k c.cache))
  unspend_one_lem c key r lru (held, named) =
      elim (Bool-cases (ltb_ℤ block_index (pos r.spent_block_index))) [
        | inl late ↦
            rw (late, named)
              (put-IsLru c key _ lru, put-capacity c key _, λ k. put_present c key k _ r lru held)
        | inr early ↦ rw early (lru, refl, λ k. unchanged c key r held k)
      ]

  Held-after :
      (c after : LruCache CoinRecord) (key : Bytes32) (v : CoinRecord) (entries : Dict CoinRecord)
      → ((k : Bytes32) → lookup k after.cache ≡ (if key == k then some v else lookup k c.cache))
      → lookup key entries ≡ none
      → AllEntries (Held c) entries
      → AllEntries (Held after) entries
  Held-after c after key v [] look out held = tt
  Held-after c after key v (entry ∷ entries) look out held =
      let differ : (key == entry.0) ≡ false = ground (arith, out) in
      let rest : lookup key entries ≡ none = ground (arith, out) in
      (
        (look entry.0 ∙ rw differ held.0.0, held.0.1),
        Held-after c after key v entries look rest held.1,
      )

  -- The first loop puts the changed records in place of those that the cache had.
  unspend_lem :
      (c : LruCache CoinRecord) (entries : Dict CoinRecord)
      → IsLru c
      → Distinct entries
      → AllEntries (Held c) entries
      → IsLru (unspend_cached primitives block_index entries c)
        × ((unspend_cached primitives block_index entries c).capacity ≡ c.capacity)
        × ((k : Bytes32)
            → lookup k (unspend_cached primitives block_index entries c).cache
              ≡ over (Option.map (unspent_after block_index) (lookup k entries)) (lookup k c.cache))
  unspend_lem c [] lru once held = (lru, refl, λ k. refl)
  unspend_lem c (entry ∷ entries) lru once held =
      let (lru', size, look) = unspend_one_lem c entry.0 entry.1 lru held.0 in
      let (lru'', size', look') =
        unspend_lem (unspend_one c entry.1) entries lru' once.1
          (Held-after c (unspend_one c entry.1) entry.0 _ entries look once.0 held.1) in
      (
        lru'',
        size' ∙ size,
        λ k.
            look' k
            ∙ ap (over (Option.map (unspent_after block_index) (lookup k entries))) (look k)
            ∙ elim (Bool-cases (entry.0 == k)) [
              | inl same ↦
                  let out : lookup k entries ≡ none =
                    ap (λ j. lookup j entries) (sym ((==_iff entry.0 k).0 same)) ∙ once.0 in
                  rw (same, out) refl
              | inr other ↦ rw other refl
            ],
      )

  abbrev Present : LruCache CoinRecord → Bytes32 → CoinRecord → Type 0
  Present c k r = contains k c.cache ≡ true

  Removed : LruCache CoinRecord → Bytes32 → LruCache CoinRecord → Type 0
  Removed c key after =
      IsLru after
      × (after.capacity ≡ c.capacity)
      × ((k : Bytes32) → lookup k after.cache ≡ (if key == k then none else lookup k c.cache))

  remove_one :
      (c : LruCache CoinRecord) (key : Bytes32)
      → IsLru c
      → contains key c.cache ≡ true
      → Returns (remove c key) (Removed c key)
  unfolding remove Removed
  remove_one c key (once, small) there = elim (Option-cases (lookup key c.cache)) [
    | inl missing ↦ absurd (ground (arith, there, missing))
    | inr (v, found) ↦ rw found (
      (erase-Distinct key c.cache once, omega (arith, small, length-erase-le key c.cache)),
      refl,
      λ k. lookup-erase k key c.cache once,
    )
  ]

  abbrev has : Option CoinRecord → Bool
  has none = false
  has (some r) = true

  still-Present :
      (c after : LruCache CoinRecord) (key : Bytes32) (entries : Dict CoinRecord)
      → ((k : Bytes32) → lookup k after.cache ≡ (if key == k then none else lookup k c.cache))
      → lookup key entries ≡ none
      → AllEntries (Present c) entries
      → AllEntries (Present after) entries
  still-Present c after key [] look out there = tt
  still-Present c after key (entry ∷ entries) look out there =
      let differ : (key == entry.0) ≡ false = ground (arith, out) in
      let rest : lookup key entries ≡ none = ground (arith, out) in
      (
        ap has (look entry.0 ∙ rw differ refl) ∙ there.0,
        still-Present c after key entries look rest there.1,
      )

  -- What the cache is after the keys of the later entries have left.
  Dropped : LruCache CoinRecord → Dict CoinRecord → LruCache CoinRecord → Type 0
  Dropped c entries after =
      IsLru after
      × (after.capacity ≡ c.capacity)
      × ((k : Bytes32)
          → lookup k after.cache ≡ dropped block_index (lookup k entries) (lookup k c.cache))

  -- An entry before the others, as one more round.
  dropped-cons :
      (k key : Bytes32) (r : CoinRecord) (entries : Dict CoinRecord) (held : Option CoinRecord)
      → lookup key entries ≡ none
      → dropped block_index
          (lookup k entries)
          (if key == k then dropped block_index (some r) held else held)
        ≡ dropped block_index (lookup k ((key, r) ∷ entries)) held
  dropped-cons k key r entries held out = elim (Bool-cases (key == k)) [
    | inl same ↦
        let rest : lookup k entries ≡ none =
          ap (λ j. lookup j entries) (sym ((==_iff key k).0 same)) ∙ out in
        rw (same, rest) refl
    | inr other ↦ rw other refl
  ]

  -- The second loop finds every key of the queue.
  remove_all_lem :
      (c : LruCache CoinRecord) (entries : Dict CoinRecord)
      → IsLru c
      → Distinct entries
      → AllEntries (Present c) entries
      → Returns
          (remove_all primitives (delete_queue primitives block_index entries) c)
          (Dropped c entries)
  unfolding remove_all Dropped Removed
  remove_all_lem c [] lru once there = (lru, refl, λ k. refl)
  remove_all_lem c (entry ∷ entries) lru once there =
      elim (Bool-cases (is_after block_index entry.1)) [
        | inl late ↦ rw late (
            Returns-bind (remove c entry.0) _ (Removed c entry.0) _
              (remove_one c entry.0 lru there.0)
              (λ after one.
                Returns-mono
                  (remove_all primitives (delete_queue primitives block_index entries) after)
                  (Dropped after entries) _
                  (λ last done. (
                    done.0,
                    done.1 ∙ one.1,
                    λ k.
                        done.2 k
                        ∙ ap (dropped block_index (lookup k entries))
                            (one.2 k ∙ ground (arith, late))
                        ∙ dropped-cons k entry.0 entry.1 entries (lookup k c.cache) once.0,
                  ))
                  (remove_all_lem after entries one.0 once.1
                    (still-Present c after entry.0 entries one.2 once.0 there.1))))
        | inr early ↦ rw early (
            Returns-mono (remove_all primitives (delete_queue primitives block_index entries) c)
              (Dropped c entries) _
              (λ last done. (
                done.0,
                done.1,
                λ k.
                    done.2 k
                    ∙ ap (dropped block_index (lookup k entries)) (ground (arith, early))
                    ∙ dropped-cons k entry.0 entry.1 entries (lookup k c.cache) once.0,
              ))
              (remove_all_lem c entries lru once.1 there.1))
      ]

  pub Rolled : CoinStore → LruCache CoinRecord → Type 0
  Rolled s cache =
      IsLru cache
      × (cache.capacity ≡ s.coin_record_cache.capacity)
      × ((k : Bytes32) (r' : CoinRecord)
          → lookup k cache.cache ≡ some r'
          → (r : CoinRecord) × (lookup k s.coin_record_cache.cache ≡ some r)
            × (is_after block_index r ≡ false)
            × (r' ≡ unspent_after block_index r))

  -- Where the entry of a key that is neither changed nor dropped comes from.
  rolled_entry :
      (held last : Option CoinRecord) (r' : CoinRecord)
      → last ≡ dropped block_index held (over (Option.map (unspent_after block_index) held) held)
      → last ≡ some r'
      → (r : CoinRecord) × (held ≡ some r)
        × (is_after block_index r ≡ false)
        × (r' ≡ unspent_after block_index r)
  rolled_entry none last r' e found = absurd cc
  rolled_entry (some r) last r' e found = elim (Bool-cases (is_after block_index r)) [
    | inl late ↦ absurd (ground (arith, e, found, late))
    | inr early ↦
        let new : some r' ≡ some (unspent_after block_index r) = sym found ∙ e ∙ rw early refl in
        (r, refl, early, cc)
  ]

  -- Both loops over the cache.
  pub Rolled-cache :
      (s : CoinStore)
      → IsStore primitives s
      → Returns
          (remove_all primitives
            (delete_queue primitives block_index s.coin_record_cache.cache)
            (unspend_cached primitives block_index s.coin_record_cache.cache s.coin_record_cache))
          (Rolled s)
  unfolding Rolled Dropped
  Rolled-cache s store =
      let c = s.coin_record_cache in
      let lru = store.caches.lru in
      let (lru', size, look) = unspend_lem c c.cache lru lru.0 (
        found-AllEntries (Held c) c.cache lru.0
          (λ k r found. (found, store.table.named k r (store.caches.coherent k r found)))) in
      Returns-mono _ (Dropped (unspend_cached primitives block_index c.cache c) c.cache) (Rolled s)
        (λ last done. (
          done.0,
          done.1 ∙ size,
          λ k r' found.
              rolled_entry (lookup k c.cache) (lookup k last.cache) r'
                (done.2 k ∙ ap (dropped block_index (lookup k c.cache)) (look k)) found,
        ))
        (remove_all_lem (unspend_cached primitives block_index c.cache c) c.cache lru' lru.0 (
          found-AllEntries (Present (unspend_cached primitives block_index c.cache c)) c.cache lru.0
            (λ k r found. ap has (look k) ∙ rw found refl)))

  rolled_row :
      (db : Dict CoinRecord) (k : Bytes32) (r : CoinRecord)
      → Distinct db
      → lookup k db ≡ some r
      → is_after block_index r ≡ false
      → lookup k (unspend_after block_index (delete_after block_index db))
        ≡ some (unspent_after block_index r)
  rolled_row db k r once row early =
      let passes : kept (λ r. not (is_after block_index r)) (some r) ≡ some r = rw early refl in
      lookup-map_rows (λ key r. unspent_after block_index r) k (delete_after block_index db)
      ∙ ap (Option.map (unspent_after block_index)) (
          lookup-rows_where (λ r. not (is_after block_index r)) k db once
          ∙ ap (kept (λ r. not (is_after block_index r))) row
          ∙ passes)

  -- A rollback is never refused: it leaves the table with the rows up to the height, their later
  -- spends undone, and keeps the agreement of the cache and the table.
  pub rollback_to_block-IsStore :
      (s : CoinStore)
      → IsStore primitives s
      → Returns (rollback_to_block primitives s block_index) (λ r.
        IsStore primitives r.1
        × (r.1.coin_record_db
            ≡ unspend_after block_index (delete_after block_index s.coin_record_db)))
  unfolding rollback_to_block Rolled
  rollback_to_block-IsStore s store =
      Returns-bind
        (remove_all primitives (delete_queue primitives block_index s.coin_record_cache.cache)
          (unspend_cached primitives block_index s.coin_record_cache.cache s.coin_record_cache))
        _ (Rolled s) _ (Rolled-cache s store)
        (λ cache rolled. (
          record {
            caches = record {
              lru = rolled.0;
              room = rw (rolled.1) store.caches.room;
              coherent = λ k r' found.
                  let (r, held, early, new) = rolled.2 k r' found in
                  rolled_row s.coin_record_db k r store.table.once (store.caches.coherent k r held)
                    early
                  ∙ ap some (sym new);
            };
            table =
                map_rows-IsTable primitives (λ key r. unspent_after block_index r)
                  (delete_after block_index s.coin_record_db) (λ k r. ground (arith))
                  (rows_where-IsTable primitives (λ r. not (is_after block_index r))
                    s.coin_record_db store.table);
          },
          refl,
        ))
