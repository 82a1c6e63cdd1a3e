-- ===== src/FullNode/PendingTxCache/Eviction.antt =====
-- PendingTxCache.add keeps the newest items that fit.
use mathlib.Core.Path.{subst}
use tad_blockchain.Base.{
  ℕ, ◌+◌, ◌-◌, ◌≤◌, ◌<◌, ◌≡◌, ◌∙◌, ap, refl, sym, true, false, none, [], ◌∷◌, ◌++◌, arith, ltb,
  length, length-append, Bool-cases, Option-cases, ◌==◌, inl, inr,
}
use tad_blockchain.Base.Dict.{Dict, Distinct, contains, lookup, insert, insert-Distinct}
use tad_blockchain.Base.Result.{Returns, Returns-ok, Returns-mono}
use tad_blockchain.FullNode.PendingTxCache.{MempoolItem, PendingTxCache, evict, add}

module _ (Bundle : Type 0) where
  abbrev pub Items : Type 0
  Items = Dict (MempoolItem Bundle)

module _ {Bundle : Type 0} where
  abbrev pub total_cost : Items Bundle → ℕ
  total_cost [] = 0
  total_cost (entry ∷ rest) = entry.1.cost + total_cost rest

  -- The sum of the costs is kept and within the limit, and no bundle is there twice.
  abbrev pub IsValid : PendingTxCache Bundle → Type 0
  IsValid cache =
      Distinct cache.txs
      × (cache.cache_cost ≡ total_cost cache.txs)
      × (cache.cache_cost ≤ cache.cache_max_total_cost)

  -- The longest end of a list whose total cost is within the limit.
  abbrev pub IsLongestEnd : ℕ → Items Bundle → Items Bundle → Type 0
  IsLongestEnd limit all kept =
      ((gone : Items Bundle) × (all ≡ gone ++ kept))
      × (total_cost kept ≤ limit)
      × ((gone newest : Items Bundle)
          → all ≡ gone ++ newest
          → total_cost newest ≤ limit
          → length newest ≤ length kept)

  cons_tail : {x y : ℕ × MempoolItem Bundle} {xs ys : Items Bundle} → x ∷ xs ≡ y ∷ ys → xs ≡ ys
  cons_tail e = cc

  suffix_le : (gone newest all : Items Bundle) → all ≡ gone ++ newest → length newest ≤ length all
  suffix_le gone newest all e = rw e (omega (arith, length-append gone newest))

  module _ (limit : ℕ) where
    whole : (all : Items Bundle) → total_cost all ≤ limit → IsLongestEnd limit all all
    whole all fits = (([], refl), fits, λ gone newest e small. suffix_le gone newest all e)

    longer :
        (entry : ℕ × MempoolItem Bundle) (rest kept : Items Bundle)
        → limit < total_cost (entry ∷ rest)
        → IsLongestEnd limit rest kept
        → IsLongestEnd limit (entry ∷ rest) kept
    longer entry rest kept over ((gone, split), fits, longest) =
        ((entry ∷ gone, ap (λ l. entry ∷ l) split), fits, most)
      where
        most :
            (gone newest : Items Bundle)
            → entry ∷ rest ≡ gone ++ newest
            → total_cost newest ≤ limit
            → length newest ≤ length kept
        most [] newest e small = absurd (
            let e' : total_cost (entry ∷ rest) ≡ total_cost newest = ap total_cost e in omega arith)
        most (g ∷ gs) newest e small = longest gs newest (cons_tail e) small

    evict-IsLongestEnd :
        (all : Items Bundle)
        → Distinct all
        → Returns
            (evict limit (total_cost all) all)
            (λ r. (r.0 ≡ total_cost r.1) × Distinct r.1 × IsLongestEnd limit all r.1)
    unfolding evict
    evict-IsLongestEnd [] once =
        let fits : ltb limit 0 ≡ false = ground arith in
        rw (fits, Returns) (refl, tt, whole [] (omega arith))
    evict-IsLongestEnd (entry ∷ rest) once =
        elim (Bool-cases (ltb limit (total_cost (entry ∷ rest)))) [
          | inr fits ↦ rw (fits, Returns) (refl, once, whole (entry ∷ rest) (ground arith))
          | inl over ↦
              let left : total_cost (entry ∷ rest) - entry.1.cost ≡ total_cost rest = omega arith in
              rw (over, left, Returns)
                (Returns-mono (evict limit (total_cost rest) rest) _ _
                  (λ r (sum, once', end). (sum, once', longer entry rest r.1 (ground arith) end))
                  (evict-IsLongestEnd rest once.1))
        ]

  insert_new :
      (key : ℕ) (item : MempoolItem Bundle) (items : Items Bundle)
      → lookup key items ≡ none
      → insert key item items ≡ items ++ (key, item) ∷ []
  insert_new key item [] new = refl
  insert_new key item (entry ∷ rest) new = elim (Bool-cases (entry.0 == key)) [
    | inl same ↦ absurd (ground arith)
    | inr differ ↦
        let new' : lookup key rest ≡ none = ground arith in
        rw differ (ap (λ l. entry ∷ l) (insert_new key item rest new'))
  ]

  total_cost-append :
      (key : ℕ) (item : MempoolItem Bundle) (items : Items Bundle)
      → total_cost (items ++ (key, item) ∷ []) ≡ total_cost items + item.cost
  total_cost-append key item [] = omega arith
  total_cost-append key item (entry ∷ rest) = omega (arith, total_cost-append key item rest)

  -- On a cache whose sum of costs is right and within the limit add never raises and keeps it so. A
  -- bundle that is there already changes nothing; else what is kept of the old bundles with the new
  -- one at the end is the longest end that fits, so only the oldest ones leave.
  pub add-IsLongestEnd :
      (cache : PendingTxCache Bundle) (item : MempoolItem Bundle)
      → IsValid cache
      → Returns (add cache item) (λ cache'.
        IsValid cache'
        × (cache'.cache_max_total_cost ≡ cache.cache_max_total_cost)
        × (elim (contains item.spend_bundle_name cache.txs) [
          | true ↦ cache' ≡ cache
          | false ↦
              IsLongestEnd cache.cache_max_total_cost
                (cache.txs ++ (item.spend_bundle_name, item) ∷ [])
                cache'.txs
        ]))
  unfolding add
  add-IsLongestEnd cache item valid =
      elim (Option-cases (lookup item.spend_bundle_name cache.txs)) [
        | inr (old, there) ↦ rw (there, Returns) (valid, refl, refl)
        | inl new ↦
            let key = item.spend_bundle_name in
            let limit = cache.cache_max_total_cost in
            let all = cache.txs ++ (key, item) ∷ [] in
            let at_end : insert key item cache.txs ≡ all = insert_new key item cache.txs new in
            let sum : cache.cache_cost + item.cost ≡ total_cost all =
              ap (λ c. c + item.cost) valid.1 ∙ sym (total_cost-append key item cache.txs) in
            let once : Distinct all =
              subst Distinct at_end (insert-Distinct key item cache.txs valid.0) in
            let (r, done, (right, once', end)) =
              Returns-ok (evict limit (total_cost all) all) _ (evict-IsLongestEnd limit all once) in
            rw (new, at_end, sum, done, Returns)
              ((once', right, omega (arith, right, end.1)), refl, end)
      ]
