-- ===== src/Market/Atomic.antt =====
-- A method of the syndication service that throws leaves the store as it found it: every test stands
-- before the first write.
use neo_lloyds.Prelude.{ℕ, ◌≡◌, arith}
use neo_lloyds.Prelude.Int.{ℤ}
use neo_lloyds.Errors.{err, DomainError}
use neo_lloyds.Identity.{AuthContext}
use neo_lloyds.Market.Store.{Store}
use neo_lloyds.Market.Repositories.{add_allocation, remove_stored, bind_stored}
use neo_lloyds.Market.Syndications.{
  open_syndication, propose, withdraw, bind, require_open_syndication, must_exist,
}

module _ (ctx : AuthContext) (s : Store) (e : DomainError) where
  pub open_syndication_atomic :
      (fresh_id listing_id : ℕ)
      → (open_syndication ctx fresh_id listing_id s).0 ≡ err e
      → (open_syndication ctx fresh_id listing_id s).1 ≡ s
  unfolding open_syndication
  open_syndication_atomic f l h = ground arith

  -- A call of `propose` that throws, at whichever of its tests, changes nothing.
  pub propose_atomic :
      (i : ℕ) (share : ℤ) → (propose ctx i share s).0 ≡ err e → (propose ctx i share s).1 ≡ s
  unfolding propose require_open_syndication must_exist add_allocation
  propose_atomic i share h = ground arith

  pub withdraw_atomic : (i : ℕ) → (withdraw ctx i s).0 ≡ err e → (withdraw ctx i s).1 ≡ s
  unfolding withdraw require_open_syndication must_exist remove_stored
  withdraw_atomic i h = ground arith

  -- A call of `bind` that throws changes nothing: it has not bound the one half and left the other.
  pub bind_atomic : (i now : ℕ) → (bind ctx i now s).0 ≡ err e → (bind ctx i now s).1 ≡ s
  unfolding bind require_open_syndication must_exist bind_stored
  bind_atomic i now h = ground arith
