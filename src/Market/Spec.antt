-- ===== src/Market/Spec.antt =====
-- The abstract machine of a syndication: who holds which share, and how much is placed. It forgets the
-- order of the allocations and their amounts.
use neo_lloyds.Prelude.{ℕ, ◌≡◌, Option, none, some, List, ◌==◌, if◌then◌else◌}
use neo_lloyds.Prelude.Dict.{get}
use neo_lloyds.Prelude.Int.{ℤ, pos, ◌+ℤ◌, ◌-ℤ◌, ◌≤ℤ◌}
use neo_lloyds.Money.{Money}
use neo_lloyds.Syndication.{Allocation, full_allocation_bps, total_share_bps}
use neo_lloyds.Syndication.Shares.{share_of}
use neo_lloyds.Capital.{SyndicationStatus, open_status, bound}
use neo_lloyds.Market.Store.{Store, StoredSyndication}
use neo_lloyds.Market.Repositories.{list_at}

pub record Book : Type 0 where
  pub capacity : Money
  pub status : SyndicationStatus
  pub share : ℕ → ℤ
  pub placed : ℤ

abbrev pub empty_book : Money → Book
empty_book capacity = record {
  capacity = capacity;
  status = open_status;
  share = λ o. pos 0;
  placed = pos 0;
}

abbrev pub with_share : ℕ → ℤ → (ℕ → ℤ) → ℕ → ℤ
with_share o x share k = if o == k then x else share k

abbrev pub placed_book : ℕ → ℤ → Book → Book
placed_book o x b = record b { share = with_share o x b.share; placed = b.placed +ℤ x }

abbrev pub released_book : ℕ → Book → Book
released_book o b = record b {
  share = with_share o (pos 0) b.share;
  placed = b.placed -ℤ b.share o;
}

abbrev pub closed_book : Book → Book
closed_book b = record b { status = bound }

pub data BookStep (b c : Book) : Type 0 where
  -- An organisation without a share takes one that fits.
  place :
      (o : ℕ) (x : ℤ)
      → b.status ≡ open_status
      → b.share o ≡ pos 0
      → pos 1 ≤ℤ x
      → b.placed +ℤ x ≤ℤ full_allocation_bps
      → c ≡ placed_book o x b
      → BookStep b c
  -- An organisation gives its share back.
  release :
      (o : ℕ) → b.status ≡ open_status → pos 1 ≤ℤ b.share o → c ≡ released_book o b → BookStep b c
  -- A full book is bound.
  close : b.status ≡ open_status → b.placed ≡ full_allocation_bps → c ≡ closed_book b → BookStep b c

-- What one call may do to the book of one syndication.
pub data Refines (b c : Option Book) : Type 0 where
  stutter : c ≡ b → Refines b c
  created : (capacity : Money) → b ≡ none → c ≡ some (empty_book capacity) → Refines b c
  moves : (x y : Book) → b ≡ some x → c ≡ some y → BookStep x y → Refines b c

unfoldable pub book_of : StoredSyndication → List Allocation → Book
book_of y l = record {
  capacity = y.capacity;
  status = y.status;
  share = λ o. share_of o l;
  placed = total_share_bps l;
}

-- The book as of a record that may be there.
unfoldable pub book_from : Option StoredSyndication → List Allocation → Option Book
unfolding book_of
book_from none l = none
book_from (some y) l = some (book_of y l)

unfoldable pub book_at : ℕ → Store → Option Book
unfolding book_from
book_at i s = book_from (get i s.syndications) (list_at i s.allocations)
