-- ===== src/Sui/Queries.antt =====
-- What the queries of internal/sui/reader.go answer.
use theme_park_nftengine.Prelude.{
  ℕ, ◌+◌, String, ◌≡◌, refl, Bool, false, not, List, [], ◌∷◌, ◌++◌, ◌&&◌, ◌||◌, str_eq, arith,
  Bool-cases, inl, inr, count_where, eq_iff,
}
use theme_park_nftengine.World.{ok}
use theme_park_nftengine.Redis.Commands.{contains}
use theme_park_nftengine.Sui.Client.{Client}
use theme_park_nftengine.Sui.Reader.{
  Queries, ObjectChange, TransactionBlock, TxStatus, is_created, new_recipient, resolve_changes,
  transaction_status, nft_struct_type,
}

-- Some created token has this owner.
unfoldable pub owns_created : String → String → List ObjectChange → Bool
owns_created nft_type x [] = false
owns_created nft_type x (change ∷ changes) =
    (is_created nft_type change && str_eq x change.address_owner) || owns_created nft_type x changes

contains-append :
    (x y : String) (xs : List String) → contains x (xs ++ y ∷ []) ≡ (contains x xs || str_eq x y)
contains-append x y [] = ground arith
contains-append x y (z ∷ xs) = ground (arith, contains-append x y xs)

contains-new :
    (x owner : String) (xs : List String)
    → contains x (new_recipient owner xs) ≡ (contains x xs || (not (str_eq x "") && str_eq x owner))
unfolding new_recipient
contains-new x owner xs =
    ground (arith, contains-append x owner xs, eq_iff x owner, eq_iff x "", eq_iff owner "")

-- No text stands twice.
abbrev pub AreDistinct : List String → Type 0
AreDistinct [] = Unit
AreDistinct (x ∷ xs) = (contains x xs ≡ false) × AreDistinct xs

distinct-append :
    (y : String) (xs : List String)
    → contains y xs ≡ false
    → AreDistinct xs
    → AreDistinct (xs ++ y ∷ [])
distinct-append y [] h d = (refl, tt)
distinct-append y (x ∷ xs) h d = (
  rw (contains-append x y xs) (ground (arith, eq_iff x y, eq_iff y x)),
  distinct-append y xs (ground arith) d.1,
)

distinct-new :
    (owner : String) (xs : List String) → AreDistinct xs → AreDistinct (new_recipient owner xs)
unfolding new_recipient
distinct-new owner xs d = elim (Bool-cases (str_eq owner "" || contains owner xs)) [
  | inl skipped ↦ rw (skipped, new_recipient) d
  | inr fresh ↦ rw (fresh, new_recipient) (distinct-append owner xs (ground arith) d)
]

-- The recipients of the changes, after those that were seen.
resolved :
    (nft_type : String) (changes : List ObjectChange) (n : ℕ) (seen : List String)
    → AreDistinct seen
    → ((resolve_changes nft_type changes (n, seen)).0
        ≡ n + count_where (is_created nft_type) changes)
      × AreDistinct (resolve_changes nft_type changes (n, seen)).1
      × ((x : String)
          → contains x (resolve_changes nft_type changes (n, seen)).1
            ≡ (contains x seen || (not (str_eq x "") && owns_created nft_type x changes)))
unfolding resolve_changes owns_created count_where
resolved nft_type [] n seen d = (omega arith, d, λ x. ground arith)
resolved nft_type (change ∷ changes) n seen d = elim (Bool-cases (is_created nft_type change)) [
  | inl created ↦
      let h =
        resolved nft_type changes (n + 1) (new_recipient change.address_owner seen)
          (distinct-new change.address_owner seen d) in
      rw (created, resolve_changes)
        (
          rw h.0 (omega arith),
          h.1,
          λ x. rw (h.2 x, contains-new x change.address_owner seen) (ground arith),
        )
  | inr other ↦
      let h = resolved nft_type changes n seen d in
      rw (other, resolve_changes) (rw h.0 (omega arith), h.1, λ x. rw (h.2 x) (ground arith))
]

-- The status of a transaction that the SDK finds counts its created attendance tokens, and its recipients
-- are exactly the addresses that own one of them, each once; an empty address is none.
pub transaction_status_lem :
    (q : Queries) (c : Client) (digest : String) (block : TransactionBlock)
    → q.get_transaction_block digest ≡ ok block
    → (ts : TxStatus) × (transaction_status q c digest ≡ ok ts)
      × (ts.count_nfts_created ≡ count_where (is_created (nft_struct_type c)) block.object_changes)
      × AreDistinct ts.recipients
      × ((x : String)
          → contains x ts.recipients
            ≡ (not (str_eq x "") && owns_created (nft_struct_type c) x block.object_changes))
unfolding transaction_status
transaction_status_lem q c digest block found =
    let h = resolved (nft_struct_type c) block.object_changes 0 [] tt in
    (
      record {
        digest = digest;
        status = block.status;
        error = block.error;
        count_nfts_created = (resolve_changes (nft_struct_type c) block.object_changes (0, [])).0;
        recipients = (resolve_changes (nft_struct_type c) block.object_changes (0, [])).1;
      },
      rw found refl,
      omega (arith, h.0),
      h.1,
      λ x. rw (h.2 x) refl,
    )
