-- ===== src/Sui/Pages.antt =====
-- The loop over the pages of owned objects: internal/sui/reader.go.
use theme_park_nftengine.Prelude.{
  ℕ, zero, suc, ◌≤◌, String, ◌≡◌, refl, true, false, Option, none, some, List, [], ◌∷◌, ◌++◌, arith,
  length, ◌∙◌, ap,
}
use mathlib.Core.List.{append-nil, append_assoc}
use theme_park_nftengine.World.{ok}
use theme_park_nftengine.Sui.Client.{Client}
use theme_park_nftengine.Sui.Reader.{
  Queries, Page, ObjectData, NftInfo, parse_nfts, pages_from, owned_nfts, nft_struct_type, info_or,
}

-- The pages of an address from a cursor on: each but the last names the next.
pub data Pages (q : Queries) (address : String) : Option String → List Page → Type 0 where
  last :
      (cursor : Option String) (p : Page)
      → q.get_owned_objects address cursor ≡ ok p
      → p.has_next_page ≡ false
      → Pages q address cursor (p ∷ [])
  more :
      (cursor : Option String) (p : Page) (ps : List Page)
      → q.get_owned_objects address cursor ≡ ok p
      → p.has_next_page ≡ true
      → Pages q address (some p.next_cursor) ps
      → Pages q address cursor (p ∷ ps)

-- The objects of the pages, in order.
unfoldable pub all_objects : List Page → List (Option ObjectData)
all_objects [] = []
all_objects (p ∷ ps) = p.objects ++ all_objects ps

info_or-append :
    (nft_type : String) (o : Option ObjectData) (xs ys : List NftInfo)
    → info_or nft_type o (xs ++ ys) ≡ info_or nft_type o xs ++ ys
info_or-append nft_type none xs ys = refl
info_or-append nft_type (some d) xs ys = ground arith

parse-append :
    (nft_type : String) (os ps : List (Option ObjectData))
    → parse_nfts nft_type (os ++ ps) ≡ parse_nfts nft_type os ++ parse_nfts nft_type ps
unfolding parse_nfts
parse-append nft_type [] ps = refl
parse-append nft_type (o ∷ os) ps =
    ap (info_or nft_type o) (parse-append nft_type os ps)
    ∙ info_or-append nft_type o (parse_nfts nft_type os) (parse_nfts nft_type ps)

pages_from-all :
    (q : Queries) (c : Client) (address : String) (cursor : Option String) (ps : List Page)
    (fuel : ℕ) (out : List NftInfo)
    → Pages q address cursor ps
    → length ps ≤ fuel
    → pages_from q c fuel address cursor out
      ≡ some (ok (out ++ parse_nfts (nft_struct_type c) (all_objects ps)))
unfolding pages_from all_objects
pages_from-all q c address _ _ zero out (last cursor p got end) enough =
    absurd (omega (arith, enough))
pages_from-all q c address _ _ zero out (more cursor p ps got next rest) enough =
    absurd (omega (arith, enough))
pages_from-all q c address _ _ (suc fuel) out (last cursor p got end) enough =
    rw (got, end, append-nil p.objects) refl
pages_from-all q c address _ _ (suc fuel) out (more cursor p ps got next rest) enough =
    rw
      (
        got,
        next,
        pages_from-all q c address (some p.next_cursor) ps fuel
            (out ++ parse_nfts (nft_struct_type c) p.objects) rest (omega (arith, enough)),
        parse-append (nft_struct_type c) p.objects (all_objects ps),
      )
      (ap (λ u. some (ok u))
        (append_assoc out (parse_nfts (nft_struct_type c) p.objects)
          (parse_nfts (nft_struct_type c) (all_objects ps))))

-- The owned tokens of an address are those of all its pages, in order: where the pages end, the loop ends
-- after as many steps as there are pages, and more steps answer the same.
pub owned_nfts_all :
    (q : Queries) (c : Client) (address : String) (ps : List Page) (fuel : ℕ)
    → Pages q address none ps
    → length ps ≤ fuel
    → owned_nfts q c fuel address ≡ some (ok (parse_nfts (nft_struct_type c) (all_objects ps)))
owned_nfts_all q c address ps fuel pages enough =
    pages_from-all q c address none ps fuel [] pages enough
