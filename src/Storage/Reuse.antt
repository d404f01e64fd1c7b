-- ===== src/Storage/Reuse.antt =====
-- Sequences of calls of the cache of internal/storage/cache.go.
use theme_park_nftengine.Prelude.{
  String, ◌≡◌, refl, false, Option, none, some, List, [], ◌∷◌, str_eq, arith, Bool-cases, inl, inr,
  eq_iff, eq_refl,
}
use theme_park_nftengine.World.{Result, ok, err}
use theme_park_nftengine.Storage.Cache.{
  RideAssets, Pin, Pinned, CidCache, after_pin, artwork_pin, with_metadata, with_artwork,
  pin_assets, or_pinned, get_or_pin,
}

-- A request: a ride and a date.
pub record AssetRequest : Type 0 where
  pub ride : String
  pub date : String

module _ (svg : String → String → String) (metadata : String → String → String → String)
    (answer : List Pin → Pin → Result Pinned) where
  unfoldable pub requests : List AssetRequest → CidCache → CidCache
  requests [] c = c
  requests (r ∷ rs) c = requests rs (get_or_pin svg metadata answer c r.ride r.date).1

  hit :
      (c : CidCache) (ride date : String) (a : RideAssets)
      → c.cache ride ≡ some a
      → get_or_pin svg metadata answer c ride date ≡ (ok a, c)
  unfolding get_or_pin
  hit c ride date a h = rw (h, get_or_pin) refl

  metadata-keeps :
      (c : CidCache) (ride ride' : String) (art : Pinned) (p : Pin) (r : Result Pinned)
      (a : RideAssets)
      → str_eq ride ride' ≡ false
      → c.cache ride' ≡ some a
      → (with_metadata svg metadata answer c ride art p r).1.cache ride' ≡ some a
  metadata-keeps c ride ride' art p (err e) a differ h = h
  metadata-keeps c ride ride' art p (ok m) a differ h = rw differ h

  artwork-keeps :
      (c : CidCache) (ride ride' date : String) (r : Result Pinned) (a : RideAssets)
      → str_eq ride ride' ≡ false
      → c.cache ride' ≡ some a
      → (with_artwork svg metadata answer c ride date r).1.cache ride' ≡ some a
  artwork-keeps c ride ride' date (err e) a differ h = h
  artwork-keeps c ride ride' date (ok art) a differ h =
      metadata-keeps c ride ride' art _ (answer c.pins _) a differ h

  or_pinned-keeps :
      (c : CidCache) (ride ride' date : String) (o : Option RideAssets) (a : RideAssets)
      → c.cache ride ≡ o
      → c.cache ride' ≡ some a
      → (or_pinned svg metadata answer c ride date o).1.cache ride' ≡ some a
  unfolding pin_assets
  or_pinned-keeps c ride ride' date (some x) a q h = h
  or_pinned-keeps c ride ride' date none a q h = elim (Bool-cases (str_eq ride ride')) [
    | inl same ↦ absurd (ground (arith, eq_iff ride ride'))
    | inr differ ↦
        artwork-keeps (after_pin c (artwork_pin svg metadata answer ride date)) ride ride' date
          (answer c.pins _) a differ h
  ]

  requests-keep :
      (rs : List AssetRequest) (c : CidCache) (ride : String) (a : RideAssets)
      → c.cache ride ≡ some a
      → (requests rs c).cache ride ≡ some a
  unfolding requests get_or_pin
  requests-keep [] c ride a h = h
  requests-keep (r ∷ rs) c ride a h =
      requests-keep rs _ ride a (or_pinned-keeps c r.ride ride r.date (c.cache r.ride) a refl h)

  metadata-stores :
      (c : CidCache) (ride : String) (art : Pinned) (p : Pin) (r : Result Pinned) (a : RideAssets)
      → (with_metadata svg metadata answer c ride art p r).0 ≡ ok a
      → (with_metadata svg metadata answer c ride art p r).1.cache ride ≡ some a
  metadata-stores c ride art p (err e) a h = absurd (cc)
  metadata-stores c ride art p (ok m) a h = rw (eq_refl ride) (ground arith)

  artwork-stores :
      (c : CidCache) (ride date : String) (r : Result Pinned) (a : RideAssets)
      → (with_artwork svg metadata answer c ride date r).0 ≡ ok a
      → (with_artwork svg metadata answer c ride date r).1.cache ride ≡ some a
  artwork-stores c ride date (err e) a h = absurd (cc)
  artwork-stores c ride date (ok art) a h = metadata-stores c ride art _ (answer c.pins _) a h

  or_pinned-stores :
      (c : CidCache) (ride date : String) (o : Option RideAssets) (a : RideAssets)
      → c.cache ride ≡ o
      → (or_pinned svg metadata answer c ride date o).0 ≡ ok a
      → (or_pinned svg metadata answer c ride date o).1.cache ride ≡ some a
  unfolding pin_assets
  or_pinned-stores c ride date (some x) a q h = ground arith
  or_pinned-stores c ride date none a q h = artwork-stores _ ride date (answer c.pins _) a h

  -- A ride is pinned once: after a call for a ride that succeeded, and any calls after it, every call for
  -- that ride answers the same assets, whatever its date, and sends nothing to the pinning service.
  pub get_or_pin_once :
      (c : CidCache) (ride date date' : String) (rs : List AssetRequest) (a : RideAssets)
      → (get_or_pin svg metadata answer c ride date).0 ≡ ok a
      → let later = requests rs (get_or_pin svg metadata answer c ride date).1 in
        get_or_pin svg metadata answer later ride date' ≡ (ok a, later)
  unfolding get_or_pin
  get_or_pin_once c ride date date' rs a done =
      hit _ ride date' a
        (requests-keep rs _ ride a (or_pinned-stores c ride date (c.cache ride) a refl done))
