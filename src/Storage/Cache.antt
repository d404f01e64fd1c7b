-- ===== src/Storage/Cache.antt =====
-- internal/storage/cache.go: the cache of pinned assets. The artwork, the metadata document and the
-- answers of the pinning service are parameters; each call of the cache runs alone, under its lock.
use Prim.Native.String.{◌++◌}
use theme_park_nftengine.Prelude.{String, Option, none, some, List, [], ◌∷◌, str_eq, if◌then◌else◌}
use theme_park_nftengine.Errors.{wrap}
use theme_park_nftengine.World.{Result, ok, err}

pub record RideAssets : Type 0 where
  pub artwork_cid : String
  pub artwork_uri : String
  pub metadata_cid : String
  pub metadata_uri : String

-- A request to the pinning service: a name and a content.
pub record Pin : Type 0 where
  pub name : String
  pub content : String

-- What the service answers to a pin.
pub record Pinned : Type 0 where
  pub cid : String
  pub uri : String

pub record CidCache : Type 0 where
  pub cache : String → Option RideAssets
  -- The requests that the service has got, newest first.
  pub pins : List Pin

unfoldable pub new_cid_cache : CidCache
new_cid_cache = record { cache = λ _. none; pins = [] }

abbrev pub stored : (String → Option RideAssets) → String → RideAssets → String → Option RideAssets
stored cache ride assets other = if str_eq ride other then some assets else cache other

abbrev pub after_pin : CidCache → Pin → CidCache
after_pin c p = record c { pins = p ∷ c.pins }

abbrev pub assets_of : Pinned → Pinned → RideAssets
assets_of art meta = record {
  artwork_cid = art.cid;
  artwork_uri = art.uri;
  metadata_cid = meta.cid;
  metadata_uri = meta.uri;
}

module _ (svg : String → String → String) (metadata : String → String → String → String)
    (answer : List Pin → Pin → Result Pinned) where
  abbrev pub artwork_pin : String → String → Pin
  artwork_pin ride date = record {
    name = ride ++ ("-" ++ (date ++ ".svg"));
    content = svg ride date;
  }

  abbrev pub metadata_pin : String → String → String → Pin
  metadata_pin ride date uri = record {
    name = ride ++ ("-metadata-" ++ date);
    content = metadata ride date uri;
  }

  abbrev pub with_metadata :
      CidCache → String → Pinned → Pin → Result Pinned → Result RideAssets × CidCache
  with_metadata c ride art p (err e) = (err (wrap ("pin metadata for " ++ ride) e), after_pin c p)
  with_metadata c ride art p (ok meta) = (
    ok (assets_of art meta),
    record { cache = stored c.cache ride (assets_of art meta); pins = p ∷ c.pins },
  )

  abbrev pub with_artwork :
      CidCache → String → String → Result Pinned → Result RideAssets × CidCache
  with_artwork c ride date (err e) = (err (wrap ("pin artwork for " ++ ride) e), c)
  with_artwork c ride date (ok art) =
      with_metadata c ride art (metadata_pin ride date art.uri)
        (answer c.pins (metadata_pin ride date art.uri))

  unfoldable pub pin_assets : CidCache → String → String → Result RideAssets × CidCache
  pin_assets c ride date =
      with_artwork (after_pin c (artwork_pin ride date)) ride date
        (answer c.pins (artwork_pin ride date))

  abbrev pub or_pinned :
      CidCache → String → String → Option RideAssets → Result RideAssets × CidCache
  or_pinned c ride date (some assets) = (ok assets, c)
  or_pinned c ride date none = pin_assets c ride date

  unfoldable pub get_or_pin : CidCache → String → String → Result RideAssets × CidCache
  get_or_pin c ride date = or_pinned c ride date (c.cache ride)
