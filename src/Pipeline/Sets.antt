-- ===== src/Pipeline/Sets.antt =====
-- The daily sets of rides under further additions: internal/redis/client.go.
use theme_park_nftengine.Prelude.{
  ℕ, String, ◌≡◌, refl, ap, ◌∙◌, true, some, inl, inr, List, eq_iff, arith, Option-cases,
  Bool-cases,
}
use theme_park_nftengine.Config.{RedisConfig}
use theme_park_nftengine.Keyspace.{
  members, Entry, Keyspace, live_entry, peek, peek-assign, peek-lives,
}
use theme_park_nftengine.Keyspace.Keys.{Key, key_name, key_eq, key_name_eq, user_rides}
use theme_park_nftengine.World.{State, Result, ok, err, Backend, call}
use theme_park_nftengine.World.Hoare.{
  Keeps, Keeps-call, Keeps-bind, Keeps-catch, Keeps-pure, Keeps-raise,
}
use theme_park_nftengine.Redis.Commands.{get, put, s_add, expire, added, contains, with_member}
use theme_park_nftengine.Redis.Client.{add_ride_to_user_set}
use theme_park_nftengine.Pipeline.Rows.{HasMember}

peek-same :
    (now : ℕ) (ks : Keyspace) (k j : Key) → key_eq k j ≡ true → peek now ks k ≡ peek now ks j
unfolding peek
peek-same now ks k j h =
    ap (λ n. live_entry now (ks n)) ((eq_iff (key_name k) (key_name j)).0 (key_name_eq k j ∙ h))

contains-with_other :
    (x y : String) (xs : List String) → contains x xs ≡ true → contains x (with_member y xs) ≡ true
contains-with_other x y xs h = ground arith

added_kept :
    (x y : String) (xs : List String) (e e' : Entry)
    → e.value ≡ members xs
    → contains x xs ≡ true
    → added y (some e) ≡ ok e'
    → (ys : List String) × (e'.value ≡ members ys)
      × (contains x ys ≡ true)
      × (e'.expires ≡ e.expires)
added_kept x y xs e e' v c q =
    (with_member y xs, ground arith, contains-with_other x y xs c, ground arith)

module _ (k : Key) (x : String) where
  put-HasMember :
      (j : Key) (e' : Entry) (s : State)
      → ((e : Entry) (xs : List String)
          → get s j ≡ some e
          → e.value ≡ members xs
          → contains x xs ≡ true
          → (ys : List String) × (e'.value ≡ members ys)
            × (contains x ys ≡ true)
            × (live_entry s.now (some e') ≡ some e'))
      → HasMember k x s
      → HasMember k x (put s j e')
  put-HasMember j e' s writes (e, xs, h, v, c) = elim (Bool-cases (key_eq j k)) [
    | inl same ↦
        let (ys, v', c', lives) = writes e xs (peek-same s.now s.redis j k same ∙ h) v c in
        (e', ys, rw (peek-assign, same) lives, v', c')
    | inr other ↦ (e, xs, rw (peek-assign, other) h, v, c)
  ]

  s_add-Kept : (j : Key) (y : String) → Keeps (HasMember k x) (call Backend.redis (s_add j y))
  unfolding s_add
  s_add-Kept j y = Keeps-call Backend.redis _ (λ s h. by_reply s (added y (get s j)) refl h)
    where
      by_reply :
          (s : State) (r : Result Entry)
          → added y (get s j) ≡ r
          → HasMember k x s
          → HasMember k x (s_add j y s).1
      by_reply s (err e) q h = rw (q, s_add) h
      by_reply s (ok e') q h =
          rw (q, s_add)
            (put-HasMember j e' s
              (λ e xs found v c.
                let (ys, v', c', same) = added_kept x y xs e e' v c (ground arith) in
                (ys, v', c', ground (arith, peek-lives s.now s.redis j e found)))
              h)

  expire-Kept : (j : Key) (n : ℕ) → Keeps (HasMember k x) (call Backend.redis (expire j n))
  unfolding expire
  expire-Kept j n = Keeps-call Backend.redis _ λ s h. elim (Option-cases (get s j)) [
    | inl absent ↦ rw (absent, expire) h
    | inr (e, present) ↦
        rw (present, expire)
          (put-HasMember j _ s (λ e' xs found v c. (xs, ground arith, c, ground arith)) h)
  ]

  pub add_ride-Kept :
      (cfg : RedisConfig) (user ride date : String)
      → Keeps (HasMember k x) (add_ride_to_user_set cfg user ride date)
  unfolding add_ride_to_user_set
  add_ride-Kept cfg user ride date =
      Keeps-bind _ _
        (Keeps-catch _ _ _ (s_add-Kept (user_rides user date) ride) (λ a. Keeps-pure a)
          (λ e. Keeps-raise _))
        (λ _. expire-Kept (user_rides user date) cfg.agg_ttl_sec)
