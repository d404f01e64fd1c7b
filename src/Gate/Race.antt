-- ===== src/Gate/Race.antt =====
-- internal/redis/client.go: `SetBindingStatus` reads a binding with GET and writes it with SET KEEPTTL. What comes
-- of it where a reset and a bind of other requests stand between the two.
use theme_park_nftengine.Prelude.{
  ◌*◌, String, ◌≡◌, refl, false, none, some, arith, eq_refl, eq_iff, str_eq, str_ne, ap,
}
use theme_park_nftengine.Models.{WristbandBinding, bound}
use theme_park_nftengine.Keyspace.{plain, binding_json, Entry, peek-assign}
use theme_park_nftengine.Keyspace.Keys.{bind_wristband, bind_ticket}
use theme_park_nftengine.World.{State, ok, call, calm, catch, ◌>>=◌}
use theme_park_nftengine.Redis.Commands.{
  put, delete, get_key, set_keep_ttl, bind_script, delete_binding_script,
}
use theme_park_nftengine.Redis.Client.{
  bind_wristband_to, binding_expiry, get_binding, write_status, delete_binding,
}
use theme_park_nftengine.Redis.Keeps.{wristbands, tickets}
use theme_park_nftengine.Redis.Methods.{Held}
use theme_park_nftengine.Gate.Links.{made_binding, LinkedTo, expiry_ahead}

module _ (u v email : String) (b : WristbandBinding) (s : State) where
  -- Without the keys of the link.
  abbrev cleared : State
  cleared = delete (delete s (bind_wristband u)) (bind_ticket b.ticket_id)

  abbrev relinked : State
  relinked =
      put
        (put cleared (bind_wristband v) (record {
          value = binding_json (made_binding v b.ticket_id email s.now);
          expires = some (binding_expiry s.now * 1000);
        }))
        (bind_ticket b.ticket_id)
        (record { value = plain v; expires = some (binding_expiry s.now * 1000) })

  abbrev stale_entry : Entry
  stale_entry = record { value = binding_json (record b { status = bound }); expires = none }

  abbrev overwritten : State
  overwritten = put relinked (bind_wristband u) stale_entry

  read_runs : Held u b s → get_binding u (calm s) ≡ (ok (some b), calm s)
  unfolding get_binding get_key catch call ◌>>=◌
  read_runs (e, p, q) = rw (p, q) refl

  delete_runs : Held u b s → delete_binding u (calm s) ≡ (ok tt, calm cleared)
  unfolding delete_binding catch call delete_binding_script
  delete_runs (e, p, q) = rw (p, delete_binding_script, q) refl

  other : Held u b s → wristbands s v ≡ none → str_eq u v ≡ false
  other (e, p, q) idle = str_ne u v (λ same. absurd (cc (ap (λ k. wristbands s k) same, p, idle)))

  bind_runs :
      wristbands s v ≡ none
      → bind_wristband_to v b.ticket_id email (calm cleared) ≡ (ok tt, calm relinked)
  unfolding bind_wristband_to catch call ◌>>=◌ bind_script
  bind_runs idle = rw (free, bind_script, unlinked) refl
    where
      free : tickets cleared b.ticket_id ≡ none
      free = rw (peek-assign, eq_refl b.ticket_id) refl

      unlinked : wristbands cleared v ≡ none
      unlinked = rw (peek-assign, peek-assign) (ground arith)

  write_runs :
      str_eq u v ≡ false → write_status u bound (some b) (calm relinked) ≡ (ok tt, calm overwritten)
  unfolding set_keep_ttl catch call
  write_runs apart = rw absent refl
    where
      absent : wristbands relinked u ≡ none
      absent =
          rw (peek-assign, peek-assign, peek-assign, peek-assign)
            (ground (arith, eq_iff u v, eq_iff v u, eq_refl u))

  forked : str_eq u v ≡ false → LinkedTo v b.ticket_id email s.now overwritten
  forked apart = (
    rw (peek-assign, peek-assign, peek-assign, eq_refl v)
        (ground (arith, apart, expiry_ahead s.now)),
    rw (peek-assign, peek-assign, eq_refl b.ticket_id) (ground (arith, expiry_ahead s.now)),
  )

-- `SetBindingStatus` is not atomic. Where a wristband has a binding, another wristband has none, no call fails and
-- no time passes: if after the GET of `SetBindingStatus` the first wristband is unlinked and the second is bound
-- to the same ticket, then both calls and the SET KEEPTTL with the binding that was read succeed, and both
-- wristbands are live with that ticket: the first has its old binding with the status BOUND and without any
-- expiry, and the ticket's key names the second.
pub overlap_forks_ticket :
    (u v email : String) (b : WristbandBinding) (s : State)
    → Held u b s
    → wristbands s v ≡ none
    → let read = get_binding u (calm s) in
      let unlinked = delete_binding u read.1 in
      let linked = bind_wristband_to v b.ticket_id email unlinked.1 in
      let written = write_status u bound (some b) linked.1 in
      (read.0 ≡ ok (some b))
      × (unlinked.0 ≡ ok tt)
      × (linked.0 ≡ ok tt)
      × (written.0 ≡ ok tt)
      × (wristbands written.1.st u
          ≡ some (record { value = binding_json (record b { status = bound }); expires = none }))
      × LinkedTo v b.ticket_id email s.now written.1.st
overlap_forks_ticket u v email b s held idle =
    let apart : str_eq u v ≡ false = other u v email b s held idle in
    rw
      (
        read_runs u v email b s held,
        delete_runs u v email b s held,
        bind_runs u v email b s idle,
        write_runs u v email b s apart,
      )
      (refl, refl, refl, refl, rw (peek-assign, eq_refl u) refl, forked u v email b s apart)
