-- ===== src/Gate/Keeps.antt =====
-- What the gate's requests keep, given what the methods that they call keep.
use theme_park_nftengine.Prelude.{String, Bool, true, false, Option, none, some, inl, inr}
use theme_park_nftengine.Models.{
  BindingStatus, binding, bound, TicketStatus, ScanEvent, WristbandBinding,
}
use theme_park_nftengine.Errors.{Error}
use theme_park_nftengine.Config.{RedisConfig, GateConfig}
use theme_park_nftengine.Keyspace.{NfcDecision}
use theme_park_nftengine.World.{
  State, Tables, Topics, Result, ok, M, call, Backend, wrapping, best_effort,
}
use theme_park_nftengine.World.Hoare.{
  Keeps, Keeps-call, Keeps-pure, Keeps-raise, Keeps-reads, Keeps-bind, Keeps-catch, Keeps-if,
}
use theme_park_nftengine.Redis.Client.{
  mark_qr_used, bind_wristband_to, get_wristband_grace, get_binding, set_binding_status,
  set_wristband_grace, delete_binding, clear_wristband_grace,
}
use theme_park_nftengine.Gate.Tickets.{
  ticket_owner_email, set_ticket_status, select_owner, owner_email, update_status, redeem,
}
use theme_park_nftengine.Gate.Binding.{
  BindRequest, bind, link, require_verified, require_first, or_no_binding, promote, decide,
  evaluate, nfc_check, replay_or_evaluate, cached_decision, reset,
}
use theme_park_nftengine.Gate.RideScan.{
  scan, require_bound, publish_scan_event, append_event, mark_ticket_used,
}
use theme_park_nftengine.Prelude.{Option-cases}

-- A predicate that looks at Redis and the time only, and that the methods keep which neither link nor unlink.
pub record IsKept (cfg : RedisConfig) (I : State → Type 0) : Type 0 where
  pub by_tables : (s : State) (t : Tables) → I s → I (record s { tables = t })
  pub by_topics : (s : State) (t : Topics) → I s → I (record s { topics = t })
  pub by_get_binding : (uid : String) → Keeps I (get_binding uid)
  pub by_set_status :
      (uid : String) (status : BindingStatus) → Keeps I (set_binding_status uid status)
  pub by_mark_qr : (uuid : String) → Keeps I (mark_qr_used cfg uuid)
  pub by_get_grace : (uid : String) → Keeps I (get_wristband_grace uid)

module _ {I : State → Type 0} where
  select_owner-Keeps :
      (ticket_id : String) → Keeps I (call Backend.postgres (select_owner ticket_id))
  unfolding select_owner
  select_owner-Keeps ticket_id = Keeps-call Backend.postgres _ λ s h.
      elim (Option-cases (owner_email ticket_id s.tables.users s.tables.tickets)) [
        | inl absent ↦ rw (absent, select_owner) h
        | inr (e, present) ↦ rw (present, select_owner) h
      ]

  -- A query changes nothing.
  pub owner_query-Keeps : (ticket_id : String) → Keeps I (ticket_owner_email ticket_id)
  unfolding ticket_owner_email
  owner_query-Keeps ticket_id =
      Keeps-catch _ _ _ (select_owner-Keeps ticket_id) (λ a. Keeps-pure a) (λ e. Keeps-raise _)

module _ {cfg : RedisConfig} {I : State → Type 0} (kept : IsKept cfg I) where
  pub wrapping-Keeps : {A : Type 0} (c : String) (m : M A) → Keeps I m → Keeps I (wrapping c m)
  wrapping-Keeps c m h = Keeps-catch m _ _ h (λ a. Keeps-pure a) (λ e. Keeps-raise _)

  pub best_effort-Keeps : {A : Type 0} (m : M A) → Keeps I m → Keeps I (best_effort m)
  best_effort-Keeps m h = Keeps-catch m _ _ h (λ a. Keeps-pure _) (λ e. Keeps-pure _)

  pub ticket_owner_email-Keeps : (ticket_id : String) → Keeps I (ticket_owner_email ticket_id)
  ticket_owner_email-Keeps ticket_id = owner_query-Keeps ticket_id

  pub set_ticket_status-Keeps :
      (ticket_id : String) (status : TicketStatus) → Keeps I (set_ticket_status ticket_id status)
  unfolding set_ticket_status update_status
  set_ticket_status-Keeps ticket_id status =
      Keeps-call Backend.postgres _ (λ s h. kept.by_tables s _ h)

  pub require_verified-Keeps : (r : Result Bool) → Keeps I (require_verified r)
  require_verified-Keeps (ok true) = Keeps-pure tt
  require_verified-Keeps _ = Keeps-raise _

  pub require_first-Keeps : (b : Bool) → Keeps I (require_first b)
  require_first-Keeps true = Keeps-pure tt
  require_first-Keeps false = Keeps-raise _

  pub or_no_binding-Keeps : (o : Option WristbandBinding) → Keeps I (or_no_binding o)
  or_no_binding-Keeps none = Keeps-raise _
  or_no_binding-Keeps (some b) = Keeps-pure b

  pub link-Keeps :
      (req : BindRequest) (email : String)
      → Keeps I (bind_wristband_to req.wristband_uid req.ticket_id email)
      → Keeps I (link req email)
  unfolding link
  link-Keeps req email h =
      Keeps-bind _ _ (Keeps-catch _ _ _ h (λ a. Keeps-pure a) (λ e. Keeps-raise _))
        λ _. Keeps-bind _ _ (best_effort-Keeps _ (set_ticket_status-Keeps _ _)) (λ _. Keeps-pure _)

  pub bind-Keeps :
      (hmac : String → String → String) (gate : GateConfig) (req : BindRequest)
      → ((email : String) → Keeps I (bind_wristband_to req.wristband_uid req.ticket_id email))
      → Keeps I (bind hmac gate cfg req)
  unfolding bind
  bind-Keeps hmac gate req h = Keeps-bind _ _ (Keeps-reads _) λ now.
      Keeps-bind _ _ (require_verified-Keeps _) λ _.
        Keeps-bind _ _ (ticket_owner_email-Keeps req.ticket_id) λ email.
          Keeps-bind _ _ (wrapping-Keeps _ _ (kept.by_mark_qr req.qr_uuid)) λ first.
            Keeps-bind _ _ (require_first-Keeps first) (λ _. link-Keeps req email (h email))

  pub promote-Keeps : (b : WristbandBinding) (d : NfcDecision) → Keeps I (promote b d)
  unfolding promote
  promote-Keeps b d =
      Keeps-if d.allowed _ _
        (Keeps-bind _ _ (wrapping-Keeps _ _ (kept.by_set_status b.wristband_uid bound))
          λ _. Keeps-bind _ _ (best_effort-Keeps _ (set_ticket_status-Keeps _ _)) λ _. Keeps-pure _)
        (Keeps-pure _)

  pub decide-Keeps :
      (uid : String) (b : WristbandBinding) (d : NfcDecision)
      → Keeps I (set_wristband_grace cfg uid d)
      → Keeps I (decide cfg uid b d)
  unfolding decide
  decide-Keeps uid b d h =
      Keeps-bind _ _ (promote-Keeps b d)
        λ status. Keeps-bind _ _ (best_effort-Keeps _ h) (λ _. Keeps-pure _)

  pub evaluate-Keeps :
      (check : String → Option Error) (uid : String)
      → ((d : NfcDecision) → Keeps I (set_wristband_grace cfg uid d))
      → Keeps I (evaluate check cfg uid)
  unfolding evaluate
  evaluate-Keeps check uid h =
      Keeps-bind _ _ (wrapping-Keeps _ _ (kept.by_get_binding uid))
        λ found. Keeps-bind _ _ (or_no_binding-Keeps found) (λ b. decide-Keeps uid b _ (h _))

  replay_or_evaluate-Keeps :
      (check : String → Option Error) (uid : String) (o : Option NfcDecision)
      → ((d : NfcDecision) → Keeps I (set_wristband_grace cfg uid d))
      → Keeps I (replay_or_evaluate check cfg uid o)
  replay_or_evaluate-Keeps check uid none h = evaluate-Keeps check uid h
  replay_or_evaluate-Keeps check uid (some d) h = Keeps-pure _

  pub nfc_check-Keeps :
      (check : String → Option Error) (uid : String)
      → ((d : NfcDecision) → Keeps I (set_wristband_grace cfg uid d))
      → Keeps I (nfc_check check cfg uid)
  unfolding nfc_check
  nfc_check-Keeps check uid h =
      Keeps-bind _ _ (wrapping-Keeps _ _ (kept.by_get_grace uid))
        λ cached. replay_or_evaluate-Keeps check uid (cached_decision cached) h

  pub reset-Keeps :
      (uid : String)
      → Keeps I (delete_binding uid)
      → Keeps I (clear_wristband_grace uid)
      → Keeps I (reset uid)
  unfolding reset
  reset-Keeps uid d h = Keeps-bind _ _ (wrapping-Keeps _ _ (kept.by_get_binding uid)) λ found.
      Keeps-bind _ _ (or_no_binding-Keeps found) λ b. Keeps-bind _ _ (wrapping-Keeps _ _ d) λ _.
        Keeps-bind _ _ (best_effort-Keeps _ h)
          λ _. Keeps-bind _ _ (best_effort-Keeps _ (set_ticket_status-Keeps _ _)) λ _. Keeps-pure _

  pub require_bound-Keeps : (status : BindingStatus) → Keeps I (require_bound status)
  require_bound-Keeps bound = Keeps-pure tt
  require_bound-Keeps binding = Keeps-raise _

  pub publish-Keeps : (e : ScanEvent) → Keeps I (publish_scan_event e)
  unfolding publish_scan_event append_event
  publish-Keeps e = Keeps-call Backend.kafka _ (λ s h. kept.by_topics s _ h)

  pub mark_ticket_used-Keeps : (has_db : Bool) (id : String) → Keeps I (mark_ticket_used has_db id)
  unfolding mark_ticket_used redeem
  mark_ticket_used-Keeps has_db id =
      Keeps-if has_db _ _
        (wrapping-Keeps _ _ (Keeps-call Backend.postgres _ (λ s h. kept.by_tables s _ h)))
        (Keeps-pure tt)

  pub scan-Keeps : (has_db : Bool) (trace uid ride : String) → Keeps I (scan has_db trace uid ride)
  unfolding scan
  scan-Keeps has_db trace uid ride =
      Keeps-bind _ _ (wrapping-Keeps _ _ (kept.by_get_binding uid)) λ found.
        Keeps-bind _ _ (or_no_binding-Keeps found) λ b.
          Keeps-bind _ _ (require_bound-Keeps b.status) λ _. Keeps-bind _ _ (Keeps-reads _) λ now.
            Keeps-bind _ _ (wrapping-Keeps _ _ (publish-Keeps _)) λ _.
              Keeps-bind _ _ (best_effort-Keeps _ (mark_ticket_used-Keeps has_db b.ticket_id))
                λ _. Keeps-pure _
