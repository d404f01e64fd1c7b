-- ===== src/Gate/Late.antt =====
-- Errors of internal/gate/binding.go after its first effect: none of them is an answer that the routes
-- of cmd/gate/main.go give before one.
use theme_park_nftengine.Prelude.{
  String, ◌≡◌, refl, false, Option, none, some, inl, inr, Option-cases,
}
use theme_park_nftengine.Models.{WristbandBinding, BindingStatus}
use theme_park_nftengine.Prelude.{arith}
use theme_park_nftengine.Errors.{Error, GateError, already_bound, same_gate, is_gate}
use theme_park_nftengine.Config.{RedisConfig}
use theme_park_nftengine.Keyspace.{
  Entry, Value, plain, binding_json, decision_json, members, NfcDecision,
}
use theme_park_nftengine.Keyspace.Keys.{bind_wristband, bind_ticket}
use theme_park_nftengine.World.{State, Result, M, Backend, call, ◌>>=◌, wrapping, best_effort, pure}
use theme_park_nftengine.World.Hoare.{
  Post, Hoare, Hoare-bind, Hoare-call, Hoare-catch, Hoare-pure, Hoare-raise, Hoare-reads, Hoare-if,
  Hoare-any,
}
use theme_park_nftengine.Redis.Commands.{
  get, get_key, bind_script, set_keep_ttl, delete_binding_script,
}
use theme_park_nftengine.Redis.Client.{
  bind_wristband_to, bind_failure, get_binding, decode_binding, write_status, set_binding_status,
  delete_binding,
}
use theme_park_nftengine.Gate.Binding.{BindRequest, bind_error, link, promote, decide}

-- An error that no route refuses.
abbrev pub Late : Error → Type 0
Late e = (g : GateError) → same_gate g already_bound ≡ false → is_gate g e ≡ false

-- `m` fails with such errors only.
abbrev pub Lates : {A : Type 0} → M A → Type 0
Lates m = Hoare (λ _. Unit {0}) m (λ _ _. Unit {0}) (λ e _. Late e)

pub Lates-call :
    {A : Type 0} (b : Backend) (f : State → Result A × State)
    → ((s : State) → Post (λ _ _. Unit {0}) (λ e _. Late e) (f s).0 (f s).1)
    → Lates (call b f)
unfolding is_gate
Lates-call b f h = Hoare-call b f (λ s _. h s) (λ s _ _ g _. refl) (λ s _ _ g _. refl)

pub Lates-bind :
    {A B : Type 0} (m : M A) (f : A → M B) → Lates m → ((a : A) → Lates (f a)) → Lates (m >>= f)
Lates-bind m f hm hf = Hoare-bind {R = λ _ _. Unit {0}} m f hm hf

pub Lates-pure : {A : Type 0} (a : A) → Lates (pure a)
Lates-pure a = Hoare-pure a (λ _ _. tt)

pub Lates-wrapping : {A : Type 0} (c : String) (m : M A) → Lates m → Lates (wrapping c m)
unfolding is_gate
Lates-wrapping c m h =
    Hoare-catch {F = λ e _. Late e} m _ _ h (λ a. Lates-pure a)
      (λ e. Hoare-raise _ (λ _ late g p. late g p))

pub Lates-tried : {A : Type 0} (m : M A) → Lates (best_effort m)
Lates-tried m =
    Hoare-catch {R = λ _ _. Unit {0}} {F = λ _ _. Unit {0}} m _ _ (Hoare-any m) (λ a. Lates-pure tt)
      (λ e. Hoare-pure tt (λ _ _. tt))

script-Late :
    (uid ticket_id : String) (b : WristbandBinding) (exp : _) (s : State)
    → Post
        (λ _ _. Unit {0})
        (λ e _. Late e)
        (bind_script uid ticket_id b exp s).0
        (bind_script uid ticket_id b exp s).1
unfolding bind_script is_gate
script-Late uid ticket_id b exp s = elim (Option-cases (get s (bind_ticket ticket_id))) [
  | inr (e, present) ↦ rw (present, bind_script) (λ g _. refl)
  | inl free ↦
      rw (free, bind_script)
        (elim (Option-cases (get s (bind_wristband uid))) [
          | inr (e, present) ↦ rw present (λ g _. refl)
          | inl idle ↦ rw idle tt
        ])
]

failure-Late : (e : Error) → Late e → Late (bind_failure e)
unfolding is_gate bind_failure
failure-Late e late g p = ground (arith, late g p)

error-Late : (e : Error) → Late e → Late (bind_error e)
unfolding is_gate
error-Late e late g p = ground (arith, late g p, p)

bind_wristband_to-Late :
    (uid ticket_id email : String) → Lates (bind_wristband_to uid ticket_id email)
unfolding bind_wristband_to
bind_wristband_to-Late uid ticket_id email = Lates-bind _ _ (Hoare-reads _ (λ _ _. tt)) λ now.
    Hoare-catch {F = λ e _. Late e} _ _ _ (Lates-call _ _ (λ s. script-Late uid ticket_id _ _ s))
      (λ a. Lates-pure a) (λ e. Hoare-raise _ (λ _ late. failure-Late e late))

pub link-Late : (req : BindRequest) (email : String) → Lates (link req email)
unfolding link
link-Late req email =
    Lates-bind _ _
      (Hoare-catch {F = λ e _. Late e} _ _ _ (bind_wristband_to-Late _ _ email) (λ a. Lates-pure a)
        (λ e. Hoare-raise _ (λ _ late. error-Late e late)))
      λ _. Lates-bind _ _ (Lates-tried _) (λ _. Lates-pure _)

decode-Late : (v : Value) (e : Entry) → e.value ≡ v → Lates (decode_binding (some e))
unfolding is_gate
decode-Late (binding_json b) e q = rw (q, decode_binding) (Lates-pure _)
decode-Late (plain t) e q = rw (q, decode_binding) (Hoare-raise _ (λ _ _ g _. refl))
decode-Late (decision_json d) e q = rw (q, decode_binding) (Hoare-raise _ (λ _ _ g _. refl))
decode-Late (members m) e q = rw (q, decode_binding) (Hoare-raise _ (λ _ _ g _. refl))

decoded-Late : (o : Option Entry) → Lates (decode_binding o)
decoded-Late none = Lates-pure _
decoded-Late (some e) = decode-Late e.value e refl

pub get_binding-Late : (uid : String) → Lates (get_binding uid)
unfolding get_binding get_key
get_binding-Late uid =
    Lates-bind _ _ (Lates-wrapping _ _ (Lates-call _ _ (λ s. tt))) (λ o. decoded-Late o)

write_status-Late :
    (uid : String) (status : BindingStatus) (o : Option WristbandBinding)
    → Lates (write_status uid status o)
unfolding is_gate set_keep_ttl
write_status-Late uid status none = Hoare-raise _ (λ _ _ g _. refl)
write_status-Late uid status (some b) = Lates-wrapping _ _ (Lates-call _ _ (λ s. tt))

set_binding_status-Late :
    (uid : String) (status : BindingStatus) → Lates (set_binding_status uid status)
unfolding set_binding_status
set_binding_status-Late uid status =
    Lates-bind _ _ (get_binding-Late uid) (λ o. write_status-Late uid status o)

promote-Late : (b : WristbandBinding) (d : NfcDecision) → Lates (promote b d)
unfolding promote
promote-Late b d =
    Hoare-if d.allowed _ _
      (λ _.
        Lates-bind _ _ (Lates-wrapping _ _ (set_binding_status-Late _ _))
          λ _. Lates-bind _ _ (Lates-tried _) (λ _. Lates-pure _))
      (λ _. Lates-pure _)

pub decide-Late :
    (cfg : RedisConfig) (uid : String) (b : WristbandBinding) (d : NfcDecision)
    → Lates (decide cfg uid b d)
unfolding decide
decide-Late cfg uid b d =
    Lates-bind _ _ (promote-Late b d) λ status. Lates-bind _ _ (Lates-tried _) (λ _. Lates-pure _)

pub delete_binding-Late : (uid : String) → Lates (delete_binding uid)
unfolding delete_binding delete_binding_script
delete_binding-Late uid = Lates-wrapping _ _ (
    Lates-call _ _ λ s. elim (Option-cases (get s (bind_wristband uid))) [
      | inl absent ↦ rw (absent, delete_binding_script) tt
      | inr (e, present) ↦ rw (present, delete_binding_script) tt
    ])
