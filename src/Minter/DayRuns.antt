-- ===== src/Minter/DayRuns.antt =====
-- The minter's run of a day, from its resolutions to its mints: cmd/minter/main.go, internal/minter.
use theme_park_nftengine.Prelude.{
  ℕ, ◌+◌, ◌≤◌, String, ◌≡◌, refl, Bool, Option, none, some, List, [], ◌∷◌, length, str_eq, arith,
  true, false, not, ◌&&◌, ◌⊎◌, inl, inr, ◌≢◌, eq_iff, if◌then◌else◌,
}
use theme_park_nftengine.Errors.{Error}
use theme_park_nftengine.World.{State, World, MintTx, M, ok}
use theme_park_nftengine.World.Hoare.{
  Hoare, Hoare-bind, Hoare-catch, Hoare-pure, Hoare-any, Hoare-and, Hoare-consequence, Hoare-weaken,
  Hoare-answered, Hoare-if, Keeps, Hoare-fact, Hoare-pair,
}
use theme_park_nftengine.Http.{HttpRequest, HttpResponse, reply, failure}
use theme_park_nftengine.Postgres.Mints.{put_log, put_pending}
use theme_park_nftengine.Minter.Resolver.{Outcome, pending, mint_ready, Resolution}
use theme_park_nftengine.Minter.Batch.{
  MintLive, MintResult, submit, record_all, mint_pinned, mint_one, run,
}
use theme_park_nftengine.Minter.Batches.{run-Kept}
use theme_park_nftengine.Minter.Served.{post_to_sui-Hoare}
use theme_park_nftengine.Minter.Passes.{resolve_day-Kept}
use theme_park_nftengine.Minter.Ledger.{HasPending}
use theme_park_nftengine.Minter.Days.{AllLedgered, resolve_day-Ledgered, opt_kept}
use theme_park_nftengine.Minter.Transactions.{Taken, minted_count, run-Taken}
use theme_park_nftengine.Minter.Routes.{
  DayRun, unless_failed, is_ready, live_of, lives_of, mint_day, serve_run_day,
}

-- A result is of its participant.
abbrev pub Reports : MintResult → MintLive → Type 0
Reports r l =
    (r.participant_id ≡ l.participant_id)
    × (r.wallet_address ≡ l.wallet_address)
    × (r.ride_ids ≡ l.ride_ids)

abbrev pub AllReport : List MintResult → List MintLive → Type 0
AllReport [] [] = Unit {0}
AllReport (r ∷ rs) (l ∷ ls) = Reports r l × AllReport rs ls
AllReport _ _ = ⊥

-- The results of a day, one for each resolution that is ready and has a wallet.
pub data Covers : List MintResult → List Resolution → Type 0 where
  ends : Covers [] []
  skips :
      (rs : List MintResult) (x : Resolution) (xs : List Resolution)
      → (x.outcome ≡ pending) ⊎ (x.wallet_address ≡ "")
      → Covers rs xs
      → Covers rs (x ∷ xs)
  mints :
      (r : MintResult) (rs : List MintResult) (x : Resolution) (xs : List Resolution)
      → x.outcome ≡ mint_ready
      → x.wallet_address ≢ ""
      → r.participant_id ≡ x.participant_id
      → r.wallet_address ≡ x.wallet_address
      → r.ride_ids ≡ x.ride_ids
      → Covers rs xs
      → Covers (r ∷ rs) (x ∷ xs)

passed_over :
    (o : Outcome) (wallet : String)
    → (is_ready o && not (str_eq wallet "")) ≡ false
    → (o ≡ pending) ⊎ (wallet ≡ "")
passed_over pending wallet h = inl refl
passed_over mint_ready wallet h = inr ((eq_iff wallet "").0 (ground arith))

chosen :
    (o : Outcome) (wallet : String)
    → (is_ready o && not (str_eq wallet "")) ≡ true
    → (o ≡ mint_ready) × (wallet ≢ "")
chosen pending wallet h = absurd (cc h)
chosen mint_ready wallet h = (refl, λ e. ground (arith, (eq_iff wallet "").1 e))

next_covered :
    (date : String) (rs : List MintResult) (x : Resolution) (xs : List Resolution) (b : Bool)
    → (is_ready x.outcome && not (str_eq x.wallet_address "")) ≡ b
    → ((rs : List MintResult) → AllReport rs (lives_of date xs) → Covers rs xs)
    → AllReport rs (if b then live_of date x ∷ lives_of date xs else lives_of date xs)
    → Covers rs (x ∷ xs)
next_covered date rs x xs false e next h =
    skips rs x xs (passed_over x.outcome x.wallet_address e) (next rs h)
next_covered date [] x xs true e next h = absurd h
next_covered date (r ∷ rs) x xs true e next ((id, wallet, rides), h) =
    let (ready, has_wallet) = chosen x.outcome x.wallet_address e in
    mints r rs x xs ready has_wallet id wallet rides (next rs h)

covered :
    (date : String) (rs : List MintResult) (xs : List Resolution)
    → AllReport rs (lives_of date xs)
    → Covers rs xs
unfolding lives_of
covered date [] [] h = ends
covered date (r ∷ rs) [] h = absurd h
covered date rs (x ∷ xs) h = next_covered date rs x xs _ refl (λ ys. covered date ys xs) h

ledgered_kept :
    {A : Type 0} (rs : List Resolution) (m : M A)
    → ((pid : ℕ) (date : String) → Keeps (HasPending pid date) m)
    → Keeps (AllLedgered rs) m
ledgered_kept [] m h = record { at = λ w p. p }
ledgered_kept (r ∷ rs) m h = record {
  at = λ w (p, ps). ((opt_kept (some r) m h).at w p, (ledgered_kept rs m h).at w ps);
}

-- The metadata provider is outside the state of the services.
module _ (get_or_pin : String → String → M String) (digest_of : List MintTx → MintTx → String)
    (pins_keep : (ride date : String) (I : State → Type 0) → Keeps I (get_or_pin ride date)) where
  record_all-Reports :
      (l : MintLive) (digest : String) (rides : List String)
      → Hoare
          (λ _. Unit {0})
          (record_all get_or_pin digest_of l digest rides)
          (λ r _. Reports r l)
          (λ _ _. ⊥)
  unfolding record_all
  record_all-Reports l digest [] = Hoare-pure _ (λ s h. (refl, refl, refl))
  record_all-Reports l digest (ride ∷ rides) =
      Hoare-catch _ _ _ (Hoare-any _) (λ _. record_all-Reports l digest rides)
        (λ e. Hoare-pure _ (λ s h. (refl, refl, refl)))

  mint_one-Reports :
      (l : MintLive)
      → Hoare (λ _. Unit {0}) (mint_one get_or_pin digest_of l) (λ r _. Reports r l) (λ _ _. ⊥)
  unfolding mint_one mint_pinned
  mint_one-Reports l =
      Hoare-catch _ _ _ (Hoare-any _)
        (λ urls.
          Hoare-catch _ _ _ (Hoare-any _) (λ digest. record_all-Reports l digest l.ride_ids)
            (λ e. Hoare-pure _ (λ s h. (refl, refl, refl))))
        (λ e. Hoare-pure _ (λ s h. (refl, refl, refl)))

  run-Reports :
      (ls : List MintLive)
      → Hoare (λ _. Unit {0}) (run get_or_pin digest_of ls) (λ rs _. AllReport rs ls) (λ _ _. ⊥)
  unfolding run
  run-Reports [] = Hoare-pure _ (λ s h. tt)
  run-Reports (l ∷ ls) = Hoare-bind _ _ (mint_one-Reports l) λ r.
      Hoare-weaken _
        (Hoare-fact _
          (λ one. Hoare-bind _ _ (run-Reports ls) (λ rs. Hoare-pure _ (λ s h. (one, h)))))
        (λ s h. (h, tt))

  run-HasPending :
      (ls : List MintLive) (pid : ℕ) (date : String)
      → Keeps (HasPending pid date) (run get_or_pin digest_of ls)
  unfolding put_log submit
  run-HasPending ls pid date =
      run-Kept get_or_pin digest_of (HasPending pid date)
        (λ ride d. pins_keep ride d (HasPending pid date)) (λ row s h. h) (λ tx s h. h) ls

  -- What an answer says of a run from a chain with `n` transactions.
  abbrev pub Accounted : ℕ → HttpResponse DayRun → State → Type 0
  Accounted n (failure _ _) s = Unit {0}
  Accounted n (reply _ day) s =
      Covers day.results day.details
      × AllLedgered day.details s
      × (minted_count day.results + n ≤ length s.chain)

  mint_day-Accounted :
      (n : ℕ) (date : String) (rs : List Resolution)
      → Hoare
          (λ s. Taken n s × AllLedgered rs s)
          (mint_day get_or_pin digest_of date rs)
          (Accounted n)
          (λ _ _. ⊥)
  mint_day-Accounted n date rs =
      Hoare-bind _ _
        (Hoare-consequence _
          (Hoare-weaken _
            (Hoare-and _ (ledgered_kept rs _ (run-HasPending (lives_of date rs))) (
              Hoare-pair
                (run-Taken get_or_pin digest_of (λ r d m. pins_keep r d (Taken m)) n
                  (lives_of date rs))
                (run-Reports (lives_of date rs))))
            (λ s (t, led). (led, (t, tt))))
          (λ results s h. h) (λ _ _ h. h.1.0))
        (λ results.
          Hoare-pure _
            (λ s (led, ((same, taken), reports)). (covered date results rs reports, led, taken)))

  unless_failed-Accounted :
      (n : ℕ) (date : String) (res : List Resolution × Option Error)
      → Hoare
          (λ s. Taken n s × AllLedgered res.0 s)
          (unless_failed (mint_day get_or_pin digest_of date) res)
          (Accounted n)
          (λ _ _. ⊥)
  unless_failed-Accounted n date (rs, none) = mint_day-Accounted n date rs
  unless_failed-Accounted n date (rs, some e) = Hoare-pure _ (λ s h. tt)

  run_day-Accounted :
      (n : ℕ) (has_sui : Bool) (r : HttpRequest String)
      → Hoare (Taken n) (serve_run_day get_or_pin digest_of has_sui r) (Accounted n) (λ _ _. ⊥)
  unfolding serve_run_day put_pending
  run_day-Accounted n has_sui r =
      post_to_sui-Hoare _ (λ _ _ s h. tt)
        (λ date.
          Hoare-if (str_eq date "") _ _ (λ _. Hoare-pure _ (λ s h. tt))
            (λ _.
              Hoare-catch _ _ _
                (Hoare-consequence _
                  (Hoare-weaken _
                    (Hoare-and _ (resolve_day-Kept (Taken n) (λ pm s h. h) date)
                      (resolve_day-Ledgered date))
                    (λ s h. (h, tt)))
                  (λ res s h. h) (λ _ _ _. tt))
                (unless_failed-Accounted n date) (λ e. Hoare-pure _ (λ s h. tt))))
        has_sui r

  -- A run of a day always answers, whatever calls fail before or after their effect. An answer of 200 has
  -- one result for each participant whose resolution is ready for a mint and has a wallet, in their
  -- order, with their wallet and rides, and none for another; every resolution that is pending has its row
  -- in the ledger of pending mints; and every result that reports a mint has a transaction of its own on
  -- the chain. The metadata provider must keep the state of the services.
  pub day_run_accounts :
      (has_sui : Bool) (r : HttpRequest String) (w : World)
      → (answer : HttpResponse DayRun) × ((serve_run_day get_or_pin digest_of has_sui r w).0
          ≡ ok answer)
        × Accounted (length w.st.chain) answer (serve_run_day get_or_pin digest_of has_sui r w).1.st
  day_run_accounts has_sui r w =
      Hoare-answered _ (run_day-Accounted (length w.st.chain) has_sui r) w (omega arith)
