-- ===== src/Qos/Guards/Dropped.antt =====
-- src/qos/mod.rs, src/server/handler.rs: what a dropped clone of the engine does to the others.
use rust_socks.Prelude.{ℕ, ◌≡◌, ◌≢◌, refl, false, List, [], ◌∷◌, arith, ◌⊎◌, inl, inr, Option-cases}
use rust_socks.Prelude.Text.{Text}
use rust_socks.Prelude.Maps.{text_key, lookup}
use rust_socks.Qos.Types.{ConnectionLimits}
use rust_socks.Qos.Htb.{HtbQos, get_or_create_user_bucket, inc_user_connections}
use rust_socks.Qos.{
  QosEngine, disabled, htb, check_and_inc_connection, dec_user_connection, drop_engine,
}
use rust_socks.Qos.Guards.{
  Admitted, ConnectionEvent, admit, hang_up, is_rebalancing, occurrences, drop_guard,
  connection_step, connection_run,
}

engine_cases : (engine : QosEngine) → (engine ≡ disabled) ⊎ ((h : HtbQos) × (engine ≡ htb h))
engine_cases disabled = inl refl
engine_cases (htb h) = inr (h, refl)

inc-rebalancing :
    (now : ℕ) (user : Text) (h : HtbQos)
    → (inc_user_connections now user h).1.rebalancing ≡ h.rebalancing
unfolding inc_user_connections get_or_create_user_bucket
inc-rebalancing now user h = elim (Option-cases (lookup user h.user_buckets)) [
  | inl e ↦ ground arith
  | inr (b, e) ↦ ground arith
]

drop_guard-stops :
    (user : Text) (s : Admitted) → is_rebalancing (drop_guard user s.qos).engine ≡ false
unfolding drop_guard dec_user_connection drop_engine is_rebalancing
drop_guard-stops user s = elim (engine_cases s.qos.engine) [
  | inl e ↦ ground arith
  | inr (h, e) ↦ ground arith
]

check_and_inc-rebalancing :
    (now : ℕ) (user : Text) (limits : ConnectionLimits) (s : Admitted)
    → is_rebalancing (check_and_inc_connection now user limits s.qos).1.engine
      ≡ is_rebalancing s.qos.engine
unfolding check_and_inc_connection is_rebalancing
check_and_inc-rebalancing now user limits s = elim (engine_cases s.qos.engine) [
  | inl e ↦ ground arith
  | inr (h, e) ↦ ground (arith, inc-rebalancing now user h)
]

connection_step-stopped :
    (limits : ConnectionLimits) (event : ConnectionEvent) (s : Admitted)
    → is_rebalancing s.qos.engine ≡ false
    → is_rebalancing (connection_step limits event s).qos.engine ≡ false
unfolding connection_step
connection_step-stopped limits (admit now user) s h =
    ground (arith, check_and_inc-rebalancing now user limits s)
connection_step-stopped limits (hang_up user) s h = ground (arith, drop_guard-stops user s)

connection_run-stopped :
    (limits : ConnectionLimits) (events : List ConnectionEvent) (s : Admitted)
    → is_rebalancing s.qos.engine ≡ false
    → is_rebalancing (connection_run limits events s).qos.engine ≡ false
unfolding connection_run
connection_run-stopped limits [] s h = h
connection_run-stopped limits (event ∷ events) s h =
    connection_run-stopped limits events (connection_step limits event s)
      (connection_step-stopped limits event s h)

-- Once an admitted connection has ended, the task that hands out the rates does not run, whatever
-- connections come and end after it.
pub hang_up-stops :
    (limits : ConnectionLimits) (user : Text) (events : List ConnectionEvent) (s : Admitted)
    → occurrences user s.guards ≢ 0
    → is_rebalancing
        (connection_run limits events (connection_step limits (hang_up user) s)).qos.engine
      ≡ false
unfolding connection_step
hang_up-stops limits user events s p =
    connection_run-stopped limits events (connection_step limits (hang_up user) s)
      (ground (arith, drop_guard-stops user s))
