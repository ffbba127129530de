-- ===== src/Daemon/Bus/Published.antt =====
-- What the two watchers publish, and when they try again.
use one_drive_hydration.Prelude.{
  ◌≡◌, refl, ◌∙◌, ap, true, false, List, [], ◌∷◌, ◌++◌, inl, inr, arith,
}
use one_drive_hydration.Text.{Text}
use one_drive_hydration.Daemon.AuthState.{
  CredentialState, unknown, healthy, unsaved, rejected, state_eq,
}
use one_drive_hydration.Daemon.Watcher.{Watch, Connection, watch_start, watch_rounds, watch_round}
use one_drive_hydration.Daemon.Watcher.Distinct.{
  distinct, held, lines_of, history, shown-watch_rounds, watch_round-last, watch_rounds-append,
}
use one_drive_hydration.Daemon.Watcher.Backoff.{sleeps, outcomes, watch_rounds-sleeps}
use one_drive_hydration.Daemon.Bus.{
  DaemonState, default_state, same_state, read_state, stopped, watch_daemon, read_credential,
  watch_credential,
}

module _ (decode_path : Text → Text) where
  -- `watch_daemon` publishes the states that its lines and its lost connections lead through, in their
  -- order and without those that repeat the state before, which for the first is the default.
  pub watch_daemon-distinct :
      (connections : List Connection)
      → (watch_daemon decode_path connections).published
        ≡ distinct same_state default_state
            (history (read_state decode_path) stopped connections default_state)
  unfolding watch_daemon
  watch_daemon-distinct connections =
      shown-watch_rounds same_state (read_state decode_path) stopped connections
        (watch_start default_state)

  same_running :
      (a b : DaemonState)
      → same_state a b ≡ true
      → a.daemon_running ≡ false
      → b.daemon_running ≡ false
  unfolding same_state
  same_running a b same h = ground arith

  -- After every lost connection the state that was published last says that the daemon is not running.
  pub watch_daemon-stopped :
      (connections : List Connection) (c : Connection)
      → (watch_daemon decode_path (connections ++ c ∷ [])).last_published.daemon_running ≡ false
  unfolding watch_daemon
  watch_daemon-stopped connections c =
      let w : Watch DaemonState =
        watch_rounds same_state (read_state decode_path) stopped connections
          (watch_start default_state) in
      ap (λ v. v.last_published.daemon_running)
        (watch_rounds-append same_state (read_state decode_path) stopped connections c
          (watch_start default_state))
      ∙ (elim (watch_round-last same_state (read_state decode_path) stopped c w) [
        | inl e ↦
            same_running (stopped (held (read_state decode_path) (lines_of c) w.state))
              (watch_round same_state (read_state decode_path) stopped c w).last_published e refl
        | inr e ↦ ap (λ (s : DaemonState). s.daemon_running) e
      ])

  -- Between two connections `watch_daemon` sleeps one second if some line of the last one told a state,
  -- and otherwise two to the number of silent ones right before it, thirty seconds at most. A
  -- connection that cannot be made told none.
  pub watch_daemon-sleeps :
      (connections : List Connection)
      → (watch_daemon decode_path connections).slept
        ≡ sleeps (outcomes same_state (read_state decode_path) stopped connections default_state) 0
  unfolding watch_daemon
  watch_daemon-sleeps connections =
      watch_rounds-sleeps same_state (read_state decode_path) stopped connections
        (watch_start default_state) 0 refl

same_unknown : (s : CredentialState) → state_eq unknown s ≡ true → s ≡ unknown
unfolding state_eq
same_unknown unknown h = refl
same_unknown healthy h = cc
same_unknown unsaved h = cc
same_unknown rejected h = cc

-- After every lost connection the credential state that was published last is `Unknown`.
pub watch_credential-unknown :
    (connections : List Connection) (c : Connection)
    → (watch_credential (connections ++ c ∷ [])).last_published ≡ unknown
unfolding watch_credential
watch_credential-unknown connections c =
    let w : Watch CredentialState =
      watch_rounds state_eq read_credential (λ s. unknown) connections (watch_start unknown) in
    ap (λ v. v.last_published)
      (watch_rounds-append state_eq read_credential (λ s. unknown) connections c
        (watch_start unknown))
    ∙ (elim (watch_round-last state_eq read_credential (λ s. unknown) c w) [
      | inl e ↦ same_unknown _ e
      | inr e ↦ e
    ])

pub watch_credential-distinct :
    (connections : List Connection)
    → (watch_credential connections).published
      ≡ distinct state_eq unknown (history read_credential (λ s. unknown) connections unknown)
unfolding watch_credential
watch_credential-distinct connections =
    shown-watch_rounds state_eq read_credential (λ s. unknown) connections (watch_start unknown)
